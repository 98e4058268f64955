-- ===== src/Lib.antt =====
-- The CoW Protocol SDK for Rust, crates/ of the repository: orders and trades, quotes and their fees,
-- conditional orders, settlements, signing, permits, native orders, app data, bridges, Weiroll scripts and
-- the retry loop of the HTTP clients.
--
-- The parts and how they interact:
--
-- - Types (crates/types): the enums and the unsigned order in lib.rs and unsigned_order.rs;
--   Types/Flags the byte of flags, `encode_trade_flags` and `decode_trade_flags` of flags.rs;
--   Types/Trade the token registry, `encode_trade` and `decode_order` of trade.rs, which use the flags.
-- - Orderbook/QuoteAmounts (crates/orderbook/src/quote_amounts.rs): the stages of
--   `get_quote_amounts_and_costs`, from the amount before all fees to the amount to sign.
-- - Composable (crates/composable): Types the data of conditional orders; Twap, Gat and StopLoss the
--   three kinds of orders with their ABI codecs; Params the encoding and the identity of any
--   conditional order; Calldata the calls of calldata.rs, which encode them; Utils the conversion of
--   raw data; Merkle and Multiplexer the set of orders under one root. A Twap, Gat or StopLoss order
--   becomes parameters by its `to_params`, and the multiplexer holds parameters.
-- - Settlement (crates/settlement): Encoder the state of `SettlementEncoder`, its operations and the
--   calldata of `settle`, with the trades and the registry of Types/Trade; Abi the encoding of arrays;
--   Refunds the calldata of refunds.
-- - Http/Retry (crates/http/src/rate_limit.rs and `send_with_policy` of crates/orderbook/src/api.rs).
-- - Trading (crates/trading): Costs `compute_quote_amounts_and_costs` of costs.rs, Slippage
--   `suggest_slippage_bps` of slippage.rs, which reads the costs.
-- - Signing (crates/signing): Eip712 the typed-data hashes of eip712.rs, over the orders of Types; Uid
--   the order UID; Sign `sign_order` and the cancellations of utils.rs; Calldata calldata.rs.
-- - AppData (crates/app-data): Base32 the decoder of cid.rs and Cid the content identifiers that use
--   it; Doc the document of types.rs with its builders; Merge and Json hash.rs; Validation
--   validation.rs.
-- - Bridging (crates/bridging): the requests and quotes of types.rs, whose hooks are those of AppData/Doc;
--   Quotes `BridgingSdk`, `fetch_multi_quote` of sdk.rs and the comparisons of utils.rs; Registry the token
--   tables of across.rs and utils.rs; Tokens `determine_intermediate_token` of utils.rs, which reads the tables;
--   Fees the amounts of an Across quote (across.rs, utils.rs); Deposit `create_across_deposit_call`, which
--   reads the quote; Events the deposits and trades in the logs of a receipt, `get_deposit_params`;
--   NearIntents util.rs of near_intents, its tokens, attestations and timestamps.
-- - Permit (crates/permit): the data of types.rs, and the digests, calls and hooks of eip2612.rs; a hook becomes
--   one of AppData/Doc.
-- - EthFlow (crates/ethflow): orders of the native currency and the transaction that places one, with the
--   words of Signing/Eip712.
-- - Weiroll (crates/weiroll): packed commands, the planner, and the calldata of `execute`.
-- - Base: what the parts share, with the lemmas on lists, bytes and words. Base/Words holds the ABI
--   word writers and readers that several crates each define for themselves, Base/Words/Layout and
--   Base/Words/Arrays the positions of dynamic parts, Base/Words/Collisions rows of words under a hash;
--   Base/Decimal reads decimal numbers.
--
-- How the code is read. A struct is a record, an enum a data type, a method that takes `&mut self` a
-- function from the state to the state. Bytes, addresses and hashes are lists of numbers; a statement
-- that needs their width says so. Numbers are natural numbers, and wrapping and saturating arithmetic
-- is written out. `Result` is that of Base/Results, a panic is `none`. An error keeps the fixed part of
-- its message and leaves formatted values out. The maps of the code are association lists.
-- A `String` in the model is an ASCII text, whose code points are its bytes.
--
-- Parameters. `alloy_primitives` is not part of the repository: `keccak256` is any function on bytes,
-- and where the width of its result matters, that is a hypothesis. The operators of `U256` are those
-- of Base/U256: exact where the result fits, and unknown beyond. Hexadecimal text is the codec of
-- Base/Hex, of which Base/Hex/Digits has an instance. `f64` is the parameter of Base/Float, the parser
-- of decimal amounts a function, and the answers of a server a function from attempts to outcomes.
-- A signer's key is a function from digests to signatures; `serde_json` is a function from documents to the
-- values of Base/Json and one from values to texts. A bridge provider is its name, the routes that it
-- serves and what it answers to a request, and whether the global timeout passes first is an argument.
-- The readers of addresses and the printers of identifiers in the bridges are functions on text, the power
-- that scales the amounts of an Across quote is an argument, and recovering the signer of an attestation is a function.
-- `sort_unstable_by_key` is a sort with the laws of `UnstableSort`, of which Bridging/Tokens/Sorted has
-- an instance.
--
-- Fuel. The loops of the Merkle tree run on one unit more than the tree has leaves, and each round
-- makes the layer shorter while it has two nodes or more. The retry loop runs on the number of
-- attempts that the policy allows, and stops at the last at the latest. That the fuel is enough is
-- part of what is proved: both always give a result.
--
-- Sizes. `usize` arithmetic on lengths is exact. The ranges 2 ^ 96 and 2 ^ 112 for amounts keep every
-- intermediate product below 2 ^ 256; real amounts are far below.
--
-- Not modelled: requests and their endpoints, JSON forms, formatting, the rate limiter's clock, the
-- order factory, the cross-chain pipeline, the Bungee bridge, and the crates cow-shed, flash-loans, erc20,
-- onchain, chains, subgraph, ipfs, graph, browser-wallet and testing: they are I/O, generated code, constants, or parts of their own.
pub mod Base
pub mod Types
pub mod Orderbook
pub mod Composable
pub mod Settlement
pub mod Http
pub mod Trading
pub mod Weiroll
pub mod Signing
pub mod AppData
pub mod Bridging
pub mod Permit
pub mod EthFlow
