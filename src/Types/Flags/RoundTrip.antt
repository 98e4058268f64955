-- ===== src/Types/Flags/RoundTrip.antt =====
-- Decoding after encoding and encoding after decoding, for order and trade flags.
use cow_rs.Base.{
  ℕ, ◌+◌, ◌*◌, ◌/◌, ◌%◌, ◌<◌, ◌≡◌, refl, sym, ◌∙◌, Bool, true, ◌==◌, Result, ok, err, arith, ==_iff,
  parse, ◌↔◌,
}
use cow_rs.Base.Bits.{holds_below, holds_below_lem, bit_and-one, bit_and_three, bit_or_high}
use cow_rs.Types.{SigningScheme}
use cow_rs.Types.Flags.{
  OrderFlags, TradeFlags, encode_order_flags, decode_order_flags, encode_trade_flags,
  decode_trade_flags, encode_signing_scheme, decode_signing_scheme, normalize_buy_token_balance,
}

abbrev pub normalized : OrderFlags → OrderFlags
normalized f = record f { buy_token_balance = normalize_buy_token_balance f.buy_token_balance }

-- The order's fields fill the low five bits.
pub encode_order_flags-lt : (f : OrderFlags) → encode_order_flags f < 32
unfolding encode_order_flags
encode_order_flags-lt f = ground arith

-- The scheme is added above the order's bits.
encode_trade_flags-add :
    (f : TradeFlags)
    → encode_trade_flags f
      ≡ encode_order_flags f.order_flags + encode_signing_scheme f.signing_scheme
unfolding encode_trade_flags encode_signing_scheme
encode_trade_flags-add f =
    let high =
      bit_or_high (encode_order_flags f.order_flags) (encode_order_flags-lt f.order_flags) in
    ground (arith, high)

decode_order_flags-encode_order_flags :
    (f : OrderFlags) → decode_order_flags (encode_order_flags f) ≡ ok (normalized f)
unfolding decode_order_flags encode_order_flags normalize_buy_token_balance
decode_order_flags-encode_order_flags f = ground arith

-- The order's fields are read from the low five bits only.
decode_order_flags-mod : (x : ℕ) → x < 256 → decode_order_flags x ≡ decode_order_flags (x % 32)
unfolding decode_order_flags
decode_order_flags-mod x h = ground (
  arith,
  bit_and-one x,
  bit_and-one (x / 2),
  bit_and_three (x / 4),
  bit_and-one (x / 16),
  bit_and-one (x % 32),
  bit_and-one (x % 32 / 2),
  bit_and_three (x % 32 / 4),
  bit_and-one (x % 32 / 16),
)

decode_signing_scheme-encode_signing_scheme :
    (x : ℕ) (s : SigningScheme)
    → x < 32
    → decode_signing_scheme (x + encode_signing_scheme s) ≡ ok s
unfolding decode_signing_scheme encode_signing_scheme
decode_signing_scheme-encode_signing_scheme x s h =
    ground (arith, bit_and_three ((x + encode_signing_scheme s) / 32))

encode_signing_scheme_bounds :
    (s : SigningScheme) → (encode_signing_scheme s < 128) × (encode_signing_scheme s % 32 ≡ 0)
unfolding encode_signing_scheme
encode_signing_scheme_bounds s = ground arith

decode_trade_flags_lem :
    (bits : ℕ) (f : OrderFlags) (s : SigningScheme)
    → decode_order_flags bits ≡ ok f
    → decode_signing_scheme bits ≡ ok s
    → decode_trade_flags bits ≡ ok (record { order_flags = f; signing_scheme = s })
unfolding decode_trade_flags
decode_trade_flags_lem bits f s p q = rw (p, q)

-- The order's fields are read back from a trade's byte.
pub decode_order_flags-encode_trade_flags :
    (f : TradeFlags) → decode_order_flags (encode_trade_flags f) ≡ ok (normalized f.order_flags)
decode_order_flags-encode_trade_flags f =
    let low = encode_order_flags-lt f.order_flags in
    let scheme = encode_signing_scheme_bounds f.signing_scheme in
    let order = encode_order_flags f.order_flags in
    let mark = encode_signing_scheme f.signing_scheme in
    let lower : (order + mark) % 32 ≡ order = omega arith in
    rw (encode_trade_flags-add f, decode_order_flags-mod (order + mark) (omega arith), lower)
      (decode_order_flags-encode_order_flags f.order_flags)

-- Decoding the byte of encoded trade flags gives all flags back, except that an external buy
-- balance comes back as `erc20`.
pub decode_trade_flags-encode_trade_flags :
    (f : TradeFlags)
    → decode_trade_flags (encode_trade_flags f)
      ≡ ok (record f { order_flags = normalized f.order_flags })
decode_trade_flags-encode_trade_flags f =
    decode_trade_flags_lem (encode_trade_flags f) (normalized f.order_flags) f.signing_scheme
      (decode_order_flags-encode_trade_flags f)
      (rw (encode_trade_flags-add f) (
        decode_signing_scheme-encode_signing_scheme (encode_order_flags f.order_flags)
          f.signing_scheme (encode_order_flags-lt f.order_flags)))

-- A byte fails to decode with the error of the sell balance exactly when its bits 2 and 3 hold the
-- unused index 1.
decode_trade_flags-eq-err_iff :
    (bits : ℕ)
    → bits < 256
    → (decode_trade_flags bits ≡ err (parse "sellTokenBalance" "invalid flag index"))
      ↔ (bits / 4 % 4 ≡ 1)
unfolding decode_trade_flags decode_order_flags decode_signing_scheme
decode_trade_flags-eq-err_iff bits h = ground (arith, bit_and_three (bits / 4))

abbrev given_back : ℕ → Result OrderFlags → Bool
given_back x (ok f) = encode_order_flags f == x
given_back x (err e) = true

order_table : holds_below (λ x. given_back x (decode_order_flags x)) 32 ≡ true
unfolding holds_below decode_order_flags encode_order_flags
order_table = refl

encode_order_flags-decode_order_flags :
    (x : ℕ) (f : OrderFlags) → x < 32 → decode_order_flags x ≡ ok f → encode_order_flags f ≡ x
encode_order_flags-decode_order_flags x f h e =
    (==_iff _ _).0 (rw e at (holds_below_lem _ 32 x h order_table))

encode_signing_scheme-decode_signing_scheme :
    (bits : ℕ) (s : SigningScheme)
    → bits < 256
    → decode_signing_scheme bits ≡ ok s
    → encode_signing_scheme s ≡ bits / 32 % 4 * 32
unfolding decode_signing_scheme encode_signing_scheme
encode_signing_scheme-decode_signing_scheme bits s h e = ground (arith, bit_and_three (bits / 32))

decode_trade_flags_inv :
    (bits : ℕ) (f : TradeFlags)
    → decode_trade_flags bits ≡ ok f
    → (decode_order_flags bits ≡ ok f.order_flags)
      × (decode_signing_scheme bits ≡ ok f.signing_scheme)
unfolding decode_trade_flags
decode_trade_flags_inv bits f e = ground arith

-- Encoding what a byte decodes to gives the byte back, but for the unused top bit.
encode_trade_flags-decode_trade_flags :
    (bits : ℕ) (f : TradeFlags)
    → bits < 256
    → decode_trade_flags bits ≡ ok f
    → encode_trade_flags f ≡ bits % 128
encode_trade_flags-decode_trade_flags bits f h e =
    let (order, scheme) = decode_trade_flags_inv bits f e in
    omega (
      arith,
      encode_trade_flags-add f,
      encode_order_flags-decode_order_flags (bits % 32) f.order_flags (omega arith)
          (sym (decode_order_flags-mod bits h) ∙ order),
      encode_signing_scheme-decode_signing_scheme bits f.signing_scheme h scheme,
    )
