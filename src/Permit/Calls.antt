-- ===== src/Permit/Calls.antt =====
-- What the token reads from the call of a permit.
use cow_rs.Base.{
  ℕ, ◌/◌, ◌%◌, ◌<◌, ◌≡◌, refl, List, [], ◌∷◌, ◌++◌, length, concat, take, drop, replicate, get_or,
  All, arith, Result, ok, length-take, length-drop, take-append, drop-append,
}
use cow_rs.Base.Bytes.{Bytes, be_bytes, length-be_bytes}
use cow_rs.Base.Words.{IsWord, pad_address, u256_bytes, u256_be, addr, u256, b256}
use cow_rs.Base.Words.Read.{addr_at, u256_at, b256_at, u64_at}
use cow_rs.Permit.{
  PermitInfo, Erc20PermitInfo, PermitHookData, call_words, permit_gas_limit, permit_selector,
  digest_to_sign, build_permit_calldata, sign_permit, build_permit_hook,
}
use cow_rs.Permit.Commits.{IsPermit}

-- A call whose arguments are those of the permit, its nonce among them, and the signature's parts.
pub record IsPermitCall (info : PermitInfo) (signature call : Bytes) : Type 0 where
  pub owner : addr (drop 4 call) 0 ≡ info.owner
  pub spender : addr (drop 4 call) 32 ≡ info.spender
  pub value : u256 (drop 4 call) 64 ≡ info.value
  pub nonce : u256 (drop 4 call) 96 ≡ info.nonce
  pub deadline : u256 (drop 4 call) 128 ≡ info.deadline
  pub v : u256 (drop 4 call) 160 ≡ get_or signature 64 0
  pub r : b256 (drop 4 call) 192 ≡ take 32 signature
  pub s : b256 (drop 4 call) 224 ≡ take 32 (drop 32 signature)

byte_word : (v : ℕ) → v < 256 → replicate 31 0 ++ v ∷ [] ≡ u256_bytes v
unfolding u256_bytes be_bytes
byte_word v h =
    let high : v / 256 ≡ 0 = omega (arith, h) in
    let low : v % 256 ≡ v = omega (arith, h) in rw (high, low) refl

module _ (info : PermitInfo) (erc20_info : Erc20PermitInfo) (h : IsPermit info erc20_info)
    (signature : Bytes) (long : length signature ≡ 65) (byte : get_or signature 64 0 < 256) where
  abbrev words : List Bytes
  words = call_words info signature

  words-IsWord : All IsWord words
  words-IsWord = (
    omega (arith, h.owner),
    (
      omega (arith, h.spender),
      (
        length-be_bytes 32 info.value,
        (
          length-be_bytes 32 info.nonce,
          (
            omega (arith, length-be_bytes 8 info.deadline),
            (
              refl,
              (
                omega (arith, length-take 32 signature),
                (omega (arith, length-take 32 (drop 32 signature), length-drop 32 signature), tt),
              ),
            ),
          ),
        ),
      ),
    ),
  )

  words-IsPermitCall :
      (selector : Bytes)
      → length selector ≡ 4
      → IsPermitCall info signature (selector ++ concat words)
  unfolding pad_address u256_bytes u256_be
  words-IsPermitCall selector four =
      let arguments : drop 4 (selector ++ concat words) ≡ concat words =
        drop-append 4 selector (concat words) four in
      record {
        owner = rw arguments (addr_at words 0 words-IsWord (omega arith) _ refl h.owner);
        spender = rw arguments (addr_at words 1 words-IsWord (omega arith) _ refl h.spender);
        value = rw arguments (u256_at words 2 words-IsWord (omega arith) _ refl h.value);
        nonce = rw arguments (u256_at words 3 words-IsWord (omega arith) _ refl h.nonce);
        deadline = rw arguments (u64_at words 4 words-IsWord (omega arith) _ refl h.deadline);
        v = rw arguments (
            u256_at words 5 words-IsWord (omega arith) _ (byte_word (get_or signature 64 0) byte)
              (omega (arith, byte)));
        r = rw arguments (b256_at words 6 words-IsWord (omega arith) _ refl);
        s = rw arguments (b256_at words 7 words-IsWord (omega arith) _ refl);
      }

-- Where the hash has 32 bytes, the fields their widths, and the key makes a signature of 65 bytes for
-- the digest of the permit, the hook is made: it calls the token, with the permit, its nonce and the
-- parts of the signature as arguments.
pub build_permit_hook-IsPermitCall :
    (keccak256 : Bytes → Bytes) (sign_hash : Bytes → Result Bytes) (info : PermitInfo)
    (erc20_info : Erc20PermitInfo) (signature : Bytes)
    → ((bs : Bytes) → IsWord (keccak256 bs))
    → IsPermit info erc20_info
    → length signature ≡ 65
    → get_or signature 64 0 < 256
    → sign_hash (digest_to_sign keccak256 info erc20_info) ≡ ok signature
    → (hook : PermitHookData) × (build_permit_hook keccak256 sign_hash info erc20_info ≡ ok hook)
      × (hook.target ≡ info.token_address)
      × (take 4 hook.calldata ≡ permit_selector keccak256)
      × IsPermitCall info signature hook.calldata
unfolding build_permit_hook sign_permit build_permit_calldata permit_selector
build_permit_hook-IsPermitCall keccak256 sign_hash info erc20_info signature width h long byte
      signed =
    let four : length (permit_selector keccak256) ≡ 4 =
      omega (arith, length-take 4 (keccak256 _), width _) in
    (
      record {
        target = info.token_address;
        calldata = permit_selector keccak256 ++ concat (call_words info signature);
        gas_limit = permit_gas_limit;
      },
      rw signed refl,
      refl,
      take-append 4 (permit_selector keccak256) (concat (call_words info signature)) four,
      words-IsPermitCall info erc20_info h signature long byte (permit_selector keccak256) four,
    )
