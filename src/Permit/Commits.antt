-- ===== src/Permit/Commits.antt =====
-- What the signature of a permit commits to.
use cow_rs.Base.{ℕ, ◌<◌, ◌^◌, ◌≡◌, ◌⊎◌, inl, refl, ap, List, [], ◌∷◌, drop, get_or, All, arith}
use cow_rs.Base.Bytes.{Bytes, as_bytes, length-be_bytes}
use cow_rs.Base.Words.{IsWord, IsAddress}
use cow_rs.Base.Words.Collisions.{Collision, and_then, words_inj, be_bytes_inj, same_or_Collision}
use cow_rs.Permit.{
  PermitInfo, Erc20PermitInfo, abi_u64, domain_type_hash, permit_type_hash, domain_words,
  permit_domain_separator, permit_words, permit_digest, digest_to_sign,
}

-- The fields have the widths of their types.
pub record IsPermit (info : PermitInfo) (erc20_info : Erc20PermitInfo) : Type 0 where
  pub token_address : IsAddress info.token_address
  pub owner : IsAddress info.owner
  pub spender : IsAddress info.spender
  pub value : info.value < 2 ^ 256
  pub nonce : info.nonce < 2 ^ 256
  pub deadline : info.deadline < 2 ^ 64
  pub chain_id : erc20_info.chain_id < 2 ^ 64

-- The token's name and version as bytes, its chain, and the permit.
abbrev pub SamePermit : PermitInfo → Erc20PermitInfo → PermitInfo → Erc20PermitInfo → Type 0
SamePermit p e q f =
    (p ≡ q)
    × (e.chain_id ≡ f.chain_id)
    × (as_bytes e.name ≡ as_bytes f.name)
    × (as_bytes e.version ≡ as_bytes f.version)

abi_u64-IsWord : (v : ℕ) → IsWord (abi_u64 v)
abi_u64-IsWord v = omega (arith, length-be_bytes 8 v)

abi_u64_inj : (a b : ℕ) → a < 2 ^ 64 → b < 2 ^ 64 → abi_u64 a ≡ abi_u64 b → a ≡ b
abi_u64_inj a b h k e = be_bytes_inj 8 a b h k (ap (drop 24) e)

module _ (keccak256 : Bytes → Bytes) (width : (bs : Bytes) → IsWord (keccak256 bs))
    (p q : PermitInfo) (e f : Erc20PermitInfo) (h : IsPermit p e) (k : IsPermit q f) where
  abbrev domain_of : PermitInfo → Erc20PermitInfo → List Bytes
  domain_of info erc20_info =
      domain_words keccak256 erc20_info.name erc20_info.version erc20_info.chain_id
        info.token_address

  domain-IsWord :
      (info : PermitInfo) (erc20_info : Erc20PermitInfo)
      → IsPermit info erc20_info
      → All IsWord (domain_of info erc20_info)
  unfolding domain_type_hash
  domain-IsWord info erc20_info typed =
      (width _, (width _, (width _, (abi_u64-IsWord _, (omega (arith, typed.token_address), tt)))))

  permit-IsWord :
      (info : PermitInfo) (erc20_info : Erc20PermitInfo)
      → IsPermit info erc20_info
      → All IsWord (permit_words keccak256 info)
  unfolding permit_type_hash
  permit-IsWord info erc20_info typed = (
    width _,
    (
      omega (arith, typed.owner),
      (
        omega (arith, typed.spender),
        (length-be_bytes 32 _, (length-be_bytes 32 _, (abi_u64-IsWord _, tt))),
      ),
    ),
  )

  abbrev SameDomain : Type 0
  SameDomain =
      (p.token_address ≡ q.token_address)
      × (e.chain_id ≡ f.chain_id)
      × (as_bytes e.name ≡ as_bytes f.name)
      × (as_bytes e.version ≡ as_bytes f.version)

  domain_inj :
      permit_domain_separator keccak256 e.name e.version e.chain_id p.token_address
        ≡ permit_domain_separator keccak256 f.name f.version f.chain_id q.token_address
      → SameDomain ⊎ Collision keccak256
  unfolding permit_domain_separator
  domain_inj same = and_then (same_or_Collision keccak256 _ _ same) λ joined.
      let words : domain_of p e ≡ domain_of q f =
        words_inj (domain_of p e) (domain_of q f) (domain-IsWord p e h) (domain-IsWord q f k) refl
          joined in
      let at = λ (i : ℕ). ap (λ (ws : List Bytes). get_or ws i []) words in
      and_then (same_or_Collision keccak256 _ _ (at 1)) λ names.
        and_then (same_or_Collision keccak256 _ _ (at 2)) λ versions.
          inl (ap (drop 12) (at 4), abi_u64_inj _ _ h.chain_id k.chain_id (at 3), names, versions)

  permit_inj :
      p.token_address ≡ q.token_address
      → permit_words keccak256 p ≡ permit_words keccak256 q
      → p ≡ q
  permit_inj token words =
      let at = λ (i : ℕ). ap (λ (ws : List Bytes). get_or ws i []) words in
      let owner : p.owner ≡ q.owner = ap (drop 12) (at 1) in
      let spender : p.spender ≡ q.spender = ap (drop 12) (at 2) in
      let value : p.value ≡ q.value = be_bytes_inj 32 _ _ h.value k.value (at 3) in
      let nonce : p.nonce ≡ q.nonce = be_bytes_inj 32 _ _ h.nonce k.nonce (at 4) in
      let deadline : p.deadline ≡ q.deadline = abi_u64_inj _ _ h.deadline k.deadline (at 5) in cc

-- The digest that is signed for a permit with fields of their widths, under a hash of 32 bytes,
-- determines the permit with its token, the token's chain, and the bytes of its name and version, or two inputs of the hash collide.
pub permit_digest_inj :
    (keccak256 : Bytes → Bytes) (p q : PermitInfo) (e f : Erc20PermitInfo)
    → ((bs : Bytes) → IsWord (keccak256 bs))
    → IsPermit p e
    → IsPermit q f
    → digest_to_sign keccak256 p e ≡ digest_to_sign keccak256 q f
    → SamePermit p e q f ⊎ Collision keccak256
unfolding permit_digest permit_domain_separator
permit_digest_inj keccak256 p q e f width h k same =
    and_then (same_or_Collision keccak256 _ _ same) λ joined.
      let parts =
        words_inj (_ ∷ _ ∷ []) (_ ∷ _ ∷ []) (width _, (width _, tt)) (width _, (width _, tt)) refl
          (ap (drop 2) joined) in
      let at = λ (i : ℕ). ap (λ (ws : List Bytes). get_or ws i []) parts in
      and_then (domain_inj keccak256 width p q e f h k (at 0)) λ domain.
        and_then (same_or_Collision keccak256 _ _ (at 1)) λ rows.
          let words =
            words_inj (permit_words keccak256 p) (permit_words keccak256 q)
              (permit-IsWord keccak256 width p q e f h k p e h)
              (permit-IsWord keccak256 width p q e f h k q f k) refl rows in
          inl (permit_inj keccak256 width p q e f h k domain.0 words, domain.1, domain.2, domain.3)
