-- ===== src/Base/Words/Collisions.antt =====
-- Rows of words under a hash: equal hashes are of equal rows, or two inputs collide.
use cow_rs.Base.{
  ℕ, ◌<◌, ◌^◌, ◌≡◌, ◌≢◌, ◌⊎◌, inl, inr, refl, ap, sym, ◌∙◌, List, [], ◌∷◌, length, take, drop,
  concat, All, arith, Bool-cases, take-append, drop-append,
}
use cow_rs.Base.Bytes.{Bytes, be_bytes, from_be, from_be-be_bytes, bytes_eq, bytes_eq_iff}
use cow_rs.Base.Words.{IsWord}

-- Two inputs that the hash does not tell apart.
abbrev pub Collision : (Bytes → Bytes) → Type 0
Collision keccak256 = (a : Bytes) × (b : Bytes) × (a ≢ b) × (keccak256 a ≡ keccak256 b)

pub and_then {ℓ κ ι} : {A : Type ℓ} {B : Type κ} {C : Type ι} → A ⊎ C → (A → B ⊎ C) → B ⊎ C
and_then (inl a) f = f a
and_then (inr c) f = inr c

pub words_inj :
    (ws vs : List Bytes)
    → All IsWord ws
    → All IsWord vs
    → length ws ≡ length vs
    → concat ws ≡ concat vs
    → ws ≡ vs
words_inj [] [] h k e same = refl
words_inj [] (v ∷ vs) h k e same = absurd (omega arith)
words_inj (w ∷ ws) [] h k e same = absurd (omega arith)
words_inj (w ∷ ws) (v ∷ vs) (hw, h) (kv, k) e same =
    let first : w ≡ v =
      sym (take-append 32 w (concat ws) hw) ∙ ap (take 32) same ∙ take-append 32 v (concat vs) kv in
    let rest : concat ws ≡ concat vs =
      sym (drop-append 32 w (concat ws) hw) ∙ ap (drop 32) same ∙ drop-append 32 v (concat vs) kv in
    let tail = words_inj ws vs h k (omega arith) rest in cc

pub be_bytes_inj : (k a b : ℕ) → a < 256 ^ k → b < 256 ^ k → be_bytes k a ≡ be_bytes k b → a ≡ b
be_bytes_inj k a b h h' e = sym (from_be-be_bytes k a h) ∙ ap from_be e ∙ from_be-be_bytes k b h'

-- Equal hashes have equal inputs, or a collision is at hand.
pub same_or_Collision :
    (keccak256 : Bytes → Bytes) (a b : Bytes)
    → keccak256 a ≡ keccak256 b
    → (a ≡ b) ⊎ Collision keccak256
same_or_Collision keccak256 a b e = elim (Bool-cases (bytes_eq a b)) [
  | inl same ↦ inl ((bytes_eq_iff a b).0 same)
  | inr other ↦ inr (a, b, λ equal. cc (other, (bytes_eq_iff a b).1 equal), e)
]
