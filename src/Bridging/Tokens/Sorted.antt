-- ===== src/Bridging/Tokens/Sorted.antt =====
-- A sort by falling priority, which shows that the laws of `sort_unstable_by_key` can hold.
use mathlib.Core.List.{Perm}
use mathlib.Core.List.Perm
use cow_rs.Base.{
  ℕ, ◌≤◌, leb, Bool-cases, inl, inr, leb→le, leb_false→lt, if◌then◌else◌, List, [], ◌∷◌, arith,
}
use cow_rs.Base.Bytes.{Bytes}
use cow_rs.Bridging.Tokens.{Scored, Bounded, IsDescending, UnstableSort}

abbrev pub insert_scored : Bytes → ℕ → List Scored → List Scored
insert_scored a p [] = (a, p) ∷ []
insert_scored a p ((b, q) ∷ rest) =
    let behind = insert_scored a p rest in
    if leb q p then (a, p) ∷ (b, q) ∷ rest else (b, q) ∷ behind

abbrev pub sort_scored : List Scored → List Scored
sort_scored [] = []
sort_scored ((a, p) ∷ rest) = insert_scored a p (sort_scored rest)

Bounded-le : (m n : ℕ) (xs : List Scored) → m ≤ n → Bounded m xs → Bounded n xs
Bounded-le m n [] h b = tt
Bounded-le m n ((a, p) ∷ rest) h (k, bs) = (omega arith, Bounded-le m n rest h bs)

Bounded-insert :
    (n : ℕ) (a : Bytes) (p : ℕ) (xs : List Scored)
    → p ≤ n
    → Bounded n xs
    → Bounded n (insert_scored a p xs)
Bounded-insert n a p [] h b = (h, tt)
Bounded-insert n a p ((b, q) ∷ rest) h (k, bs) = elim (Bool-cases (leb q p)) [
  | inl first ↦ rw first (h, (k, bs))
  | inr later ↦ rw later (k, Bounded-insert n a p rest h bs)
]

insert-IsDescending :
    (a : Bytes) (p : ℕ) (xs : List Scored) → IsDescending xs → IsDescending (insert_scored a p xs)
insert-IsDescending a p [] d = (tt, tt)
insert-IsDescending a p ((b, q) ∷ rest) (top, d) = elim (Bool-cases (leb q p)) [
  | inl first ↦ rw first ((leb→le q p first, Bounded-le q p rest (leb→le q p first) top), (top, d))
  | inr later ↦
      let below = leb_false→lt q p later in
      rw later (Bounded-insert q a p rest (omega arith) top, insert-IsDescending a p rest d)
]

pub sort_scored-IsDescending : (xs : List Scored) → IsDescending (sort_scored xs)
sort_scored-IsDescending [] = tt
sort_scored-IsDescending ((a, p) ∷ rest) =
    insert-IsDescending a p (sort_scored rest) (sort_scored-IsDescending rest)

insert-perm : (a : Bytes) (p : ℕ) (xs : List Scored) → Perm (insert_scored a p xs) ((a, p) ∷ xs)
insert-perm a p [] = Perm.refl ((a, p) ∷ [])
insert-perm a p ((b, q) ∷ rest) = elim (Bool-cases (leb q p)) [
  | inl first ↦ rw first (Perm.refl ((a, p) ∷ (b, q) ∷ rest))
  | inr later ↦
      rw later (Perm.trans (Perm.cons (b, q) (insert-perm a p rest)) (Perm.swap (a, p) (b, q) rest))
]

pub sort_scored-perm : (xs : List Scored) → Perm (sort_scored xs) xs
sort_scored-perm [] = Perm.refl []
sort_scored-perm ((a, p) ∷ rest) =
    Perm.trans (insert-perm a p (sort_scored rest)) (Perm.cons (a, p) (sort_scored-perm rest))

unfoldable pub priority_sort : UnstableSort
priority_sort = record {
  sort = sort_scored;
  sort-IsDescending = sort_scored-IsDescending;
  sort-perm = sort_scored-perm;
}
