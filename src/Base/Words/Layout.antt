-- ===== src/Base/Words/Layout.antt =====
-- Where the pieces of an ABI encoding stand, and the reader that follows the offsets.
use mathlib.Core.Path.{ap₂}
use mathlib.Core.List.{append_assoc}
use cow_rs.Base.{
  ℕ, zero, suc, ◌+◌, ◌-◌, ◌*◌, ◌^◌, ◌≤◌, ◌<◌, ◌≡◌, refl, sym, ap, ◌∙◌, some, List, [], ◌∷◌, ◌++◌,
  length, take, drop, concat, All, get_elem?, arith, length-append, take-append, drop-append,
  drop-drop, drop-append_le, drop-length_add,
}
use cow_rs.Base.Bytes.{Bytes}
use cow_rs.Base.Words.{IsWord, u256_bytes, u256}
use cow_rs.Base.Words.Rows.{u256_bytes-IsWord}
use cow_rs.Base.Bytes.{from_be-be_bytes}

-- The piece stands in the buffer at the offset.
abbrev pub IsAt : Bytes → ℕ → Bytes → Type 0
IsAt piece off buf = (rest : Bytes) × (drop off buf ≡ piece ++ rest)

pub IsAt-skip :
    (front piece : Bytes) (off : ℕ) (buf : Bytes)
    → IsAt piece off buf
    → IsAt piece (length front + off) (front ++ buf)
IsAt-skip front piece off buf (rest, e) = (rest, drop-length_add front buf off ∙ e)

pub IsAt-append :
    (piece : Bytes) (off : ℕ) (buf more : Bytes)
    → off ≤ length buf
    → IsAt piece off buf
    → IsAt piece off (buf ++ more)
IsAt-append piece off buf more h (rest, e) = (
  rest ++ more,
  drop-append_le off buf more h ∙ ap (λ bs. bs ++ more) e ∙ append_assoc piece rest more,
)

-- A piece of a piece.
pub IsAt-inner :
    (inner : Bytes) (off : ℕ) (outer : Bytes) (pos : ℕ) (buf : Bytes)
    → off ≤ length outer
    → IsAt inner off outer
    → IsAt outer pos buf
    → IsAt inner (pos + off) buf
IsAt-inner inner off outer pos buf h at_off (rest, e) =
    let (more, e') = IsAt-append inner off outer rest h at_off in
    (more, sym (drop-drop pos off buf) ∙ ap (drop off) e ∙ e')

-- A number is read where its word stands.
pub u256-IsAt :
    (v off : ℕ) (buf : Bytes) → v < 2 ^ 256 → IsAt (u256_bytes v) off buf → u256 buf off ≡ v
unfolding u256 u256_bytes
u256-IsAt v off buf h (rest, e) =
    let size : off + 32 - off ≡ 32 = omega arith in
    rw (size, e, take-append 32 (u256_bytes v) rest (u256_bytes-IsWord v)) (from_be-be_bytes 32 v h)

-- The offsets of pieces that follow one another: `cumulative` is the first.
abbrev pub offsets : ℕ → List Bytes → Bytes
offsets cumulative [] = []
offsets cumulative (enc ∷ encoded) =
    u256_bytes cumulative ++ offsets (cumulative + length enc) encoded

pub length-offsets :
    (c : ℕ) (encoded : List Bytes) → length (offsets c encoded) ≡ 32 * length encoded
length-offsets c [] = omega arith
length-offsets c (enc ∷ encoded) = omega (
  arith,
  length-append (u256_bytes c) (offsets (c + length enc) encoded),
  u256_bytes-IsWord c,
  length-offsets (c + length enc) encoded,
)

-- Each piece stands where its offset says, counted from `c`.
offsets-IsAt :
    (c : ℕ) (encoded : List Bytes) (i : ℕ) (piece : Bytes)
    → get_elem? encoded i ≡ some piece
    → (skipped : ℕ) × IsAt (u256_bytes (c + skipped)) (32 * i) (offsets c encoded)
      × (32 * i ≤ length (offsets c encoded))
      × IsAt piece skipped (concat encoded)
      × (skipped ≤ length (concat encoded))
offsets-IsAt c [] i piece h = cc
offsets-IsAt c (enc ∷ encoded) zero piece h =
    let same : enc ≡ piece = cc in
    let start : c + 0 ≡ c = omega arith in
    (
      0,
      (offsets (c + length enc) encoded, rw start),
      omega arith,
      (concat encoded, rw same),
      omega arith,
    )
offsets-IsAt c (enc ∷ encoded) (suc i) piece h =
    let (skipped, word, in_range, there, inside) =
      offsets-IsAt (c + length enc) encoded i piece h in
    let w = u256_bytes-IsWord c in
    let more = length-append (u256_bytes c) (offsets (c + length enc) encoded) in
    let total = length-append enc (concat encoded) in
    let moved = IsAt-skip (u256_bytes c) _ (32 * i) (offsets (c + length enc) encoded) word in
    let sum : c + length enc + skipped ≡ c + (length enc + skipped) = omega arith in
    let next : length (u256_bytes c) + 32 * i ≡ 32 * suc i = omega arith in
    (
      length enc + skipped,
      rw (← sum, ← next) moved,
      omega arith,
      IsAt-skip enc piece skipped (concat encoded) there,
      omega arith,
    )

-- A tuple of dynamic parts: the offsets are relative to its start.
abbrev pub tuple_of : List Bytes → Bytes
tuple_of parts = offsets (32 * length parts) parts ++ concat parts

-- The reader goes to the part that the offset at position `i` names.
abbrev pub part_at : Bytes → ℕ → ℕ → ℕ
part_at buf pos i = pos + u256 buf (pos + 32 * i)

pub tuple_of-IsAt :
    (parts : List Bytes) (i : ℕ) (piece : Bytes) (pos : ℕ) (buf : Bytes)
    → get_elem? parts i ≡ some piece
    → length (tuple_of parts) < 2 ^ 256
    → IsAt (tuple_of parts) pos buf
    → IsAt piece (part_at buf pos i) buf
tuple_of-IsAt parts i piece pos buf h fits here =
    let head = offsets (32 * length parts) parts in
    let (skipped, word, in_range, there, inside) =
      offsets-IsAt (32 * length parts) parts i piece h in
    let long = length-offsets (32 * length parts) parts in
    let total = length-append head (concat parts) in
    let offset : u256 buf (pos + 32 * i) ≡ 32 * length parts + skipped =
      u256-IsAt (32 * length parts + skipped) (pos + 32 * i) buf (omega arith) (
        IsAt-inner _ (32 * i) (tuple_of parts) pos buf (omega arith)
          (IsAt-append _ (32 * i) head (concat parts) in_range word) here) in
    let target : length head + skipped ≡ 32 * length parts + skipped = omega arith in
    rw (offset, ← target)
      (IsAt-inner piece (length head + skipped) (tuple_of parts) pos buf (omega arith)
        (IsAt-skip head piece skipped (concat parts) there) here)

-- The words of an array, read one after the other.
abbrev pub words_at : Bytes → ℕ → ℕ → List Bytes
words_at buf pos zero = []
words_at buf pos (suc n) = take 32 (drop pos buf) ∷ words_at buf (pos + 32) n

pub words_at-concat :
    (ws : List Bytes) (pos : ℕ) (buf : Bytes)
    → All IsWord ws
    → IsAt (concat ws) pos buf
    → words_at buf pos (length ws) ≡ ws
words_at-concat [] pos buf h here = refl
words_at-concat (w ∷ ws) pos buf (width, h) (rest, e) =
    let split : drop pos buf ≡ w ++ (concat ws ++ rest) = e ∙ append_assoc w (concat ws) rest in
    ap₂ (◌∷◌) (ap (take 32) split ∙ take-append 32 w (concat ws ++ rest) width) (
      words_at-concat ws (pos + 32) buf h (
        rest,
        sym (drop-drop pos 32 buf)
            ∙ ap (drop 32) split
            ∙ drop-append 32 w (concat ws ++ rest) width,
      ))
