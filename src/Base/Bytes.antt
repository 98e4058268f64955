-- ===== src/Base/Bytes.antt =====
-- Byte strings: a `u8` is a number below 256, a `Vec<u8>` or `[u8; N]` a list of them.
use cow_rs.Base.Tests.{ltb, ◌==◌}
use cow_rs.Base.Lists.{length, All, length-append}
use Prim.Native.Nat.{ℕ, zero, suc, ◌+◌, ◌*◌, ◌/◌, ◌%◌, ◌^◌, ◌<◌}
use Prim.Native.Char.{code}
use Prim.Native.String.{String}
use mathlib.Core.Path.{◌≡◌, refl}
use mathlib.Core.Logic.{◌↔◌}
use mathlib.Core.Bool.{Bool, true, false, ◌&&◌, ◌||◌}
use mathlib.Core.List.{List, [], ◌∷◌, ◌++◌}
use native.Mathlib.Nat.{pow-suc}
use native.Mathlib.Omega.{arith}

abbrev pub Bytes : Type 0
Bytes = List ℕ

-- `as_bytes` of an ASCII text.
abbrev pub as_bytes : String → Bytes
as_bytes String.[] = []
as_bytes (String.◌∷◌ c s) = code c ∷ as_bytes s

-- The last `k` big-endian bytes of `v`: `v.to_be_bytes()` of a word of `8 * k` bits.
unfoldable pub be_bytes : ℕ → ℕ → Bytes
be_bytes zero v = []
be_bytes (suc k) v = be_bytes k (v / 256) ++ v % 256 ∷ []

from_be_acc : ℕ → Bytes → ℕ
from_be_acc acc [] = acc
from_be_acc acc (b ∷ bs) = from_be_acc (acc * 256 + b) bs

-- `from_be_bytes`, `from_be_slice`.
unfoldable pub from_be : Bytes → ℕ
unfolding from_be_acc
from_be bs = from_be_acc 0 bs

pub length-be_bytes : (k v : ℕ) → length (be_bytes k v) ≡ k
unfolding be_bytes
length-be_bytes zero v = refl
length-be_bytes (suc k) v =
    omega (arith, length-append (be_bytes k (v / 256)) (v % 256 ∷ []), length-be_bytes k (v / 256))

from_be_acc-append :
    (acc : ℕ) (xs : Bytes) (b : ℕ) → from_be_acc acc (xs ++ b ∷ []) ≡ from_be_acc acc xs * 256 + b
unfolding from_be_acc
from_be_acc-append acc [] b = refl
from_be_acc-append acc (x ∷ xs) b = from_be_acc-append (acc * 256 + x) xs b

pub from_be-append : (xs : Bytes) (b : ℕ) → from_be (xs ++ b ∷ []) ≡ from_be xs * 256 + b
unfolding from_be
from_be-append xs b = from_be_acc-append 0 xs b

from_be_acc_inj :
    (a b : ℕ) (xs ys : Bytes)
    → length xs ≡ length ys
    → All (λ c. c < 256) xs
    → All (λ c. c < 256) ys
    → from_be_acc a xs ≡ from_be_acc b ys
    → (a ≡ b) × (xs ≡ ys)
unfolding from_be_acc
from_be_acc_inj a b [] [] e h k same = (same, refl)
from_be_acc_inj a b [] (y ∷ ys) e h k same = absurd (omega arith)
from_be_acc_inj a b (x ∷ xs) [] e h k same = absurd (omega arith)
from_be_acc_inj a b (x ∷ xs) (y ∷ ys) e (hx, h) (ky, k) same =
    let (heads, tails) = from_be_acc_inj (a * 256 + x) (b * 256 + y) xs ys (omega arith) h k same in
    let first : x ≡ y = omega arith in (omega arith, cc)

-- Bytes of one length with one value are the same.
pub from_be_inj :
    (xs ys : Bytes)
    → length xs ≡ length ys
    → All (λ c. c < 256) xs
    → All (λ c. c < 256) ys
    → from_be xs ≡ from_be ys
    → xs ≡ ys
unfolding from_be
from_be_inj xs ys e h k same = (from_be_acc_inj 0 0 xs ys e h k same).1

-- A value that fits its word is read back.
pub from_be-be_bytes : (k v : ℕ) → v < 256 ^ k → from_be (be_bytes k v) ≡ v
unfolding from_be be_bytes
from_be-be_bytes zero v h = omega arith
from_be-be_bytes (suc k) v h = omega (
  arith,
  from_be_acc-append 0 (be_bytes k (v / 256)) (v % 256),
  from_be-be_bytes k (v / 256) (omega (arith, pow-suc 256 k)),
)

-- `==` on arrays and slices.
abbrev pub bytes_eq : Bytes → Bytes → Bool
bytes_eq [] [] = true
bytes_eq [] (b ∷ ys) = false
bytes_eq (a ∷ xs) [] = false
bytes_eq (a ∷ xs) (b ∷ ys) = a == b && bytes_eq xs ys

-- `<=` on arrays: lexicographic.
abbrev pub bytes_le : Bytes → Bytes → Bool
bytes_le [] bs = true
bytes_le (a ∷ xs) [] = false
bytes_le (a ∷ xs) (b ∷ ys) = ltb a b || (a == b && bytes_le xs ys)

-- `is_zero` of an address or a hash.
abbrev pub all_zero : Bytes → Bool
all_zero [] = true
all_zero (b ∷ bs) = b == 0 && all_zero bs

pub bytes_eq_iff : (xs ys : Bytes) → (bytes_eq xs ys ≡ true) ↔ (xs ≡ ys)
bytes_eq_iff [] [] = (λ h. refl, λ h. refl)
bytes_eq_iff [] (b ∷ ys) = (λ h. cc, λ h. cc)
bytes_eq_iff (a ∷ xs) [] = (λ h. cc, λ h. cc)
bytes_eq_iff (a ∷ xs) (b ∷ ys) = ground (arith, bytes_eq_iff xs ys)

pub bytes_le_total : (xs ys : Bytes) → bytes_le xs ys ≡ false → bytes_le ys xs ≡ true
bytes_le_total [] ys h = cc
bytes_le_total (a ∷ xs) [] h = refl
bytes_le_total (a ∷ xs) (b ∷ ys) h = ground (arith, bytes_le_total xs ys)

pub bytes_le_antisymm : (xs ys : Bytes) → bytes_le xs ys ≡ true → bytes_le ys xs ≡ true → xs ≡ ys
bytes_le_antisymm [] [] h k = refl
bytes_le_antisymm [] (b ∷ ys) h k = cc
bytes_le_antisymm (a ∷ xs) [] h k = cc
bytes_le_antisymm (a ∷ xs) (b ∷ ys) h k = ground (arith, bytes_le_antisymm xs ys)
