-- ===== src/Base/Results.antt =====
-- crates/errors: the error type of the workspace, and `Result` with the `?` operator.
use Prim.Native.Nat.{ℕ}
use Prim.Native.String.{String}
use mathlib.Core.Option.{Option, none, some}
use mathlib.Core.Bool.{Bool, true, false}
use mathlib.Core.Path.{◌≡◌, refl}

-- The variants that the modelled code returns. A message keeps its fixed part; the numbers and
-- texts that `format!` puts into it are left out.
pub data CowError : Type 0 where
  api : ℕ → String → CowError
  parse : String → String → CowError
  app_data : String → CowError

pub data Result {ℓ} (A : Type ℓ) : Type ℓ where
  ok : A → Result A
  err : CowError → Result A

-- `ok_or_else`, and `map_err` of a partial function.
abbrev pub or_fail {ℓ} : {A : Type ℓ} → Option A → CowError → Result A
or_fail (some a) e = ok a
or_fail none e = err e

-- `if failed { return Err(e); }`
abbrev pub fail_if : Bool → CowError → Result (Unit {0})
fail_if failed e = elim failed [ true ↦ err e | false ↦ ok tt ]

infixl 5 ◌>>=◌
abbrev pub ◌>>=◌ {ℓ κ} : {A : Type ℓ} {B : Type κ} → Result A → (A → Result B) → Result B
err e >>= next = err e
ok value >>= next = next value

abbrev pub is_ok {ℓ} : {A : Type ℓ} → Result A → Bool
is_ok (ok a) = true
is_ok (err e) = false

infixl 5 ◌>>◌
abbrev pub ◌>>◌ {ℓ} : {B : Type ℓ} → Result (Unit {0}) → Result B → Result B
err e >> rest = err e
ok u >> rest = rest

pub >>=-eq-ok {ℓ κ} :
    {A : Type ℓ} {B : Type κ} (m : Result A) (next : A → Result B) {b : B}
    → (m >>= next) ≡ ok b
    → (a : A) × (m ≡ ok a) × (next a ≡ ok b)
>>=-eq-ok (err e) next h = cc
>>=-eq-ok (ok a) next h = (a, refl, h)
