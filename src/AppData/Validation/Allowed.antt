-- ===== src/AppData/Validation/Allowed.antt =====
-- The documents that pass, described apart from the code.
use mathlib.Core.Path.{subst}
use cow_rs.Base.{
  ℕ, ◌≤◌, ◌≡◌, ◌≢◌, ◌⊎◌, inl, inr, ◌↔◌, refl, ap, sym, ltb, ◌==◌, not, Bool, true, false,
  Bool-cases, leb, ◌&&◌, and-eq-true, ◌+◌, Option, none, some, List, [], ◌∷◌, length, All, arith,
}
use cow_rs.Base.Decimal.{is_digit}
use cow_rs.Base.Hex.{Text, prefix_0x}
use cow_rs.AppData.Doc.{
  AppDataDoc, CowHook, OrderInteractionHooks, PartnerFee, PartnerFeeEntry, OrderClassKind, market,
  limit, liquidity, twap, entries,
}
use cow_rs.AppData.Validation.{
  ValidationError, push, push_if, is_ascii_hexdigit, all_hexdigits, is_0x_hex, is_eth_address,
  is_order_uid, parse_u64, is_none, validate_app_code, validate_single_hook, validate_hook_list,
  if_some, validate_hooks, check_bps, validate_entries, validate_partner_fee, validate_order_class,
  validate_replaced_order_uid, validate_metadata, validate_constraints,
}

abbrev pub Within : ℕ → ℕ → ℕ → Type 0
Within lo hi c = (lo ≤ c) × (c ≤ hi)

abbrev pub IsHexDigit : ℕ → Type 0
IsHexDigit c = Within b'0' b'9' c ⊎ Within b'a' b'f' c ⊎ Within b'A' b'F' c

-- `0x` and that many hexadecimal digits.
abbrev pub IsHexText : ℕ → Text → Type 0
IsHexText n t = (ds : Text) × (t ≡ prefix_0x ds) × (length ds ≡ n) × All IsHexDigit ds

abbrev pub Holds {ℓ κ} : {A : Type ℓ} → (A → Type κ) → Option A → Type κ
Holds P none = Unit
Holds P (some a) = P a

pub record IsHookAllowed (hook : CowHook) : Type 0 where
  pub target : IsHexText 40 hook.target
  pub gas_limit : (gas : ℕ) × (parse_u64 hook.gas_limit ≡ some gas)

abbrev pub AtMostAll : ℕ → Type 0
AtMostAll bps = bps ≤ 10_000

pub record IsEntryAllowed (e : PartnerFeeEntry) : Type 0 where
  pub volume : Holds AtMostAll e.volume_bps
  pub surplus : Holds AtMostAll e.surplus_bps
  pub price_improvement : Holds AtMostAll e.price_improvement_bps

pub record IsAllowed (doc : AppDataDoc) : Type 0 where
  pub app_code : Holds (λ (code : Text). Within 1 50 (length code)) doc.app_code
  pub hooks :
      Holds
        (λ (h : OrderInteractionHooks).
          Holds (All IsHookAllowed) h.pre × Holds (All IsHookAllowed) h.post)
        doc.metadata.hooks
  pub partner_fee :
      Holds (λ (fee : PartnerFee). All IsEntryAllowed (entries fee)) doc.metadata.partner_fee
  pub replaced_order : Holds (IsHexText 112) doc.metadata.replaced_order

digit_of : (c : ℕ) → is_ascii_hexdigit c ≡ true → IsHexDigit c
digit_of c h = elim (Bool-cases (is_digit c)) [
  | inl d ↦ inl (ground arith, ground arith)
  | inr d ↦ elim (Bool-cases (leb b'a' c && leb c b'f')) [
    | inl low ↦ inr (inl (ground arith, ground arith))
    | inr low ↦ inr (inr (ground arith, ground arith))
  ]
]

digit_test : (c : ℕ) → IsHexDigit c → is_ascii_hexdigit c ≡ true
digit_test c (inl (lo, hi)) = ground arith
digit_test c (inr (inl (lo, hi))) = ground arith
digit_test c (inr (inr (lo, hi))) = ground arith

is_ascii_hexdigit_iff : (c : ℕ) → (is_ascii_hexdigit c ≡ true) ↔ IsHexDigit c
is_ascii_hexdigit_iff c = (λ h. digit_of c h, λ h. digit_test c h)

all_hexdigits_iff : (t : Text) → (all_hexdigits t ≡ true) ↔ All IsHexDigit t
all_hexdigits_iff [] = (λ h. tt, λ h. refl)
all_hexdigits_iff (c ∷ cs) = (
  λ h.
      let both : (is_ascii_hexdigit c ≡ true) × (all_hexdigits cs ≡ true) = and-eq-true _ _ h in
      ((is_ascii_hexdigit_iff c).0 both.0, (all_hexdigits_iff cs).0 both.1),
  λ h. rw ((is_ascii_hexdigit_iff c).1 h.0, (all_hexdigits_iff cs).1 h.1),
)

is_0x_hex_iff : (n : ℕ) (t : Text) → ((length t == n + 2 && is_0x_hex t) ≡ true) ↔ IsHexText n t
is_0x_hex_iff n [] =
    (λ h. absurd (ground arith), λ h. absurd (omega (arith, ap (length {A = ℕ}) h.1)))
is_0x_hex_iff n (a ∷ []) =
    (λ h. absurd (ground arith), λ h. absurd (omega (arith, ap (length {A = ℕ}) h.1)))
is_0x_hex_iff n (a ∷ b ∷ rest) = (
  λ h.
      let (size, marked) = and-eq-true _ _ h in
      let (marks, digits) = and-eq-true _ _ marked in
      let start : a ∷ b ∷ rest ≡ prefix_0x rest = ground arith in
      (rest, start, ground arith, (all_hexdigits_iff rest).0 digits),
  λ h.
      let (ds, e, size, digits) = h in
      let good : (length (prefix_0x ds) == n + 2 && is_0x_hex (prefix_0x ds)) ≡ true =
        let tested = (all_hexdigits_iff ds).1 digits in ground arith in
      subst (λ (u : Text). (length u == n + 2 && is_0x_hex u) ≡ true) (sym e) good,
)

-- A validator adds no error exactly to values with the property.
abbrev Checks {ℓ} :
    {A : Type ℓ} → (A → List ValidationError → List ValidationError) → (A → Type 0) → Type ℓ
Checks {A} f P = (a : A) (errors : List ValidationError) → (f a errors ≡ []) ↔ ((errors ≡ []) × P a)

push_if_iff :
    (test : Bool) (e : ValidationError) (errors : List ValidationError)
    → (push_if test e errors ≡ []) ↔ ((errors ≡ []) × (test ≡ false))
push_if_iff true e [] = (λ h. cc, λ h. cc)
push_if_iff true e (x ∷ errors) = (λ h. cc, λ h. cc)
push_if_iff false e errors = (λ h. (h, refl), λ h. h.0)

if_some-Checks {ℓ} :
    {A : Type ℓ} (f : A → List ValidationError → List ValidationError) (P : A → Type 0)
    → Checks f P
    → Checks (if_some f) (Holds P)
if_some-Checks f P c none errors = (λ h. (h, tt), λ h. h.0)
if_some-Checks f P c (some a) errors = c a errors

push-ne-nil : (errors : List ValidationError) (e : ValidationError) → push errors e ≢ []
push-ne-nil [] e h = cc
push-ne-nil (x ∷ errors) e h = cc

app_code-Checks : Checks validate_app_code (Holds (λ (code : Text). Within 1 50 (length code)))
unfolding validate_app_code
app_code-Checks none errors = (λ h. (h, tt), λ h. h.0)
app_code-Checks (some code) errors = (
  λ h. elim (Bool-cases (length code == 0)) [
    | inl empty ↦ absurd (push-ne-nil _ _ (rw empty at h))
    | inr other ↦ elim (Bool-cases (ltb 50 (length code))) [
      | inl long ↦ let added = rw (other, long) at h in absurd (push-ne-nil _ _ added)
      | inr short ↦ let kept = rw (other, short) at h in (kept, (ground arith, ground arith))
    ]
  ],
  λ h. rw h.0 (ground arith),
)

parsed_iff : (o : Option ℕ) → (is_none o ≡ false) ↔ ((gas : ℕ) × (o ≡ some gas))
parsed_iff none = (λ h. cc, λ h. cc)
parsed_iff (some gas) = (λ h. (gas, refl), λ h. refl)

not-false_iff : (b : Bool) → (not b ≡ false) ↔ (b ≡ true)
not-false_iff true = (λ h. refl, λ h. refl)
not-false_iff false = (λ h. cc, λ h. cc)

hook-Checks : Checks validate_single_hook IsHookAllowed
unfolding validate_single_hook is_eth_address
hook-Checks hook errors = (
  λ h.
      let (before, gas) = (push_if_iff _ _ _).0 h in
      let (clean, target) = (push_if_iff _ _ _).0 before in
      (
        clean,
        record {
          target = (is_0x_hex_iff 40 hook.target).0 ((not-false_iff _).0 target);
          gas_limit = (parsed_iff _).0 gas;
        },
      ),
  λ h. (push_if_iff _ _ _).1 (
    (push_if_iff _ _ _).1 (h.0, (not-false_iff _).1 ((is_0x_hex_iff 40 hook.target).1 h.1.target)),
    (parsed_iff _).1 h.1.gas_limit,
  ),
)

hook_list-Checks : Checks validate_hook_list (All IsHookAllowed)
unfolding validate_hook_list
hook_list-Checks [] errors = (λ h. (h, tt), λ h. h.0)
hook_list-Checks (hook ∷ hooks) errors = (
  λ h.
      let (first, rest) = (hook_list-Checks hooks (validate_single_hook hook errors)).0 h in
      let (clean, allowed) = (hook-Checks hook errors).0 first in (clean, (allowed, rest)),
  λ h.
      (hook_list-Checks hooks (validate_single_hook hook errors)).1
        ((hook-Checks hook errors).1 (h.0, h.1.0), h.1.1),
)

-- One validator after another.
then-Checks {ℓ κ} :
    {A : Type ℓ} {B : Type κ} (f : A → List ValidationError → List ValidationError) (P : A → Type 0)
    (g : B → List ValidationError → List ValidationError) (Q : B → Type 0)
    → Checks f P
    → Checks g Q
    → (a : A) (b : B) (errors : List ValidationError)
    → (g b (f a errors) ≡ []) ↔ ((errors ≡ []) × (P a × Q b))
then-Checks f P g Q c d a b errors = (
  λ h.
      let (first, second) = (d b (f a errors)).0 h in
      let (clean, allowed) = (c a errors).0 first in (clean, (allowed, second)),
  λ h. (d b (f a errors)).1 ((c a errors).1 (h.0, h.1.0), h.1.1),
)

hooks-Checks : Checks validate_hooks (λ (h : OrderInteractionHooks).
    Holds (All IsHookAllowed) h.pre × Holds (All IsHookAllowed) h.post)
unfolding validate_hooks
hooks-Checks hooks errors =
    let lists = if_some-Checks validate_hook_list (All IsHookAllowed) hook_list-Checks in
    then-Checks _ _ _ _ lists lists hooks.pre hooks.post errors

bps-Checks : Checks check_bps AtMostAll
bps-Checks bps errors = (
  λ h. let (clean, small) = (push_if_iff _ _ _).0 h in (clean, ground arith),
  λ h. (push_if_iff _ _ _).1 (h.0, ground arith),
)

entries-Checks : Checks validate_entries (All IsEntryAllowed)
unfolding validate_entries
entries-Checks [] errors = (λ h. (h, tt), λ h. h.0)
entries-Checks (e ∷ es) errors =
    let one = if_some-Checks check_bps AtMostAll bps-Checks in
    let first = if_some check_bps e.volume_bps errors in
    let second = if_some check_bps e.surplus_bps first in
    let third = if_some check_bps e.price_improvement_bps second in
    (
      λ h.
          let (h₃, rest) = (entries-Checks es third).0 h in
          let (h₂, price_improvement) = (one e.price_improvement_bps second).0 h₃ in
          let (h₁, surplus) = (one e.surplus_bps first).0 h₂ in
          let (clean, volume) = (one e.volume_bps errors).0 h₁ in
          (
            clean,
            (
              record { volume = volume; surplus = surplus; price_improvement = price_improvement },
              rest,
            ),
          ),
      λ h. (entries-Checks es third).1 (
        (one e.price_improvement_bps second).1 (
          (one e.surplus_bps first).1
              ((one e.volume_bps errors).1 (h.0, h.1.0.volume), h.1.0.surplus),
          h.1.0.price_improvement,
        ),
        h.1.1,
      ),
    )

order_class-Checks : Checks validate_order_class (λ (kind : OrderClassKind). Unit {0})
unfolding validate_order_class
order_class-Checks market errors = (λ h. (h, tt), λ h. h.0)
order_class-Checks limit errors = (λ h. (h, tt), λ h. h.0)
order_class-Checks liquidity errors = (λ h. (h, tt), λ h. h.0)
order_class-Checks twap errors = (λ h. (h, tt), λ h. h.0)

any_class : (o : Option OrderClassKind) → Holds (λ (kind : OrderClassKind). Unit {0}) o
any_class none = tt
any_class (some kind) = tt

uid-Checks : Checks validate_replaced_order_uid (IsHexText 112)
unfolding validate_replaced_order_uid is_order_uid
uid-Checks uid errors = (
  λ h.
      let (clean, good) = (push_if_iff _ _ _).0 h in
      (clean, (is_0x_hex_iff 112 uid).0 ((not-false_iff _).0 good)),
  λ h. (push_if_iff _ _ _).1 (h.0, (not-false_iff _).1 ((is_0x_hex_iff 112 uid).1 h.1)),
)

-- A document adds no error to those found before exactly when it meets every constraint, where the
-- length of the application's name is that of its bytes, and none was found before.
pub validate_constraints_iff :
    (doc : AppDataDoc) (errors : List ValidationError)
    → (validate_constraints doc errors ≡ []) ↔ ((errors ≡ []) × IsAllowed doc)
unfolding validate_constraints validate_metadata validate_partner_fee
validate_constraints_iff doc errors =
    let meta = doc.metadata in
    let fee-Checks : Checks validate_partner_fee
        (λ (fee : PartnerFee). All IsEntryAllowed (entries fee)) =
      λ fee es. entries-Checks (entries fee) es in
    let e₁ = validate_app_code doc.app_code errors in
    let e₂ = if_some validate_hooks meta.hooks e₁ in
    let e₃ = if_some validate_partner_fee meta.partner_fee e₂ in
    let e₄ = if_some validate_order_class meta.order_class e₃ in
    let c₂ = if_some-Checks validate_hooks _ hooks-Checks meta.hooks e₁ in
    let c₃ = if_some-Checks validate_partner_fee _ fee-Checks meta.partner_fee e₂ in
    let c₄ = if_some-Checks validate_order_class _ order_class-Checks meta.order_class e₃ in
    let c₅ = if_some-Checks validate_replaced_order_uid _ uid-Checks meta.replaced_order e₄ in
    (
      λ h.
          let (h₄, uid) = c₅.0 h in
          let (h₃, class) = c₄.0 h₄ in
          let (h₂, fee) = c₃.0 h₃ in
          let (h₁, hooks) = c₂.0 h₂ in
          let (clean, code) = (app_code-Checks doc.app_code errors).0 h₁ in
          (
            clean,
            record { app_code = code; hooks = hooks; partner_fee = fee; replaced_order = uid },
          ),
      λ h.
          let ok₁ = (app_code-Checks doc.app_code errors).1 (h.0, h.1.app_code) in
          let ok₃ = c₃.1 (c₂.1 (ok₁, h.1.hooks), h.1.partner_fee) in
          c₅.1 (c₄.1 (ok₃, any_class meta.order_class), h.1.replaced_order),
    )
