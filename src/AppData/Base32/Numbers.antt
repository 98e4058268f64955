-- ===== src/AppData/Base32/Numbers.antt =====
-- The decoder reads one number in base 32 and writes it in base 256.
use mathlib.Core.Path.{subst}
use cow_rs.Base.{
  ℕ, suc, ◌+◌, ◌-◌, ◌*◌, ◌/◌, ◌%◌, ◌^◌, ◌<◌, ◌≡◌, ◌↔◌, refl, ap, sym, ◌∙◌, leb, ltb, >>=-eq-ok,
  leb→le, leb_false→lt, Bool-cases, Option-cases, inl, inr, some, List, [], ◌∷◌, length, All,
  All-append, ok, arith, length-append,
}
use cow_rs.Base.Bytes.{Bytes, from_be, from_be-append, from_be_inj}
use cow_rs.Base.Hex.{Text, IsByte}
use cow_rs.AppData.Base32.{
  base32_value, State, start, shift_in, step, loop, trailing, finish, decode_base32_lower_nopad,
}
use cow_rs.AppData.Base32.Buffer.{carry, emit, no_rest, rest_bound}

-- The digits of a text, and the number that digits write.
abbrev pub Reads : Text → List ℕ → Type 0
Reads [] [] = Unit
Reads [] (v ∷ vs) = ⊥
Reads (c ∷ cs) [] = ⊥
Reads (c ∷ cs) (v ∷ vs) = (base32_value c ≡ some v) × Reads cs vs

abbrev pub base32_acc : ℕ → List ℕ → ℕ
base32_acc acc [] = acc
base32_acc acc (v ∷ vs) = base32_acc (acc * 32 + v) vs

-- After `n` digits that write `number`.
record IsState (number n : ℕ) (s : State) : Type 0 where
  value : from_be s.out * 2 ^ s.bits + trailing s ≡ number
  size : 8 * length s.out + s.bits ≡ 5 * n
  small : s.bits < 8
  bytes : All IsByte s.out

base32_value-lt : (c v : ℕ) → base32_value c ≡ some v → v < 32
base32_value-lt c v e = ground arith

step-IsState :
    (number n v : ℕ) (s : State)
    → IsState number n s
    → v < 32
    → IsState (number * 32 + v) (suc n) (step s v)
step-IsState number n v s h k =
    let o : ℕ = from_be s.out in
    let buf : ℕ = shift_in s.buf v in
    let carried : number * 32 + v ≡ o * 2 ^ (s.bits + 5) + buf % 2 ^ (s.bits + 5) =
      ap (λ (m : ℕ). m * 32 + v) (sym h.value) ∙ carry s.bits s.buf v o h.small k in
    elim (Bool-cases (leb 8 (s.bits + 5))) [
      | inl full ↦
          let bits : ℕ = s.bits + 5 - 8 in
          let byte : ℕ = buf / 2 ^ bits % 256 in
          let enough = leb→le 8 (s.bits + 5) full in
          let back : s.bits + 5 ≡ bits + 8 = omega arith in
          rw full (record {
            value =
                ap (λ (m : ℕ). m * 2 ^ bits + buf % 2 ^ bits) (from_be-append s.out byte)
                ∙ sym (emit bits buf o (omega (arith, h.small)))
                ∙ ap (λ (k : ℕ). o * 2 ^ k + buf % 2 ^ k) (sym back)
                ∙ sym carried;
            size = omega (arith, h.size, length-append s.out (byte ∷ []));
            small = omega (arith, h.small);
            bytes = All-append IsByte s.out (byte ∷ []) h.bytes (omega arith, tt);
          })
      | inr room ↦
          let few = leb_false→lt 8 (s.bits + 5) room in
          rw room (record {
            value = sym carried;
            size = omega (arith, h.size);
            small = few;
            bytes = h.bytes;
          })
    ]

loop-IsState :
    (number n : ℕ) (s : State) (text : Text) (vs : List ℕ)
    → IsState number n s
    → Reads text vs
    → (t : State) × (loop s text ≡ ok t) × IsState (base32_acc number vs) (n + length vs) t
unfolding loop
loop-IsState number n s [] [] h r = (s, refl, subst (λ k. IsState number k s) (omega arith) h)
loop-IsState number n s [] (v ∷ vs) h r = absurd r
loop-IsState number n s (c ∷ cs) [] h r = absurd r
loop-IsState number n s (c ∷ cs) (v ∷ vs) h (e, r) =
    let (t, run, done) =
      loop-IsState (number * 32 + v) (suc n) (step s v) cs vs
        (step-IsState number n v s h (base32_value-lt c v e)) r in
    (t, rw e run, subst (λ k. IsState (base32_acc (number * 32 + v) vs) k t) (omega arith) done)

loop-Reads : (s t : State) (text : Text) → loop s text ≡ ok t → (vs : List ℕ) × Reads text vs
unfolding loop
loop-Reads s t [] e = ([], tt)
loop-Reads s t (c ∷ cs) e = elim (Option-cases (base32_value c)) [
  | inl bad ↦ let failed = rw bad at e in absurd (ground arith)
  | inr (v, good) ↦
      let (vs, reads) = loop-Reads (step s v) t cs (rw good at e) in (v ∷ vs, (good, reads))
]

start-IsState : IsState 0 0 start
unfolding from_be
start-IsState = record { value = refl; size = refl; small = omega arith; bytes = tt }

-- The bytes are the number that the text writes in base 32, without the bits that do not fill a
-- byte, and those bits are zero.
pub record IsBase32 (text : Text) (out : Bytes) : Type 0 where
  pub digits : List ℕ
  pub reads : Reads text digits
  pub size : length out ≡ 5 * length digits / 8
  pub bytes : All IsByte out
  pub number : from_be out * 2 ^ (5 * length digits % 8) ≡ base32_acc 0 digits

module _ (t : State) (number n : ℕ) (h : IsState number n t) where
  bits-eq : t.bits ≡ 5 * n % 8
  bits-eq = omega (arith, h.size, h.small)

  out-size : length t.out ≡ 5 * n / 8
  out-size = omega (arith, h.size, h.small)

finish-ok : (t : State) → trailing t ≡ 0 → finish t ≡ ok t.out
finish-ok t e = rw e (ground arith)

finish_inv : (t : State) (out : Bytes) → finish t ≡ ok out → (trailing t ≡ 0) × (t.out ≡ out)
finish_inv t out e = elim (Bool-cases (ltb 0 t.bits)) [
  | inl some_bits ↦ let done = rw some_bits at e in (ground arith, ground arith)
  | inr no_bits ↦
      let whole : t.bits ≡ 0 = ground arith in
      let done = rw no_bits at e in (ap (λ k. t.buf % 2 ^ k) whole ∙ omega arith, ground arith)
]

run-IsState :
    (text : Text) (vs : List ℕ)
    → Reads text vs
    → (t : State) × (loop start text ≡ ok t) × IsState (base32_acc 0 vs) (length vs) t
run-IsState text vs r =
    let (t, run, h) = loop-IsState 0 0 start text vs start-IsState r in
    (t, run, subst (λ k. IsState (base32_acc 0 vs) k t) (omega arith) h)

state-IsBase32 :
    (text : Text) (vs : List ℕ) (t : State)
    → Reads text vs
    → IsState (base32_acc 0 vs) (length vs) t
    → trailing t ≡ 0
    → IsBase32 text t.out
state-IsBase32 text vs t r h e = record {
  digits = vs;
  reads = r;
  size = out-size t _ (length vs) h;
  bytes = h.bytes;
  number =
      ap (λ (k : ℕ). from_be t.out * 2 ^ k) (sym (bits-eq t _ (length vs) h))
      ∙ omega (arith, h.value, e);
}

IsBase32-state :
    (text : Text) (out : Bytes) (t : State) (h : IsBase32 text out)
    → IsState (base32_acc 0 h.digits) (length h.digits) t
    → (trailing t ≡ 0) × (t.out ≡ out)
IsBase32-state text out t h k =
    let same : from_be t.out * 2 ^ t.bits + trailing t ≡ from_be out * 2 ^ t.bits =
      k.value
      ∙ sym h.number
      ∙ ap (λ (b : ℕ). from_be out * 2 ^ b) (sym (bits-eq t _ (length h.digits) k)) in
    let (none_left, numbers) =
      no_rest t.bits (from_be t.out) (from_be out) (trailing t) k.small
        (rest_bound t.bits t.buf k.small) same in
    (
      none_left,
      from_be_inj t.out out (out-size t _ (length h.digits) k ∙ sym h.size) k.bytes h.bytes numbers,
    )

-- Decoding succeeds with some bytes exactly when the text is their base 32 form.
pub decode-IsBase32_iff :
    (text : Text) (out : Bytes) → (decode_base32_lower_nopad text ≡ ok out) ↔ IsBase32 text out
unfolding decode_base32_lower_nopad
decode-IsBase32_iff text out = (
  λ e.
      let (t, run, done) = >>=-eq-ok (loop start text) finish e in
      let (vs, reads) = loop-Reads start t text run in
      let (t', run', h) = run-IsState text vs reads in
      let same : t' ≡ t = cc in
      let (empty, out_is) = finish_inv t out done in
      subst (IsBase32 text) (ap (λ (s : State). s.out) same ∙ out_is)
        (state-IsBase32 text vs t' reads h (ap trailing same ∙ empty)),
  λ h.
      let (t, run, state) = run-IsState text h.digits h.reads in
      let (empty, same) = IsBase32-state text out t h state in
      rw run (finish-ok t empty ∙ ap ok same),
)
