-- ===== src/Bridging/Quotes/Best.antt =====
-- What the best quote is, whichever providers there are.
use mathlib.Core.Path.{subst}
use cow_rs.Base.{
  ℕ, ◌≤◌, ◌≡◌, refl, sym, ◌⊎◌, inl, inr, leb, Bool, true, false, Bool-cases, none, some, List, [],
  ◌∷◌, All, arith, leb→le, leb_false→lt,
}
use cow_rs.Bridging.{
  no_providers, no_quote, Checked, Checked-cases, ok, err, QuoteBridgeRequest, QuoteBridgeResponse,
  net_buy_amount,
}
use cow_rs.Bridging.Quotes.{
  Provider, BridgingSdk, eligible, answers, max_by_net, is_empty, ok_or, get_best_quote,
}

abbrev pub supports : QuoteBridgeRequest → Provider → Bool
supports req p = p.supports_route req.sell_chain_id req.buy_chain_id

-- Some provider of the route answers with the quote.
abbrev pub Offered : QuoteBridgeRequest → List Provider → QuoteBridgeResponse → Type 0
Offered req [] q = ⊥
Offered req (p ∷ ps) q = ((supports req p ≡ true) × (p.get_quote req ≡ ok q)) ⊎ Offered req ps q

-- The provider does not serve the route, or its answer is an error or nets no more than the bound.
abbrev pub NoBetterIn : ℕ → Bool → Checked QuoteBridgeResponse → Type 0
NoBetterIn bound false answer = Unit
NoBetterIn bound true (ok q) = net_buy_amount q ≤ bound
NoBetterIn bound true (err e) = Unit

abbrev pub NoBetter : QuoteBridgeRequest → ℕ → Provider → Type 0
NoBetter req bound p = NoBetterIn bound (supports req p) (p.get_quote req)

-- The provider does not serve the route, or its answer is an error.
abbrev pub NoAnswerIn : Bool → Checked QuoteBridgeResponse → Type 0
NoAnswerIn false answer = Unit
NoAnswerIn true (ok q) = ⊥
NoAnswerIn true (err e) = Unit

abbrev pub NoAnswer : QuoteBridgeRequest → Provider → Type 0
NoAnswer req p = NoAnswerIn (supports req p) (p.get_quote req)

abbrev pub Supported : QuoteBridgeRequest → List Provider → Type 0
Supported req [] = ⊥
Supported req (p ∷ ps) = (supports req p ≡ true) ⊎ Supported req ps

-- A quote is offered and no other nets more; without a quote no provider of the route answers, and
-- which error it is says whether there is such a provider.
abbrev pub IsBest : QuoteBridgeRequest → List Provider → Checked QuoteBridgeResponse → Type 0
IsBest req ps (ok q) = Offered req ps q × All (NoBetter req (net_buy_amount q)) ps
IsBest req ps (err e) = elim e [
  | no_providers ↦ All (λ (p : Provider). supports req p ≡ false) ps
  | no_quote ↦ Supported req ps × All (NoAnswer req) ps
  | _ ↦ ⊥
]

abbrev In : QuoteBridgeResponse → List QuoteBridgeResponse → Type 0
In q [] = ⊥
In q (x ∷ xs) = (q ≡ x) ⊎ In q xs

List-cases {ℓ} :
    {A : Type ℓ} (xs : List A) → (xs ≡ []) ⊎ ((a : A) × (rest : List A) × (xs ≡ a ∷ rest))
List-cases [] = inl refl
List-cases (x ∷ xs) = inr (x, xs, refl)

abbrev AtMost : ℕ → QuoteBridgeResponse → Type 0
AtMost n q = net_buy_amount q ≤ n

max_by_net_lem :
    (b : QuoteBridgeResponse) (qs : List QuoteBridgeResponse)
    → (q : QuoteBridgeResponse) × (max_by_net (some b) qs ≡ some q)
      × ((q ≡ b) ⊎ In q qs)
      × AtMost (net_buy_amount q) b
      × All (AtMost (net_buy_amount q)) qs
max_by_net_lem b [] = (b, refl, inl refl, omega arith, tt)
max_by_net_lem b (x ∷ qs) = elim (Bool-cases (leb (net_buy_amount b) (net_buy_amount x))) [
  | inl better ↦
      let (q, e, from, first, rest) = max_by_net_lem x qs in
      let grows = leb→le _ _ better in (q, rw better e, inr from, omega arith, (first, rest))
  | inr worse ↦
      let (q, e, from, first, rest) = max_by_net_lem b qs in
      let falls = leb_false→lt _ _ worse in
      (q, rw worse e, later q b x qs from, first, (omega arith, rest))
]
  where
    later :
        (q b x : QuoteBridgeResponse) (qs : List QuoteBridgeResponse)
        → (q ≡ b) ⊎ In q qs
        → (q ≡ b) ⊎ In q (x ∷ qs)
    later q b x qs (inl e) = inl e
    later q b x qs (inr m) = inr (inr m)

module _ (req : QuoteBridgeRequest) where
  abbrev route_answers : List Provider → List QuoteBridgeResponse
  route_answers ps = answers req (eligible req ps)

  first_or_rest :
      (p : Provider) (ps : List Provider) (q a : QuoteBridgeResponse)
      → supports req p ≡ true
      → p.get_quote req ≡ ok a
      → (In q (route_answers ps) → Offered req ps q)
      → (q ≡ a) ⊎ In q (route_answers ps)
      → Offered req (p ∷ ps) q
  first_or_rest p ps q a serves answered rest (inl same) = inl (serves, cc)
  first_or_rest p ps q a serves answered rest (inr m) = inr (rest m)

  In-Offered :
      (ps : List Provider) (q : QuoteBridgeResponse) → In q (route_answers ps) → Offered req ps q
  In-Offered [] q m = absurd m
  In-Offered (p ∷ ps) q m = elim (Bool-cases (supports req p)) [
    | inr other ↦ let rest = rw other at m in inr (In-Offered ps q rest)
    | inl serves ↦ elim (Checked-cases (p.get_quote req)) [
      | inr (e, failed) ↦ let rest = rw (serves, failed) at m in inr (In-Offered ps q rest)
      | inl (a, answered) ↦
          first_or_rest p ps q a serves answered (In-Offered ps q) (rw (serves, answered) at m)
    ]
  ]

  put-NoBetter :
      (n : ℕ) (p : Provider) {b : Bool} {c : Checked QuoteBridgeResponse}
      → supports req p ≡ b
      → p.get_quote req ≡ c
      → NoBetterIn n b c
      → NoBetter req n p
  put-NoBetter n p {b} {c} e f h =
      subst (λ (t : Bool). NoBetterIn n t (p.get_quote req)) (sym e)
        (subst (λ (a : Checked QuoteBridgeResponse). NoBetterIn n b a) (sym f) h)

  put-NoAnswer :
      (p : Provider) {b : Bool} {c : Checked QuoteBridgeResponse}
      → supports req p ≡ b
      → p.get_quote req ≡ c
      → NoAnswerIn b c
      → NoAnswer req p
  put-NoAnswer p {b} {c} e f h =
      subst (λ (t : Bool). NoAnswerIn t (p.get_quote req)) (sym e)
        (subst (λ (a : Checked QuoteBridgeResponse). NoAnswerIn b a) (sym f) h)

  AtMost-NoBetter :
      (n : ℕ) (ps : List Provider) → All (AtMost n) (route_answers ps) → All (NoBetter req n) ps
  AtMost-NoBetter n [] h = tt
  AtMost-NoBetter n (p ∷ ps) h = elim (Bool-cases (supports req p)) [
    | inr other ↦
        let rest = rw other at h in (put-NoBetter n p other refl tt, AtMost-NoBetter n ps rest)
    | inl serves ↦ elim (Checked-cases (p.get_quote req)) [
      | inr (e, failed) ↦
          let rest = rw (serves, failed) at h in
          (put-NoBetter n p serves failed tt, AtMost-NoBetter n ps rest)
      | inl (a, answered) ↦
          let (small, rest) = rw (serves, answered) at h in
          (put-NoBetter n p serves answered small, AtMost-NoBetter n ps rest)
    ]
  ]

  none-NoAnswer : (ps : List Provider) → route_answers ps ≡ [] → All (NoAnswer req) ps
  none-NoAnswer [] h = tt
  none-NoAnswer (p ∷ ps) h = elim (Bool-cases (supports req p)) [
    | inr other ↦ let rest = rw other at h in (put-NoAnswer p other refl tt, none-NoAnswer ps rest)
    | inl serves ↦ elim (Checked-cases (p.get_quote req)) [
      | inr (e, failed) ↦
          let rest = rw (serves, failed) at h in
          (put-NoAnswer p serves failed tt, none-NoAnswer ps rest)
      | inl (a, answered) ↦ let one = rw (serves, answered) at h in absurd (ground arith)
    ]
  ]

  none-unsupported :
      (ps : List Provider)
      → is_empty (eligible req ps) ≡ true
      → All (λ (p : Provider). supports req p ≡ false) ps
  none-unsupported [] h = tt
  none-unsupported (p ∷ ps) h = elim (Bool-cases (supports req p)) [
    | inr other ↦ let rest = rw other at h in (other, none-unsupported ps rest)
    | inl serves ↦ let full = rw serves at h in absurd (ground arith)
  ]

  some-Supported : (ps : List Provider) → is_empty (eligible req ps) ≡ false → Supported req ps
  some-Supported [] h = absurd (ground arith)
  some-Supported (p ∷ ps) h = elim (Bool-cases (supports req p)) [
    | inl serves ↦ inl serves
    | inr other ↦ let rest = rw other at h in inr (some-Supported ps rest)
  ]

  ok_or-IsBest :
      (ps : List Provider)
      → is_empty (eligible req ps) ≡ false
      → IsBest req ps (ok_or (max_by_net none (route_answers ps)) no_quote)
  ok_or-IsBest ps h = elim (List-cases (route_answers ps)) [
    | inl empty ↦ rw empty (some-Supported ps h, none-NoAnswer ps empty)
    | inr (b, qs, full) ↦
        let (q, e, from, first, rest) = max_by_net_lem b qs in
        let offered = In-Offered ps q (subst (In q) (sym full) from) in
        let bounded : All (AtMost (net_buy_amount q)) (route_answers ps) =
          subst (All (AtMost (net_buy_amount q))) (sym full) (first, rest) in
        rw (full, e) (offered, AtMost-NoBetter (net_buy_amount q) ps bounded)
  ]

-- Whatever the providers answer, the result is the best for the request.
pub get_best_quote-IsBest :
    (sdk : BridgingSdk) (req : QuoteBridgeRequest)
    → IsBest req sdk.providers (get_best_quote sdk req)
unfolding get_best_quote
get_best_quote-IsBest sdk req = elim (Bool-cases (is_empty (eligible req sdk.providers))) [
  | inl none_left ↦ rw none_left (none-unsupported req sdk.providers none_left)
  | inr some_left ↦ rw some_left (ok_or-IsBest req sdk.providers some_left)
]
