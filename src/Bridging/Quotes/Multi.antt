-- ===== src/Bridging/Quotes/Multi.antt =====
-- All quotes in order, and how their first agrees with the best quote.
use mathlib.Core.Path.{subst}
use mathlib.Core.List.{Perm}
use mathlib.Core.List.Perm
use native.Mathlib.Nat.{le_trans, le_antisymm, le_refl}
use cow_rs.Base.{
  ℕ, zero, suc, ◌+◌, ◌≤◌, ◌<◌, ◌≡◌, refl, ap, ◌∙◌, inl, inr, leb, Bool, true, false, Bool-cases,
  some, List, [], ◌∷◌, map, length, get_elem?, All, arith, leb→le, leb_false→lt, length-map, ◌↔◌,
}
use cow_rs.Base.Hex.{Text}
use cow_rs.Bridging.{
  api_error, Checked, Checked-cases, ok, QuoteBridgeRequest, QuoteBridgeResponse, net_buy_amount,
  MultiQuoteResult,
}
use cow_rs.Bridging.Quotes.{
  Provider, BridgingSdk, get_best_quote, entry_of, entry, failed, execute_provider_quotes,
  lacks_result, fill_at, fill_from, ranked_amount, insert_ranked, sort_ranked, fetch_multi_quote,
}
use cow_rs.Bridging.Quotes.Best.{
  supports, Offered, NoBetterIn, NoBetter, IsBest, get_best_quote-IsBest,
}

-- The entry has a quote or an error.
abbrev Answered : MultiQuoteResult → Type 0
Answered r = lacks_result r ≡ false

Answered-at :
    (rs : List MultiQuoteResult) (i : ℕ)
    → All Answered rs
    → i < length rs
    → (r : MultiQuoteResult) × (get_elem? rs i ≡ some r) × Answered r
Answered-at [] i hs h = absurd (omega arith)
Answered-at (r ∷ rs) zero (a, hs) h = (r, refl, a)
Answered-at (r ∷ rs) (suc i) (a, hs) h = Answered-at rs i hs (omega arith)

-- Where every entry is answered and there is one for each identifier, nothing is filled in.
fill_from-Answered :
    (i : ℕ) (rs : List MultiQuoteResult) (ids : List Text)
    → All Answered rs
    → i + length ids ≤ length rs
    → fill_from i rs ids ≡ rs
unfolding fill_from
fill_from-Answered i rs [] hs h = refl
fill_from-Answered i rs (id ∷ ids) hs h =
    let (r, e, a) = Answered-at rs i hs (omega arith) in
    let same : fill_at rs i id ≡ rs = rw (e, fill_at) (rw a) in
    ap (λ (xs : List MultiQuoteResult). fill_from (suc i) xs ids) same
    ∙ fill_from-Answered (suc i) rs ids hs (omega arith)

-- Each entry comes no later than those with smaller amounts.
abbrev pub Descending : List MultiQuoteResult → Type 0
Descending [] = Unit
Descending (r ∷ rs) =
    All (λ (s : MultiQuoteResult). ranked_amount s ≤ ranked_amount r) rs × Descending rs

All-insert_ranked :
    (P : MultiQuoteResult → Type 0) (r : MultiQuoteResult) (rs : List MultiQuoteResult)
    → All P (insert_ranked r rs) ↔ (P r × All P rs)
All-insert_ranked P r [] = (λ h. h, λ h. h)
All-insert_ranked P r (s ∷ rs) = elim (Bool-cases (leb (ranked_amount s) (ranked_amount r))) [
  | inl front ↦ rw front (λ h. h, λ h. h)
  | inr behind ↦
      let rest = All-insert_ranked P r rs in
      rw behind (λ h. let (p, ps) = rest.0 h.1 in (p, (h.0, ps)), λ h. (h.1.0, rest.1 (h.0, h.1.1)))
]

All-sort_ranked :
    (P : MultiQuoteResult → Type 0) (rs : List MultiQuoteResult) → All P (sort_ranked rs) → All P rs
unfolding sort_ranked
All-sort_ranked P [] h = tt
All-sort_ranked P (r ∷ rs) h =
    let (p, ps) = (All-insert_ranked P r (sort_ranked rs)).0 h in (p, All-sort_ranked P rs ps)

All-to_sorted :
    (P : MultiQuoteResult → Type 0) (rs : List MultiQuoteResult) → All P rs → All P (sort_ranked rs)
unfolding sort_ranked
All-to_sorted P [] h = tt
All-to_sorted P (r ∷ rs) (p, ps) =
    (All-insert_ranked P r (sort_ranked rs)).1 (p, All-to_sorted P rs ps)

All-le-le :
    (m n : ℕ) (rs : List MultiQuoteResult)
    → m ≤ n
    → All (λ (s : MultiQuoteResult). ranked_amount s ≤ m) rs
    → All (λ (s : MultiQuoteResult). ranked_amount s ≤ n) rs
All-le-le m n [] h k = tt
All-le-le m n (r ∷ rs) h (k, ks) = (le_trans k h, All-le-le m n rs h ks)

insert_ranked-Descending :
    (r : MultiQuoteResult) (rs : List MultiQuoteResult)
    → Descending rs
    → Descending (insert_ranked r rs)
insert_ranked-Descending r [] h = (tt, tt)
insert_ranked-Descending r (s ∷ rs) h =
    elim (Bool-cases (leb (ranked_amount s) (ranked_amount r))) [
      | inl front ↦
          let le = leb→le _ _ front in
          rw front ((le, All-le-le (ranked_amount s) (ranked_amount r) rs le h.0), h)
      | inr behind ↦
          let lt = leb_false→lt _ _ behind in
          rw behind (
            (All-insert_ranked (λ (t : MultiQuoteResult). ranked_amount t ≤ ranked_amount s) r rs).1
                (omega arith, h.0),
            insert_ranked-Descending r rs h.1,
          )
    ]

sort_ranked-Descending : (rs : List MultiQuoteResult) → Descending (sort_ranked rs)
unfolding sort_ranked
sort_ranked-Descending [] = tt
sort_ranked-Descending (r ∷ rs) =
    insert_ranked-Descending r (sort_ranked rs) (sort_ranked-Descending rs)

insert_ranked-perm :
    (r : MultiQuoteResult) (rs : List MultiQuoteResult) → Perm (insert_ranked r rs) (r ∷ rs)
insert_ranked-perm r [] = Perm.refl (r ∷ [])
insert_ranked-perm r (s ∷ rs) = elim (Bool-cases (leb (ranked_amount s) (ranked_amount r))) [
  | inl front ↦ rw front (Perm.refl (r ∷ s ∷ rs))
  | inr behind ↦ rw behind (Perm.trans (Perm.cons s (insert_ranked-perm r rs)) (Perm.swap r s rs))
]

sort_ranked-perm : (rs : List MultiQuoteResult) → Perm (sort_ranked rs) rs
unfolding sort_ranked
sort_ranked-perm [] = Perm.refl []
sort_ranked-perm (r ∷ rs) =
    Perm.trans (insert_ranked-perm r (sort_ranked rs)) (Perm.cons r (sort_ranked-perm rs))

executed-Answered :
    (timed_out : Bool) (sdk : BridgingSdk) (req : QuoteBridgeRequest)
    → All Answered (execute_provider_quotes timed_out sdk req)
unfolding execute_provider_quotes
executed-Answered true sdk req = fails sdk.providers
  where
    fails :
        (ps : List Provider)
        → All Answered (map (λ (p : Provider). failed p.name (api_error "Multi-quote timeout")) ps)
    fails [] = tt
    fails (p ∷ ps) = (refl, fails ps)
executed-Answered false sdk req = entries sdk.providers
  where
    entry-Answered : (p : Provider) → Answered (entry req p)
    entry-Answered p = elim (Checked-cases (p.get_quote req)) [
      | inl (q, e) ↦
          ap (λ (a : Checked QuoteBridgeResponse). lacks_result (entry_of req p.name a)) e
      | inr (x, e) ↦
          ap (λ (a : Checked QuoteBridgeResponse). lacks_result (entry_of req p.name a)) e
    ]

    entries : (ps : List Provider) → All Answered (map (entry req) ps)
    entries [] = tt
    entries (p ∷ ps) = (entry-Answered p, entries ps)

length-executed :
    (timed_out : Bool) (sdk : BridgingSdk) (req : QuoteBridgeRequest)
    → length (execute_provider_quotes timed_out sdk req) ≡ length sdk.providers
unfolding execute_provider_quotes
length-executed true sdk req = length-map _ sdk.providers
length-executed false sdk req = length-map _ sdk.providers

fetch_multi_quote_eq :
    (timed_out : Bool) (sdk : BridgingSdk) (req : QuoteBridgeRequest)
    → fetch_multi_quote timed_out sdk req ≡ sort_ranked (execute_provider_quotes timed_out sdk req)
unfolding fetch_multi_quote
fetch_multi_quote_eq timed_out sdk req = ap sort_ranked (
    fill_from-Answered 0 (execute_provider_quotes timed_out sdk req)
      (map (λ (p : Provider). p.name) sdk.providers) (executed-Answered timed_out sdk req)
      (omega (
        arith,
        length-executed timed_out sdk req,
        length-map (λ (p : Provider). p.name) sdk.providers,
      )))

-- Whether the timeout passes or not, the result is a rearrangement of one answered entry for each
-- provider, and no entry comes behind one with a smaller amount.
pub fetch_multi_quote_lem :
    (timed_out : Bool) (sdk : BridgingSdk) (req : QuoteBridgeRequest)
    → Perm (fetch_multi_quote timed_out sdk req) (execute_provider_quotes timed_out sdk req)
      × Descending (fetch_multi_quote timed_out sdk req)
      × All (λ (r : MultiQuoteResult). lacks_result r ≡ false) (fetch_multi_quote timed_out sdk req)
      × (length (execute_provider_quotes timed_out sdk req) ≡ length sdk.providers)
fetch_multi_quote_lem timed_out sdk req = rw fetch_multi_quote_eq (
  sort_ranked-perm (execute_provider_quotes timed_out sdk req),
  sort_ranked-Descending (execute_provider_quotes timed_out sdk req),
  All-to_sorted Answered _ (executed-Answered timed_out sdk req),
  length-executed timed_out sdk req,
)

abbrev Below : ℕ → MultiQuoteResult → Type 0
Below n r = ranked_amount r ≤ n

-- The amount by which the entry of a provider is ranked.
amount_of :
    (req : QuoteBridgeRequest) (p : Provider) {a : Checked QuoteBridgeResponse}
    → p.get_quote req ≡ a
    → ranked_amount (entry req p) ≡ ranked_amount (entry_of req p.name a)
amount_of req p e =
    ap (λ (a : Checked QuoteBridgeResponse). ranked_amount (entry_of req p.name a)) e

Offered-le :
    (req : QuoteBridgeRequest) (n : ℕ) (ps : List Provider) (q : QuoteBridgeResponse)
    → All (Below n) (map (entry req) ps)
    → Offered req ps q
    → net_buy_amount q ≤ n
Offered-le req n [] q h o = absurd o
Offered-le req n (p ∷ ps) q (h, hs) (inl (serves, answered)) =
    omega (arith, amount_of req p answered)
Offered-le req n (p ∷ ps) q (h, hs) (inr o) = Offered-le req n ps q hs o

take-NoBetter :
    (req : QuoteBridgeRequest) (n : ℕ) (p : Provider) (q : QuoteBridgeResponse)
    → supports req p ≡ true
    → p.get_quote req ≡ ok q
    → NoBetter req n p
    → net_buy_amount q ≤ n
take-NoBetter req n p q e f h =
    subst (λ (a : Checked QuoteBridgeResponse). NoBetterIn n true a) f
      (subst (λ (t : Bool). NoBetterIn n t (p.get_quote req)) e h)

bounded-Below :
    (req : QuoteBridgeRequest) (n : ℕ) (ps : List Provider)
    → All (λ (p : Provider). supports req p ≡ true) ps
    → All (NoBetter req n) ps
    → All (Below n) (map (entry req) ps)
bounded-Below req n [] s h = tt
bounded-Below req n (p ∷ ps) (s, ss) (h, hs) = elim (Checked-cases (p.get_quote req)) [
  | inl (q, e) ↦
      let small : net_buy_amount q ≤ n = take-NoBetter req n p q s e h in
      (omega (arith, amount_of req p e), bounded-Below req n ps ss hs)
  | inr (x, e) ↦ (omega (arith, amount_of req p e), bounded-Below req n ps ss hs)
]

module _ (sdk : BridgingSdk) (req : QuoteBridgeRequest) (q : QuoteBridgeResponse)
    (offered : Offered req sdk.providers q) where
  abbrev rs : List MultiQuoteResult
  rs = map (entry req) sdk.providers

  first_of :
      (sorted : List MultiQuoteResult)
      → sorted ≡ sort_ranked rs
      → All (Below (net_buy_amount q)) sorted
      → Descending sorted
      → (r : MultiQuoteResult) × (rest : List MultiQuoteResult) × (sorted ≡ r ∷ rest)
        × (ranked_amount r ≡ net_buy_amount q)
  first_of [] e below d =
      let nothing =
        All-sort_ranked (λ (r : MultiQuoteResult). ⊥) rs
          (subst (All (λ (r : MultiQuoteResult). ⊥)) e tt) in
      absurd (no_offer sdk.providers offered nothing)
    where
      no_offer :
          (ps : List Provider)
          → Offered req ps q
          → All (λ (r : MultiQuoteResult). ⊥) (map (entry req) ps)
          → ⊥
      no_offer [] o h = o
      no_offer (p ∷ ps) o h = h.0
  first_of (r ∷ rest) e (small, below) (top, d) =
      let n = ranked_amount r in
      let all_small = All-sort_ranked (Below n) rs (subst (All (Below n)) e (le_refl n, top)) in
      (r, rest, refl, le_antisymm small (Offered-le req n sdk.providers q all_small offered))

-- Where every provider serves the route and none is late, the first of all quotes nets exactly what
-- the best quote does.
pub fetch_multi_quote-get_best_quote :
    (sdk : BridgingSdk) (req : QuoteBridgeRequest) (q : QuoteBridgeResponse)
    → All (λ (p : Provider). supports req p ≡ true) sdk.providers
    → get_best_quote sdk req ≡ ok q
    → (r : MultiQuoteResult) × (rest : List MultiQuoteResult) × (fetch_multi_quote false sdk req
        ≡ r ∷ rest)
      × (ranked_amount r ≡ net_buy_amount q)
unfolding execute_provider_quotes
fetch_multi_quote-get_best_quote sdk req q s e =
    let best : IsBest req sdk.providers (ok q) =
      subst (IsBest req sdk.providers) e (get_best_quote-IsBest sdk req) in
    let n = net_buy_amount q in
    let below = All-to_sorted (Below n) _ (bounded-Below req n sdk.providers s best.1) in
    let (r, rest, same, top) =
      first_of sdk req q best.0 (sort_ranked (map (entry req) sdk.providers)) refl below
        (sort_ranked-Descending (map (entry req) sdk.providers)) in
    (r, rest, fetch_multi_quote_eq false sdk req ∙ same, top)
