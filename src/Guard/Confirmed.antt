-- ===== src/Guard/Confirmed.antt =====
-- When the guard stops new entries: at once for an emergency or missing data, else after a run of
-- observations that all ask for it.
use danta.Common.{
  ℕ, zero, suc, ◌≡◌, refl, ap, ◌↔◌, ◌⊎◌, Bool, true, false, not, ◌&&◌, ◌||◌, List, [], ◌∷◌, map,
  arith, ltb, if◌then◌else◌,
}
use danta.Common.Lists.{length, any, All, latest}
use danta.Common.Result.{ok, err, raise_if, >>=-eq-ok, ok_injective}
use danta.Common.Decimal.{Decimals}
use danta.Market.{MarketRisk, is_risk_off, outside_unit}
use danta.Guard.{
  MarketGuardPolicy, MarketGuardObservation, MarketGuardDecision, History, is_panic, is_emergency,
  reading, unconfirmed, observe,
}

latest-latest :
    (n : ℕ) (x : MarketRisk) (xs : History) → latest n (x ∷ latest n xs) ≡ latest n (x ∷ xs)
unfolding latest
latest-latest zero x xs = refl
latest-latest (suc zero) x xs = refl
latest-latest (suc (suc n)) x [] = refl
latest-latest (suc (suc n)) x (y ∷ xs) = ap (λ l. x ∷ l) (latest-latest (suc n) y xs)

latest_none : (n : ℕ) → ◌≡◌ {A = History} [] (latest n [])
unfolding latest
latest_none zero = refl
latest_none (suc n) = refl

-- `n` items at least, and the first `n` of them all risk off
abbrev pub Lasting : ℕ → History → Type 0
Lasting zero items = Unit
Lasting (suc n) [] = ⊥
Lasting (suc n) (x ∷ items) = (is_risk_off x ≡ true) × Lasting n items

-- the test of the code on the items that it kept
abbrev pub short_or_mixed : ℕ → History → Bool
short_or_mixed n items = ltb (length items) n || any (λ item. not (is_risk_off item)) items

lasting : (n : ℕ) (items : History) → (short_or_mixed n (latest n items) ≡ false) ↔ Lasting n items
unfolding latest
lasting zero items = ((λ _. tt), (λ _. refl))
lasting (suc n) [] = ((λ h. absurd (ground arith)), (λ h. absurd h))
lasting (suc n) (x ∷ items) = (
  λ h. (ground arith, (lasting n items).0 (ground arith)),
  λ (off, rest). ground (arith, (lasting n items).1 rest),
)

module _ (D : Decimals) (p : MarketGuardPolicy D) where
  abbrev pub instant : MarketGuardObservation D → MarketRisk
  instant v = (reading D p v).instantaneous

  -- the history after observations, given with the latest first; one that raises changes nothing
  unfoldable pub history_of : List (MarketGuardObservation D) → History
  history_of [] = []
  history_of (v ∷ earlier) =
      let history = history_of earlier in
      elim (observe D p v history) [ ok (d, history') ↦ history' | err e ↦ history ]

  abbrev pub Accepted : MarketGuardObservation D → Type 0
  Accepted v = outside_unit D v.declining_issue_ratio ≡ false

  history-latest :
      (vs : List (MarketGuardObservation D))
      → All Accepted vs
      → history_of vs ≡ latest p.confirmation_samples (map instant vs)
  unfolding history_of observe
  history-latest [] h = latest_none p.confirmation_samples
  history-latest (v ∷ vs) (h, hs) =
      rw (history_of, observe, h, history-latest vs hs)
        (latest-latest p.confirmation_samples (instant v) (map instant vs))

  -- a reading of panic is an emergency on complete data
  panic_reading :
      (v : MarketGuardObservation D)
      → (is_panic (reading D p v).level ≡ true)
        ↔ ((v.provider_complete ≡ true) × (is_emergency D p v ≡ true))
  unfolding reading
  panic_reading v = ((λ h. (ground arith, ground arith)), (λ (a, b). ground arith))

  decided :
      (v : MarketGuardObservation D) (history history' : History) (d : MarketGuardDecision D)
      → observe D p v history ≡ ok (d, history')
      → is_risk_off d.risk ≡ (
          is_risk_off (instant v)
          && not (
              unconfirmed D p v
                (reading D p v)
                (latest p.confirmation_samples (instant v ∷ history))))
  unfolding observe
  decided v history history' d h =
      let (_, _, e) = >>=-eq-ok (raise_if (outside_unit D v.declining_issue_ratio) _) _ h in
      rw (← ap (λ (x : MarketGuardDecision D × History). x.0.risk) (ok_injective e)) (
        choice
          (unconfirmed D p v (reading D p v) (latest p.confirmation_samples (instant v ∷ history))))
    where
      choice :
          (b : Bool)
          → is_risk_off (if b then MarketRisk.caution else instant v)
            ≡ (is_risk_off (instant v) && not b)
      choice b = ground arith

  -- After accepted observations and for one more, new entries are stopped exactly if it asks for it
  -- and either the data are incomplete, or there is an emergency, or the latest
  -- `confirmation_samples` observations, which must exist, all ask for it.
  pub observe-risk_off :
      (v : MarketGuardObservation D) (vs : List (MarketGuardObservation D))
      (d : MarketGuardDecision D) (history' : History)
      → All Accepted vs
      → observe D p v (history_of vs) ≡ ok (d, history')
      → (is_risk_off d.risk ≡ true) ↔ (
          (is_risk_off (instant v) ≡ true)
          × ((v.provider_complete ≡ false)
              ⊎ ((is_emergency D p v ≡ true)
                  ⊎ Lasting p.confirmation_samples (map instant (v ∷ vs)))))
  unfolding unconfirmed
  observe-risk_off v vs d history' accepted h =
      let n = p.confirmation_samples in
      let items = map instant (v ∷ vs) in
      let kept : latest n (instant v ∷ history_of vs) ≡ latest n items =
        rw (history-latest vs accepted) (latest-latest n (instant v) (map instant vs)) in
      let e = decided v (history_of vs) history' d h in
      let (panics, emergency) = panic_reading v in
      let (settled, lasts) = lasting n items in ground arith
