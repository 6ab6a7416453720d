-- ===== src/Reconciliation/Safe.antt =====
-- What a reconciliation without issues means.
use danta.Common.{
  String, ◌≡◌, refl, ◌↔◌, inl, inr, Bool-cases, true, false, not, ◌&&◌, some, List, [], ◌∷◌, arith,
  Option-cases,
}
use danta.Common.Lists.{length, length-append}
use danta.Common.Eq.{string_eq}
use danta.Common.Dict.{
  Dict, lookup, contains, insert, Distinct, insert-Distinct, Each, Each-lookup, lookup-Each,
}
use danta.Common.Decimal.{Decimals}
use danta.Session.{SymbolState, SymbolSession}
use danta.Reconciliation.{
  AccountPosition, expects_position, safe_for_new_entries, by_symbol, broker_issues, scan_broker,
  scan_sessions, reconcile_positions,
}

-- the states POSITION_OPEN, PARTIALLY_FILLED and SELL_PENDING
pub data IsTracked : SymbolState → Type 0 where
  opened : IsTracked SymbolState.position_open
  partial : IsTracked SymbolState.partially_filled
  selling : IsTracked SymbolState.sell_pending

tracked_lem : (state : SymbolState) → (expects_position state ≡ true) ↔ IsTracked state
tracked_lem SymbolState.position_open = ((λ _. opened), (λ _. refl))
tracked_lem SymbolState.partially_filled = ((λ _. partial), (λ _. refl))
tracked_lem SymbolState.sell_pending = ((λ _. selling), (λ _. refl))
tracked_lem SymbolState.idle = ((λ h. absurd (ground arith)), elim [ ])
tracked_lem SymbolState.watching_entry = ((λ h. absurd (ground arith)), elim [ ])
tracked_lem SymbolState.buy_pending = ((λ h. absurd (ground arith)), elim [ ])
tracked_lem SymbolState.closed = ((λ h. absurd (ground arith)), elim [ ])
tracked_lem SymbolState.invalidated = ((λ h. absurd (ground arith)), elim [ ])
tracked_lem SymbolState.quarantined = ((λ h. absurd (ground arith)), elim [ ])

module _ (D : Decimals) where
  -- The position of the broker has a session, of the same quantity.
  abbrev pub Known : Dict String SymbolSession → String → AccountPosition D → Type 0
  Known sessions symbol position =
      (s : SymbolSession) × (lookup symbol sessions ≡ some s) × (s.quantity ≡ position.quantity)

  -- A session in one of these states is of a symbol that the broker reports.
  abbrev pub Backed : Dict String (AccountPosition D) → String → SymbolSession → Type 0
  Backed broker symbol s =
      IsTracked s.state → (p : AccountPosition D) × (lookup symbol broker ≡ some p)

  not_reported :
      (broker : Dict String (AccountPosition D)) (symbol : String) (s : SymbolSession)
      → ((expects_position s.state && not (contains symbol broker)) ≡ false)
        ↔ Backed broker symbol s
  not_reported broker symbol s =
      let (tracked, tracked') = tracked_lem s.state in
      elim (Option-cases (lookup symbol broker)) [
        | inl missing ↦ (
          (λ h t. absurd (ground (arith, tracked' t))),
          (λ b. elim (Bool-cases (expects_position s.state)) [
            | inl held ↦ let (p, found) = b (tracked held) in absurd (ground arith)
            | inr other ↦ ground arith
          ]),
        )
        | inr (p, found) ↦ ((λ h t. (p, found)), (λ b. ground arith))
      ]

  by_symbol-Distinct :
      (d : Dict String (AccountPosition D)) (ps : List (AccountPosition D))
      → Distinct d
      → Distinct (by_symbol D d ps)
  unfolding by_symbol
  by_symbol-Distinct d [] h = h
  by_symbol-Distinct d (p ∷ ps) h =
      by_symbol-Distinct (insert p.symbol p d) ps (insert-Distinct p.symbol p d h)

  quiet_position :
      (sessions : Dict String SymbolSession) (symbol : String) (p : AccountPosition D)
      → (length (broker_issues D sessions symbol p (lookup symbol sessions)).0 ≡ 0)
        ↔ Known sessions symbol p
  quiet_position sessions symbol p = elim (Option-cases (lookup symbol sessions)) [
    | inl missing ↦ ((λ h. absurd (ground arith)), (λ (s, found, _). absurd (ground arith)))
    | inr (s, found) ↦ ((λ h. (s, found, ground arith)), (λ (s', found', same). ground arith))
  ]

  quiet_broker :
      (sessions : Dict String SymbolSession) (broker : Dict String (AccountPosition D))
      → (length (scan_broker D sessions broker).0 ≡ 0) ↔ Each (Known sessions) broker
  unfolding scan_broker
  quiet_broker sessions [] = ((λ _. tt), (λ _. refl))
  quiet_broker sessions (x ∷ broker) =
      let (first, first') = quiet_position sessions x.0 x.1 in
      let (rest, rest') = quiet_broker sessions broker in
      let both =
        length-append (broker_issues D sessions x.0 x.1 (lookup x.0 sessions)).0
          (scan_broker D sessions broker).0 in
      (
        λ h. (first (omega (arith, both, h)), rest (omega (arith, both, h))),
        λ (a, b). omega (arith, both, first' a, rest' b),
      )

  quiet_sessions :
      (broker : Dict String (AccountPosition D)) (sessions : Dict String SymbolSession)
      → (length (scan_sessions D broker sessions) ≡ 0) ↔ Each (Backed broker) sessions
  unfolding scan_sessions
  quiet_sessions broker [] = ((λ _. tt), (λ _. refl))
  quiet_sessions broker (x ∷ sessions) =
      let (rest, rest') = quiet_sessions broker sessions in
      let (here, here') = not_reported broker x.0 x.1 in
      (λ h. (here (ground arith), rest (ground arith)), λ (a, b). ground (arith, here' a, rest' b))

  -- For sessions under distinct symbols, new entries are safe after a reconciliation exactly if every
  -- symbol that the broker reports has a session of the same quantity, and every session in the state
  -- POSITION_OPEN, PARTIALLY_FILLED or SELL_PENDING is of a symbol that the broker reports. A session
  -- in another state, a quarantined one with shares included, is not looked at by the second condition.
  pub reconcile-safe :
      (positions : List (AccountPosition D)) (sessions : Dict String SymbolSession)
      → Distinct sessions
      → let broker = by_symbol D [] positions in
        (safe_for_new_entries D (reconcile_positions D positions sessions) ≡ true) ↔ (
          ((symbol : String) (p : AccountPosition D)
            → lookup symbol broker ≡ some p
            → Known sessions symbol p)
          × ((symbol : String) (s : SymbolSession)
              → lookup symbol sessions ≡ some s
              → Backed broker symbol s))
  unfolding reconcile_positions
  reconcile-safe positions sessions u =
      let broker = by_symbol D [] positions in
      let (known, known') = quiet_broker sessions broker in
      let (backed, backed') = quiet_sessions broker sessions in
      let both =
        length-append (scan_broker D sessions broker).0 (scan_sessions D broker sessions) in
      (
        λ h. (
          (λ symbol p. Each-lookup (Known sessions) broker symbol p (known (ground (arith, both)))),
          (λ symbol s.
              Each-lookup (Backed broker) sessions symbol s (backed (ground (arith, both)))),
        ),
        λ (a, b).
            let k =
              known' (lookup-Each (Known sessions) broker (by_symbol-Distinct [] positions tt) a) in
            let l = backed' (lookup-Each (Backed broker) sessions u b) in
            ground (arith, both, k, l),
      )
