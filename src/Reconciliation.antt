-- ===== src/Reconciliation.antt =====
-- src/danta/services/reconciliation.py: the positions of the broker against the internal sessions.
pub mod Safe
use danta.Common.{
  String, Bool, true, false, not, ◌&&◌, ◌||◌, Option, none, some, List, [], ◌∷◌, ◌++◌, eqb,
  if◌then◌else◌,
}
use danta.Common.Int.{ℤ, pos, eqb_ℤ}
use danta.Common.Lists.{length}
use danta.Common.Eq.{string_eq}
use danta.Common.Dict.{Dict, lookup, contains, insert}
use danta.Common.Result.{Result, ok, err, value_error, ◌>>=◌, ◌>>◌, raise_if}
use danta.Common.Decimal.{Decimals}
use danta.Session.{SymbolState, SymbolSession, new_session}

-- of src/danta/ports/broker.py
pub record AccountPosition (D : Decimals) : Type 0 where
  pub symbol : String
  pub quantity : ℤ
  pub sellable_quantity : ℤ
  pub average_price : D.Decimal

pub record ReconciliationIssue : Type 0 where
  pub symbol : String
  pub code : String
  pub broker_quantity : ℤ
  pub internal_quantity : ℤ

pub record ReconciliationResult (D : Decimals) : Type 0 where
  pub issues : List ReconciliationIssue
  pub discovered_positions : List (AccountPosition D)

abbrev pub issue : String → String → ℤ → ℤ → ReconciliationIssue
issue symbol code broker_quantity internal_quantity = record {
  symbol = symbol;
  code = code;
  broker_quantity = broker_quantity;
  internal_quantity = internal_quantity;
}

-- the three states whose sessions must be among the positions of the broker; a quarantined session,
-- which may hold shares too, is not looked at
abbrev pub expects_position : SymbolState → Bool
expects_position SymbolState.position_open = true
expects_position SymbolState.partially_filled = true
expects_position SymbolState.sell_pending = true
expects_position _ = false

module _ (D : Decimals) where
  abbrev pub safe_for_new_entries : ReconciliationResult D → Bool
  safe_for_new_entries r = eqb (length r.issues) 0

  -- `{position.symbol: position for position in broker_positions}`
  unfoldable pub by_symbol :
      Dict String (AccountPosition D) → List (AccountPosition D) → Dict String (AccountPosition D)
  by_symbol d [] = d
  by_symbol d (p ∷ positions) = by_symbol (insert p.symbol p d) positions

  module _ (sessions : Dict String SymbolSession) where
    -- what the first loop does for one position of the broker
    abbrev pub broker_issues :
        String
        → AccountPosition D
        → Option SymbolSession
        → List ReconciliationIssue × List (AccountPosition D)
    broker_issues symbol position none =
        (issue symbol "BROKER_ONLY_POSITION" position.quantity (pos 0) ∷ [], position ∷ [])
    broker_issues symbol position (some session) = (
      if not (eqb_ℤ session.quantity position.quantity)
          then issue symbol "POSITION_QUANTITY_MISMATCH" position.quantity session.quantity ∷ []
          else [],
      [],
    )

    unfoldable pub scan_broker :
        Dict String (AccountPosition D) → List ReconciliationIssue × List (AccountPosition D)
    scan_broker [] = ([], [])
    scan_broker (x ∷ broker) =
        let (issues, discovered) = broker_issues x.0 x.1 (lookup x.0 sessions) in
        let (issues', discovered') = scan_broker broker in
        (issues ++ issues', discovered ++ discovered')

  -- the second loop
  unfoldable pub scan_sessions :
      Dict String (AccountPosition D) → Dict String SymbolSession → List ReconciliationIssue
  scan_sessions broker [] = []
  scan_sessions broker (x ∷ sessions) =
      let rest = scan_sessions broker sessions in
      if expects_position x.1.state && not (contains x.0 broker)
      then issue x.0 "INTERNAL_ONLY_POSITION" (pos 0) x.1.quantity ∷ rest
      else rest

  unfoldable pub reconcile_positions :
      List (AccountPosition D) → Dict String SymbolSession → ReconciliationResult D
  unfolding scan_broker scan_sessions by_symbol
  reconcile_positions broker_positions sessions =
      let broker = by_symbol [] broker_positions in
      let (issues, discovered) = scan_broker sessions broker in
      record { issues = issues ++ scan_sessions broker sessions; discovered_positions = discovered }

  unfoldable pub recovered_session : AccountPosition D → ℤ → Result SymbolSession
  recovered_session position generation = do
    raise_if (D.le position.average_price (D.of_int (pos 0)))
        (value_error "broker position average price must be positive")
    ok (record (new_session position.symbol generation SymbolState.position_open) {
      quantity = position.quantity;
      sellable_quantity = position.sellable_quantity;
    })
