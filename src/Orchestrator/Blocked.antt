-- ===== src/Orchestrator/Blocked.antt =====
-- New buys after an order whose outcome is unknown, and the shares of a session.
use danta.Common.{
  String, ◌≡◌, ◌||◌, subst, inl, inr, true, false, none, some, arith, Bool-cases, Option-cases,
}
use danta.Common.Int.{ℤ, pos, ◌-ℤ◌, ◌≤ℤ◌, ltb_ℤ, max_ℤ, int_laws}
use danta.Common.Eq.{string_eq, ◌==◌}
use danta.Common.Dict.{lookup, lookup-insert}
use danta.Common.Time.{Datetime}
use danta.Common.Result.{ok}
use danta.Common.Decimal.{Decimals}
use danta.Entry.{EntryDecision}
use danta.Session.{IntentSide, OrderIntent, SymbolSession}
use danta.Orchestrator.{Orchestrator, Outcome, reconcile_complete}
use danta.Orchestrator.Calls.{handle_entry_decision, filled, record_fill, record_order_failure}

zero-le-max : (a : ℤ) → pos 0 ≤ℤ max_ℤ (pos 0) a
unfolding max_ℤ
zero-le-max a = ground arith

max_mono : (a b : ℤ) → a ≤ℤ b → max_ℤ (pos 0) a ≤ℤ max_ℤ (pos 0) b
unfolding max_ℤ
max_mono a b h = ground arith

-- A session does not hold or offer less than nothing, nor offer more than it holds.
pub record IsSound (s : SymbolSession) : Type 0 where
  pub sellable : pos 0 ≤ℤ s.sellable_quantity
  pub held : s.sellable_quantity ≤ℤ s.quantity

module _ (D : Decimals) (show : ℤ → String) where
  -- After the failure of an order with an unknown outcome, of a symbol that has a session, no entry
  -- decision does anything, for any symbol, also after a reconciliation that found an issue.
  pub unknown_blocks_entries :
      (intent : OrderIntent) (session : SymbolSession) (o : Orchestrator D) (mandate_id : String)
      (d : EntryDecision) (at : Datetime) (attempt : ℤ)
      → lookup intent.symbol o.sessions ≡ some session
      → pos 0 ≤ℤ attempt
      → let o' = (record_order_failure D show intent true o).1 in
        let o'' = reconcile_complete D show false o' in
        (handle_entry_decision D show mandate_id d at attempt o' ≡ (Outcome.done (ok none), o'))
        × (handle_entry_decision D show mandate_id d at attempt o'' ≡ (Outcome.done (ok none), o''))
  unfolding record_order_failure handle_entry_decision reconcile_complete
  unknown_blocks_entries intent session o mandate_id d at attempt known counted =
      (ground arith, ground arith)

  filled-IsSound :
      (side : IntentSide) (n remaining : ℤ) (s : SymbolSession)
      → pos 0 ≤ℤ n
      → IsSound s
      → IsSound (filled D show side n remaining s)
  unfolding filled
  filled-IsSound IntentSide.buy n remaining s h v = record {
    sellable = omega (int_laws, h, v.sellable);
    held = omega (int_laws, v.held);
  }
  filled-IsSound IntentSide.sell n remaining s h v =
      let less : s.sellable_quantity -ℤ n ≤ℤ s.quantity -ℤ n = omega (int_laws, v.held) in
      record {
        sellable = zero-le-max (s.sellable_quantity -ℤ n);
        held = max_mono (s.sellable_quantity -ℤ n) (s.quantity -ℤ n) less;
      }
  filled-IsSound IntentSide.cancel n remaining s h v = v

  -- A fill leaves every session sound: if each session of the orchestrator was, each still is, whether
  -- the fill was recorded or refused.
  pub record_fill-IsSound :
      (symbol : String) (side : IntentSide) (n remaining : ℤ) (o : Orchestrator D)
      → ((k : String) (s : SymbolSession) → lookup k o.sessions ≡ some s → IsSound s)
      → (k : String) (s : SymbolSession)
      → lookup k (record_fill D show symbol side n remaining o).1.sessions ≡ some s
      → IsSound s
  unfolding record_fill
  record_fill-IsSound symbol side n remaining o v k s h =
      elim (Bool-cases (ltb_ℤ n (pos 0) || ltb_ℤ remaining (pos 0))) [
        | inl negative ↦ v k s (ground arith)
        | inr counted ↦ elim (Option-cases (lookup symbol o.sessions)) [
          | inl unknown ↦ v k s (ground arith)
          | inr (old, known) ↦
              let sound = filled-IsSound side n remaining old (ground arith) (v symbol old known) in
              elim (Bool-cases (symbol == k)) [
                | inl same ↦
                    let e : filled D show side n remaining old ≡ s = ground (
                      arith,
                      lookup-insert symbol k (filled D show side n remaining old) o.sessions,
                    ) in
                    subst IsSound e sound
                | inr other ↦ v k s (
                    ground (
                      arith,
                      lookup-insert symbol k (filled D show side n remaining old) o.sessions,
                    ))
              ]
        ]
      ]
