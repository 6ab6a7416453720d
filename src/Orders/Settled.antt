-- ===== src/Orders/Settled.antt =====
-- A key with a known or an unknown outcome is never sent to the broker again.
use danta.Common.{ℕ, String, ◌≡◌, refl, ◌∙◌, true, false, some, List, [], ◌∷◌, arith}
use danta.Common.Eq.{string_eq, ◌==◌, member, member-add_member_self}
use danta.Common.Dict.{lookup}
use danta.Session.{OrderIntent}
use danta.Orders.{
  OrderExecution, Journal, BrokerOutcome, execution_of, mark_unknown, record_outcome,
}
use danta.Orders.Tasks.{Pc, move, System, calls_broker, update, log_if, advance, run, start, times}
use danta.Orders.Invariant.{holds, Effect, own_step, move_other}
use danta.Orders.AtMostOnce.{IsConsistent, advance-IsConsistent, reach-IsConsistent}

module _ (intents : ℕ → OrderIntent) (k : String) where
  abbrev key : ℕ → String
  key t = (intents t).idempotency_key

  -- executed, with this execution
  abbrev Executed : OrderExecution → System → Type 0
  Executed x s = lookup k s.journal.executions ≡ some x

  -- submitting, and no task will record an outcome
  record IsAbandoned (s : System) : Type 0 where
    blocked : member k s.journal.submitting ≡ true
    alone : (t : ℕ) → key t ≡ k → holds (s.pc t) ≡ false

  module _ (s : System) (v : IsConsistent intents s) (t : ℕ) (p' : Pc) (j' : Journal)
      (others : (k : String)
        → (key t == k) ≡ false
        → (member k j'.submitting ≡ member k s.journal.submitting)
          × (lookup k j'.executions ≡ lookup k s.journal.executions)) where
    Executed-after :
        (x : OrderExecution)
        → Effect (key t) (s.pc t) p' s.journal j'
        → Executed x s
        → (lookup k j'.executions ≡ some x)
          × (times k (log_if (calls_broker (s.pc t)) (key t) s.sent) ≡ times k s.sent)
    unfolding times
    Executed-after x (Effect.quiet a b c d) h = ground arith
    Executed-after x (Effect.claimed a b c d r) h =
        ground (arith, others k, string_eq.beq_iff (key t) k)
    Executed-after x (Effect.called a o b c) h =
        ground (arith, v.held t, string_eq.beq_iff (key t) k)
    Executed-after x (Effect.settled o a b c d) h =
        ground (arith, v.held t, others k, string_eq.beq_iff (key t) k)
    Executed-after x (Effect.rejected o a b c d y) h =
        ground (arith, v.held t, others k, string_eq.beq_iff (key t) k)

    blocked_after :
        Effect (key t) (s.pc t) p' s.journal j'
        → IsAbandoned s
        → (member k j'.submitting ≡ true)
          × (times k (log_if (calls_broker (s.pc t)) (key t) s.sent) ≡ times k s.sent)
    unfolding times
    blocked_after (Effect.quiet a b c d) h = ground (arith, h.blocked)
    blocked_after (Effect.claimed a b c d r) h =
        ground (arith, h.blocked, others k, string_eq.beq_iff (key t) k)
    blocked_after (Effect.called a o b c) h =
        ground (arith, h.blocked, h.alone t, string_eq.beq_iff (key t) k)
    blocked_after (Effect.settled o a b c d) h =
        ground (arith, h.blocked, h.alone t, others k, string_eq.beq_iff (key t) k)
    blocked_after (Effect.rejected o a b c d y) h =
        ground (arith, h.blocked, h.alone t, others k, string_eq.beq_iff (key t) k)

    alone_after :
        Effect (key t) (s.pc t) p' s.journal j'
        → IsAbandoned s
        → (u : ℕ) → key u ≡ k
        → holds (update s.pc t p' u) ≡ false
    alone_after (Effect.quiet a b c d) h u e = ground (arith, h.alone u)
    alone_after (Effect.claimed a b c d r) h u e = ground (arith, h.blocked, h.alone u)
    alone_after (Effect.called a o b c) h u e = ground (arith, h.alone u, h.alone t)
    alone_after (Effect.settled o a b c d) h u e = ground (arith, h.alone u)
    alone_after (Effect.rejected o a b c d y) h u e = ground (arith, h.alone u)

  advance_settled :
      (t : ℕ) (answer : BrokerOutcome) (x : OrderExecution) (s : System)
      → IsConsistent intents s
      → (Executed x s
          → Executed x (advance intents t answer s)
            × (times k (advance intents t answer s).sent ≡ times k s.sent))
        × (IsAbandoned s
            → IsAbandoned (advance intents t answer s)
              × (times k (advance intents t answer s).sent ≡ times k s.sent))
  unfolding advance
  advance_settled t answer x s v =
      let r = move answer (intents t) (s.pc t) s.journal in
      let e = own_step answer (intents t) (s.pc t) s.journal in
      let others = λ (j : String) (d : (key t == j) ≡ false).
        move_other answer (intents t) (s.pc t) r.0 s.journal r.1 j d refl in
      (
        Executed-after s v t r.0 r.1 others x e,
        λ h.
            let b = blocked_after s v t r.0 r.1 others e h in
            (record { blocked = b.0; alone = alone_after s v t r.0 r.1 others e h }, b.1),
      )

  run-Executed :
      (schedule : List (ℕ × BrokerOutcome)) (x : OrderExecution) (s : System)
      → IsConsistent intents s
      → Executed x s
      → Executed x (run intents schedule s)
        × (times k (run intents schedule s).sent ≡ times k s.sent)
  unfolding run
  run-Executed [] x s v h = (h, refl)
  run-Executed ((t, answer) ∷ schedule) x s v h =
      let (h', same) = (advance_settled t answer x s v).0 h in
      let (last, rest) =
        run-Executed schedule x (advance intents t answer s)
          (advance-IsConsistent intents t answer s v) h' in
      (last, rest ∙ same)

  run_abandoned :
      (schedule : List (ℕ × BrokerOutcome)) (s : System)
      → IsConsistent intents s
      → IsAbandoned s
      → times k (run intents schedule s).sent ≡ times k s.sent
  unfolding run
  run_abandoned [] s v h = refl
  run_abandoned ((t, answer) ∷ schedule) s v h =
      let (h', same) = (advance_settled t answer (execution_of (intents t) "") s v).1 h in
      run_abandoned schedule (advance intents t answer s)
        (advance-IsConsistent intents t answer s v) h'
      ∙ same

  -- Once a key is executed, it keeps that execution and the broker is not called for it again, whatever
  -- tasks run later.
  pub executed_stays :
      (earlier later : List (ℕ × BrokerOutcome)) (x : OrderExecution)
      → lookup k (run intents earlier start).journal.executions ≡ some x
      → let s = run intents earlier start in
        let s' = run intents later s in
        (lookup k s'.journal.executions ≡ some x) × (times k s'.sent ≡ times k s.sent)
  executed_stays earlier later x h =
      run-Executed later x (run intents earlier start) (reach-IsConsistent intents earlier) h

  IsAbandoned-by_transport_error :
      (t : ℕ) (answer : BrokerOutcome) (name : String) (s : System)
      → IsConsistent intents s
      → key t ≡ k
      → s.pc t ≡ Pc.recording (BrokerOutcome.transport_error name)
      → IsAbandoned (advance intents t answer s)
        × (times k (advance intents t answer s).sent ≡ times k s.sent)
  unfolding advance move record_outcome mark_unknown times
  IsAbandoned-by_transport_error t answer name s v e at = (
    record {
      blocked = rw at (rw (← e) (member-add_member_self (key t) s.journal.submitting));
      alone = λ u eu. ground (arith, v.unique t u);
    },
    rw at,
  )

  -- When a task records a transport error, the broker is not called for its key again, whatever tasks
  -- run later: an order whose outcome is unknown is never retried.
  pub unknown_never_retried :
      (earlier later : List (ℕ × BrokerOutcome)) (t : ℕ) (answer : BrokerOutcome) (name : String)
      → (intents t).idempotency_key ≡ k
      → (run intents earlier start).pc t ≡ Pc.recording (BrokerOutcome.transport_error name)
      → let s = run intents earlier start in
        times k (run intents later (advance intents t answer s)).sent ≡ times k s.sent
  unknown_never_retried earlier later t answer name e at =
      let s = run intents earlier start in
      let v = reach-IsConsistent intents earlier in
      let (abandoned, same) = IsAbandoned-by_transport_error t answer name s v e at in
      run_abandoned later (advance intents t answer s) (advance-IsConsistent intents t answer s v)
        abandoned
      ∙ same
