-- ===== src/Orders/AtMostOnce.antt =====
-- The broker is called at most once for a key, and once more for each call whose key was marked as
-- failed. A cancellation of the task while its call is in flight is marked as failed too.
use danta.Common.{ℕ, ◌+◌, ◌≤◌, String, ◌≡◌, refl, true, false, List, [], ◌∷◌, arith}
use danta.Common.Eq.{string_eq, ◌==◌, member}
use danta.Common.Dict.{lookup}
use danta.Session.{OrderIntent}
use danta.Orders.{Journal, BrokerOutcome}
use danta.Orders.Tasks.{
  Pc, move, System, calls_broker, rejects, update, log_if, advance, run, start, times,
}
use danta.Orders.Invariant.{holds, IsFree, IsClaimed, Effect, own_step, move_other}

module _ (intents : ℕ → OrderIntent) where
  abbrev key : ℕ → String
  key t = (intents t).idempotency_key

  -- At most one task is between claim and record for a key, the journal blocks that key, and the calls
  -- of the broker for a key are one ahead of its rejections only while the key is blocked.
  pub record IsConsistent (s : System) : Type 0 where
    pub held : (t : ℕ) → holds (s.pc t) ≡ true → IsClaimed (key t) s.journal
    pub unique : (t u : ℕ) → holds (s.pc t) ≡ true → holds (s.pc u) ≡ true → key t ≡ key u → t ≡ u
    pub free : (k : String) → IsFree k s.journal → times k s.sent ≡ times k s.rejected
    pub bound : (k : String) → times k s.sent ≤ times k s.rejected + 1
    pub ready : (t : ℕ) → s.pc t ≡ Pc.submitting → times (key t) s.sent ≡ times (key t) s.rejected
    pub called :
        (t : ℕ) (o : BrokerOutcome)
        → s.pc t ≡ Pc.recording o
        → times (key t) s.sent ≡ times (key t) s.rejected + 1

  module _ (s : System) (v : IsConsistent s) (t : ℕ) (p' : Pc) (j' : Journal)
      (others : (k : String)
        → (key t == k) ≡ false
        → (member k j'.submitting ≡ member k s.journal.submitting)
          × (lookup k j'.executions ≡ lookup k s.journal.executions)) where
    held_after :
        Effect (key t) (s.pc t) p' s.journal j'
        → (u : ℕ) → holds (update s.pc t p' u) ≡ true
        → IsClaimed (key u) j'
    held_after (Effect.quiet a b c d) u h = ground (arith, v.held u)
    held_after (Effect.claimed a b c d r) u h =
        ground (arith, v.held u, others (key u), string_eq.beq_iff (key t) (key u))
    held_after (Effect.called a o b c) u h = ground (arith, v.held u, v.held t)
    held_after (Effect.settled o a b c d) u h =
        ground (arith, v.held u, v.unique t u, others (key u), string_eq.beq_iff (key t) (key u))
    held_after (Effect.rejected o a b c d x) u h =
        ground (arith, v.held u, v.unique t u, others (key u), string_eq.beq_iff (key t) (key u))

    unique_after :
        Effect (key t) (s.pc t) p' s.journal j'
        → (u w : ℕ) → holds (update s.pc t p' u) ≡ true
        → holds (update s.pc t p' w) ≡ true
        → key u ≡ key w
        → u ≡ w
    unique_after (Effect.quiet a b c d) u w hu hw same = ground (arith, v.unique u w)
    unique_after (Effect.claimed a b c d r) u w hu hw same =
        ground (arith, v.unique u w, v.held u, v.held w)
    unique_after (Effect.called a o b c) u w hu hw same =
        ground (arith, v.unique u w, v.unique t w, v.unique u t)
    unique_after (Effect.settled o a b c d) u w hu hw same = ground (arith, v.unique u w)
    unique_after (Effect.rejected o a b c d x) u w hu hw same = ground (arith, v.unique u w)

    abbrev sent' : List String
    sent' = log_if (calls_broker (s.pc t)) (key t) s.sent

    abbrev rejected' : List String
    rejected' = log_if (rejects (s.pc t)) (key t) s.rejected

    free_after :
        Effect (key t) (s.pc t) p' s.journal j'
        → (k : String) → IsFree k j'
        → times k sent' ≡ times k rejected'
    unfolding times
    free_after (Effect.quiet a b c d) k h = ground (arith, v.free k)
    free_after (Effect.claimed a b c d r) k h =
        ground (arith, v.free k, others k, string_eq.beq_iff (key t) k)
    free_after (Effect.called a o b c) k h =
        ground (arith, v.free k, v.held t, string_eq.beq_iff (key t) k)
    free_after (Effect.settled o a b c d) k h =
        ground (arith, v.free k, v.called t o, others k, string_eq.beq_iff (key t) k)
    free_after (Effect.rejected o a b c d x) k h =
        ground (arith, v.free k, v.called t o, others k, string_eq.beq_iff (key t) k)

    bound_after :
        Effect (key t) (s.pc t) p' s.journal j'
        → (k : String) → times k sent' ≤ times k rejected' + 1
    unfolding times
    bound_after (Effect.quiet a b c d) k = ground (arith, v.bound k)
    bound_after (Effect.claimed a b c d r) k = ground (arith, v.bound k)
    bound_after (Effect.called a o b c) k =
        ground (arith, v.bound k, v.ready t, string_eq.beq_iff (key t) k)
    bound_after (Effect.settled o a b c d) k = ground (arith, v.bound k)
    bound_after (Effect.rejected o a b c d x) k = ground (arith, v.bound k)

    ready_after :
        Effect (key t) (s.pc t) p' s.journal j'
        → (u : ℕ) → update s.pc t p' u ≡ Pc.submitting
        → times (key u) sent' ≡ times (key u) rejected'
    unfolding times
    ready_after (Effect.quiet a b c d) u h = ground (arith, v.ready u)
    ready_after (Effect.claimed a b c d r) u h = ground (arith, v.ready u, v.free (key t))
    ready_after (Effect.called a o b c) u h =
        ground (arith, v.ready u, v.unique t u, string_eq.beq_iff (key t) (key u))
    ready_after (Effect.settled o a b c d) u h =
        ground (arith, v.ready u, v.unique t u, string_eq.beq_iff (key t) (key u))
    ready_after (Effect.rejected o a b c d x) u h =
        ground (arith, v.ready u, v.unique t u, string_eq.beq_iff (key t) (key u))

    called_after :
        Effect (key t) (s.pc t) p' s.journal j'
        → (u : ℕ) (o : BrokerOutcome) → update s.pc t p' u ≡ Pc.recording o
        → times (key u) sent' ≡ times (key u) rejected' + 1
    unfolding times
    called_after (Effect.quiet a b c d) u o h = ground (arith, v.called u o)
    called_after (Effect.claimed a b c d r) u o h = ground (arith, v.called u o)
    called_after (Effect.called a o' b c) u o h =
        ground (arith, v.called u o, v.ready t, v.unique t u, string_eq.beq_iff (key t) (key u))
    called_after (Effect.settled o' a b c d) u o h =
        ground (arith, v.called u o, v.unique t u, string_eq.beq_iff (key t) (key u))
    called_after (Effect.rejected o' a b c d x) u o h =
        ground (arith, v.called u o, v.unique t u, string_eq.beq_iff (key t) (key u))

  pub advance-IsConsistent :
      (t : ℕ) (answer : BrokerOutcome) (s : System)
      → IsConsistent s
      → IsConsistent (advance intents t answer s)
  unfolding advance
  advance-IsConsistent t answer s v =
      let r = move answer (intents t) (s.pc t) s.journal in
      let e = own_step answer (intents t) (s.pc t) s.journal in
      let others = λ (k : String) (d : (key t == k) ≡ false).
        move_other answer (intents t) (s.pc t) r.0 s.journal r.1 k d refl in
      record {
        held = held_after s v t r.0 r.1 others e;
        unique = unique_after s v t r.0 r.1 others e;
        free = free_after s v t r.0 r.1 others e;
        bound = bound_after s v t r.0 r.1 others e;
        ready = ready_after s v t r.0 r.1 others e;
        called = called_after s v t r.0 r.1 others e;
      }

  run-IsConsistent :
      (schedule : List (ℕ × BrokerOutcome)) (s : System)
      → IsConsistent s
      → IsConsistent (run intents schedule s)
  unfolding run
  run-IsConsistent [] s v = v
  run-IsConsistent ((t, answer) ∷ schedule) s v =
      run-IsConsistent schedule (advance intents t answer s) (advance-IsConsistent t answer s v)

  start-IsConsistent : IsConsistent start
  unfolding times
  start-IsConsistent = record {
    held = λ t h. absurd (ground arith);
    unique = λ t u h k e. absurd (ground arith);
    free = λ k h. refl;
    bound = λ k. omega arith;
    ready = λ t h. refl;
    called = λ t o h. absurd (ground arith);
  }

  -- Whatever the schedule, the intents and the answers of the broker: the broker is called for a key at
  -- most once more often than a call for it was marked as failed. Every exception but a transport error
  -- is marked so, a cancellation in flight included, after which the order may have been sent.
  pub submit_at_most_once :
      (schedule : List (ℕ × BrokerOutcome)) (k : String)
      → let s = run intents schedule start in times k s.sent ≤ times k s.rejected + 1
  submit_at_most_once schedule k = (run-IsConsistent schedule start start-IsConsistent).bound k

  -- After any schedule, two tasks between the claim of a key and the record of its outcome are one.
  pub one_task_per_key :
      (schedule : List (ℕ × BrokerOutcome)) (t u : ℕ)
      → holds ((run intents schedule start).pc t) ≡ true
      → holds ((run intents schedule start).pc u) ≡ true
      → (intents t).idempotency_key ≡ (intents u).idempotency_key
      → t ≡ u
  one_task_per_key schedule = (run-IsConsistent schedule start start-IsConsistent).unique

  pub reach-IsConsistent :
      (schedule : List (ℕ × BrokerOutcome)) → IsConsistent (run intents schedule start)
  reach-IsConsistent schedule = run-IsConsistent schedule start start-IsConsistent
