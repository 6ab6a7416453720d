-- ===== src/Orders/Solo.antt =====
-- A task that runs alone: the steps of the interleaving make up `execute`.
use danta.Common.{ℕ, zero, suc, ◌≡◌, inl, inr, arith, Bool-cases, Option-cases}
use danta.Common.Eq.{string_eq}
use danta.Session.{OrderIntent, is_cancel}
use danta.Orders.{Journal, BrokerOutcome, find, mark_submitting, execute}
use danta.Orders.Tasks.{Pc, move}

-- `n` steps of one task
unfoldable drive : ℕ → BrokerOutcome → OrderIntent → Pc → Journal → Pc × Journal
drive zero answer i p j = (p, j)
drive (suc n) answer i p j = let (p', j') = move answer i p j in drive n answer i p' j'

-- Four steps of a task with no other in between end with the result of `execute`, and leave the journal
-- that it leaves; so the tasks of the interleaving run the modelled method.
drive-execute :
    (answer : BrokerOutcome) (i : OrderIntent) (j : Journal)
    → let (r, j') = execute (λ _. answer) i j in drive 4 answer i Pc.starting j ≡ (Pc.done r, j')
unfolding drive move execute
drive-execute answer i j = elim (Option-cases (find i.idempotency_key j)) [
  | inr (x, known) ↦ ground arith
  | inl fresh ↦ elim (Bool-cases (is_cancel i.side)) [
    | inl cancels ↦ ground arith
    | inr other ↦ elim (Bool-cases (mark_submitting i j).0) [
      | inl claimed ↦ ground arith
      | inr blocked ↦ ground arith
    ]
  ]
]
