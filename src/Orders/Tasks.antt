-- ===== src/Orders/Tasks.antt =====
-- Many tasks in `OrderManager.execute` at once. A task gives way at each `await`, so its steps are the
-- parts of `execute` between them; a schedule names the task of each step, and what the broker
-- answers if the step calls it.
use danta.Common.{
  ℕ, suc, String, Bool, true, false, Option, none, some, List, [], ◌∷◌, eqb, if◌then◌else◌,
}
use danta.Common.Eq.{string_eq, ◌==◌}
use danta.Common.Result.{Result, ok, err, not_implemented, runtime_error}
use danta.Session.{OrderIntent, is_cancel}
use danta.Orders.{OrderExecution, Journal, BrokerOutcome, find, mark_submitting, record_outcome}

-- Where a task stands: before the first `find`, before the claim, before the second `find`, before the
-- broker is called, before its answer is recorded, at the end.
pub data Pc : Type 0 where
  starting claiming rechecking submitting : Pc
  recording : BrokerOutcome → Pc
  done : Result OrderExecution → Pc

abbrev pub after_find : Bool → Option OrderExecution → Pc
after_find cancels (some existing) = Pc.done (ok existing)
after_find true none =
    Pc.done (err (not_implemented "cancel execution requires a broker order number"))
after_find false none = Pc.claiming

abbrev pub after_recheck : Option OrderExecution → Pc
after_recheck (some existing) = Pc.done (ok existing)
after_recheck none = Pc.done (err (runtime_error "order intent is already being submitted"))

-- one step of a task; `answer` is what the broker answers if it is called
unfoldable pub move : BrokerOutcome → OrderIntent → Pc → Journal → Pc × Journal
move answer intent Pc.starting j =
    (after_find (is_cancel intent.side) (find intent.idempotency_key j), j)
move answer intent Pc.claiming j =
    let (claimed, j') = mark_submitting intent j in
    (if claimed then Pc.submitting else Pc.rechecking, j')
move answer intent Pc.rechecking j = (after_recheck (find intent.idempotency_key j), j)
move answer intent Pc.submitting j = (Pc.recording answer, j)
move answer intent (Pc.recording o) j = let (r, j') = record_outcome o intent j in (Pc.done r, j')
move answer intent (Pc.done r) j = (Pc.done r, j)

-- The journal, the tasks, and two logs of keys for the statements: one entry for each call of the
-- broker, and one for each answer that is marked as failed.
pub record System : Type 0 where
  pub journal : Journal
  pub pc : ℕ → Pc
  pub sent : List String
  pub rejected : List String

abbrev pub calls_broker : Pc → Bool
calls_broker Pc.submitting = true
calls_broker _ = false

-- answers after which `execute` marks the intent as failed
abbrev pub is_rejection : BrokerOutcome → Bool
is_rejection (BrokerOutcome.receipt broker_order_no) = broker_order_no == ""
is_rejection (BrokerOutcome.transport_error name) = false
is_rejection (BrokerOutcome.other_error name) = true

abbrev pub rejects : Pc → Bool
rejects (Pc.recording o) = is_rejection o
rejects _ = false

abbrev pub update : (ℕ → Pc) → ℕ → Pc → ℕ → Pc
update f t p u = if eqb t u then p else f u

abbrev pub log_if : Bool → String → List String → List String
log_if b key log = if b then key ∷ log else log

module _ (intents : ℕ → OrderIntent) where
  abbrev pub key_of : ℕ → String
  key_of t = (intents t).idempotency_key

  unfoldable pub advance : ℕ → BrokerOutcome → System → System
  advance t answer s =
      let (p, j) = move answer (intents t) (s.pc t) s.journal in
      record {
        journal = j;
        pc = update s.pc t p;
        sent = log_if (calls_broker (s.pc t)) (key_of t) s.sent;
        rejected = log_if (rejects (s.pc t)) (key_of t) s.rejected;
      }

  unfoldable pub run : List (ℕ × BrokerOutcome) → System → System
  run [] s = s
  run ((t, answer) ∷ schedule) s = run schedule (advance t answer s)

abbrev pub empty_journal : Journal
empty_journal = record { submitting = []; executions = []; failures = [] }

abbrev pub start : System
start = record { journal = empty_journal; pc = λ _. Pc.starting; sent = []; rejected = [] }

-- how often a key stands in a log
unfoldable pub times : String → List String → ℕ
times k [] = 0
times k (x ∷ log) = let rest = times k log in if x == k then suc rest else rest
