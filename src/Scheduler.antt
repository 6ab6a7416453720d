-- ===== src/Scheduler.antt =====
-- src/danta/services/priority_intent_scheduler.py: the queue of intents, ordered by priority and then
-- by arrival, that takes each idempotency key once.
pub mod Steps
pub mod Order
pub mod Once
use danta.Common.{
  ℕ, suc, ◌+◌, String, Bool, true, false, not, ◌&&◌, ◌||◌, Option, none, some, List, [], ◌∷◌, ltb,
  eqb, if◌then◌else◌,
}
use danta.Common.Lists.{length}
use danta.Common.Eq.{string_eq, ◌==◌, member, add_member, discard}
use danta.Session.{OrderIntent, priority_value}

-- `(int(intent.priority), next(self._sequence), intent)`
pub record Entry : Type 0 where
  pub priority : ℕ
  pub sequence : ℕ
  pub intent : OrderIntent

-- The heap of `asyncio.PriorityQueue` is the list of its entries in the order of `get`.
pub record Scheduler : Type 0 where
  pub maxsize : ℕ
  pub queue : List Entry
  pub next_sequence : ℕ
  pub known_keys : List String

-- Tuples compare by priority, then by sequence number; no two sequence numbers are equal.
unfoldable pub before : Entry → Entry → Bool
before a b = ltb a.priority b.priority || (eqb a.priority b.priority && ltb a.sequence b.sequence)

unfoldable pub enqueue : Entry → List Entry → List Entry
unfolding before
enqueue a [] = a ∷ []
enqueue a (b ∷ queue) = if before a b then a ∷ b ∷ queue else b ∷ enqueue a queue

-- How a `put` went on: refused, done, or waiting for room with its entry.
pub data Put : Type 0 where
  refused queued : Put
  waiting : Entry → Put

abbrev pub entry_of : Scheduler → OrderIntent → Entry
entry_of s intent = record {
  priority = priority_value intent.priority;
  sequence = s.next_sequence;
  intent = intent;
}

unfoldable pub put : OrderIntent → Scheduler → Put × Scheduler
unfolding enqueue
put intent s =
    if member intent.idempotency_key s.known_keys
    then (refused, s)
    else let claimed : Scheduler = record s {
      known_keys = add_member intent.idempotency_key s.known_keys;
      next_sequence = suc s.next_sequence;
    } in
      if ltb (length s.queue) s.maxsize
      then (queued, record claimed { queue = enqueue (entry_of s intent) s.queue })
      else (waiting (entry_of s intent), claimed)

-- A waiting `put` goes on when there is room, or is cancelled and gives its key back.
unfoldable pub resume_put : Entry → Scheduler → Scheduler
unfolding enqueue
resume_put e s = record s { queue = enqueue e s.queue }

unfoldable pub cancel_put : Entry → Scheduler → Scheduler
cancel_put e s = record s { known_keys = discard e.intent.idempotency_key s.known_keys }

-- `none`: the caller waits.
unfoldable pub get : Scheduler → Option (OrderIntent × Scheduler)
get s = elim s.queue [ [] ↦ none | e ∷ queue ↦ some (e.intent, record s { queue = queue }) ]

unfoldable pub forget : String → Scheduler → Scheduler
forget key s = record s { known_keys = discard key s.known_keys }

abbrev pub qsize : Scheduler → ℕ
qsize s = length s.queue
