-- ===== src/Scheduler/Once.antt =====
-- A key is taken once: until it is forgotten, a second intent with the key is refused.
use danta.Common.{
  ℕ, ◌+◌, ◌≤◌, String, ◌≡◌, refl, ◌⊎◌, Bool, true, false, List, [], ◌∷◌, arith, if◌then◌else◌,
}
use danta.Common.Eq.{string_eq, ◌==◌, member, member-add_member, member-discard}
use danta.Scheduler.{Scheduler, Put, put, resume_put, cancel_put, forget}
use danta.Scheduler.Steps.{Op, step}
use danta.Scheduler.Order.{get-cases}

-- how many of the calls take the key: a `put` of it that is not refused
abbrev taken : Put → ℕ
taken Put.refused = 0
taken Put.queued = 1
taken (Put.waiting e) = 1

abbrev takes_key : String → Scheduler → Op → ℕ
takes_key k s (Op.put_op i) = if i.idempotency_key == k then taken (put i s).0 else 0
takes_key k s _ = 0

unfoldable pub takes : String → Scheduler → List Op → ℕ
takes k s [] = 0
takes k s (op ∷ ops) = takes_key k s op + takes k (step s op) ops

-- the calls that give a key back
abbrev gives_back : String → Op → Bool
gives_back k (Op.cancel_op i n) = i.idempotency_key == k
gives_back k (Op.forget_op j) = j == k
gives_back k _ = false

abbrev pub Keeps : String → List Op → Type 0
Keeps k [] = Unit
Keeps k (op ∷ ops) = (gives_back k op ≡ false) × Keeps k ops

-- One call: a known key stays known and is not taken, another is taken at most once and then known.
step_takes :
    (k : String) (s : Scheduler) (op : Op)
    → gives_back k op ≡ false
    → ((takes_key k s op ≡ 0)
        × ((member k s.known_keys ≡ false) ⊎ (member k (step s op).known_keys ≡ true)))
      ⊎ ((takes_key k s op ≡ 1)
          × (member k s.known_keys ≡ false)
          × (member k (step s op).known_keys ≡ true))
unfolding step put resume_put cancel_put forget
step_takes k s (Op.put_op i) h = ground (
  arith,
  string_eq.beq_iff i.idempotency_key k,
  member-add_member i.idempotency_key k s.known_keys,
)
step_takes k s (Op.resume_op i n) h = ground arith
step_takes k s (Op.cancel_op i n) h =
    ground (arith, member-discard i.idempotency_key k s.known_keys)
step_takes k s Op.get_op h = ground (arith, get-cases s)
step_takes k s (Op.forget_op j) h = ground (arith, member-discard j k s.known_keys)

takes_known :
    (k : String) (s : Scheduler) (ops : List Op)
    → Keeps k ops
    → member k s.known_keys ≡ true
    → takes k s ops ≡ 0
unfolding takes
takes_known k s [] h m = refl
takes_known k s (op ∷ ops) h m =
    ground (arith, step_takes k s op h.0, takes_known k (step s op) ops h.1)

-- As long as nothing gives a key back (no `forget` of it, no cancelled `put` of it), at most one
-- `put` of the key is not refused, whatever else is called; none is if the key is already known.
pub takes-le :
    (k : String) (s : Scheduler) (ops : List Op)
    → Keeps k ops
    → takes k s ops ≤ (if member k s.known_keys then 0 else 1)
unfolding takes
takes-le k s [] h = ground arith
takes-le k s (op ∷ ops) h = ground (
  arith,
  step_takes k s op h.0,
  takes_known k (step s op) ops h.1,
  takes-le k (step s op) ops h.1,
)
