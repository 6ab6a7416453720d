-- ===== src/Scheduler/Order.antt =====
-- The queue hands out the most urgent intent first, and equally urgent ones as they came.
use danta.Common.{
  ℕ, ◌≤◌, ◌<◌, ◌≡◌, refl, subst, ◌⊎◌, inl, inr, true, false, none, some, List, [], ◌∷◌, arith, ltb,
  Bool-cases,
}
use danta.Common.Lists.{All, length, List-cases}
use danta.Common.Eq.{string_eq, member}
use danta.Session.{OrderIntent, priority_value}
use danta.Scheduler.{
  Entry, Scheduler, before, enqueue, entry_of, put, resume_put, cancel_put, get, forget,
}
use danta.Scheduler.Steps.{Op, waiting_entry, step, run, new_scheduler}

-- `a` need not wait for `b`: it is more urgent, or as urgent and not later.
abbrev pub Precedes : Entry → Entry → Type 0
Precedes a b = (a.priority < b.priority) ⊎ ((a.priority ≡ b.priority) × (a.sequence ≤ b.sequence))

abbrev pub Sorted : List Entry → Type 0
Sorted [] = Unit
Sorted (a ∷ queue) = All (Precedes a) queue × Sorted queue

-- The priority of an entry is that of its intent.
abbrev pub Labelled : Entry → Type 0
Labelled e = e.priority ≡ priority_value e.intent.priority

pub record IsOrdered (s : Scheduler) : Type 0 where
  pub sorted : Sorted s.queue
  pub labelled : All Labelled s.queue

Precedes-trans : (a b c : Entry) → Precedes a b → Precedes b c → Precedes a c
Precedes-trans a b c h k = ground arith

All-Precedes :
    (a b : Entry) (queue : List Entry)
    → Precedes a b
    → All (Precedes b) queue
    → All (Precedes a) queue
All-Precedes a b [] h k = tt
All-Precedes a b (c ∷ queue) h k = (Precedes-trans a b c h k.0, All-Precedes a b queue h k.1)

before-Precedes : (a b : Entry) → before a b ≡ true → Precedes a b
unfolding before
before-Precedes a b h = ground arith

not-before-Precedes : (a b : Entry) → before a b ≡ false → Precedes b a
unfolding before
not-before-Precedes a b h = ground arith

All-enqueue :
    (P : Entry → Type 0) (a : Entry) (queue : List Entry)
    → P a
    → All P queue
    → All P (enqueue a queue)
unfolding enqueue
All-enqueue P a [] h k = (h, tt)
All-enqueue P a (b ∷ queue) h k = elim (Bool-cases (before a b)) [
  | inl first ↦ rw first (h, k)
  | inr later ↦ rw later (k.0, All-enqueue P a queue h k.1)
]

enqueue-Sorted : (a : Entry) (queue : List Entry) → Sorted queue → Sorted (enqueue a queue)
unfolding enqueue
enqueue-Sorted a [] h = (tt, tt)
enqueue-Sorted a (b ∷ queue) h = elim (Bool-cases (before a b)) [
  | inl first ↦ let p = before-Precedes a b first in rw first ((p, All-Precedes a b queue p h.0), h)
  | inr later ↦
      rw later
        (All-enqueue _ a queue (not-before-Precedes a b later) h.0, enqueue-Sorted a queue h.1)
]

enqueue-IsOrdered :
    (e : Entry) (queue : List Entry)
    → Labelled e
    → Sorted queue
    → All Labelled queue
    → Sorted (enqueue e queue) × All Labelled (enqueue e queue)
enqueue-IsOrdered e queue l h k = (enqueue-Sorted e queue h, All-enqueue _ e queue l k)

put-IsOrdered : (i : OrderIntent) (s : Scheduler) → IsOrdered s → IsOrdered (put i s).1
unfolding put
put-IsOrdered i s v = elim (Bool-cases (member i.idempotency_key s.known_keys)) [
  | inl known ↦ rw known v
  | inr new ↦ rw new (elim (Bool-cases (ltb (length s.queue) s.maxsize)) [
    | inl room ↦
        let q = enqueue-IsOrdered (entry_of s i) s.queue refl v.sorted v.labelled in
        rw room (record { sorted = q.0; labelled = q.1 })
    | inr full ↦ rw full (record { sorted = v.sorted; labelled = v.labelled })
  ])
]

-- `get` waits on an empty queue, and takes the first entry of any other.
pub get-cases :
    (s : Scheduler)
    → ((get s ≡ none) × (s.queue ≡ []))
      ⊎ ((e : Entry) × (queue : List Entry) × (s.queue ≡ e ∷ queue)
          × (get s ≡ some (e.intent, record s { queue = queue })))
unfolding get
get-cases s = elim (List-cases s.queue) [
  | inl h ↦ inl (ground arith, h)
  | inr (e, queue, h) ↦ inr (e, queue, h, ground arith)
]

tail-IsOrdered :
    (s : Scheduler) (e : Entry) (queue : List Entry)
    → IsOrdered s
    → s.queue ≡ e ∷ queue
    → Labelled e × All (Precedes e) queue × IsOrdered (record s { queue = queue })
tail-IsOrdered s e queue v h =
    let sorted : Sorted (e ∷ queue) = subst Sorted h v.sorted in
    let labelled : All Labelled (e ∷ queue) = subst (All Labelled) h v.labelled in
    (labelled.0, sorted.0, record { sorted = sorted.1; labelled = labelled.1 })

step-IsOrdered : (s : Scheduler) (op : Op) → IsOrdered s → IsOrdered (step s op)
unfolding step resume_put cancel_put forget
step-IsOrdered s (Op.put_op i) v = put-IsOrdered i s v
step-IsOrdered s (Op.resume_op i n) v =
    let q = enqueue-IsOrdered (waiting_entry i n) s.queue refl v.sorted v.labelled in
    record { sorted = q.0; labelled = q.1 }
step-IsOrdered s (Op.cancel_op i n) v = record { sorted = v.sorted; labelled = v.labelled }
step-IsOrdered s Op.get_op v = elim (get-cases s) [
  | inl (none_left, _) ↦ rw none_left v
  | inr (e, queue, h, got) ↦ rw got (tail-IsOrdered s e queue v h).2
]
step-IsOrdered s (Op.forget_op k) v = record { sorted = v.sorted; labelled = v.labelled }

run-IsOrdered : (s : Scheduler) (ops : List Op) → IsOrdered s → IsOrdered (run s ops)
unfolding run
run-IsOrdered s [] v = v
run-IsOrdered s (op ∷ ops) v = run-IsOrdered (step s op) ops (step-IsOrdered s op v)

-- After any calls, a `get` that does not wait returns the intent of an entry that need not wait for
-- any entry that stays in the queue: it is more urgent, or as urgent and it asked no later. The
-- queue loses just that entry, and the entry's urgency is the priority of its intent.
pub get-first :
    (maxsize : ℕ) (ops : List Op) (i : OrderIntent) (s' : Scheduler)
    → get (run (new_scheduler maxsize) ops) ≡ some (i, s')
    → (e : Entry) × ((run (new_scheduler maxsize) ops).queue ≡ e ∷ s'.queue)
      × (e.intent ≡ i)
      × (e.priority ≡ priority_value i.priority)
      × All (Precedes e) s'.queue
get-first maxsize ops i s' h =
    let s : Scheduler = run (new_scheduler maxsize) ops in
    let v = run-IsOrdered (new_scheduler maxsize) ops (record { sorted = tt; labelled = tt }) in
    elim (get-cases s) [
      | inl (waits, _) ↦ absurd (ground arith)
      | inr (e, queue, full, got) ↦
          let (label, first, _) = tail-IsOrdered s e queue v full in
          let eq : queue ≡ s'.queue = ground arith in
          let ei : e.intent ≡ i = ground arith in
          (e, rw (← eq) full, ei, rw (← ei) label, subst (All (Precedes e)) eq first)
    ]
