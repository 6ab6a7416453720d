-- ===== src/Orders/Invariant.antt =====
-- What holds of the journal and the tasks after any schedule.
use danta.Common.{
  String, ◌≡◌, refl, ◌⊎◌, inl, inr, Bool, true, false, ◌||◌, Option, none, some, arith, Bool-cases,
}
use danta.Common.Eq.{
  string_eq, ◌==◌, member, member-add_member, member-discard, member-add_member_self,
  member-discard_self,
}
use danta.Common.Dict.{lookup, contains, lookup-insert, lookup-insert_self}
use danta.Session.{OrderIntent, is_cancel}
use danta.Orders.{
  OrderExecution, Journal, BrokerOutcome, execution_of, find, mark_submitting, mark_submitted,
  mark_failed, mark_unknown, record_outcome,
}
use danta.Orders.Tasks.{Pc, after_find, after_recheck, move, is_rejection, rejects}

-- The task is between its claim and the record of the broker's answer.
abbrev pub holds : Pc → Bool
holds Pc.submitting = true
holds (Pc.recording o) = true
holds _ = false

-- A key that no journal entry blocks.
abbrev pub IsFree : String → Journal → Type 0
IsFree k j = (member k j.submitting ≡ false) × (lookup k j.executions ≡ none)

abbrev pub IsClaimed : String → Journal → Type 0
IsClaimed k j = (member k j.submitting ≡ true) × (lookup k j.executions ≡ none)

-- What a step of a task did at the task's own key `k`.
pub data Effect (k : String) (p p' : Pc) (j j' : Journal) : Type 0 where
  -- it read the journal, or had ended
  quiet : holds p ≡ false → holds p' ≡ false → rejects p ≡ false → j' ≡ j → Effect k p p' j j'
  -- it claimed the key
  claimed :
      holds p ≡ false
      → p' ≡ Pc.submitting
      → IsFree k j
      → IsClaimed k j'
      → rejects p ≡ false
      → Effect k p p' j j'
  -- it called the broker
  called :
      p ≡ Pc.submitting → (o : BrokerOutcome) → p' ≡ Pc.recording o → j' ≡ j → Effect k p p' j j'
  -- it recorded a success or an unknown outcome: the key stays blocked
  settled :
      (o : BrokerOutcome)
      → p ≡ Pc.recording o
      → is_rejection o ≡ false
      → holds p' ≡ false
      → (member k j'.submitting ≡ true) ⊎ ((x : OrderExecution) × (lookup k j'.executions ≡ some x))
      → Effect k p p' j j'
  -- it recorded a failure: the key is free again
  rejected :
      (o : BrokerOutcome)
      → p ≡ Pc.recording o
      → is_rejection o ≡ true
      → holds p' ≡ false
      → member k j'.submitting ≡ false
      → lookup k j'.executions ≡ lookup k j.executions
      → Effect k p p' j j'

own_claim :
    (answer : BrokerOutcome) (i : OrderIntent) (j : Journal)
    → let (p', j') = move answer i Pc.claiming j in Effect i.idempotency_key Pc.claiming p' j j'
unfolding move mark_submitting
own_claim answer i j =
    elim (Bool-cases
      (member i.idempotency_key j.submitting || contains i.idempotency_key j.executions)) [
        | inl blocked ↦ rw blocked (Effect.quiet refl refl refl refl)
        | inr free ↦ rw free (
            Effect.claimed refl refl (ground arith, ground arith)
              (member-add_member_self i.idempotency_key j.submitting, ground arith) refl)
      ]

own_record :
    (answer o : BrokerOutcome) (i : OrderIntent) (j : Journal)
    → let (p', j') = move answer i (Pc.recording o) j in
      Effect i.idempotency_key (Pc.recording o) p' j j'
unfolding move record_outcome mark_submitted mark_failed mark_unknown
own_record answer (BrokerOutcome.receipt number) i j = elim (Bool-cases (number == "")) [
  | inl missing ↦ rw missing (
      Effect.rejected (BrokerOutcome.receipt number) refl missing refl
        (member-discard_self i.idempotency_key j.submitting) refl)
  | inr numbered ↦ rw numbered (
      Effect.settled (BrokerOutcome.receipt number) refl numbered refl (
        inr (
          execution_of i number,
          lookup-insert_self i.idempotency_key (execution_of i number) j.executions,
        )))
]
own_record answer (BrokerOutcome.transport_error name) i j =
    Effect.settled (BrokerOutcome.transport_error name) refl refl refl
      (inl (member-add_member_self i.idempotency_key j.submitting))
own_record answer (BrokerOutcome.other_error name) i j =
    Effect.rejected (BrokerOutcome.other_error name) refl refl refl
      (member-discard_self i.idempotency_key j.submitting) refl

holds-after_find : (b : Bool) (o : Option OrderExecution) → holds (after_find b o) ≡ false
holds-after_find b (some x) = refl
holds-after_find true none = refl
holds-after_find false none = refl

holds-after_recheck : (o : Option OrderExecution) → holds (after_recheck o) ≡ false
holds-after_recheck (some x) = refl
holds-after_recheck none = refl

pub own_step :
    (answer : BrokerOutcome) (i : OrderIntent) (p : Pc) (j : Journal)
    → let (p', j') = move answer i p j in Effect i.idempotency_key p p' j j'
unfolding move
own_step answer i Pc.starting j =
    Effect.quiet refl (holds-after_find (is_cancel i.side) (find i.idempotency_key j)) refl refl
own_step answer i Pc.claiming j = own_claim answer i j
own_step answer i Pc.rechecking j =
    Effect.quiet refl (holds-after_recheck (find i.idempotency_key j)) refl refl
own_step answer i Pc.submitting j = Effect.called refl answer refl refl
own_step answer i (Pc.recording o) j = own_record answer o i j
own_step answer i (Pc.done r) j = Effect.quiet refl refl refl refl

pub move_other :
    (answer : BrokerOutcome) (i : OrderIntent) (p p' : Pc) (j j' : Journal) (k : String)
    → (i.idempotency_key == k) ≡ false
    → move answer i p j ≡ (p', j')
    → (member k j'.submitting ≡ member k j.submitting)
      × (lookup k j'.executions ≡ lookup k j.executions)
unfolding move mark_submitting record_outcome mark_submitted mark_failed mark_unknown
move_other answer i Pc.starting p' j j' k h e = ground arith
move_other answer i (Pc.recording (BrokerOutcome.receipt number)) p' j j' k h e = ground (
  arith,
  member-discard i.idempotency_key k j.submitting,
  lookup-insert i.idempotency_key k (execution_of i number) j.executions,
)
move_other answer i p p' j j' k h e = ground (
  arith,
  member-add_member i.idempotency_key k j.submitting,
  member-discard i.idempotency_key k j.submitting,
)
