-- ===== src/Ledger/Claims.antt =====
-- When a key can be claimed: the status of an intent decides, whatever reason was written into it.
use Prim.Native.String.{String, ◌++◌}
use Prim.Native.String.append.{cons}
use danta.Common.{
  ℕ, zero, suc, ◌≡◌, refl, sym, ap, subst, ◌∙◌, Bool, true, false, Option, none, some, List, [],
  ◌∷◌, arith, inl, inr, Option-cases, Bool-cases,
}
use danta.Common.Lists.{any}
use danta.Common.Eq.{string_eq, ◌==◌}
use danta.Common.Text.{starts_with, cut}
use danta.Common.Time.{Datetime}
use danta.Session.{OrderIntent}
use danta.Ledger.{
  IntentRow, OrderRow, Tables, intent_row, set_status, reclaim, mark_submitting, mark_submitted,
  mark_failed, mark_unknown,
}

-- a text that is not longer than `n`
unfoldable fits : String → ℕ → Bool
fits String.[] n = true
fits (String.◌∷◌ c p) zero = false
fits (String.◌∷◌ c p) (suc n) = fits p n

starts_with-cut : (p r : String) (n : ℕ) → fits p n ≡ true → starts_with p (cut n (p ++ r)) ≡ true
unfolding starts_with cut fits
starts_with-cut String.[] r n h = refl
starts_with-cut (String.◌∷◌ c p) r zero h = absurd (ground arith)
starts_with-cut (String.◌∷◌ c p) r (suc n) h =
    subst (λ s. starts_with (String.◌∷◌ c p) (cut (suc n) s) ≡ true) (sym (λ i. cons c p r i))
      (ground (arith, starts_with-cut p r n h))

failed_again : (reason : String) → starts_with "FAILED:" (cut 24 ("FAILED:" ++ reason)) ≡ true
unfolding fits
failed_again reason = starts_with-cut "FAILED:" reason 24 refl

unknown_stays : (reason : String) → starts_with "FAILED:" (cut 24 ("UNKNOWN:" ++ reason)) ≡ false
unfolding starts_with cut
unknown_stays reason =
    subst (λ s. starts_with "FAILED:" (cut 24 s) ≡ false) (sym (λ i. cons "U" "NKNOWN:" reason i))
      refl

-- the status of a key
unfoldable status_of : String → Tables → Option String
status_of key t = elim (intent_row key t.intents) [ none ↦ none | some row ↦ some row.status ]

refused_if :
    (id : String) (i : OrderIntent) (t : Tables) (status : String)
    → status_of i.idempotency_key t ≡ some status
    → starts_with "FAILED:" status ≡ false
    → mark_submitting id i t ≡ (false, t)
unfolding mark_submitting status_of
refused_if id i t status h k = ground arith

granted_if :
    (id : String) (i : OrderIntent) (t : Tables) (status : String)
    → status_of i.idempotency_key t ≡ some status
    → starts_with "FAILED:" status ≡ true
    → (mark_submitting id i t).0 ≡ true
unfolding mark_submitting status_of
granted_if id i t status h k = ground arith

row_after-set_status :
    (key status : String) (rows : List IntentRow) (row : IntentRow)
    → intent_row key rows ≡ some row
    → intent_row key (set_status key status rows) ≡ some (record row { status = status })
unfolding intent_row set_status
row_after-set_status key status [] row h = absurd (ground arith)
row_after-set_status key status (r ∷ rows) row h =
    ground (arith, row_after-set_status key status rows row)

row_after-reclaim :
    (i : OrderIntent) (rows : List IntentRow) (row : IntentRow)
    → intent_row i.idempotency_key rows ≡ some row
    → intent_row i.idempotency_key (reclaim i rows)
      ≡ some (record row {
        status = "SUBMITTING";
        intent = record row.intent { created_at = i.created_at };
      })
unfolding intent_row reclaim
row_after-reclaim i [] row h = absurd (ground arith)
row_after-reclaim i (r ∷ rows) row h = ground (arith, row_after-reclaim i rows row)

claimed :
    (id : String) (i : OrderIntent) (t : Tables)
    → (mark_submitting id i t).0 ≡ true
    → status_of i.idempotency_key (mark_submitting id i t).1 ≡ some "SUBMITTING"
unfolding mark_submitting status_of intent_row
claimed id i t h = elim (Option-cases (intent_row i.idempotency_key t.intents)) [
  | inl missing ↦ ground (arith, string_eq.beq_iff i.idempotency_key i.idempotency_key)
  | inr (row, there) ↦ ground (arith, row_after-reclaim i t.intents row there)
]

status_set :
    (key status old : String) (t t' : Tables)
    → status_of key t ≡ some old
    → t'.intents ≡ set_status key status t.intents
    → status_of key t' ≡ some status
unfolding status_of
status_set key status old t t' h e = elim (Option-cases (intent_row key t.intents)) [
  | inl missing ↦ absurd (ground arith)
  | inr (row, there) ↦
      ground (arith, ap (intent_row key) e, row_after-set_status key status t.intents row there)
]

failed_status :
    (i : OrderIntent) (reason old : String) (t : Tables)
    → status_of i.idempotency_key t ≡ some old
    → status_of i.idempotency_key (mark_failed i reason t) ≡ some (cut 24 ("FAILED:" ++ reason))
unfolding mark_failed
failed_status i reason old t h =
    status_set i.idempotency_key (cut 24 ("FAILED:" ++ reason)) old t (mark_failed i reason t) h
      refl

unknown_status :
    (i : OrderIntent) (reason old : String) (t : Tables)
    → status_of i.idempotency_key t ≡ some old
    → status_of i.idempotency_key (mark_unknown i reason t) ≡ some (cut 24 ("UNKNOWN:" ++ reason))
unfolding mark_unknown
unknown_status i reason old t h =
    status_set i.idempotency_key (cut 24 ("UNKNOWN:" ++ reason)) old t (mark_unknown i reason t) h
      refl

-- also where the commit fails
submitted_status :
    (id number : String) (i : OrderIntent) (now : Datetime) (t : Tables)
    → status_of i.idempotency_key t ≡ some "SUBMITTING"
    → (s : String) × (status_of i.idempotency_key (mark_submitted id i number now t).1 ≡ some s)
      × (starts_with "FAILED:" s ≡ false)
unfolding mark_submitted starts_with
submitted_status id number i now t h =
    elim (Option-cases (intent_row i.idempotency_key t.intents)) [
      | inl missing ↦ ("SUBMITTING", ground (arith, h), refl)
      | inr (row, there) ↦ elim (Bool-cases (any (λ (order : OrderRow). order.id == id) t.orders)) [
        | inl taken ↦ ("SUBMITTING", ground (arith, h), refl)
        | inr free ↦
            let t' = (mark_submitted id i number now t).1 in
            (
              "SUBMITTED",
              status_set i.idempotency_key "SUBMITTED" "SUBMITTING" t t' h (ground arith),
              refl,
            )
      ]
    ]

submitting_stays : starts_with "FAILED:" "SUBMITTING" ≡ false
unfolding starts_with
submitting_stays = refl

of_key :
    {key other : String} {s : Option String} (t : Tables)
    → other ≡ key
    → status_of key t ≡ s
    → status_of other t ≡ s
of_key t same h = ap (λ k. status_of k t) same ∙ h

-- After a claim of a key was granted, a claim of the key by any intent and with any id is refused and
-- changes nothing; it is still after the outcome was marked as unknown, for any reason, and after it
-- was marked as submitted; after it was marked as failed, for any reason, it is granted.
pub mark_submitting_exclusive :
    (id again order_id number reason : String) (i j : OrderIntent) (now : Datetime) (t : Tables)
    → (mark_submitting id i t).0 ≡ true
    → j.idempotency_key ≡ i.idempotency_key
    → let t' = (mark_submitting id i t).1 in
      let unknown = mark_unknown i reason t' in
      let (r, submitted) = mark_submitted order_id i number now t' in
      (mark_submitting again j t' ≡ (false, t'))
      × (mark_submitting again j unknown ≡ (false, unknown))
      × (mark_submitting again j submitted ≡ (false, submitted))
      × ((mark_submitting again j (mark_failed i reason t')).0 ≡ true)
mark_submitting_exclusive id again order_id number reason i j now t granted same =
    let key = i.idempotency_key in
    let t' = (mark_submitting id i t).1 in
    let claims = claimed id i t granted in
    let (status, left, kept) = submitted_status order_id number i now t' claims in
    (
      refused_if again j t' "SUBMITTING" (of_key t' same claims) submitting_stays,
      refused_if again j (mark_unknown i reason t') (cut 24 ("UNKNOWN:" ++ reason))
          (of_key (mark_unknown i reason t') same (unknown_status i reason "SUBMITTING" t' claims))
          (unknown_stays reason),
      refused_if again j (mark_submitted order_id i number now t').1 status
          (of_key (mark_submitted order_id i number now t').1 same left) kept,
      granted_if again j (mark_failed i reason t') (cut 24 ("FAILED:" ++ reason))
          (of_key (mark_failed i reason t') same (failed_status i reason "SUBMITTING" t' claims))
          (failed_again reason),
    )
