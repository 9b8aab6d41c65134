-- ===== src/Generation/Safety.antt =====
-- When PlanGeneration may choose each operation (internal/serve/generation_lifecycle.go).
use pua.Prelude.{
  true, false, ◌≡◌, refl, ◌⊎◌, inl, inr, Option, none, some, arith, Text, txt, Bool-cases,
}
use pua.Generation.Facts.{
  Intent, Operation, stop_session, no_operation, deliver_message, archive_session,
  retire_generation, resume_session, create_generation, finalize_archived_mailbox, interrupt_turn,
  Facts, Plan, is_ready, is_stopped, is_archived, is_leaving, is_retryable, is_no_intent, recovery,
}
use pua.Generation.Normal.{observed_phase, normalize, lifecycle_intent}
use pua.Generation.Steps.{
  finish, wake, plan_message, has_message, next_in_flight, asks_interrupt, plan_lifecycle_intent,
  turn_is_open,
}
use pua.Generation.Plan.{
  plan_receipt_recovery, plan_settled, plan_for, plan_normalized, plan_generation, start_plan,
  recover_stop, recover_archive, recover_resume, recover_by, plan_or, plan_current,
}

-- What the facts and the intent in force say where an operation is chosen.
abbrev pub Allowed : Facts → Intent → Operation → Type 0
Allowed f i deliver_message =
    (is_no_intent i ≡ true)
    × (f.mailbox_pending ≡ true)
    × (f.resource_archived ≡ false)
    × (is_leaving (observed_phase f) ≡ false)
    × (is_stopped (observed_phase f) ≡ false)
    × ((is_ready (observed_phase f) ≡ true) ⊎ (turn_is_open f ≡ true) × (f.steer_supported ≡ true))
Allowed f i interrupt_turn =
    (is_leaving (observed_phase f) ≡ false)
    × (is_stopped (observed_phase f) ≡ false)
    × (turn_is_open f ≡ true)
    × (has_message f.next_message ≡ true)
Allowed f i stop_session =
    (is_ready (observed_phase f) ≡ true)
    × ((f.turn_active ≡ false) × (f.approval_pending ≡ false)
        ⊎ (is_retryable f.lifecycle.receipt.state ≡ true))
Allowed f i archive_session = is_stopped (observed_phase f) ≡ true
Allowed f i retire_generation = is_archived (observed_phase f) ≡ true
Allowed f i resume_session =
    (is_stopped (observed_phase f) ≡ true)
    × (f.session_known ≡ true)
    × (f.session_resumable ≡ true)
    × (f.session_resume_unavailable ≡ false)
    × (f.resume_backoff_active ≡ false)
    × (has_message f.next_message ≡ true)
Allowed f i create_generation =
    (f.current_generation ≡ false) × (f.resource_archived ≡ false) × (f.mailbox_pending ≡ true)
Allowed f i finalize_archived_mailbox = (f.resource_archived ≡ true) × (f.mailbox_pending ≡ true)
Allowed f i _ = Unit

-- Where planMessage is called.
abbrev Called : Facts → Intent → Type 0
Called f i =
    (is_no_intent i ≡ true) × (f.mailbox_pending ≡ true) × (f.resource_archived ≡ false)
    ⊎ (next_in_flight f.next_message ≡ true)
    ⊎ (asks_interrupt f.next_message ≡ true) × (f.turn_active ≡ true)

plan_message-Allowed :
    (p : Plan) (f : Facts) (i : Intent)
    → Called f i
    → Allowed f i (plan_message p f f.next_message).operation
unfolding plan_message finish wake turn_is_open
plan_message-Allowed p f i c = ground arith

plan_lifecycle_intent-Allowed :
    (p : Plan) (f : Facts) (i j : Intent) (reason : Text)
    → p.operation ≡ no_operation
    → Allowed f j (plan_lifecycle_intent p f i reason).operation
unfolding plan_lifecycle_intent finish
plan_lifecycle_intent-Allowed p f i j reason h = ground (arith, plan_message-Allowed p f j)

-- The same of an operation that planReceiptRecovery may choose.
abbrev AllowedIf : Facts → Intent → Option Plan → Type 0
AllowedIf f i none = Unit {0}
AllowedIf f i (some q) = Allowed f i q.operation

recover_stop-Allowed :
    (p : Plan) (f : Facts) (i j : Intent) (reason : Text)
    → p.operation ≡ no_operation
    → Allowed f j (recover_stop p f i reason).operation
unfolding recover_stop finish
recover_stop-Allowed p f i j reason h =
    ground (
      arith,
      plan_lifecycle_intent-Allowed (record p { intent = i; reason = reason }) f i j reason h,
    )

recover_archive-Allowed :
    (p : Plan) (f : Facts) (i j : Intent) (reason : Text)
    → p.operation ≡ no_operation
    → Allowed f j (recover_archive p f i reason).operation
unfolding recover_archive finish
recover_archive-Allowed p f i j reason h =
    ground (
      arith,
      plan_lifecycle_intent-Allowed (record p { intent = i; reason = reason }) f i j reason h,
    )

recover_resume-Allowed :
    (p : Plan) (f : Facts) (j : Intent)
    → p.operation ≡ no_operation
    → AllowedIf f j (recover_resume p f)
unfolding recover_resume finish wake
recover_resume-Allowed p f j h = ground (
  arith,
  plan_lifecycle_intent-Allowed (record p { intent = recovery }) f recovery j
      (txt "resume_terminal_failure") h,
)

recover_by-Allowed :
    (op : Operation) (p : Plan) (f : Facts) (j : Intent)
    → p.operation ≡ no_operation
    → AllowedIf f j (recover_by op p f)
unfolding recover_by finish
recover_by-Allowed stop_session p f j h = recover_stop-Allowed p f _ j _ h
recover_by-Allowed archive_session p f j h = recover_archive-Allowed p f _ j _ h
recover_by-Allowed resume_session p f j h = recover_resume-Allowed p f j h
recover_by-Allowed _ p f j h = ground arith

plan_receipt_recovery-Allowed :
    (p : Plan) (f : Facts) (i : Intent)
    → p.operation ≡ no_operation
    → AllowedIf f i (plan_receipt_recovery p f)
unfolding plan_receipt_recovery
plan_receipt_recovery-Allowed p f i h =
    ground (arith, recover_by-Allowed f.lifecycle.receipt.operation p f i h)

plan_settled-Allowed :
    (p : Plan) (f : Facts) (i : Intent)
    → p.operation ≡ no_operation
    → is_no_intent i ≡ true
    → f.resource_archived ≡ false
    → Allowed f i (plan_settled p f).operation
unfolding plan_settled finish wake
plan_settled-Allowed p f i h n a = ground (arith, plan_message-Allowed p f i)

plan_or-Allowed :
    (o : Option Plan) (q : Plan) (f : Facts) (i : Intent)
    → AllowedIf f i o
    → Allowed f i q.operation
    → Allowed f i (plan_or o q).operation
plan_or-Allowed none q f i h k = k
plan_or-Allowed (some p) q f i h k = h

-- An archived resource has the archive intent, so with no intent in force it is not archived.
plan_current-Allowed :
    (p : Plan) (f : Facts) (i : Intent) (reason : Text)
    → p.operation ≡ no_operation
    → (is_no_intent i ≡ true → f.resource_archived ≡ false)
    → Allowed f i (plan_current p f i reason).operation
unfolding plan_current
plan_current-Allowed p f i reason h a = elim (Bool-cases (is_no_intent i)) [
  | inl e ↦ rw e (
      plan_or-Allowed (plan_receipt_recovery p f) (plan_settled p f) f i
        (plan_receipt_recovery-Allowed p f i h) (plan_settled-Allowed p f i h e (a e)))
  | inr e ↦ rw e (plan_lifecycle_intent-Allowed p f i i reason h)
]

plan_for-Allowed :
    (p : Plan) (f : Facts) (i : Intent) (reason : Text)
    → p.operation ≡ no_operation
    → (is_no_intent i ≡ true → f.resource_archived ≡ false)
    → Allowed f i (plan_for p f i reason).operation
unfolding plan_for finish
plan_for-Allowed p f i reason h a =
    ground (arith, plan_message-Allowed p f i, plan_current-Allowed p f i reason h a)

archived-intent :
    (f : Facts) → is_no_intent (lifecycle_intent f).0 ≡ true → f.resource_archived ≡ false
unfolding lifecycle_intent
archived-intent f h = ground arith

-- The operation that PlanGeneration chooses is one that the normalised facts and the lifecycle
-- intent in force allow. A message is delivered only while no lifecycle intent is in force, for a
-- pending message of a resource that is not archived, and never to a session that is stopping,
-- stopped or archived: the session is ready, or has an open turn and can be steered. A session is
-- stopped only in the ready phase, with no active turn and no pending approval unless a receipt of a
-- stop is to be retried; a session is archived only once stopped, and a generation retired only once
-- archived. A session is resumed only for a message, where it is known, stopped and resumable and
-- no back-off is running. A generation is created only where there is none, for pending mail of a
-- resource that is not archived.
pub plan_generation-Allowed :
    (f : Facts)
    → Allowed (normalize f) (lifecycle_intent (normalize f)).0 (plan_generation f).operation
unfolding plan_generation plan_normalized
plan_generation-Allowed f = ground (
  arith,
  plan_for-Allowed (start_plan (normalize f)) (normalize f) (lifecycle_intent (normalize f)).0
      (lifecycle_intent (normalize f)).1 refl (archived-intent (normalize f)),
)
