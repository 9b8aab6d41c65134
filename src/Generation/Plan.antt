-- ===== src/Generation/Plan.antt =====
-- PlanGeneration of internal/serve/generation_lifecycle.go, with its parts.
use pua.Prelude.{not, ◌&&◌, ◌||◌, Option, none, some, [], Text, txt, is_blank, if◌then◌else◌}
use pua.Generation.Facts.{
  Phase, Intent, no_intent, idle, recovery, Operation, no_operation, create_generation,
  wait_for_session, deliver_message, wait_for_message_receipt, interrupt_turn, stop_session,
  resume_session, archive_session, retire_generation, finalize_archived_mailbox, Facts, Plan,
  is_no_intent, is_ready, is_stopped, is_archived, is_arriving, is_settled, is_retryable,
}
use pua.Generation.Normal.{reason_or, observed_phase, normalize, lifecycle_intent, lifecycle_guard}
use pua.Generation.Steps.{
  finish, wake, plan_message, has_message, next_in_flight, plan_lifecycle_intent,
}

-- A receipt of a stop, with the intent that it serves.
unfoldable pub recover_stop : Plan → Facts → Intent → Text → Plan
recover_stop p f i reason =
    if is_retryable f.lifecycle.receipt.state && is_ready (observed_phase f)
    then finish (record p { intent = i; reason = reason }) stop_session (txt "retry_stop") none
    else plan_lifecycle_intent (record p { intent = i; reason = reason }) f i reason

unfoldable pub recover_archive : Plan → Facts → Intent → Text → Plan
recover_archive p f i reason =
    if is_stopped (observed_phase f)
    then finish (record p { intent = i; reason = reason }) archive_session (txt "retry_archive")
        none
    else plan_lifecycle_intent (record p { intent = i; reason = reason }) f i reason

unfoldable pub recover_resume : Plan → Facts → Option Plan
recover_resume p f =
    if f.session_resume_unavailable
    then some (
        plan_lifecycle_intent (record p { intent = recovery }) f recovery
          (txt "resume_terminal_failure"))
    else if f.mailbox_pending
        && has_message f.next_message
        && is_stopped (observed_phase f)
        && f.session_known
        && f.session_resumable
    then some (wake p f (txt "retry_resume") f.next_message)
    else none

unfoldable pub recover_message : Plan → Facts → Option Plan
recover_message p f =
    if f.mailbox_pending
    then some (finish p wait_for_message_receipt (txt "message_receipt_pending") f.next_message)
    else none

abbrev intent_or_recovery : Intent → Intent
intent_or_recovery no_intent = recovery
intent_or_recovery i = i

-- The branches of planReceiptRecovery by the receipt's operation.
unfoldable pub recover_by : Operation → Plan → Facts → Option Plan
unfolding recover_stop recover_archive recover_resume recover_message
recover_by deliver_message p f = recover_message p f
recover_by interrupt_turn p f = recover_message p f
recover_by stop_session p f = some (
    recover_stop p f (intent_or_recovery f.lifecycle.intent)
      (reason_or f.lifecycle.reason (txt "lifecycle_receipt_pending")))
recover_by archive_session p f = some (
    recover_archive p f (intent_or_recovery f.lifecycle.intent)
      (reason_or f.lifecycle.reason (txt "lifecycle_receipt_pending")))
recover_by resume_session p f = recover_resume p f
recover_by _ p f = none

unfoldable pub plan_receipt_recovery : Plan → Facts → Option Plan
unfolding recover_by
plan_receipt_recovery p f =
    if is_settled f.lifecycle.receipt.state
    then none
    else recover_by f.lifecycle.receipt.operation p f

-- What PlanGeneration does once no intent and no receipt decides.
unfoldable pub plan_settled : Plan → Facts → Plan
plan_settled p f =
    if is_archived phase
    then finish p retire_generation (txt "session_archived") none
    else if is_stopped phase
        && f.mailbox_pending
        && has_message f.next_message
        && f.session_known
        && f.session_resumable
        && not f.session_resume_unavailable
    then wake p f (txt "resume_stopped_session") f.next_message
    else if is_stopped phase && f.session_resume_unavailable
    then finish p archive_session (txt "session_resume_unavailable") none
    else if is_stopped phase
    then p
    else if is_arriving phase || not f.session_known
    then finish p wait_for_session (txt "session_state_not_ready") none
    else if f.mailbox_pending && has_message f.next_message
    then plan_message p f f.next_message
    else if f.idle_deadline_due && is_ready phase && not f.turn_active && not f.approval_pending
    then finish (record p { intent = idle }) stop_session (txt "idle_deadline") none
    else p
  where
    phase : Phase
    phase = observed_phase f

abbrev pub plan_or : Option Plan → Plan → Plan
plan_or none q = q
plan_or (some p) q = p

-- PlanGeneration for a generation with no message in flight: the intent, a receipt, or neither.
unfoldable pub plan_current : Plan → Facts → Intent → Text → Plan
plan_current p f i reason =
    if not (is_no_intent i)
    then plan_lifecycle_intent p f i reason
    else plan_or (plan_receipt_recovery p f) (plan_settled p f)

-- PlanGeneration from the point where the resource is known and the intent is computed.
unfoldable pub plan_for : Plan → Facts → Intent → Text → Plan
plan_for p f i reason =
    if f.resource_archived && f.mailbox_pending
    then finish p finalize_archived_mailbox (reason_or reason (txt "resource_archived"))
        f.next_message
    else if not f.current_generation
    then (if f.resource_archived
        then p
        else if f.mailbox_pending
        then finish p create_generation (reason_or reason (txt "message_waiting")) f.next_message
        else p)
    else if f.mailbox_pending && next_in_flight f.next_message
    then plan_message p f f.next_message
    else plan_current p f i reason

unfoldable pub empty_plan : Facts → Plan
empty_plan f = record {
  operation = no_operation;
  intent = f.lifecycle.intent;
  reason = [];
  operation_id = [];
  generation_id = f.generation_id;
  session_id = f.session_id;
  turn_id = f.turn_id;
  message_id = [];
  message_mode = [];
  guard = lifecycle_guard f;
  blocked_reason = [];
}

-- The plan with the intent in force, its reason and its guard's intent.
unfoldable pub start_plan : Facts → Plan
unfolding empty_plan
start_plan f = record (empty_plan f) {
  intent = (lifecycle_intent f).0;
  reason = (lifecycle_intent f).1;
  guard = record (lifecycle_guard f) { lifecycle_intent = (lifecycle_intent f).0 };
}

-- PlanGeneration on facts that are normalised.
unfoldable pub plan_normalized : Facts → Plan
unfolding plan_for start_plan
plan_normalized f =
    if is_blank f.resource_id
    then record (empty_plan f) { blocked_reason = txt "resource id is required" }
    else plan_for (start_plan f) f (lifecycle_intent f).0 (lifecycle_intent f).1

unfoldable pub plan_generation : Facts → Plan
plan_generation f = plan_normalized (normalize f)
