-- ===== src/Generation/Normal.antt =====
-- How the planner of internal/serve/generation_lifecycle.go reads its facts: normalised texts, the
-- observed phase, the intent in force and the guard of a plan.
use pua.Prelude.{
  not, ◌&&◌, ◌||◌, Option, none, some, List, [], ◌∷◌, Text, txt, text_eq, is_blank, trim_space,
  if◌then◌else◌,
}
use pua.Generation.Facts.{
  Phase, unset, creating, ready, active, stopping, stopped, archived, Intent, unset_intent,
  no_intent, idle, replacement, archive, recovery, ReceiptState, unset_receipt, no_receipt, Message,
  Facts, Guard, enqueue_mode, is_no_intent, is_idle, is_replacement, is_archive,
}

unfoldable pub reason_or : Text → Text → Text
reason_or value fallback =
    if is_blank (trim_space value) then trim_space fallback else trim_space value

unfoldable pub first_non_empty : List Text → Text
first_non_empty [] = []
first_non_empty (v ∷ vs) =
    let rest = first_non_empty vs in if is_blank (trim_space v) then rest else trim_space v

unfoldable pub message_mode : Option Message → Text
message_mode none = []
message_mode (some m) =
    if is_blank (trim_space m.actual_mode)
    then if is_blank (trim_space m.requested_mode)
      then enqueue_mode
      else trim_space m.requested_mode
    else trim_space m.actual_mode

-- The phase that the session's state stands for.
unfoldable pub session_phase : Text → Option Phase
session_phase s =
    if text_eq s (txt "starting")
    then some creating
    else if text_eq s (txt "ready")
    then some ready
    else if text_eq s (txt "running")
    then some active
    else if text_eq s (txt "waiting_approval")
    then some active
    else if text_eq s (txt "stopping")
    then some stopping
    else if text_eq s (txt "stopped")
    then some stopped
    else if text_eq s (txt "archived")
    then some archived
    else none

abbrev pub phase_or : Phase → Phase → Phase
phase_or unset q = q
phase_or p q = p

unfoldable pub observed_phase : Facts → Phase
observed_phase f =
    let recorded = phase_or f.phase f.lifecycle.phase in
    if f.session_known
    then elim (session_phase f.session_state) [ none ↦ recorded | some p ↦ p ]
    else recorded

unfoldable pub normalize_message : Message → Message
normalize_message m = record m {
  id = trim_space m.id;
  status = trim_space m.status;
  requested_mode = trim_space m.requested_mode;
  actual_mode = trim_space m.actual_mode;
  generation_id = trim_space m.generation_id;
  session_id = trim_space m.session_id;
  turn_id = trim_space m.turn_id;
  interrupt_turn_id = trim_space m.interrupt_turn_id;
}

abbrev pub normalize_next : Option Message → Option Message
normalize_next none = none
normalize_next (some m) = some (normalize_message m)

abbrev pub intent_or_none : Intent → Intent
intent_or_none unset_intent = no_intent
intent_or_none i = i

abbrev pub receipt_or_none : ReceiptState → ReceiptState
receipt_or_none unset_receipt = no_receipt
receipt_or_none s = s

unfoldable pub normalize : Facts → Facts
normalize f = record f {
  workspace_instance_id = trim_space f.workspace_instance_id;
  resource_id = trim_space f.resource_id;
  revision = trim_space f.revision;
  generation_id = trim_space f.generation_id;
  session_id = trim_space f.session_id;
  session_state = trim_space f.session_state;
  turn_id = trim_space f.turn_id;
  session_resumable =
      (f.session_known
        && text_eq (trim_space f.session_state) (txt "stopped")
        && not (is_blank (trim_space f.session_id))
        && not f.session_resume_unavailable)
      || f.session_resumable;
  lifecycle = record lifecycle {
    intent = intent_or_none lifecycle.intent;
    phase = phase_or lifecycle.phase f.phase;
    reason = trim_space lifecycle.reason;
    receipt = record receipt { state = receipt_or_none receipt.state };
  };
  next_message = normalize_next f.next_message;
  current_generation = not (is_blank (trim_space f.generation_id)) || f.current_generation;
}
  where
    open f use {lifecycle}
    open lifecycle use {receipt}

unfoldable pub lifecycle_intent : Facts → Intent × Text
unfolding reason_or
lifecycle_intent f =
    if f.resource_archived
    then (archive, reason_or reason (txt "resource_archived"))
    else if f.binding_changed && not (is_archive intent)
    then (replacement, reason_or reason (txt "binding_changed"))
    else if f.session_resume_unavailable && not (is_archive intent) && not (is_replacement intent)
    then (recovery, reason_or reason (txt "session_resume_unavailable"))
    else if is_idle intent && f.mailbox_pending
    then (no_intent, [])
    else if is_idle intent && (f.turn_active || f.approval_pending)
    then (no_intent, [])
    else if is_no_intent intent
        && f.idle_deadline_due
        && not f.mailbox_pending
        && not f.turn_active
        && not f.approval_pending
    then (idle, txt "idle_deadline")
    else (intent, reason)
  where
    intent : Intent
    intent = f.lifecycle.intent

    reason : Text
    reason = trim_space f.lifecycle.reason

unfoldable pub lifecycle_guard : Facts → Guard
lifecycle_guard f = record {
  workspace_instance_id = trim_space f.workspace_instance_id;
  resource_id = trim_space f.resource_id;
  revision = trim_space f.revision;
  lifecycle_intent = (lifecycle_intent f).0;
  generation_id = trim_space f.generation_id;
  session_id = trim_space f.session_id;
  turn_id = trim_space f.turn_id;
  message_id = [];
}
