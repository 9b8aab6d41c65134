-- ===== src/Generation/Legacy.antt =====
-- The legacy adapter of internal/serve/generation_lifecycle.go: AdaptLegacyGenerationFacts,
-- ApplyLegacyLifecyclePlan and the functions that they call. A generation record has the fields that
-- the adapter reads or writes; a time is a number of nanoseconds, 0 for the zero time.
use pua.Prelude.{
  ℕ, Bool, true, false, not, ◌&&◌, ◌||◌, Option, none, some, List, [], ◌∷◌, Text, txt, text_eq,
  is_blank, trim_space, if◌then◌else◌,
}
use pua.Generation.Facts.{
  Phase, absent, creating, ready, active, stopping, stopped, archived, recovering, Intent,
  no_intent, idle, replacement, archive, recovery, other_operation, unset_receipt, Receipt, Message,
  Facts, enqueue_mode,
}
use pua.Generation.Normal.{first_non_empty}
use pua.Mailbox.Message.{MailMessage, Mailbox, status_text, mode_text, is_delivered}
use pua.Mailbox.Select.{normalized_resource_id, select_pending}

pub record GenerationRecord : Type 0 where
  pub resource_id : Text
  pub generation : ℕ
  pub generation_id : Text
  pub binding_kind : Text
  pub binding_name : Text
  pub profile_revision : Text
  pub replacement_pending : Bool
  pub manual_stop_requested : Bool
  pub agent_hub_session_id : Text
  pub agent_hub_agent_name : Text
  pub agent_hub_stopped_observed : Bool
  pub idle_deadline_at : Text
  pub idle_sleep_stop_requested : Bool
  pub lifecycle_receipt : Option Receipt
  pub session_resume_unavailable : Bool
  pub resume_retry_at : Text
  pub archived_task_stop_requested : Bool
  pub status : Text
  pub updated_at : Text
  pub current_turn_id : Text
  pub retire_reason : Text

pub record HubSession : Type 0 where
  pub id : Text
  pub state : Text
  pub current_turn_id : Text
  pub pending_approval_ids : List Text
  pub steer : Bool

pub record LegacyInput : Type 0 where
  pub generation : GenerationRecord
  pub session : Option HubSession
  pub resource_archived : Bool
  pub binding_changed : Bool
  pub mailbox : Mailbox
  pub workspace_instance_id : Text
  pub revision : Text
  pub now : ℕ
  pub agent_hub_stop_requested : Bool
  pub lifecycle_stop_in_flight : Bool

-- The switch of legacyGenerationPhase on a status that is trimmed.
unfoldable pub phase_of_status : Text → Phase
phase_of_status s =
    if text_eq s (txt "starting")
    then creating
    else if text_eq s (txt "idle") || text_eq s (txt "ready")
    then ready
    else if text_eq s (txt "idle-suspended")
    then stopped
    else if text_eq s (txt "running") || text_eq s (txt "waiting_approval")
    then active
    else if text_eq s (txt "stopping")
    then stopping
    else if text_eq s (txt "stopped")
    then stopped
    else if text_eq s (txt "archived")
    then archived
    else if text_eq s (txt "recovering") || text_eq s (txt "failed")
    then recovering
    else absent

unfoldable pub legacy_phase : Text → Phase
unfolding phase_of_status
legacy_phase status = phase_of_status (trim_space status)

unfoldable pub legacy_intent : GenerationRecord → Bool → Intent
legacy_intent r is_archived =
    if is_archived || r.archived_task_stop_requested
    then archive
    else if r.replacement_pending
    then replacement
    else if r.session_resume_unavailable
    then recovery
    else if r.idle_sleep_stop_requested
    then idle
    else no_intent

unfoldable pub legacy_reason : GenerationRecord → Bool → Text
legacy_reason r is_archived =
    if is_archived || r.archived_task_stop_requested
    then txt "resource_archived"
    else if r.replacement_pending
    then (if r.manual_stop_requested
        then txt "manual_generation_stop"
        else if is_blank (trim_space r.retire_reason)
        then txt "binding_changed"
        else trim_space r.retire_reason)
    else if r.session_resume_unavailable
    then txt "session_resume_unavailable"
    else if r.idle_sleep_stop_requested
    then txt "idle_deadline"
    else []

-- `state == "running" || state == "waiting_approval"`
unfoldable pub runs : Text → Bool
runs state = text_eq state (txt "running") || text_eq state (txt "waiting_approval")

unfoldable pub active_turn_id : HubSession → Text
unfolding runs
active_turn_id s = if runs s.state then trim_space s.current_turn_id else []

unfoldable pub mailbox_message : MailMessage → Message
mailbox_message m = record {
  id = m.id;
  status = status_text m.status;
  requested_mode =
      if is_blank (trim_space (mode_text m.requested_mode))
      then enqueue_mode
      else trim_space (mode_text m.requested_mode);
  actual_mode = mode_text m.actual_mode;
  mode_frozen = m.mode_frozen;
  generation_id = m.generation_id;
  session_id = m.agent_hub_session_id;
  turn_id = m.turn_id;
  interrupt_turn_id = m.interrupt_turn_id;
  agent_hub_accepted = is_delivered m.status;
}

unfoldable pub mailbox_facts : Mailbox → Text → Bool × Option Message
unfolding mailbox_message
mailbox_facts mailbox id = elim (select_pending mailbox id) [
  | none ↦ (false, none)
  | some m ↦ (true, some (mailbox_message m))
]

-- The zero value of a receipt.
abbrev pub zero_receipt : Receipt
zero_receipt = record {
  operation = other_operation [];
  state = unset_receipt;
  operation_id = [];
  generation_id = [];
  session_id = [];
  turn_id = [];
  message_id = [];
  revision = [];
}

abbrev pub receipt_or_zero : Option Receipt → Receipt
receipt_or_zero none = zero_receipt
receipt_or_zero (some x) = x

-- `len(ids) > 0`
abbrev pub has_approvals : List Text → Bool
has_approvals [] = false
has_approvals (a ∷ rest) = true

-- What the record alone says: the composite literal that begins AdaptLegacyGenerationFacts.
unfoldable pub record_facts : LegacyInput → Facts
unfolding legacy_phase legacy_intent legacy_reason
record_facts input = record {
  workspace_instance_id = trim_space input.workspace_instance_id;
  resource_id = normalized_resource_id r.resource_id;
  revision =
      if is_blank (trim_space input.revision)
      then trim_space r.updated_at
      else trim_space input.revision;
  current_generation =
      not (is_blank (trim_space r.generation_id))
      || not (is_blank (trim_space r.agent_hub_session_id));
  generation_id = trim_space r.generation_id;
  generation_number = r.generation;
  phase = legacy_phase r.status;
  binding = record {
    kind = trim_space r.binding_kind;
    name = trim_space r.binding_name;
    resolved_agent = trim_space r.agent_hub_agent_name;
    profile_revision = trim_space r.profile_revision;
  };
  binding_changed = input.binding_changed;
  resource_archived = input.resource_archived;
  session_known = false;
  session_id = trim_space r.agent_hub_session_id;
  session_state = [];
  session_resumable = false;
  session_resume_unavailable = r.session_resume_unavailable;
  resume_backoff_active = false;
  turn_id = [];
  turn_active = false;
  approval_pending = false;
  steer_supported = false;
  mailbox_pending = false;
  next_message = none;
  idle_deadline_due = false;
  lifecycle = record {
    intent = legacy_intent r input.resource_archived;
    phase = legacy_phase r.status;
    reason = legacy_reason r input.resource_archived;
    receipt = receipt_or_zero r.lifecycle_receipt;
  };
}
  where
    r : GenerationRecord
    r = input.generation

-- What the session adds, where it is known.
unfoldable pub add_session : Option HubSession → Facts → Facts
unfolding legacy_phase runs active_turn_id
add_session none f = f
add_session (some s) f = record f {
  session_known = true;
  session_id = first_non_empty (s.id ∷ f.session_id ∷ []);
  session_state = trim_space s.state;
  turn_id = active_turn_id s;
  turn_active = runs s.state;
  approval_pending =
      has_approvals s.pending_approval_ids || text_eq s.state (txt "waiting_approval");
  steer_supported = s.steer;
  phase = legacy_phase s.state;
  lifecycle = record lifecycle { phase = legacy_phase s.state };
  session_resumable =
      text_eq s.state (txt "stopped")
      && not (is_blank (trim_space (first_non_empty (s.id ∷ f.session_id ∷ []))));
}
  where
    open f use {lifecycle}
