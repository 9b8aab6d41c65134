-- ===== src/Generation/Facts.antt =====
-- The data of internal/serve/generation_lifecycle.go: phases, intents, operations, receipts, the
-- snapshot of facts that the planner reads and the plan that it returns. A Go string type with
-- named constants is a data type with one constructor for each constant, and one for other text.
use pua.Prelude.{ℕ, Bool, true, false, Option, Text, txt}

pub data Phase : Type 0 where
  unset absent creating ready active stopping stopped archived recovering : Phase
  other_phase : Text → Phase

pub data Intent : Type 0 where
  unset_intent no_intent idle replacement archive recovery : Intent
  other_intent : Text → Intent

pub data Operation : Type 0 where
  no_operation create_generation wait_for_session deliver_message wait_for_message_receipt :
      Operation
  wait_for_turn_terminal interrupt_turn stop_session resume_session wait_for_stopped : Operation
  archive_session retire_generation observe_session finalize_archived_mailbox : Operation
  other_operation : Text → Operation

pub data ReceiptState : Type 0 where
  unset_receipt no_receipt requested unknown succeeded retryable terminal : ReceiptState
  other_receipt : Text → ReceiptState

-- `string(intent)`.
abbrev pub intent_text : Intent → Text
intent_text unset_intent = txt ""
intent_text no_intent = txt "none"
intent_text idle = txt "idle"
intent_text replacement = txt "replacement"
intent_text archive = txt "archive"
intent_text recovery = txt "recovery"
intent_text (other_intent s) = s

-- `string(operation)`.
unfoldable pub operation_text : Operation → Text
operation_text no_operation = txt "none"
operation_text create_generation = txt "create_generation"
operation_text wait_for_session = txt "wait_for_session"
operation_text deliver_message = txt "deliver_message"
operation_text wait_for_message_receipt = txt "wait_for_message_receipt"
operation_text wait_for_turn_terminal = txt "wait_for_turn_terminal"
operation_text interrupt_turn = txt "interrupt_turn"
operation_text stop_session = txt "stop_session"
operation_text resume_session = txt "resume_session"
operation_text wait_for_stopped = txt "wait_for_stopped"
operation_text archive_session = txt "archive_session"
operation_text retire_generation = txt "retire_generation"
operation_text observe_session = txt "observe_session"
operation_text finalize_archived_mailbox = txt "finalize_archived_mailbox"
operation_text (other_operation s) = s

pub record Receipt : Type 0 where
  pub operation : Operation
  pub state : ReceiptState
  pub operation_id : Text
  pub generation_id : Text
  pub session_id : Text
  pub turn_id : Text
  pub message_id : Text
  pub revision : Text

pub record Lifecycle : Type 0 where
  pub intent : Intent
  pub phase : Phase
  pub reason : Text
  pub receipt : Receipt

pub record Binding : Type 0 where
  pub kind : Text
  pub name : Text
  pub resolved_agent : Text
  pub profile_revision : Text

pub record Message : Type 0 where
  pub id : Text
  pub status : Text
  pub requested_mode : Text
  pub actual_mode : Text
  pub mode_frozen : Bool
  pub generation_id : Text
  pub session_id : Text
  pub turn_id : Text
  pub interrupt_turn_id : Text
  pub agent_hub_accepted : Bool

pub record Facts : Type 0 where
  pub workspace_instance_id : Text
  pub resource_id : Text
  pub revision : Text
  pub current_generation : Bool
  pub generation_id : Text
  pub generation_number : ℕ
  pub phase : Phase
  pub binding : Binding
  pub binding_changed : Bool
  pub resource_archived : Bool
  pub session_known : Bool
  pub session_id : Text
  pub session_state : Text
  pub session_resumable : Bool
  pub session_resume_unavailable : Bool
  pub resume_backoff_active : Bool
  pub turn_id : Text
  pub turn_active : Bool
  pub approval_pending : Bool
  pub steer_supported : Bool
  pub mailbox_pending : Bool
  pub next_message : Option Message
  pub idle_deadline_due : Bool
  pub lifecycle : Lifecycle

pub record Guard : Type 0 where
  pub workspace_instance_id : Text
  pub resource_id : Text
  pub revision : Text
  pub lifecycle_intent : Intent
  pub generation_id : Text
  pub session_id : Text
  pub turn_id : Text
  pub message_id : Text

pub record Plan : Type 0 where
  pub operation : Operation
  pub intent : Intent
  pub reason : Text
  pub operation_id : Text
  pub generation_id : Text
  pub session_id : Text
  pub turn_id : Text
  pub message_id : Text
  pub message_mode : Text
  pub guard : Guard
  pub blocked_reason : Text

abbrev pub steer_mode : Text
steer_mode = txt "steer"

abbrev pub enqueue_mode : Text
enqueue_mode = txt "enqueue"

abbrev pub interrupt_mode : Text
interrupt_mode = txt "interrupt"

abbrev pub queued_status : Text
queued_status = txt "queued"

abbrev pub delivering_status : Text
delivering_status = txt "delivering"

abbrev pub interrupting_status : Text
interrupting_status = txt "interrupting"

-- The comparisons of an enumerated value with one of its constants.
abbrev pub is_no_intent : Intent → Bool
is_no_intent no_intent = true
is_no_intent _ = false

abbrev pub is_idle : Intent → Bool
is_idle idle = true
is_idle _ = false

abbrev pub is_replacement : Intent → Bool
is_replacement replacement = true
is_replacement _ = false

abbrev pub is_archive : Intent → Bool
is_archive archive = true
is_archive _ = false

abbrev pub is_ready : Phase → Bool
is_ready ready = true
is_ready _ = false

abbrev pub is_active : Phase → Bool
is_active active = true
is_active _ = false

abbrev pub is_stopped : Phase → Bool
is_stopped stopped = true
is_stopped _ = false

abbrev pub is_archived : Phase → Bool
is_archived archived = true
is_archived _ = false

-- `phase == stopping || phase == archived`
abbrev pub is_leaving : Phase → Bool
is_leaving stopping = true
is_leaving archived = true
is_leaving _ = false

-- `phase == creating || phase == recovering`
abbrev pub is_arriving : Phase → Bool
is_arriving creating = true
is_arriving recovering = true
is_arriving _ = false

-- `state == none || state == succeeded || state == terminal`
abbrev pub is_settled : ReceiptState → Bool
is_settled no_receipt = true
is_settled succeeded = true
is_settled terminal = true
is_settled _ = false

abbrev pub is_retryable : ReceiptState → Bool
is_retryable retryable = true
is_retryable _ = false
