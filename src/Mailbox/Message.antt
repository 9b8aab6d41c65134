-- ===== src/Mailbox/Message.antt =====
-- The durable message of a resource's mailbox: internal/serve/resource_mailbox.go. A status and a mode
-- are data types with a constructor for each constant and one for other text; a time is its text.
use pua.Prelude.{ℕ, Bool, true, false, Option, List, Text, txt}

pub data Status : Type 0 where
  queued delivering interrupting delivered cancelled undeliverable delivery_unknown : Status
  other_status : Text → Status

pub data Mode : Type 0 where
  steer enqueue interrupt : Mode
  other_mode : Text → Mode

abbrev pub status_text : Status → Text
status_text queued = txt "queued"
status_text delivering = txt "delivering"
status_text interrupting = txt "interrupting"
status_text delivered = txt "delivered"
status_text cancelled = txt "cancelled"
status_text undeliverable = txt "undeliverable"
status_text delivery_unknown = txt "delivery_unknown"
status_text (other_status s) = s

abbrev pub mode_text : Mode → Text
mode_text steer = txt "steer"
mode_text enqueue = txt "enqueue"
mode_text interrupt = txt "interrupt"
mode_text (other_mode s) = s

abbrev pub is_queued : Status → Bool
is_queued queued = true
is_queued _ = false

abbrev pub is_delivering : Status → Bool
is_delivering delivering = true
is_delivering _ = false

abbrev pub is_interrupting : Status → Bool
is_interrupting interrupting = true
is_interrupting _ = false

abbrev pub is_delivered : Status → Bool
is_delivered delivered = true
is_delivered _ = false

-- `status == queued || status == delivering || status == interrupting`
abbrev pub is_waiting : Status → Bool
is_waiting queued = true
is_waiting delivering = true
is_waiting interrupting = true
is_waiting _ = false

-- `status == delivering || status == interrupting`
abbrev pub is_under_way : Status → Bool
is_under_way delivering = true
is_under_way interrupting = true
is_under_way _ = false

abbrev pub is_steer : Mode → Bool
is_steer steer = true
is_steer _ = false

abbrev pub is_interrupt : Mode → Bool
is_interrupt interrupt = true
is_interrupt _ = false

pub record Sender : Type 0 where
  pub id : Text
  pub name : Text
  pub session_id : Text

-- What a generated message is about, and its notification receipt.
pub record Causation : Type 0 where
  pub kind : Text
  pub source_workspace_instance_id : Text
  pub source_resource_id : Text
  pub message_id : Text
  pub source_message_ids : List Text
  pub generation_id : Text
  pub turn_id : Text
  pub turn_reference : Text
  pub turn_status : Text
  pub history_unavailable : Bool
  pub terminal_code : Text
  pub reason : Text
  pub schedule_digest : Text

pub record Notification : Type 0 where
  pub id : Text
  pub kind : Text
  pub status : Text
  pub target_workspace_instance_id : Text
  pub target_resource_id : Text
  pub created_at : Text
  pub updated_at : Text
  pub accepted_at : Text
  pub delivery_status : Text
  pub delivered_at : Text
  pub terminal_at : Text
  pub last_error : Text
  pub last_error_code : Text

pub record ProviderContext : Type 0 where
  pub language : Text
  pub turn_id : Text
  pub opener_role : Text
  pub opener_sender : Option Sender
  pub opener_response : Text
  pub opener_unknown : Bool

pub record MailMessage : Type 0 where
  pub id : Text
  pub sequence : ℕ  -- uint64
  pub resource_id : Text
  pub text : Text
  pub role : Text
  pub sender : Option Sender
  pub sender_workspace_instance_id : Text
  pub subscribe_result : Option Bool
  pub result_subscription_status : Text
  pub result_operation_id : Text
  pub kind : Text
  pub causation : Option Causation
  pub notification : Option Notification
  pub requested_mode : Mode
  pub actual_mode : Mode
  pub mode_frozen : Bool
  pub downgrade_reason : Text
  pub status : Status
  pub accepted_at : Text
  pub updated_at : Text
  pub delivered_at : Text
  pub terminal_at : Text
  pub generation_id : Text
  pub agent_hub_session_id : Text
  pub turn_id : Text
  pub provider_context : Option ProviderContext
  pub turn_terminal_at : Text
  pub interrupt_turn_id : Text
  pub interrupt_at : Text
  pub promoted_at : Text
  pub attempt_count : ℕ
  pub task_start_failure_count : ℕ
  pub last_attempt_at : Text
  pub last_error : Text
  pub last_error_code : Text
  pub receipt : Bool

abbrev pub Mailbox : Type 0
Mailbox = List MailMessage
