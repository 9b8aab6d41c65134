-- ===== src/MailStore/Receipts.antt =====
-- The receipt of a message that is no longer worked on, and the conversions between the two, of
-- internal/serve/resource_mailbox_store.go.
use pua.Prelude.{
  ℕ, Bool, true, false, ◌≡◌, refl, sym, ap, ◌∙◌, Bool-cases, inl, inr, Option, [], Text, txt,
  is_blank, trim_space, trim_left, trim_right, join_right, is_space, trim_space_idem,
}
use pua.Mailbox.Message.{
  MailMessage, Sender, Causation, Notification, ProviderContext, Mode, Status,
}
use pua.Mailbox.Select.{normalized_resource_id}

pub record Receipt : Type 0 where
  pub id : Text
  pub sequence : ℕ  -- uint64
  pub resource_id : Text
  pub role : Text
  pub sender : Option Sender
  pub sender_workspace_instance_id : Text
  pub subscribe_result : Option Bool
  pub result_subscription_status : Text
  pub result_operation_id : Text
  pub kind : Text
  pub causation : Option Causation
  pub notification : Option Notification
  pub requested_mode : Mode
  pub actual_mode : Mode
  pub mode_frozen : Bool
  pub downgrade_reason : Text
  pub status : Status
  pub accepted_at : Text
  pub updated_at : Text
  pub delivered_at : Text
  pub terminal_at : Text
  pub turn_terminal_at : Text
  pub generation_id : Text
  pub agent_hub_session_id : Text
  pub turn_id : Text
  pub provider_context : Option ProviderContext
  pub interrupt_turn_id : Text
  pub interrupt_at : Text
  pub promoted_at : Text
  pub last_error : Text
  pub last_error_code : Text

-- receiptFromMailboxMessage.
unfoldable pub receipt_of_message : MailMessage → Receipt
unfolding normalized_resource_id
receipt_of_message m = record {
  id = m.id;
  sequence = m.sequence;
  resource_id = normalized_resource_id m.resource_id;
  role = m.role;
  sender = m.sender;
  sender_workspace_instance_id = m.sender_workspace_instance_id;
  subscribe_result = m.subscribe_result;
  result_subscription_status = m.result_subscription_status;
  result_operation_id = m.result_operation_id;
  kind = m.kind;
  causation = m.causation;
  notification = m.notification;
  requested_mode = m.requested_mode;
  actual_mode = m.actual_mode;
  mode_frozen = m.mode_frozen;
  downgrade_reason = m.downgrade_reason;
  status = m.status;
  accepted_at = m.accepted_at;
  updated_at = m.updated_at;
  delivered_at = m.delivered_at;
  terminal_at = m.terminal_at;
  turn_terminal_at = m.turn_terminal_at;
  generation_id = m.generation_id;
  agent_hub_session_id = m.agent_hub_session_id;
  turn_id = m.turn_id;
  provider_context = m.provider_context;
  interrupt_turn_id = m.interrupt_turn_id;
  interrupt_at = m.interrupt_at;
  promoted_at = m.promoted_at;
  last_error = m.last_error;
  last_error_code = m.last_error_code;
}

-- mailboxMessageFromReceipt; the fields that a receipt does not have are zero.
unfoldable pub message_of_receipt : Receipt → MailMessage
unfolding normalized_resource_id
message_of_receipt r = record {
  id = r.id;
  sequence = r.sequence;
  resource_id = normalized_resource_id r.resource_id;
  role = r.role;
  sender = r.sender;
  sender_workspace_instance_id = r.sender_workspace_instance_id;
  subscribe_result = r.subscribe_result;
  result_subscription_status = r.result_subscription_status;
  result_operation_id = r.result_operation_id;
  kind = r.kind;
  causation = r.causation;
  notification = r.notification;
  requested_mode = r.requested_mode;
  actual_mode = r.actual_mode;
  mode_frozen = r.mode_frozen;
  downgrade_reason = r.downgrade_reason;
  status = r.status;
  accepted_at = r.accepted_at;
  updated_at = r.updated_at;
  delivered_at = r.delivered_at;
  terminal_at = r.terminal_at;
  turn_terminal_at = r.turn_terminal_at;
  generation_id = r.generation_id;
  agent_hub_session_id = r.agent_hub_session_id;
  turn_id = r.turn_id;
  provider_context = r.provider_context;
  interrupt_turn_id = r.interrupt_turn_id;
  interrupt_at = r.interrupt_at;
  promoted_at = r.promoted_at;
  last_error = r.last_error;
  last_error_code = r.last_error_code;
  text = [];
  attempt_count = 0;
  task_start_failure_count = 0;
  last_attempt_at = [];
  receipt = true;
}

-- What a receipt keeps of a message.
abbrev pub forgotten : MailMessage → MailMessage
forgotten m = record m {
  resource_id = normalized_resource_id m.resource_id;
  text = [];
  attempt_count = 0;
  task_start_failure_count = 0;
  last_attempt_at = [];
  receipt = true;
}

workspace_normal : normalized_resource_id (txt "workspace") ≡ txt "workspace"
unfolding normalized_resource_id trim_space trim_left trim_right join_right is_space
workspace_normal = refl

blank_normal :
    (t : Text) → is_blank (trim_space t) ≡ true → normalized_resource_id t ≡ txt "workspace"
unfolding normalized_resource_id
blank_normal t b = rw b refl

named_normal :
    (t : Text) → is_blank (trim_space t) ≡ false → normalized_resource_id t ≡ trim_space t
unfolding normalized_resource_id
named_normal t b = rw b refl

trim_normal :
    (t : Text)
    → is_blank (trim_space t) ≡ false
    → normalized_resource_id (trim_space t) ≡ trim_space t
trim_normal t b = named_normal (trim_space t) (rw (trim_space_idem t) b) ∙ trim_space_idem t

pub normalized_resource_id_idem :
    (t : Text) → normalized_resource_id (normalized_resource_id t) ≡ normalized_resource_id t
normalized_resource_id_idem t = elim (Bool-cases (is_blank (trim_space t))) [
  | inl b ↦ unfold_blank b
  | inr b ↦ unfold_named b
]
  where
    unfold_blank :
        is_blank (trim_space t) ≡ true
        → normalized_resource_id (normalized_resource_id t) ≡ normalized_resource_id t
    unfold_blank b =
        ap normalized_resource_id (blank_normal t b) ∙ workspace_normal ∙ sym (blank_normal t b)

    unfold_named :
        is_blank (trim_space t) ≡ false
        → normalized_resource_id (normalized_resource_id t) ≡ normalized_resource_id t
    unfold_named b =
        ap normalized_resource_id (named_normal t b) ∙ trim_normal t b ∙ sym (named_normal t b)

pub message_of_receipt-receipt_of_message :
    (m : MailMessage) → message_of_receipt (receipt_of_message m) ≡ forgotten m
unfolding message_of_receipt receipt_of_message
message_of_receipt-receipt_of_message m = rw normalized_resource_id_idem
