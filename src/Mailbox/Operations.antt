-- ===== src/Mailbox/Operations.antt =====
-- The operations that accept, cancel and archive the messages of a resource:
-- internal/serve/resource_mailbox.go. A write to the mailbox replaces it or fails.
use pua.Prelude.{
  ℕ, ◌+◌, ◌^◌, ◌%◌, Bool, true, false, not, ◌&&◌, ◌||◌, Option, none, some, List, [], ◌∷◌, ◌++◌,
  map, Text, txt, text_eq, is_blank, trim_space, if◌then◌else◌,
}
use pua.Mailbox.Message.{
  MailMessage, Mailbox, queued, cancelled, undeliverable, delivery_unknown, Mode, steer, enqueue,
  interrupt, is_queued, is_waiting, is_delivering, is_steer, Sender,
}
use pua.Mailbox.Select.{normalized_resource_id}

pub record ResourceMailbox : Type 0 where
  pub next_sequence : ℕ  -- uint64
  pub messages : Mailbox

pub data AcceptError : Type 0 where
  invalid_mode invalid_role text_required write_failed : AcceptError

pub data Accepted : Type 0 where
  accepted : MailMessage → Accepted
  refused : AcceptError → Accepted

pub record MessageRequest : Type 0 where
  pub text : Text
  pub mode : Text
  pub role : Text
  pub sender : Option Sender
  pub sender_workspace_instance_id : Text

-- normalizeResourceMessageMode on a text that is trimmed and in lower case.
unfoldable pub lowered_mode : Text → Option Mode
lowered_mode t =
    if is_blank t || text_eq t (txt "steer")
    then some steer
    else if text_eq t (txt "enqueue")
    then some enqueue
    else if text_eq t (txt "interrupt")
    then some interrupt
    else none

-- normalizeResourceMessageRole on such a text.
unfoldable pub lowered_role : Text → Option Text
lowered_role t =
    if is_blank t
    then some (txt "user")
    else if text_eq t (txt "user") || text_eq t (txt "agent") || text_eq t (txt "system")
    then some t
    else none

-- The message that acceptMailboxMessage makes.
abbrev pub new_message : Text → Text → Text → MessageRequest → Mode → Text → ℕ → MailMessage
new_message id now resource request mode role sequence = record {
  id = id;
  sequence = sequence;
  resource_id = resource;
  text = trim_space request.text;
  role = role;
  sender = request.sender;
  sender_workspace_instance_id = trim_space request.sender_workspace_instance_id;
  subscribe_result = none;
  result_subscription_status = [];
  result_operation_id = [];
  kind = [];
  causation = none;
  notification = none;
  requested_mode = mode;
  actual_mode = mode;
  mode_frozen = false;
  downgrade_reason = [];
  status = queued;
  accepted_at = now;
  updated_at = now;
  delivered_at = [];
  terminal_at = [];
  generation_id = [];
  agent_hub_session_id = [];
  turn_id = [];
  provider_context = none;
  turn_terminal_at = [];
  interrupt_turn_id = [];
  interrupt_at = [];
  promoted_at = [];
  attempt_count = 0;
  task_start_failure_count = 0;
  last_attempt_at = [];
  last_error = [];
  last_error_code = [];
  receipt = false;
}

-- `mailbox.NextSequence++`, on 64 bits.
abbrev pub next_number : ResourceMailbox → ℕ
next_number b = (b.next_sequence + 1) % 2 ^ 64

-- The change of the mailbox by acceptMailboxMessage.
abbrev pub append_message : (ℕ → MailMessage) → ResourceMailbox → ResourceMailbox
append_message message b = record {
  next_sequence = next_number b;
  messages = b.messages ++ message (next_number b) ∷ [];
}

-- The write at the end of acceptMailboxMessage.
abbrev pub append_written : Bool → (ℕ → MailMessage) → ResourceMailbox → Accepted × ResourceMailbox
append_written true message b = (accepted (message (next_number b)), append_message message b)
append_written false message b = (refused write_failed, b)

-- What a write of the mailbox meets: strings.ToLower, the new id, the clock and the disk.
pub record MailboxEnv : Type 0 where
  pub to_lower : Text → Text
  pub new_id : Text
  pub now : Text
  pub disk : Bool

module _ (env : MailboxEnv) (resource : Text) where
  abbrev pub accept_checked :
      MessageRequest → Option Mode → Option Text → ResourceMailbox → Accepted × ResourceMailbox
  accept_checked request none role b = (refused invalid_mode, b)
  accept_checked request (some mode) none b = (refused invalid_role, b)
  accept_checked request (some mode) (some role) b =
      if is_blank (trim_space request.text)
      then (refused text_required, b)
      else append_written env.disk
          (new_message (txt "msg-" ++ env.new_id) env.now (normalized_resource_id resource) request
            mode role)
          b

  -- acceptMailboxMessage.
  unfoldable pub accept_message : MessageRequest → ResourceMailbox → Accepted × ResourceMailbox
  unfolding lowered_mode lowered_role normalized_resource_id
  accept_message request b =
      accept_checked request (lowered_mode (env.to_lower (trim_space request.mode)))
        (lowered_role (env.to_lower (trim_space request.role))) b

  -- One message in the loop of cancelPendingSteerMessages.
  abbrev pub is_pending_steer : MailMessage → Bool
  is_pending_steer m =
      text_eq (normalized_resource_id m.resource_id) (normalized_resource_id resource)
      && is_queued m.status
      && is_steer m.requested_mode

  abbrev pub cancelled_steer : MailMessage → MailMessage
  cancelled_steer m = record m {
    status = cancelled;
    terminal_at = env.now;
    last_error_code = txt "cancelled_by_turn_stop";
    last_error =
        txt "This steer was cancelled because the current turn was stopped before it was consumed.";
  }

  unfoldable pub cancel_steer : MailMessage → MailMessage
  unfolding normalized_resource_id
  cancel_steer m = if is_pending_steer m then cancelled_steer m else m

  abbrev pub steer_ids : Mailbox → List Text
  steer_ids [] = []
  steer_ids (m ∷ ms) = let rest = steer_ids ms in if is_pending_steer m then m.id ∷ rest else rest

  -- cancelPendingSteerMessages: the ids that it counts, whether the write worked, and the mailbox.
  unfoldable pub cancel_pending_steers : ResourceMailbox → List Text × Bool × ResourceMailbox
  unfolding cancel_steer
  cancel_pending_steers b = (
    steer_ids b.messages,
    env.disk,
    if env.disk then record b { messages = map cancel_steer b.messages } else b,
  )

  -- One message in the loop of markResourceMailboxArchived.
  abbrev pub is_abandoned : MailMessage → Bool
  is_abandoned m =
      text_eq (normalized_resource_id m.resource_id) (normalized_resource_id resource)
      && not m.receipt
      && is_waiting m.status

  abbrev pub abandoned : MailMessage → MailMessage
  abandoned m = record m {
    status = if is_delivering m.status then delivery_unknown else undeliverable;
    last_error =
        if is_delivering m.status
        then txt "target resource was archived before the delivery outcome could be confirmed"
        else txt "target resource was archived before delivery began";
    downgrade_reason = txt "resource_archived";
    last_error_code = txt "resource_archived";
    updated_at = env.now;
    terminal_at = env.now;
  }

  unfoldable pub abandon : MailMessage → MailMessage
  unfolding normalized_resource_id
  abandon m = if is_abandoned m then abandoned m else m

  -- markResourceMailboxArchived: whether the write worked, and the mailbox.
  unfoldable pub mark_archived : ResourceMailbox → Bool × ResourceMailbox
  unfolding abandon
  mark_archived b =
      (env.disk, if env.disk then record b { messages = map abandon b.messages } else b)
