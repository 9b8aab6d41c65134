-- ===== src/Mailbox/Tests.antt =====
-- The theorems on the selection and on the operations at a mailbox of two messages.
use pua.Mailbox.Message.{MailMessage, Mailbox, Mode, enqueue, steer, queued, Causation}
use pua.Mailbox.Select.{normalized_resource_id, select_pending, goes_before}
use pua.Mailbox.Operations.{
  ResourceMailbox, MailboxEnv, MessageRequest, accept_message, cancel_pending_steers, mark_archived,
  lowered_mode,
}
use pua.Mailbox.Settled.{
  IsNumbered, AllMoved, IsArchived, operations-IsNumbered, mark_archived-IsArchived,
}
use pua.Prelude.{
  true, ◌≡◌, ◌⊎◌, arith, none, false, [], ◌∷◌, txt, ℕ, refl, some, ◌↔◌, ◌++◌, length, text_eq,
  trim_space, trim_left, trim_right, join_right, is_space,
}
use pua.Generation.Legacy.{GenerationRecord, HubSession}
use pua.Mailbox.Generated.{accepted, accept_generated, find_message}
use pua.Mailbox.Replayed.{at_later, accept_generated-accept_generated}
use pua.Mailbox.Counts.{mailbox_counts, waiting_messages}
use pua.Mailbox.Counted.{pending_count, mailbox_counts-waiting_messages}
use pua.Mailbox.Promote.{PromoteWorld, promoted, promote, promote_message, obstacle, update_first}
use pua.Mailbox.Promotion.{promote_message-goes_before}
use pua.Mailbox.Order.{Selects, select_pending-Selects}

abbrev message : ℕ → Mode → MailMessage
message n mode = record {
  id = txt "m";
  sequence = n;
  resource_id = txt "r";
  text = txt "hello";
  role = txt "user";
  sender = none;
  sender_workspace_instance_id = [];
  subscribe_result = none;
  result_subscription_status = [];
  result_operation_id = [];
  kind = [];
  causation = none;
  notification = none;
  requested_mode = mode;
  actual_mode = mode;
  mode_frozen = false;
  downgrade_reason = [];
  status = queued;
  accepted_at = [];
  updated_at = [];
  delivered_at = [];
  terminal_at = [];
  generation_id = [];
  agent_hub_session_id = [];
  turn_id = [];
  provider_context = none;
  turn_terminal_at = [];
  interrupt_turn_id = [];
  interrupt_at = [];
  promoted_at = [];
  attempt_count = 0;
  task_start_failure_count = 0;
  last_attempt_at = [];
  last_error = [];
  last_error_code = [];
  receipt = false;
}

abbrev mailbox : Mailbox
mailbox = message 1 enqueue ∷ message 2 steer ∷ []

select_pending-Selects_example :
    Selects (normalized_resource_id (txt "r")) mailbox (select_pending mailbox (txt "r"))
select_pending-Selects_example = select_pending-Selects mailbox (txt "r")

abbrev env : MailboxEnv
env = record { to_lower = λ s. s; new_id = txt "1"; now = txt "t"; disk = true }

abbrev two_messages : ResourceMailbox
two_messages = record { next_sequence = 2; messages = message 1 enqueue ∷ message 2 steer ∷ [] }

abbrev request : MessageRequest
request = record {
  text = txt "hello";
  mode = txt "enqueue";
  role = [];
  sender = none;
  sender_workspace_instance_id = [];
}

operations-IsNumbered_example :
    IsNumbered (accept_message env (txt "r") request two_messages).1
    × IsNumbered (cancel_pending_steers env (txt "r") two_messages).2
    × IsNumbered (mark_archived env (txt "r") two_messages).1
operations-IsNumbered_example =
    operations-IsNumbered env (txt "r") request two_messages (omega arith)
      (omega arith, (omega arith, omega arith))

mark_archived-IsArchived_example :
    AllMoved two_messages.messages (mark_archived env (txt "r") two_messages).1.messages
    × (((mark_archived env (txt "r") two_messages).0 ≡ false)
        ⊎ IsArchived env (txt "r") (mark_archived env (txt "r") two_messages).1.messages)
mark_archived-IsArchived_example = mark_archived-IsArchived env (txt "r") two_messages

mailbox_counts-waiting_messages_example :
    ((mailbox_counts mailbox (txt "r")).counts.waiting
      ≡ length (waiting_messages mailbox (txt "r")))
    × ((pending_count (mailbox_counts mailbox (txt "r")).counts ≡ 0)
        ↔ (select_pending mailbox (txt "r") ≡ none))
mailbox_counts-waiting_messages_example = mailbox_counts-waiting_messages mailbox (txt "r")

abbrev causation : Causation
causation = record {
  kind = txt "scheduler_tick";
  source_workspace_instance_id = txt "i";
  source_resource_id = txt "r";
  message_id = [];
  source_message_ids = [];
  generation_id = [];
  turn_id = [];
  turn_reference = [];
  turn_status = [];
  history_unavailable = false;
  terminal_code = [];
  reason = txt "due";
  schedule_digest = txt "d";
}

abbrev tick : MailMessage
tick = record (message 0 enqueue) {
  id = txt "tick-1";
  role = txt "system";
  kind = txt "scheduler_tick";
  causation = some causation;
}

abbrev stored_tick : MailMessage
stored_tick = record tick { sequence = 3; accepted_at = txt "t"; updated_at = txt "t" }

abbrev three_messages : ResourceMailbox
three_messages = record { next_sequence = 3; messages = two_messages.messages ++ stored_tick ∷ [] }

tick_is_accepted : accept_generated env tick two_messages ≡ (accepted stored_tick, three_messages)
unfolding accept_generated lowered_mode text_eq trim_space trim_left trim_right join_right is_space
    find_message
tick_is_accepted = refl

accept_generated-accept_generated_example :
    accept_generated (at_later env (txt "t2")) tick three_messages
    ≡ (accepted stored_tick, three_messages)
accept_generated-accept_generated_example =
    accept_generated-accept_generated env (txt "t2") tick stored_tick two_messages three_messages
      tick_is_accepted

abbrev generation : GenerationRecord
generation = record {
  resource_id = txt "r";
  generation = 1;
  generation_id = txt "g";
  binding_kind = [];
  binding_name = [];
  profile_revision = [];
  replacement_pending = false;
  manual_stop_requested = false;
  agent_hub_session_id = txt "s";
  agent_hub_agent_name = [];
  agent_hub_stopped_observed = false;
  idle_deadline_at = [];
  idle_sleep_stop_requested = false;
  lifecycle_receipt = none;
  session_resume_unavailable = false;
  resume_retry_at = [];
  archived_task_stop_requested = false;
  status = txt "ready";
  updated_at = txt "t0";
  current_turn_id = [];
  retire_reason = [];
}

abbrev session : HubSession
session = record {
  id = txt "s";
  state = txt "running";
  current_turn_id = [];
  pending_approval_ids = [];
  steer = true;
}

abbrev promotion : PromoteWorld
promotion = record {
  owned = true;
  readable = true;
  archived = some false;
  generation_read = true;
  generation = some generation;
  configured = true;
  session = some session;
  now = txt "t";
  disk = true;
}

abbrev after_promotion : ResourceMailbox
after_promotion = record {
  next_sequence = 2;
  messages = promote (txt "t") (message 1 enqueue) ∷ message 2 steer ∷ [];
}

message_promoted :
    promote_message promotion (txt "m") two_messages
    ≡ (promoted (promote (txt "t") (message 1 enqueue)), after_promotion)
unfolding promote_message obstacle update_first find_message text_eq trim_space trim_left trim_right
    join_right is_space
message_promoted = refl

promote_message-goes_before_example :
    (goes_before (promote (txt "t") (message 1 enqueue)) (message 2 steer) ≡ true)
    × AllMoved two_messages.messages after_promotion.messages
    × (find_message (txt "m") after_promotion.messages
        ≡ some (promote (txt "t") (message 1 enqueue)))
promote_message-goes_before_example =
    promote_message-goes_before promotion (txt "m") two_messages after_promotion
      (promote (txt "t") (message 1 enqueue)) (message 2 steer) message_promoted refl refl refl refl
