-- ===== src/Reconcile/Tests.antt =====
-- The theorems on the reconciliation at a queued message for a generation whose session is ready.
use pua.Prelude.{◌≤◌, length, refl, true, false, none, some, [], ◌∷◌, txt}
use pua.Generation.Legacy.{GenerationRecord, HubSession}
use pua.Mailbox.Message.{MailMessage, ProviderContext, enqueue, queued}
use pua.Reconcile.World.{World, given, fetched, kept, received, not_resumed}
use pua.Reconcile.Sound.{Sound}
use pua.Reconcile.Loop.{run, reconcile_mailbox}
use pua.Reconcile.Bounds.{run-Sound}
use pua.Reconcile.Rounds.{Rounds, reconcile_mailbox-Rounds}

abbrev message : MailMessage
message = record {
  id = txt "m";
  sequence = 1;
  resource_id = txt "r";
  text = txt "hello";
  role = txt "user";
  sender = none;
  sender_workspace_instance_id = [];
  subscribe_result = none;
  result_subscription_status = [];
  result_operation_id = [];
  kind = [];
  causation = none;
  notification = none;
  requested_mode = enqueue;
  actual_mode = enqueue;
  mode_frozen = false;
  downgrade_reason = [];
  status = queued;
  accepted_at = [];
  updated_at = [];
  delivered_at = [];
  terminal_at = [];
  generation_id = [];
  agent_hub_session_id = [];
  turn_id = [];
  provider_context = none;
  turn_terminal_at = [];
  interrupt_turn_id = [];
  interrupt_at = [];
  promoted_at = [];
  attempt_count = 0;
  task_start_failure_count = 0;
  last_attempt_at = [];
  last_error = [];
  last_error_code = [];
  receipt = false;
}

abbrev generation : GenerationRecord
generation = record {
  resource_id = txt "r";
  generation = 1;
  generation_id = txt "g";
  binding_kind = [];
  binding_name = [];
  profile_revision = [];
  replacement_pending = false;
  manual_stop_requested = false;
  agent_hub_session_id = txt "s";
  agent_hub_agent_name = [];
  agent_hub_stopped_observed = false;
  idle_deadline_at = [];
  idle_sleep_stop_requested = false;
  lifecycle_receipt = none;
  session_resume_unavailable = false;
  resume_retry_at = [];
  archived_task_stop_requested = false;
  status = txt "ready";
  updated_at = txt "t0";
  current_turn_id = [];
  retire_reason = [];
}

abbrev session : HubSession
session = record {
  id = txt "s";
  state = txt "ready";
  current_turn_id = [];
  pending_approval_ids = [];
  steer = true;
}

abbrev provider_context : ProviderContext
provider_context = record {
  language = txt "en";
  turn_id = [];
  opener_role = txt "user";
  opener_sender = none;
  opener_response = [];
  opener_unknown = false;
}

abbrev world : World
world = record {
  clock = txt "t1";
  now = 1;
  parse_time = λ _. none;
  mailbox = message ∷ [];
  disk = λ _. true;
  associated = given (some generation);
  configured = given true;
  ensured = given generation;
  task_state = given true;
  session = fetched session;
  retired = given true;
  config_read = given true;
  matches = true;
  observed = generation;
  prepared = kept generation;
  resume = not_resumed;
  current_found = given true;
  attempt_due = true;
  interrupted = given session;
  reread = λ _. given (some generation);
  context = given provider_context;
  work_chain = given true;
  outbound = given true;
  sending = received (record session { state = txt "running"; current_turn_id = txt "turn-1" });
  canonical = given none;
  canonical_turn = none;
}

run-Sound_example : Sound message (run world message).1
run-Sound_example = run-Sound world message refl

reconcile_mailbox-Rounds_example :
    Rounds
      (λ _. world)
      (txt "r")
      32
      0
      []
      (reconcile_mailbox (λ _. world) (txt "r") []).sent
      (reconcile_mailbox (λ _. world) (txt "r") []).mailbox
    × (length (reconcile_mailbox (λ _. world) (txt "r") []).sent ≤ 32)
reconcile_mailbox-Rounds_example = reconcile_mailbox-Rounds (λ _. world) (txt "r") []
