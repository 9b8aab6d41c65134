-- ===== src/Reconcile/Updates.antt =====
-- The changes that the reconciliation makes to a message, each a function literal passed to
-- updateMailboxMessage in internal/serve/resource_mailbox.go and task_state_runtime.go. `now` is the
-- text of the clock.
use pua.Prelude.{
  ℕ, ◌+◌, Bool, true, false, ◌&&◌, [], none, some, Text, txt, is_blank, trim_space, ltb,
  if◌then◌else◌,
}
use pua.Generation.Legacy.{GenerationRecord, HubSession}
use pua.Mailbox.Message.{
  MailMessage, queued, delivering, interrupting, delivered, cancelled, undeliverable,
  delivery_unknown, steer, enqueue, interrupt, is_delivering, is_steer, ProviderContext,
}

abbrev pub no_active_turn : Text
no_active_turn = txt "no_active_turn"

abbrev pub steer_unsupported : Text
steer_unsupported = txt "steer_unsupported"

abbrev pub generation_replacing : Text
generation_replacing = txt "generation_replacing"

abbrev pub recovered_canonical : Text
recovered_canonical = txt "recovered_canonical_mode"

-- What updateMailboxMessage itself sets.
unfoldable pub touched : Text → MailMessage → MailMessage
touched now m = record m { updated_at = now }

unfoldable pub drop_turn_result : Text → MailMessage → MailMessage
drop_turn_result now m = record m {
  terminal_at = now;
  last_error_code = txt "result_subscription_removed";
  status = if is_delivering m.status then delivery_unknown else cancelled;
  last_error =
      if is_delivering m.status
      then txt
          "Automatic Turn results were removed; a previous delivery attempt may already have been accepted."
      else txt "Automatic Turn results were removed before delivery.";
}

unfoldable pub lose_generation : Text → MailMessage → MailMessage
lose_generation now m = record m {
  status = delivery_unknown;
  updated_at = now;
  terminal_at = now;
  last_error_code = txt "generation_retired";
  last_error = txt "the generation was retired before the delivery outcome could be confirmed";
}

unfoldable pub freeze_enqueue : Text → MailMessage → MailMessage
freeze_enqueue reason m = record m {
  actual_mode = enqueue;
  mode_frozen = true;
  downgrade_reason = reason;
}

unfoldable pub freeze_steer : MailMessage → MailMessage
freeze_steer m = record m { actual_mode = steer; mode_frozen = true; downgrade_reason = [] }

unfoldable pub count_attempt : Text → MailMessage → MailMessage
count_attempt now m = record m {
  attempt_count = m.attempt_count + 1;
  last_attempt_at = now;
  last_error = [];
  last_error_code = [];
}

unfoldable pub begin_interrupt : GenerationRecord → HubSession → Text → MailMessage → MailMessage
begin_interrupt g s now m = record m {
  actual_mode = interrupt;
  mode_frozen = true;
  status = interrupting;
  generation_id = g.generation_id;
  agent_hub_session_id = s.id;
  interrupt_turn_id = s.current_turn_id;
  attempt_count = m.attempt_count + 1;
  last_attempt_at = now;
  last_error = [];
  last_error_code = [];
}

unfoldable pub requeue : Text → MailMessage → MailMessage
requeue now m = record m {
  status = queued;
  interrupt_at = now;
  last_error = [];
  last_error_code = [];
}

unfoldable pub add_context : ProviderContext → MailMessage → MailMessage
add_context c m = record m {
  provider_context = elim m.provider_context [ none ↦ some c | some d ↦ some d ];
}

unfoldable pub begin_delivery : GenerationRecord → HubSession → Text → MailMessage → MailMessage
begin_delivery g s now m = record m {
  status = delivering;
  generation_id = g.generation_id;
  agent_hub_session_id = s.id;
  turn_id = s.current_turn_id;
  attempt_count = m.attempt_count + 1;
  last_attempt_at = now;
  last_error = [];
  last_error_code = [];
}

unfoldable pub finish_delivery : Text → Text → MailMessage → MailMessage
finish_delivery now turn_id m = record m {
  status = delivered;
  delivered_at = now;
  terminal_at = now;
  turn_id = turn_id;
  last_error = [];
  last_error_code = [];
}

-- The canonical input that AgentHub holds under the message's id.
pub record Canonical : Type 0 where
  pub turn_id : Text
  pub steer : Bool

abbrev recovered_turn : Canonical → HubSession → Text → Text
recovered_turn c s turn_id =
    if not_blank c.turn_id
    then trim_space c.turn_id
    else if not_blank turn_id
    then trim_space turn_id
    else if c.steer
    then trim_space s.current_turn_id
    else []
  where
    not_blank : Text → Bool
    not_blank t = if is_blank (trim_space t) then false else true

abbrev recovered_reason : Canonical → MailMessage → Text
recovered_reason c m =
    if c.steer
    then m.downgrade_reason
    else if is_steer m.requested_mode && is_blank m.downgrade_reason
    then recovered_canonical
    else m.downgrade_reason

unfoldable pub recover_delivery : Canonical → HubSession → Text → MailMessage → MailMessage
recover_delivery c s now m = record m {
  status = delivered;
  delivered_at = now;
  terminal_at = now;
  last_error = [];
  last_error_code = [];
  actual_mode = if c.steer then steer else enqueue;
  downgrade_reason = recovered_reason c m;
  turn_id = recovered_turn c s m.turn_id;
}

-- An error with its code, by resourceDeliveryErrorCode.
pub record Failure : Type 0 where
  pub text : Text
  pub code : Text

unfoldable pub note_failure : Failure → MailMessage → MailMessage
note_failure e m = record m { last_error = e.text; last_error_code = e.code }

abbrev pub max_start_attempts : ℕ
max_start_attempts = 3

-- The change of recordTaskStartFailure; the flag tells a task from another resource.
unfoldable pub count_start_failure : Bool → Failure → Text → MailMessage → MailMessage
count_start_failure is_task e now m =
    if ltb (m.task_start_failure_count + 1) max_start_attempts
    then record m { task_start_failure_count = m.task_start_failure_count + 1 }
    else record m {
      task_start_failure_count = m.task_start_failure_count + 1;
      status = undeliverable;
      terminal_at = now;
      updated_at = now;
      last_error_code =
          if is_task
          then txt "task_state_retry_exhausted"
          else txt "generation_start_retry_exhausted";
      last_error = e.text;
    }
