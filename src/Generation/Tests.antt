-- ===== src/Generation/Tests.antt =====
-- The theorems on the lifecycle at a ready session with a queued message.
use pua.Prelude.{ℕ, ◌≡◌, ◌≤◌, ◌⊎◌, refl, arith, true, false, Option, none, some, [], Text, txt}
use pua.Generation.Facts.{
  ready, no_intent, idle, recovery, stop_session, no_receipt, no_operation, Receipt, Facts, Message,
  Plan, operation_text,
}
use pua.Generation.Normal.{normalize, lifecycle_intent}
use pua.Generation.Plan.{plan_generation}
use pua.Generation.Guard.{guard_matches_facts, guarded_commit}
use pua.Generation.Safety.{Allowed, plan_generation-Allowed}
use pua.Generation.Fresh.{plan_generation_fresh}
use pua.Generation.Ownership.{Outcome, OwnsAll, guarded_commit_outcome}
use pua.Generation.OperationId.{NoNul, lifecycle_operation_id-injective}
use pua.Generation.Legacy.{GenerationRecord, legacy_intent}
use pua.Generation.Adapt.{apply_plan}
use pua.Generation.Adapted.{strength, apply_plan-strength}

abbrev message : Message
message = record {
  id = txt "m";
  status = txt "queued";
  requested_mode = txt "enqueue";
  actual_mode = [];
  mode_frozen = false;
  generation_id = [];
  session_id = [];
  turn_id = [];
  interrupt_turn_id = [];
  agent_hub_accepted = false;
}

abbrev receipt : Receipt
receipt = record {
  operation = no_operation;
  state = no_receipt;
  operation_id = [];
  generation_id = [];
  session_id = [];
  turn_id = [];
  message_id = [];
  revision = [];
}

abbrev facts : Facts
facts = record {
  workspace_instance_id = txt "w";
  resource_id = txt "r";
  revision = txt "1";
  current_generation = true;
  generation_id = txt "g";
  generation_number = 1;
  phase = ready;
  binding = record { kind = []; name = []; resolved_agent = []; profile_revision = [] };
  binding_changed = false;
  resource_archived = false;
  session_known = true;
  session_id = txt "s";
  session_state = txt "ready";
  session_resumable = false;
  session_resume_unavailable = false;
  resume_backoff_active = false;
  turn_id = [];
  turn_active = false;
  approval_pending = false;
  steer_supported = false;
  mailbox_pending = true;
  next_message = some message;
  idle_deadline_due = false;
  lifecycle = record { intent = no_intent; phase = ready; reason = []; receipt = receipt };
}

plan_generation-Allowed_example :
    Allowed
      (normalize facts)
      (lifecycle_intent (normalize facts)).0
      (plan_generation facts).operation
plan_generation-Allowed_example = plan_generation-Allowed facts

plan_generation_fresh_example : guard_matches_facts (plan_generation facts) facts ≡ true
plan_generation_fresh_example = plan_generation_fresh facts

abbrev count : ℕ → ℕ × Option Text
count n = (7, none)

guarded_commit_outcome_example :
    Outcome
      (OwnsAll (plan_generation facts) facts)
      (guard_matches_facts (plan_generation facts) facts)
      (some count)
      6
      (guarded_commit (plan_generation facts) facts (some count) 6)
guarded_commit_outcome_example = guarded_commit_outcome (plan_generation facts) facts (some count) 6

abbrev generation_record : GenerationRecord
generation_record = record {
  resource_id = txt "r";
  generation = 1;
  generation_id = txt "g";
  binding_kind = [];
  binding_name = [];
  profile_revision = [];
  replacement_pending = false;
  manual_stop_requested = false;
  agent_hub_session_id = txt "s";
  agent_hub_agent_name = [];
  agent_hub_stopped_observed = false;
  idle_deadline_at = [];
  idle_sleep_stop_requested = false;
  lifecycle_receipt = none;
  session_resume_unavailable = false;
  resume_retry_at = [];
  archived_task_stop_requested = false;
  status = txt "ready";
  updated_at = [];
  current_turn_id = [];
  retire_reason = [];
}

abbrev stop_plan : Plan
stop_plan = record {
  operation = stop_session;
  intent = idle;
  reason = txt "idle_deadline";
  operation_id = txt "o";
  generation_id = txt "g";
  session_id = txt "s";
  turn_id = [];
  message_id = [];
  message_mode = [];
  guard = record {
    workspace_instance_id = [];
    resource_id = [];
    revision = [];
    lifecycle_intent = idle;
    generation_id = txt "g";
    session_id = txt "s";
    turn_id = [];
    message_id = [];
  };
  blocked_reason = [];
}

apply_plan-strength_example :
    (strength (legacy_intent generation_record false)
      ≤ strength (legacy_intent (apply_plan generation_record stop_plan) false))
    × ((idle ≡ recovery)
        ⊎ (strength idle ≤ strength (legacy_intent (apply_plan generation_record stop_plan) false)))
apply_plan-strength_example = apply_plan-strength generation_record stop_plan (λ h. cc h)

letter_NoNul : NoNul (txt "g")
letter_NoNul = ((λ h. cc h), tt)

stop_NoNul : NoNul (operation_text stop_session)
unfolding operation_text
stop_NoNul = ground arith

lifecycle_operation_id-injective_example :
    (operation_text stop_session ≡ operation_text stop_session)
    × (txt "g" ≡ txt "g")
    × (txt "g" ≡ txt "g")
    × (txt "g" ≡ txt "g")
    × (txt "m" ≡ txt "m")
lifecycle_operation_id-injective_example =
    lifecycle_operation_id-injective stop_session stop_session (txt "g") (txt "g") (txt "g")
      (txt "g") (txt "g") (txt "g") (txt "m") (txt "m") stop_NoNul stop_NoNul letter_NoNul
      letter_NoNul letter_NoNul letter_NoNul letter_NoNul letter_NoNul refl
