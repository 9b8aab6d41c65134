-- ===== src/Idle/Tests.antt =====
-- The examples of the sleep of an idle generation.
use pua.Prelude.{
  ℕ, ◌+◌, Bool, not, ◌||◌, ltb, ◌∷◌, arith, true, false, ◌≡◌, refl, Option, none, some, [], Text,
  txt, text_eq, is_blank, trim_space, trim_left, trim_right, join_right, is_space,
}
use pua.Idle.Due.{is_deadline_due-project_idle}
use pua.Generation.Legacy.{runs, GenerationRecord, HubSession}
use pua.Idle.Deadline.{
  IdleRecord, IdleSession, boundary_of, generation_time, project_idle, is_deadline_due,
}
use pua.Idle.Projected.{project_idle-project_idle}
use pua.Idle.Retire.{RetireWorld, retiring, retired_record, retire_plan, start_retirement}
use pua.Idle.Reconcile.{ReconcileWorld, reconcile_idle}
use pua.Idle.Reconciled.{Chosen, reconcile_idle-Retires}

-- Every time is printed alike, and read as 5.
abbrev format_time : ℕ → Text
format_time t = txt "t"

abbrev parse_time : Text → Option ℕ
parse_time t = some 5

abbrev generation : GenerationRecord
generation = record {
  resource_id = txt "r";
  generation = 1;
  generation_id = txt "g";
  binding_kind = [];
  binding_name = [];
  profile_revision = [];
  replacement_pending = false;
  manual_stop_requested = false;
  agent_hub_session_id = txt "s";
  agent_hub_agent_name = [];
  agent_hub_stopped_observed = false;
  idle_deadline_at = txt "t";
  idle_sleep_stop_requested = false;
  lifecycle_receipt = none;
  session_resume_unavailable = false;
  resume_retry_at = [];
  archived_task_stop_requested = false;
  status = txt "idle";
  updated_at = txt "t";
  current_turn_id = [];
  retire_reason = [];
}

abbrev idle_record : IdleRecord
idle_record = record {
  id = txt "i";
  generation = generation;
  idle_since_at = txt "t";
  completion_at = [];
  completion_pending = false;
}

abbrev session : HubSession
session = record {
  id = txt "s";
  state = txt "ready";
  current_turn_id = [];
  pending_approval_ids = [];
  steer = true;
}

abbrev idle_session : IdleSession
idle_session = record { hub = session; created_at = txt "t"; updated_at = txt "t" }

prints : (t : ℕ) → is_blank (trim_space (format_time t)) ≡ false
unfolding trim_space trim_left trim_right join_right is_space
prints t = refl

both_at_rest : (false || runs (txt "ready")) ≡ (false || runs (txt "idle"))
unfolding runs text_eq
both_at_rest = refl

project_idle-project_idle_example :
    project_idle parse_time format_time 9 2 idle_session
      (txt "ready")
      false
      (project_idle parse_time format_time 7 3 idle_session (txt "idle") false idle_record)
    ≡ project_idle parse_time format_time 7 3 idle_session (txt "idle") false idle_record
project_idle-project_idle_example =
    project_idle-project_idle parse_time format_time prints 7 9 3 2 idle_session idle_session
      (txt "idle") (txt "ready") false false both_at_rest idle_record refl

abbrev asleep : IdleRecord
asleep = record idle_record { generation = record generation { idle_sleep_stop_requested = true } }

abbrev world : RetireWorld
world = record {
  latest = idle_record;
  stopping_before = false;
  configured = true;
  session = some session;
  matches = true;
  mailbox = some [];
  archived = some false;
  now = 7;
  stopping = false;
  current = idle_record;
  saved = true;
}

abbrev retired : IdleRecord
retired = retired_record (txt "t") (retire_plan parse_time format_time world session []) idle_record

begins : start_retirement parse_time format_time world asleep ≡ retiring retired
unfolding start_retirement text_eq retired_record pua.Generation.Plan.plan_normalized
    pua.Generation.Normal.normalize pua.Prelude.trim_space pua.Generation.Adapt.add_mailbox
    pua.Generation.Legacy.add_session pua.Generation.Legacy.record_facts
    pua.Generation.Legacy.mailbox_facts pua.Mailbox.Select.select_pending
    pua.Generation.Steps.in_flight pua.Generation.Normal.normalize_message
    pua.Generation.Plan.plan_current pua.Generation.Normal.lifecycle_intent
    pua.Generation.Plan.plan_receipt_recovery pua.Generation.Plan.plan_settled
    pua.Generation.Normal.observed_phase pua.Generation.Normal.session_phase
    pua.Generation.Steps.finish pua.Generation.Steps.turn_is_open pua.Generation.Plan.recover_stop
    pua.Generation.Adapt.add_times pua.Generation.Adapt.checks_time pua.Generation.Plan.start_plan
    pua.Generation.Plan.plan_generation pua.Generation.Adapt.adapt_facts
    pua.Generation.Steps.plan_lifecycle_intent
begins = refl

abbrev asleep_world : ReconcileWorld
asleep_world = record {
  readable = true;
  found = some asleep;
  in_flight = false;
  stored = true;
  now = 7;
  delay = 3;
  retire = world;
}

reconciles :
    reconcile_idle parse_time format_time asleep_world asleep idle_session ≡ retiring retired
unfolding reconcile_idle text_eq trim_space trim_left trim_right join_right is_space
reconciles = begins

reconcile_idle-Retires_example :
    (r : IdleRecord) × (some asleep ≡ some r)
    × Chosen parse_time format_time asleep_world idle_session retired r
reconcile_idle-Retires_example =
    reconcile_idle-Retires parse_time format_time asleep_world asleep idle_session retired
      reconciles

-- A text that is read back: its second code is the time.
abbrev print_code : ℕ → Text
print_code t = 49 ∷ t ∷ 49 ∷ []

abbrev read_code : Text → Option ℕ
read_code (a ∷ t ∷ rest) = some t
read_code _ = none

parses : (t : ℕ) → read_code (trim_space (print_code t)) ≡ some t
unfolding trim_space trim_left trim_right join_right is_space
parses t = refl

abbrev fresh_record : IdleRecord
fresh_record = record idle_record { generation = record generation { idle_deadline_at = [] } }

idle_rests : (false || runs (txt "idle")) ≡ false
unfolding runs text_eq
idle_rests = refl

is_deadline_due-project_idle_example :
    is_deadline_due read_code print_code 9
      (project_idle read_code print_code 7 3 idle_session
        (txt "idle")
        false
        fresh_record).generation
    ≡ not (
        ltb 9 (
          boundary_of read_code print_code 7 (generation_time read_code print_code []) idle_session
          + 3))
unfolding trim_space
is_deadline_due-project_idle_example =
    is_deadline_due-project_idle read_code print_code parses 7 3 9 idle_session (txt "idle") false
      fresh_record refl refl idle_rests refl (omega arith)
