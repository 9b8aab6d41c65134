-- ===== src/Idle/Retire.antt =====
-- startIdleRetirementLocked of internal/serve/resource_idle.go: whether an idle generation is put to
-- sleep. What the calls answer is data, `none` an error.
use pua.Prelude.{
  ℕ, Bool, true, false, not, ◌&&◌, ◌||◌, Option, none, some, [], Text, txt, text_eq, is_blank,
  trim_space, if◌then◌else◌,
}
use pua.Generation.Facts.{
  Operation, no_operation, wait_for_session, wait_for_message_receipt, wait_for_turn_terminal,
  deliver_message, interrupt_turn, resume_session, Plan, is_idle,
}
use pua.Generation.Legacy.{HubSession, LegacyInput, runs, has_approvals}
use pua.Generation.Adapt.{adapt_facts, apply_plan}
use pua.Generation.Plan.{plan_generation}
use pua.Mailbox.Message.{Mailbox}
use pua.Idle.Deadline.{IdleRecord, with_status, with_sleep, is_stop}

-- `latest` is the snapshot of the generation, `current` the runtime's record at the change.
pub record RetireWorld : Type 0 where
  pub latest : IdleRecord
  pub stopping_before : Bool
  pub configured : Bool
  pub session : Option HubSession
  pub matches : Bool
  pub mailbox : Option Mailbox
  pub archived : Option Bool
  pub now : ℕ
  pub stopping : Bool
  pub current : IdleRecord
  pub saved : Bool

-- `projected` has the session's state projected again, `retiring` has the record that was stored and
-- queues the retirement.
pub data Retirement : Type 0 where
  left failed : Retirement
  projected : HubSession → Retirement
  retiring : IdleRecord → Retirement

-- The operations that let the generation be.
abbrev pub leaves_generation : Operation → Bool
leaves_generation no_operation = true
leaves_generation wait_for_session = true
leaves_generation wait_for_message_receipt = true
leaves_generation wait_for_turn_terminal = true
leaves_generation deliver_message = true
leaves_generation interrupt_turn = true
leaves_generation resume_session = true
leaves_generation _ = false

abbrev pub is_same_generation : IdleRecord → IdleRecord → Bool
is_same_generation l r =
    text_eq l.id r.id
    && text_eq l.generation.generation_id r.generation.generation_id
    && text_eq l.generation.agent_hub_session_id r.generation.agent_hub_session_id

abbrev pub can_sleep : Text → Bool
can_sleep s = text_eq s (txt "ready") || text_eq s (txt "stopping") || text_eq s (txt "stopped")

abbrev pub is_busy : HubSession → Bool
is_busy s = runs s.state || has_approvals s.pending_approval_ids

abbrev pub apply_stop : Plan → IdleRecord → IdleRecord
apply_stop p r =
    if is_stop p.operation then record r { generation = apply_plan generation p } else r
  where
    open r use {generation}

abbrev pub request_sleep : Plan → IdleRecord → IdleRecord
request_sleep p r =
    if not r.generation.idle_sleep_stop_requested && is_idle p.intent then with_sleep true r else r

abbrev pub touch : Text → IdleRecord → IdleRecord
touch now r = record r { generation = record generation { updated_at = now } }
  where
    open r use {generation}

-- The change of the runtime's record.
unfoldable pub retired_record : Text → Plan → IdleRecord → IdleRecord
unfolding apply_plan
retired_record now p r = touch now (with_status (txt "stopping") (request_sleep p (apply_stop p r)))

abbrev pub input_of : RetireWorld → HubSession → Mailbox → LegacyInput
input_of w s ms = record {
  generation = w.latest.generation;
  session = some s;
  resource_archived = false;
  binding_changed = false;
  mailbox = ms;
  workspace_instance_id = [];
  revision = w.latest.generation.updated_at;
  now = w.now;
  agent_hub_stop_requested = false;
  lifecycle_stop_in_flight = false;
}

module _ (parse_time : Text → Option ℕ) (format_time : ℕ → Text) where
  abbrev pub retire_plan : RetireWorld → HubSession → Mailbox → Plan
  retire_plan w s ms = plan_generation (adapt_facts parse_time (input_of w s ms))

  abbrev pub retire_by : RetireWorld → Plan → Retirement
  retire_by w p =
      if leaves_generation p.operation || w.stopping
      then left
      else if w.saved
      then retiring (retired_record (format_time w.now) p w.current)
      else failed

  abbrev pub retire_idle : RetireWorld → HubSession → Option Mailbox → Option Bool → Retirement
  retire_idle w s none archived = failed
  retire_idle w s (some ms) none = failed
  retire_idle w s (some ms) (some true) = left
  retire_idle w s (some ms) (some false) = retire_by w (retire_plan w s ms)

  abbrev pub retire_session : RetireWorld → Option HubSession → Retirement
  retire_session w none = failed
  retire_session w (some s) =
      if not w.matches
      then failed
      else if is_busy s
      then projected s
      else if can_sleep s.state
      then retire_idle w s w.mailbox w.archived
      else left

  -- startIdleRetirementLocked.
  unfoldable pub start_retirement : RetireWorld → IdleRecord → Retirement
  unfolding retired_record runs
  start_retirement w r =
      if is_blank (trim_space r.generation.agent_hub_session_id)
        || not (is_same_generation w.latest r)
        || w.stopping_before
      then left
      else if w.configured
      then retire_session w w.session
      else failed
