-- ===== src/Idle/Deadline.antt =====
-- The deadline of an idle generation, of internal/serve/resource_idle.go. A generation record is the
-- one of the lifecycle adapter with the fields of the idle clock beside it.
use pua.Prelude.{
  ℕ, ◌+◌, Bool, true, false, not, ◌&&◌, ◌||◌, ◌==◌, ltb, Option, none, some, [], Text, txt, text_eq,
  is_blank, trim_space, if◌then◌else◌,
}
use pua.Generation.Facts.{
  Operation, resume_session, stop_session, ReceiptState, terminal, succeeded, Receipt,
}
use pua.Generation.Legacy.{GenerationRecord, HubSession, runs}

pub record IdleRecord : Type 0 where
  pub id : Text
  pub generation : GenerationRecord
  pub idle_since_at : Text
  pub completion_at : Text
  pub completion_pending : Bool

pub record IdleSession : Type 0 where
  pub hub : HubSession
  pub created_at : Text
  pub updated_at : Text

abbrev pub is_resume : Operation → Bool
is_resume resume_session = true
is_resume _ = false

abbrev pub is_stop : Operation → Bool
is_stop stop_session = true
is_stop _ = false

abbrev pub is_terminal : ReceiptState → Bool
is_terminal terminal = true
is_terminal _ = false

abbrev pub is_succeeded : ReceiptState → Bool
is_succeeded succeeded = true
is_succeeded _ = false

-- 30 minutes in nanoseconds.
abbrev pub default_idle_sleep_after : ℕ
default_idle_sleep_after = 1800000000000

-- resourceIdleSleepAfter, for a configured duration that is not negative.
abbrev pub idle_sleep_after : ℕ → ℕ
idle_sleep_after configured = if configured == 0 then default_idle_sleep_after else configured

-- The first time that is not the zero time.
abbrev pub time_or : ℕ → ℕ → ℕ
time_or t u = if t == 0 then u else t

abbrev pub is_resuming_receipt : Option Receipt → Bool
is_resuming_receipt none = false
is_resuming_receipt (some r) = is_resume r.operation && not (is_terminal r.state)

abbrev pub is_resuming : IdleRecord → Bool
is_resuming r = is_resuming_receipt r.generation.lifecycle_receipt

abbrev pub with_status : Text → IdleRecord → IdleRecord
with_status s r = record r { generation = record generation { status = s } }
  where
    open r use {generation}

-- The deadline is cleared; the request to sleep is set to `sleep`.
abbrev pub clear_deadline : Bool → IdleRecord → IdleRecord
clear_deadline sleep r = record r {
  idle_since_at = [];
  generation = record generation { idle_deadline_at = []; idle_sleep_stop_requested = sleep };
}
  where
    open r use {generation}

abbrev pub with_sleep : Bool → IdleRecord → IdleRecord
with_sleep sleep r = record r {
  generation = record generation { idle_sleep_stop_requested = sleep };
}
  where
    open r use {generation}

abbrev pub set_deadline : Text → Text → IdleRecord → IdleRecord
set_deadline since deadline r = record r {
  idle_since_at = since;
  generation = record generation { idle_deadline_at = deadline };
}
  where
    open r use {generation}

abbrev pub is_stable_receipt : Option Receipt → Bool
is_stable_receipt none = false
is_stable_receipt (some r) = is_stop r.operation && is_succeeded r.state

-- resourceIdleSuspensionStable.
unfoldable pub is_suspension_stable : GenerationRecord → HubSession → Bool
is_suspension_stable r s =
    text_eq r.status (txt "idle-suspended")
    && r.idle_sleep_stop_requested
    && text_eq s.state (txt "stopped")
    && is_stable_receipt r.lifecycle_receipt

-- RFC 3339 with nanoseconds is read and printed by the parameters; the time is `now` and the sleep
-- comes `after` that long.
module _ (parse_time : Text → Option ℕ) (format_time : ℕ → Text) where
  -- generationTime.
  unfoldable pub generation_time : Text → ℕ
  generation_time value = elim (parse_time (trim_space value)) [ none ↦ 0 | some t ↦ t ]

  abbrev pub boundary_of : ℕ → ℕ → IdleSession → ℕ
  boundary_of now boundary s =
      time_or
        (time_or (time_or boundary (generation_time s.updated_at)) (generation_time s.created_at))
        now

  -- initializeResourceIdleDeadline.
  unfoldable pub initialize_deadline : ℕ → ℕ → IdleSession → ℕ → IdleRecord → IdleRecord
  unfolding generation_time
  initialize_deadline now after s boundary r =
      if r.generation.idle_sleep_stop_requested
        || not (is_blank (trim_space r.generation.idle_deadline_at))
      then r
      else set_deadline (format_time (boundary_of now boundary s))
          (format_time (boundary_of now boundary s + after)) r

  abbrev pub settle_ready : ℕ → ℕ → IdleSession → Text → Bool → IdleRecord → IdleRecord
  settle_ready now after s previous finished r =
      if r.generation.idle_sleep_stop_requested || finished || runs previous
      then (if r.generation.idle_sleep_stop_requested || r.generation.archived_task_stop_requested
          then with_status (txt "stopping") r
          else r)
      else with_status (txt "idle")
          (initialize_deadline now after s (generation_time r.completion_at) r)

  -- projectResourceIdleState.
  unfoldable pub project_idle : ℕ → ℕ → IdleSession → Text → Bool → IdleRecord → IdleRecord
  unfolding initialize_deadline runs
  project_idle now after s previous finished r =
      if runs s.hub.state
      then clear_deadline false r
      else if text_eq s.hub.state (txt "starting")
      then clear_deadline (is_resuming r && r.generation.idle_sleep_stop_requested) r
      else if text_eq s.hub.state (txt "ready")
      then settle_ready now after s previous finished (
          if is_resuming r && r.generation.idle_sleep_stop_requested then with_sleep false r else r)
      else if text_eq s.hub.state (txt "stopped")
          && r.generation.idle_sleep_stop_requested
          && not r.generation.replacement_pending
          && not r.generation.archived_task_stop_requested
      then with_status (txt "idle-suspended") r
      else r

  -- idleDeadlineDue.
  unfoldable pub is_deadline_due : ℕ → GenerationRecord → Bool
  unfolding generation_time
  is_deadline_due now r =
      not (generation_time r.idle_deadline_at == 0)
      && not (ltb now (generation_time r.idle_deadline_at))
