-- ===== src/Scheduler/Operations.antt =====
-- AddSchedule, UpdateSchedule, RemoveSchedule and SetSchedulerSettings of internal/app/scheduler.go.
-- The state is the configuration as scheduler.json has it; a write replaces it or fails.
use pua.Prelude.{
  ℕ, Bool, true, false, not, ◌&&◌, ◌||◌, leb, Option, none, some, List, [], ◌∷◌, ◌++◌, length, Text,
  txt, text_eq, is_blank, trim_space, if◌then◌else◌,
}
use pua.Scheduler.Config.{
  SchedulerError, wake_interval, condition_limit, description_limit, not_found, fields_required,
  field_invalid, target_closed, condition_too_long, description_too_long, nothing_to_update,
  no_random_id, write_failed, sync_failed, Result, ok, error, ◌>>=◌, AgentBinding, Schedule,
  SchedulerConfig, Library, byte_length, has_nul, first_error, check, checked, normalize_binding,
  is_wake_interval, is_limit, validate, maximum_text_length,
}

pub record CreateScheduleInput : Type 0 where
  pub description : Text
  pub condition : Text
  pub target : Text

pub record UpdateScheduleInput : Type 0 where
  pub id : Text
  pub description : Option Text
  pub condition : Option Text
  pub target : Option Text

pub record SchedulerSettingsInput : Type 0 where
  pub agent_binding : AgentBinding
  pub wake_interval_minutes : ℕ
  pub condition_max_chars : Option ℕ
  pub description_max_chars : Option ℕ

-- How writeSchedulerJSON ends: the file is replaced and its directory synced, an error leaves the old
-- file, or the file is replaced and the sync of the directory fails.
pub data SchedulerWrite : Type 0 where
  saved not_replaced not_synced : SchedulerWrite

-- What an operation meets: the library functions, the text of the clock, hex.EncodeToString of the
-- random bytes, whether loadOpenResource finds a target, and whether the write works.
pub record Surroundings : Type 0 where
  pub lib : Library
  pub now : Text
  pub random_hex : Option Text
  pub is_open : Text → Bool
  pub disk : SchedulerWrite

pub record Fields : Type 0 where
  pub description : Text
  pub condition : Text
  pub target : Text

abbrev pub option_or {ℓ} : {A : Type ℓ} → Option A → A → A
option_or none a = a
option_or (some b) a = b

abbrev pub given {ℓ} : {A : Type ℓ} → Option A → Bool
given none = false
given (some a) = true

abbrev pub is_limit_given : Option ℕ → Bool
is_limit_given none = true
is_limit_given (some n) = is_limit n

-- scheduleIndex, with the entry found.
unfoldable pub find_schedule : Text → List Schedule → Option Schedule
find_schedule id [] = none
find_schedule id (s ∷ rest) =
    let later = find_schedule id rest in if text_eq s.id id then some s else later

-- The list with the first schedule of an id replaced, or removed.
unfoldable pub replace_schedule : Text → Schedule → List Schedule → List Schedule
replace_schedule id x [] = []
replace_schedule id x (s ∷ rest) =
    let later = replace_schedule id x rest in if text_eq s.id id then x ∷ rest else s ∷ later

unfoldable pub remove_from : Text → List Schedule → List Schedule
remove_from id [] = []
remove_from id (s ∷ rest) =
    let later = remove_from id rest in if text_eq s.id id then rest else s ∷ later

abbrev pub found : Text → Option Schedule → Result Schedule
found id none = error (not_found id)
found id (some s) = ok s

abbrev pub random_id : Option Text → Result Text
random_id none = error no_random_id
random_id (some h) = ok (txt "schedule-" ++ h)

-- writeSchedulerJSON at the end of an operation.
unfoldable pub commit {ℓ} :
    {A : Type ℓ}
    → SchedulerWrite
    → Result (A × SchedulerConfig)
    → SchedulerConfig
    → Result A × SchedulerConfig
commit disk (error e) c = (error e, c)
commit saved (ok (a, d)) c = (ok a, d)
commit not_replaced (ok (a, d)) c = (error write_failed, c)
commit not_synced (ok (a, d)) c = (error sync_failed, d)

module _ (env : Surroundings) where
  abbrev pub field_checks : Text → Text → Text → List (Option SchedulerError)
  field_checks description condition target =
      check (not (is_blank description) && not (is_blank condition) && not (is_blank target))
        fields_required
      ∷ check
          (leb (length description) maximum_text_length
            && leb (length condition) maximum_text_length
            && leb (byte_length target) 200
            && not (has_nul description)
            && not (has_nul condition)
            && not (has_nul target))
          field_invalid
      ∷ check
          (text_eq target (txt "workspace")
            || text_eq target (txt "scheduler")
            || env.is_open target)
          target_closed
      ∷ []

  -- normalizeScheduleFields on texts that are trimmed.
  unfoldable pub fields_error : Text → Text → Text → Option SchedulerError
  unfolding byte_length has_nul
  fields_error description condition target =
      first_error (field_checks description condition target)

  unfoldable pub normalize_fields : Text → Text → Text → Result Fields
  unfolding fields_error
  normalize_fields description condition target = do
    _ ← checked (fields_error (trim_space description) (trim_space condition) (trim_space target))
    ok (record {
      description = trim_space description;
      condition = trim_space condition;
      target = trim_space target;
    })

  abbrev new_schedule : Text → Fields → Schedule
  new_schedule id f = record {
    id = id;
    description = f.description;
    condition = f.condition;
    target = f.target;
    created_at = env.now;
    updated_at = env.now;
  }

  abbrev pub added : Text → Fields → SchedulerConfig → Schedule × SchedulerConfig
  added id f c = (new_schedule id f, record c { schedules = c.schedules ++ new_schedule id f ∷ [] })

  unfoldable pub plan_add :
      CreateScheduleInput → SchedulerConfig → Result (Schedule × SchedulerConfig)
  unfolding validate normalize_fields
  plan_add input c = do
    _ ← checked (validate env.lib c)
    f ← normalize_fields input.description input.condition input.target
    _ ← checked (
        first_error (
          check (leb (length f.condition) c.condition_max_chars) condition_too_long
          ∷ check (leb (length f.description) c.description_max_chars) description_too_long
          ∷ []))
    id ← random_id env.random_hex
    ok (added id f c)

  unfoldable pub add_schedule :
      CreateScheduleInput → SchedulerConfig → Result Schedule × SchedulerConfig
  unfolding plan_add commit
  add_schedule input c = commit env.disk (plan_add input c) c

  abbrev changed_schedule : Schedule → Fields → Schedule
  changed_schedule s f = record s {
    description = f.description;
    condition = f.condition;
    target = f.target;
    updated_at = env.now;
  }

  abbrev pub changed : Text → Schedule → Fields → SchedulerConfig → Schedule × SchedulerConfig
  changed id s f c = (
    changed_schedule s f,
    record c { schedules = replace_schedule id (changed_schedule s f) c.schedules },
  )

  unfoldable pub plan_update :
      UpdateScheduleInput → SchedulerConfig → Result (Schedule × SchedulerConfig)
  unfolding validate normalize_fields find_schedule replace_schedule
  plan_update input c = do
    _ ← checked (
        check
          (not (is_blank (trim_space input.id))
            && (given input.description || given input.condition || given input.target))
          nothing_to_update)
    _ ← checked (validate env.lib c)
    s ← found (trim_space input.id) (find_schedule (trim_space input.id) c.schedules)
    f ←
        normalize_fields (option_or input.description s.description)
          (option_or input.condition s.condition) (option_or input.target s.target)
    _ ← checked (
        first_error (
          check (not (given input.condition) || leb (length f.condition) c.condition_max_chars)
            condition_too_long
          ∷ check
              (not (given input.description) || leb (length f.description) c.description_max_chars)
              description_too_long
          ∷ []))
    ok (changed (trim_space input.id) s f c)

  unfoldable pub update_schedule :
      UpdateScheduleInput → SchedulerConfig → Result Schedule × SchedulerConfig
  unfolding plan_update commit
  update_schedule input c = commit env.disk (plan_update input c) c

  unfoldable pub plan_remove : Text → SchedulerConfig → Result (Schedule × SchedulerConfig)
  unfolding validate find_schedule remove_from
  plan_remove id c = do
    _ ← checked (validate env.lib c)
    s ← found (trim_space id) (find_schedule (trim_space id) c.schedules)
    ok (s, record c { schedules = remove_from (trim_space id) c.schedules })

  unfoldable pub remove_schedule : Text → SchedulerConfig → Result Schedule × SchedulerConfig
  unfolding plan_remove commit
  remove_schedule id c = commit env.disk (plan_remove id c) c

  abbrev pub with_settings :
      SchedulerSettingsInput → AgentBinding → SchedulerConfig → SchedulerConfig
  with_settings input b c = record c {
    agent_binding = b;
    wake_interval_minutes = input.wake_interval_minutes;
    condition_max_chars = option_or input.condition_max_chars c.condition_max_chars;
    description_max_chars = option_or input.description_max_chars c.description_max_chars;
  }

  abbrev pub settings_checks : SchedulerSettingsInput → List (Option SchedulerError)
  settings_checks input =
      check (is_wake_interval input.wake_interval_minutes) wake_interval
      ∷ check (is_limit_given input.condition_max_chars) condition_limit
      ∷ check (is_limit_given input.description_max_chars) description_limit
      ∷ []

  unfoldable pub plan_settings :
      SchedulerSettingsInput → SchedulerConfig → Result (SchedulerConfig × SchedulerConfig)
  unfolding validate normalize_binding
  plan_settings input c = do
    b ← normalize_binding env.lib input.agent_binding
    _ ← checked (first_error (settings_checks input))
    _ ← checked (validate env.lib c)
    ok (with_settings input b c, with_settings input b c)

  unfoldable pub set_settings :
      SchedulerSettingsInput → SchedulerConfig → Result SchedulerConfig × SchedulerConfig
  unfolding plan_settings commit
  set_settings input c = commit env.disk (plan_settings input c) c
