-- ===== src/Scheduler/Tests.antt =====
-- The theorems on the Scheduler's configuration at concrete ones, and the name of a profile that
-- strings.ToLower makes too long.
use pua.Prelude.{
  true, ◌≡◌, refl, subst, none, some, [], ◌∷◌, ◌++◌, Text, txt, text_eq, trim_space, trim_left,
  trim_right, join_right, is_space,
}
use pua.Scheduler.Config.{
  ok, ◌>>=◌, AgentBinding, Schedule, SchedulerConfig, Library, byte_length, has_nul, all_lower_hex,
  is_field, check_schedules, normalize_trimmed, normalize_binding, validate,
}
use pua.Scheduler.Operations.{
  saved, CreateScheduleInput, UpdateScheduleInput, SchedulerSettingsInput, Surroundings,
  find_schedule, commit, fields_error, normalize_fields, plan_add, add_schedule, update_schedule,
  remove_schedule, set_settings,
}
use pua.Scheduler.Valid.{IsClock, IsRandom}
use pua.Scheduler.Kept.{IsKept, IsFresh, operations-IsKept, remove-add}
use pua.Scheduler.Settings.{IsLowered, set_settings-IsKept}

abbrev library : Library
library = record { to_lower = λ s. s; is_time = λ s. true }

abbrev hex : Text
hex = txt "0123456789abcdef01234567"

abbrev surroundings : Surroundings
surroundings = record {
  lib = library;
  now = txt "2026-01-01T00:00:00Z";
  random_hex = some hex;
  is_open = λ t. true;
  disk = saved;
}

abbrev binding : AgentBinding
binding = record { kind = txt "profile"; name = txt "default" }

abbrev config : SchedulerConfig
config = record {
  schema_version = 1;
  agent_binding = binding;
  wake_interval_minutes = 30;
  condition_max_chars = 128;
  description_max_chars = 32;
  schedules = [];
}

abbrev input : CreateScheduleInput
input = record { description = txt "report"; condition = txt "daily"; target = txt "workspace" }

abbrev schedule : Schedule
schedule = record {
  id = txt "schedule-" ++ hex;
  description = txt "report";
  condition = txt "daily";
  target = txt "workspace";
  created_at = txt "2026-01-01T00:00:00Z";
  updated_at = txt "2026-01-01T00:00:00Z";
}

abbrev change : UpdateScheduleInput
change = record {
  id = txt "schedule-" ++ hex;
  description = none;
  condition = some (txt "weekly");
  target = none;
}

abbrev settings : SchedulerSettingsInput
settings = record {
  agent_binding = binding;
  wake_interval_minutes = 60;
  condition_max_chars = some 64;
  description_max_chars = none;
}

clock : IsClock library (txt "2026-01-01T00:00:00Z")
unfolding is_field has_nul byte_length trim_space trim_left trim_right join_right is_space
clock = record { field = refl; read = refl }

random : IsRandom hex
unfolding all_lower_hex
random = record { digits = refl; long = refl }

fresh : IsFresh surroundings config
unfolding find_schedule
fresh h e = (subst IsRandom (same hex h e) random, refl)
  where
    same : (x y : Text) → some x ≡ some y → x ≡ y
    same x y e = cc

operations-IsKept_example :
    IsKept library config (add_schedule surroundings input config)
    × IsKept library config (update_schedule surroundings change config)
    × IsKept library config (remove_schedule surroundings (txt "schedule-x") config)
operations-IsKept_example =
    operations-IsKept surroundings config input change (txt "schedule-x") clock fresh

added :
    add_schedule surroundings input config
    ≡ (ok schedule, record config { schedules = schedule ∷ [] })
unfolding add_schedule plan_add commit ◌>>=◌ validate normalize_binding normalize_trimmed
    check_schedules normalize_fields fields_error has_nul byte_length trim_space trim_left
    trim_right join_right is_space text_eq
added = refl

remove-add_example :
    remove_schedule surroundings schedule.id (record config { schedules = schedule ∷ [] })
    ≡ (ok schedule, config)
remove-add_example =
    remove-add surroundings config (record config { schedules = schedule ∷ [] }) input schedule
      clock fresh added

lowered : IsLowered library (trim_space (txt "default"))
unfolding has_nul byte_length trim_space trim_left trim_right join_right is_space
lowered = record {
  profile = refl;
  agent = refl;
  trimmed = refl;
  shown = refl;
  size = refl;
  clean = refl;
}

set_settings-IsKept_example : IsKept library config (set_settings surroundings settings config)
set_settings-IsKept_example = set_settings-IsKept surroundings settings config lowered
