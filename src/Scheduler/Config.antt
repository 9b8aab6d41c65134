-- ===== src/Scheduler/Config.antt =====
-- The Scheduler's configuration and its validation: internal/app/scheduler.go, with
-- NormalizeAgentBinding of resource_agent.go. Texts are valid UTF-8, so that they are lists of code
-- points; an int is a natural number.
use pua.Prelude.{
  ℕ, ◌+◌, ◌*◌, Bool, true, false, not, ◌&&◌, ◌||◌, ◌==◌, ltb, leb, Option, none, some, List, [],
  ◌∷◌, length, drop, Text, txt, text_eq, is_blank, trim_space, has_prefix, if◌then◌else◌,
}

pub data SchedulerError : Type 0 where
  unsupported_version wake_interval condition_limit description_limit : SchedulerError
  binding_kind binding_name_required binding_name_invalid : SchedulerError
  invalid_schedule duplicate_id not_found : Text → SchedulerError
  fields_required field_invalid target_closed condition_too_long description_too_long :
      SchedulerError
  nothing_to_update no_random_id write_failed sync_failed : SchedulerError

pub data Result {ℓ} (A : Type ℓ) : Type ℓ where
  ok : A → Result A
  error : SchedulerError → Result A

infixl 5 ◌>>=◌
unfoldable pub ◌>>=◌ {ℓ κ} : {A : Type ℓ} {B : Type κ} → Result A → (A → Result B) → Result B
ok a >>= f = f a
error e >>= f = error e

pub record AgentBinding : Type 0 where
  pub kind : Text
  pub name : Text

pub record Schedule : Type 0 where
  pub id : Text
  pub description : Text
  pub condition : Text
  pub target : Text
  pub created_at : Text
  pub updated_at : Text

pub record SchedulerConfig : Type 0 where
  pub schema_version : ℕ
  pub agent_binding : AgentBinding
  pub wake_interval_minutes : ℕ
  pub condition_max_chars : ℕ
  pub description_max_chars : ℕ
  pub schedules : List Schedule

-- strings.ToLower, and whether time.Parse accepts a text as RFC 3339.
pub record Library : Type 0 where
  pub to_lower : Text → Text
  pub is_time : Text → Bool

abbrev maximum_wake_minutes : ℕ
maximum_wake_minutes = 7 * 24 * 60

abbrev pub maximum_text_length : ℕ
maximum_text_length = 64 * 1024

-- The bytes of a code point in UTF-8.
abbrev rune_bytes : ℕ → ℕ
rune_bytes c = if ltb c 0x80 then 1 else if ltb c 0x800 then 2 else if ltb c 0x10000 then 3 else 4

-- `len(s)`.
unfoldable pub byte_length : Text → ℕ
byte_length [] = 0
byte_length (c ∷ s) = rune_bytes c + byte_length s

-- `strings.ContainsRune(s, '\x00')`.
unfoldable pub has_nul : Text → Bool
has_nul [] = false
has_nul (c ∷ s) = c == 0 || has_nul s

abbrev is_lower_hex : ℕ → Bool
is_lower_hex c = (leb 48 c && leb c 57) || (leb 97 c && leb c 102)

unfoldable pub all_lower_hex : Text → Bool
all_lower_hex [] = true
all_lower_hex (c ∷ s) = is_lower_hex c && all_lower_hex s

-- scheduleIDPattern.
unfoldable pub is_schedule_id : Text → Bool
unfolding has_prefix all_lower_hex
is_schedule_id s =
    has_prefix s (txt "schedule-") && length (drop 9 s) == 24 && all_lower_hex (drop 9 s)

-- The first error of checks made one after the other.
abbrev pub first_error : List (Option SchedulerError) → Option SchedulerError
first_error [] = none
first_error (none ∷ rest) = first_error rest
first_error (some e ∷ rest) = some e

abbrev pub check : Bool → SchedulerError → Option SchedulerError
check b e = if b then none else some e

abbrev pub checked : Option SchedulerError → Result Bool
checked none = ok true
checked (some e) = error e

-- One field of validateSchedule, measured by `size`.
unfoldable pub is_field : (Text → ℕ) → Text → Bool
unfolding has_nul trim_space
is_field size s =
    not (is_blank (trim_space s))
    && leb (size (trim_space s)) maximum_text_length
    && not (has_nul (trim_space s))

abbrev pub is_seen : Text → List Text → Bool
is_seen id [] = false
is_seen id (x ∷ xs) = text_eq id x || is_seen id xs

abbrev pub is_wake_interval : ℕ → Bool
is_wake_interval n = leb 1 n && leb n maximum_wake_minutes

-- validateConditionMaxChars and validateDescriptionMaxChars.
abbrev pub is_limit : ℕ → Bool
is_limit n = leb 1 n && leb n maximum_text_length

module _ (lib : Library) where
  -- NormalizeAgentBinding after the texts are trimmed.
  unfoldable pub normalize_trimmed : Text → Text → Result AgentBinding
  unfolding byte_length has_nul
  normalize_trimmed kind name =
      if is_blank kind && is_blank name
      then ok (record { kind = txt "profile"; name = txt "default" })
      else if not (text_eq kind (txt "profile")) && not (text_eq kind (txt "agent"))
      then error binding_kind
      else if is_blank name
      then error binding_name_required
      else if not (leb (byte_length name) 80) || has_nul name
      then error binding_name_invalid
      else ok (record {
        kind = kind;
        name = if text_eq kind (txt "profile") then lib.to_lower name else name;
      })

  unfoldable pub normalize_binding : AgentBinding → Result AgentBinding
  unfolding normalize_trimmed
  normalize_binding b = normalize_trimmed (lib.to_lower (trim_space b.kind)) (trim_space b.name)

  abbrev pub binding_error : Result AgentBinding → Option SchedulerError
  binding_error (ok b) = none
  binding_error (error e) = some e

  -- validateSchedule; the code takes the fields in the order of a Go map, so that the error names any
  -- one of the fields that are invalid.
  unfoldable pub is_schedule : Schedule → Bool
  unfolding is_schedule_id is_field byte_length
  is_schedule s =
      is_schedule_id s.id
      && is_field length s.description
      && is_field length s.condition
      && is_field byte_length s.target
      && is_field byte_length s.created_at
      && is_field byte_length s.updated_at
      && lib.is_time s.created_at
      && lib.is_time s.updated_at

  abbrev pub schedule_checks :
      List Text → Schedule → Option SchedulerError → List (Option SchedulerError)
  schedule_checks seen s rest =
      check (is_schedule s) (invalid_schedule s.id)
      ∷ check (not (is_seen s.id seen)) (duplicate_id s.id)
      ∷ rest
      ∷ []

  -- The loop over the schedules, with the ids seen before.
  unfoldable pub check_schedules : List Text → List Schedule → Option SchedulerError
  unfolding is_schedule
  check_schedules seen [] = none
  check_schedules seen (s ∷ rest) =
      first_error (schedule_checks seen s (check_schedules (s.id ∷ seen) rest))

  abbrev pub config_checks : SchedulerConfig → List (Option SchedulerError)
  config_checks c =
      check (c.schema_version == 1) unsupported_version
      ∷ binding_error (normalize_binding c.agent_binding)
      ∷ check (is_wake_interval c.wake_interval_minutes) wake_interval
      ∷ check (is_limit c.condition_max_chars) condition_limit
      ∷ check (is_limit c.description_max_chars) description_limit
      ∷ check_schedules [] c.schedules
      ∷ []

  unfoldable pub validate : SchedulerConfig → Option SchedulerError
  unfolding normalize_binding check_schedules
  validate c = first_error (config_checks c)
