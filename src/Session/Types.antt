-- ===== src/Session/Types.antt =====
-- The data of agenthub/internal/session/types.go: events, sessions, messages and event payloads. A
-- time is a number of nanoseconds; JSON text is text, and its decoding is an interface.
use pua.Prelude.{ℕ, Bool, true, false, Option, List, Text}

pub data SessionState : Type 0 where
  starting ready running waiting_approval stopping stopped archived : SessionState
  other_state : Text → SessionState

-- The event types that the package names, and any other.
pub data EventType : Type 0 where
  session_created session_state session_provider session_agent launch_environment : EventType
  session_archived turn_started turn_completed turn_failed turn_cancelled : EventType
  approval_requested approval_resolved message_input message_delivery : EventType
  assistant_delta reasoning_delta tool_event tool_call provider_error : EventType
  other_type : Text → EventType

pub record Source : Type 0 where
  pub app : Text
  pub instance_id : Text
  pub external_id : Text
  pub metadata : List (Text × Text)

pub record Session : Type 0 where
  pub id : Text
  pub title : Text
  pub cwd : Text
  pub agent_name : Text
  pub idempotency_key : Text
  pub source : Option Source
  pub launch_environment : List (Text × Text)
  pub provider : Text
  pub steer : Bool
  pub provider_session_id : Text
  pub state : SessionState
  pub stop_reason : Text
  pub current_turn_id : Text
  pub pending_approval_ids : List Text
  pub last_event_id : ℕ
  pub last_activity_at : Option ℕ
  pub last_activity_turn_id : Text
  pub last_progress_at : Option ℕ
  pub last_progress_turn_id : Text
  pub created_at : ℕ
  pub updated_at : ℕ

pub record Event : Type 0 where
  pub id : ℕ
  pub time : ℕ
  pub start_time : Option ℕ
  pub kind : EventType
  pub session_id : Text
  pub turn_id : Text
  pub payload : Text

pub record StateData : Type 0 where
  pub state : SessionState
  pub reason : Text

pub record ProviderData : Type 0 where
  pub agent_name : Text
  pub provider : Text
  pub provider_session_id : Text
  pub steer : Bool

-- The values of a JSON object that a delta event carries: a string, or other JSON text.
pub data Value : Type 0 where
  string : Text → Value
  other_value : Text → Value

-- What json.Unmarshal and json.Marshal make of the payloads; `none` is an error.
pub record Codec : Type 0 where
  pub decode_session : Text → Option Session
  pub decode_state : Text → Option StateData
  pub decode_provider : Text → Option ProviderData
  pub decode_agent_name : Text → Option Text
  pub decode_environment : Text → Option (List (Text × Text))
  pub decode_approval_id : Text → Option Text
  pub decode_object : Text → Option (List (Text × Value))
  pub encode_object : List (Text × Value) → Option Text

-- `event.Type == EventMessageInput`
abbrev pub is_input : EventType → Bool
is_input message_input = true
is_input _ = false

-- The streaming text deltas.
abbrev pub is_delta : EventType → Bool
is_delta assistant_delta = true
is_delta reasoning_delta = true
is_delta _ = false

-- `state == stopping || state == stopped || state == archived`
abbrev pub is_ending : SessionState → Bool
is_ending stopping = true
is_ending stopped = true
is_ending archived = true
is_ending _ = false

abbrev pub is_archived_state : SessionState → Bool
is_archived_state archived = true
is_archived_state _ = false

abbrev pub is_stopped_state : SessionState → Bool
is_stopped_state stopped = true
is_stopped_state _ = false
