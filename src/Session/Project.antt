-- ===== src/Session/Project.antt =====
-- applyEvent of agenthub/internal/session/store.go and the event classes of activity.go.
use pua.Prelude.{
  Bool, true, false, not, ◌&&◌, Option, none, some, List, [], ◌∷◌, Text, text_eq, is_blank,
  if◌then◌else◌,
}
use pua.Session.Types.{
  SessionState, ready, running, waiting_approval, stopped, archived, other_state, EventType,
  session_created, session_state, session_provider, session_agent, launch_environment,
  session_archived, turn_started, turn_completed, turn_failed, turn_cancelled, approval_requested,
  approval_resolved, message_input, assistant_delta, reasoning_delta, tool_event, tool_call,
  provider_error, Session, Event, ProviderData, Codec, is_input, is_ending,
}

pub data ProjectError : Type 0 where
  bad_payload : ProjectError
  unsupported_state : Text → ProjectError

pub data Result {ℓ} (A : Type ℓ) : Type ℓ where
  ok : A → Result A
  err : ProjectError → Result A

infixl 5 ◌>>=◌
abbrev pub ◌>>=◌ {ℓ κ} : {A : Type ℓ} {B : Type κ} → Result A → (A → Result B) → Result B
ok a >>= f = f a
err e >>= f = err e

abbrev pub or_bad {ℓ} : {A : Type ℓ} → Option A → Result A
or_bad none = err bad_payload
or_bad (some a) = ok a

-- The types of Turn activity, in a switch of IsActivityEvent.
abbrev pub is_activity_type : EventType → Bool
is_activity_type turn_started = true
is_activity_type message_input = true
is_activity_type assistant_delta = true
is_activity_type reasoning_delta = true
is_activity_type tool_event = true
is_activity_type tool_call = true
is_activity_type approval_requested = true
is_activity_type approval_resolved = true
is_activity_type provider_error = true
is_activity_type turn_completed = true
is_activity_type turn_failed = true
is_activity_type turn_cancelled = true
is_activity_type _ = false

unfoldable pub is_activity : Event → Bool
is_activity e = not (is_blank e.turn_id) && is_activity_type e.kind

unfoldable pub is_progress : Event → Bool
unfolding is_activity
is_progress e = not (is_input e.kind) && is_activity e

unfoldable pub append_unique : List Text → Text → List Text
append_unique [] v = v ∷ []
append_unique (x ∷ xs) v = let rest = append_unique xs v in if text_eq x v then x ∷ xs else x ∷ rest

unfoldable pub remove_string : List Text → Text → List Text
remove_string [] v = []
remove_string (x ∷ xs) v = let rest = remove_string xs v in if text_eq x v then rest else x ∷ rest

abbrev pub no_ids : List Text → Bool
no_ids [] = true
no_ids (x ∷ xs) = false

-- The cases of applyEvent.
unfoldable pub set_state : SessionState → Text → Session → Result Session
set_state stopped reason s = ok (record s { state = stopped; stop_reason = reason })
set_state (other_state t) reason s = err (unsupported_state t)
set_state state reason s = ok (record s { state = state; stop_reason = [] })

unfoldable pub apply_provider : ProviderData → Session → Session
apply_provider d s = record s {
  agent_name = d.agent_name;
  provider = d.provider;
  provider_session_id = d.provider_session_id;
  steer = d.steer;
}

unfoldable pub close_turn : Event → Session → Session
close_turn e s = record s {
  current_turn_id = if text_eq s.current_turn_id e.turn_id then [] else s.current_turn_id;
  state =
      if is_ending s.state
      then s.state
      else if no_ids s.pending_approval_ids
      then ready
      else waiting_approval;
}

unfoldable pub request_approval : Text → Session → Session
unfolding append_unique
request_approval id s = record s {
  pending_approval_ids = append_unique s.pending_approval_ids id;
  state = waiting_approval;
}

unfoldable pub resolve_approval : Text → Session → Session
unfolding remove_string
resolve_approval id s = record s {
  pending_approval_ids = remove_string s.pending_approval_ids id;
  state =
      if no_ids (remove_string s.pending_approval_ids id) && not (is_ending s.state)
      then (if is_blank s.current_turn_id then ready else running)
      else s.state;
}

-- What follows the switch in applyEvent.
unfoldable pub stamp : Event → Session → Session
unfolding is_activity is_progress
stamp e s = record s {
  last_activity_at = if is_activity e then some e.time else s.last_activity_at;
  last_activity_turn_id = if is_activity e then e.turn_id else s.last_activity_turn_id;
  last_progress_at = if is_progress e then some e.time else s.last_progress_at;
  last_progress_turn_id = if is_progress e then e.turn_id else s.last_progress_turn_id;
  last_event_id = e.id;
  updated_at = e.time;
}

module _ (codec : Codec) where
  open codec use {
    decode_session, decode_state, decode_provider, decode_agent_name, decode_environment,
    decode_approval_id,
  }

  -- The switch of applyEvent.
  unfoldable pub switch : EventType → Event → Session → Result Session
  switch session_created e s = or_bad (decode_session e.payload)
  switch session_state e s = do d ← or_bad (decode_state e.payload); set_state d.state d.reason s
  switch session_provider e s = do d ← or_bad (decode_provider e.payload); ok (apply_provider d s)
  switch session_agent e s = do
    name ← or_bad (decode_agent_name e.payload)
    ok (record s { agent_name = name })
  switch launch_environment e s = do
    environment ← or_bad (decode_environment e.payload)
    ok (record s { launch_environment = environment })
  switch session_archived e s = ok (record s { state = archived })
  switch turn_started e s = ok (record s { current_turn_id = e.turn_id; state = running })
  switch turn_completed e s = ok (close_turn e s)
  switch turn_failed e s = ok (close_turn e s)
  switch turn_cancelled e s = ok (close_turn e s)
  switch approval_requested e s = do
    id ← or_bad (decode_approval_id e.payload)
    ok (request_approval id s)
  switch approval_resolved e s = do
    id ← or_bad (decode_approval_id e.payload)
    ok (resolve_approval id s)
  switch _ e s = ok s

  unfoldable pub apply_event : Session → Event → Result Session
  unfolding switch
  apply_event s e = do t ← switch e.kind e s; ok (stamp e t)

  -- The loop of loadSession over the events of a log.
  unfoldable pub replay : Session → List Event → Result Session
  unfolding apply_event
  replay s [] = ok s
  replay s (e ∷ es) = elim (apply_event s e) [ ok t ↦ replay t es | err x ↦ err x ]
