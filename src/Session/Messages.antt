-- ===== src/Session/Messages.antt =====
-- buildDurableMessages of agenthub/internal/session/turns.go, with its data from types.go. The maps
-- byEventID and byTurnID are read off the messages themselves, which keep both keys.
use pua.Prelude.{
  ℕ, Bool, true, false, not, ◌&&◌, ◌||◌, Option, none, some, List, [], ◌∷◌, ◌++◌, Text, txt,
  text_eq, ltb, ◌==◌, if◌then◌else◌,
}
use pua.Session.Types.{
  EventType, message_input, message_delivery, turn_completed, turn_failed, turn_cancelled, Event,
}

pub record MessageSender : Type 0 where
  pub id : Text
  pub name : Text
  pub session_id : Text

pub record MessageInput : Type 0 where
  pub schema_version : ℕ
  pub text : Text
  pub payload : Text
  pub steer : Bool
  pub message_id : Text
  pub role : Text
  pub sender : Option MessageSender
  pub reply_to : Text
  pub correlation_id : Text

pub record Delivery : Type 0 where
  pub message_event_id : ℕ
  pub message_id : Text
  pub state : Text
  pub attempt : ℕ
  pub error : Text
  pub startup_attempts : ℕ
  pub retry_at : Text

pub record DurableMessage : Type 0 where
  pub event_id : ℕ
  pub turn_id : Text
  pub input : MessageInput
  pub attempt : ℕ
  pub delivered : Bool
  pub terminal : Bool
  pub state : Text
  pub error : Text
  pub startup_attempts : ℕ
  pub retry_at : Text

abbrev pub accepted : Text
accepted = txt "accepted"

abbrev pub failed : Text
failed = txt "failed"

abbrev pub cancelled : Text
cancelled = txt "cancelled"

abbrev pub closed : Text
closed = txt "closed"

-- json.Unmarshal of the payloads. The error of a turn's end is read even where the decoding fails.
pub record Payloads : Type 0 where
  pub decode_input : Text → Option MessageInput
  pub decode_delivery : Text → Option Delivery
  pub decode_error : Text → Text

abbrev pub new_message : Event → MessageInput → DurableMessage
new_message e input = record {
  event_id = e.id;
  turn_id = e.turn_id;
  input = input;
  attempt = 0;
  delivered = false;
  terminal = false;
  state = [];
  error = [];
  startup_attempts = 0;
  retry_at = [];
}

-- The test that lets a terminal message alone.
unfoldable pub is_final : Delivery → DurableMessage → Bool
is_final d m = m.terminal && not (text_eq m.state closed && text_eq d.state accepted)

-- The assignments for one delivery event.
unfoldable pub record_delivery : Delivery → DurableMessage → DurableMessage
record_delivery d m = record m {
  attempt = if ltb m.attempt d.attempt then d.attempt else m.attempt;
  delivered = text_eq d.state accepted || m.delivered;
  terminal =
      text_eq d.state accepted || text_eq d.state failed || text_eq d.state cancelled || m.terminal;
  state = d.state;
  error = d.error;
  startup_attempts = d.startup_attempts;
  retry_at = d.retry_at;
}

unfoldable pub deliver : Delivery → DurableMessage → DurableMessage
unfolding is_final record_delivery
deliver d m = if is_final d m then m else record_delivery d m

abbrev pub has_message : ℕ → List DurableMessage → Bool
has_message id [] = false
has_message id (m ∷ ms) = m.event_id == id || has_message id ms

-- `byEventID` names the last message with the id.
unfoldable pub deliver_to : Delivery → List DurableMessage → List DurableMessage
unfolding deliver
deliver_to d [] = []
deliver_to d (m ∷ ms) =
    let rest = deliver_to d ms in
    if m.event_id == d.message_event_id && not (has_message d.message_event_id ms)
    then deliver d m ∷ ms
    else m ∷ rest

-- The state of a message that the end of its turn closes.
abbrev pub closing_state : EventType → Text
closing_state turn_completed = closed
closing_state turn_failed = failed
closing_state _ = cancelled

unfoldable pub close_message : Payloads → Event → DurableMessage → DurableMessage
close_message payloads e m =
    if text_eq m.turn_id e.turn_id && not m.terminal
    then record m {
      terminal = true;
      retry_at = [];
      error = payloads.decode_error e.payload;
      state = closing_state e.kind;
    }
    else m

unfoldable pub close_messages : Payloads → Event → List DurableMessage → List DurableMessage
unfolding close_message
close_messages payloads e [] = []
close_messages payloads e (m ∷ ms) = close_message payloads e m ∷ close_messages payloads e ms

-- One round of the loop.
unfoldable pub add_event : Payloads → EventType → Event → List DurableMessage → List DurableMessage
unfolding deliver_to close_messages
add_event payloads message_input e ms = elim (payloads.decode_input e.payload) [
  | none ↦ ms
  | some input ↦ ms ++ new_message e input ∷ []
]
add_event payloads message_delivery e ms = elim (payloads.decode_delivery e.payload) [
  | none ↦ ms
  | some d ↦ deliver_to d ms
]
add_event payloads turn_completed e ms = close_messages payloads e ms
add_event payloads turn_failed e ms = close_messages payloads e ms
add_event payloads turn_cancelled e ms = close_messages payloads e ms
add_event payloads _ e ms = ms

unfoldable pub add_events : Payloads → List DurableMessage → List Event → List DurableMessage
unfolding add_event
add_events payloads ms [] = ms
add_events payloads ms (e ∷ es) = add_events payloads (add_event payloads e.kind e ms) es

unfoldable pub build_messages : Payloads → List Event → List DurableMessage
unfolding add_events
build_messages payloads es = add_events payloads [] es
