-- ===== src/Session/Tests.antt =====
-- The theorems on the session log at a small log: a session that was created and then streams text.
use pua.Prelude.{inl, ◌≡◌, ℕ, refl, inr, true, false, none, some, [], ◌∷◌, ◌++◌, All, List, txt}
use pua.Session.Types.{
  is_delta, session_created, assistant_delta, message_input, message_delivery, turn_completed,
  EventType, Session, Event, string, Codec, running, stopped,
}
use pua.Session.Project.{stamp, replay, apply_event, switch, is_activity, is_progress}
use pua.Session.Store.{
  Log, Disk, written, stopped_with, zero_session, append_event, new_event, ensure_events,
  archive_session, done,
}
use pua.Session.Replay.{IsReplayed, Encodes, apply_delta}
use pua.Session.Durable.{IsStored, append_event-IsStored}
use pua.Session.Archives.{IsArchive, archive_session-IsArchive}
use pua.Session.Appends.{append_event-IsReplayed}
use pua.Session.Pages.{events_page, events_page_before}
use pua.Session.Paging.{AnswersAfter, events_page-AnswersAfter}
use pua.Session.PagingBack.{AnswersBefore, events_page_before-AnswersBefore}
use pua.Session.Messages.{Payloads, build_messages, accepted}
use pua.Session.Delivery.{Extends, build_messages-Extends}
use pua.Session.Receipts.{IsReceipt, build_messages-IsReceipt}

abbrev event : ℕ → EventType → Event
event id kind = record {
  id = id;
  time = 100;
  start_time = none;
  kind = kind;
  session_id = txt "s";
  turn_id = txt "t";
  payload = [];
}

abbrev created : Session
created = record zero_session { id = txt "s"; state = running; current_turn_id = txt "t" }

abbrev rest : Session
rest = record created { state = stopped; current_turn_id = [] }

abbrev codec : Codec
codec = record {
  decode_session = λ _. some created;
  decode_state = λ _. none;
  decode_provider = λ _. none;
  decode_agent_name = λ _. none;
  decode_environment = λ _. none;
  decode_approval_id = λ _. none;
  decode_object = λ _. some ((txt "text", string (txt "a")) ∷ []);
  encode_object = λ _. some [];
}

codec-Encodes : Encodes codec
codec-Encodes fields = ([], refl)

abbrev two_events : List Event
two_events = event 1 session_created ∷ event 2 assistant_delta ∷ []

abbrev streaming : Log
streaming = record {
  id = txt "s";
  session = record created {
    last_event_id = 2;
    updated_at = 100;
    last_activity_at = some 100;
    last_activity_turn_id = txt "t";
    last_progress_at = some 100;
    last_progress_turn_id = txt "t";
  };
  events = two_events;
  events_loaded = true;
  revision = 2;
  disk_events = two_events;
  snapshot = created;
  moved = false;
}

streaming-IsReplayed : IsReplayed codec streaming
unfolding replay apply_event switch stamp is_activity is_progress
streaming-IsReplayed = record {
  replayed = refl;
  loaded = inr refl;
  numbered = (refl, (refl, tt));
  cursor = refl;
}

-- A session that was created in the stopped state, its history not loaded.
abbrev quiet_codec : Codec
quiet_codec = record codec { decode_session = λ _. some rest }

abbrev quiet : Log
quiet = record streaming {
  session = record rest { last_event_id = 1; updated_at = 100 };
  events = [];
  events_loaded = false;
  disk_events = event 1 session_created ∷ [];
}

quiet-IsReplayed : IsReplayed quiet_codec quiet
unfolding replay apply_event switch stamp is_activity is_progress
quiet-IsReplayed = record {
  replayed = refl;
  loaded = inl refl;
  numbered = (refl, tt);
  cursor = refl;
}

abbrev disk : Disk
disk = record { encode_ok = true; append_end = written; rewrite_end = written; snapshot_ok = true }

-- The rewrite of the last line is refused.
abbrev half_disk : Disk
half_disk = record disk { rewrite_end = stopped_with two_events }

append_event-IsReplayed_example :
    IsReplayed codec (append_event codec half_disk streaming assistant_delta (txt "t") [] 101).0
append_event-IsReplayed_example =
    append_event-IsReplayed codec half_disk streaming assistant_delta (txt "t") [] 101 codec-Encodes
      (tt, refl) streaming-IsReplayed

abbrev next : Event
next = new_event streaming assistant_delta (txt "t") [] 101

streaming_loads : ensure_events streaming ≡ some streaming
unfolding ensure_events
streaming_loads = refl

next_is_delta : is_delta next.kind ≡ true
unfolding new_event
next_is_delta = refl

append_event-IsStored_example :
    IsStored assistant_delta
      (txt "t")
      (append_event codec disk streaming assistant_delta (txt "t") [] 101)
append_event-IsStored_example =
    append_event-IsStored codec disk streaming streaming assistant_delta (txt "t") [] 101
      (stamp next streaming.session) codec-Encodes (refl, refl, refl) streaming-IsReplayed refl
      streaming_loads (apply_delta codec streaming.session next next_is_delta)

events_page-AnswersAfter_example : AnswersAfter 1 two_events (events_page streaming 1 10).1
events_page-AnswersAfter_example =
    events_page-AnswersAfter codec streaming 1 10 streaming-IsReplayed

events_page_before-AnswersBefore_example :
    AnswersBefore two_events (events_page_before streaming 9 1).1
events_page_before-AnswersBefore_example =
    events_page_before-AnswersBefore codec streaming 9 1 streaming-IsReplayed

archive_session-IsArchive_example :
    IsReplayed quiet_codec (archive_session quiet_codec disk done quiet 101).0
    × IsArchive quiet (archive_session quiet_codec disk done quiet 101)
archive_session-IsArchive_example =
    archive_session-IsArchive quiet_codec disk done quiet 101 tt quiet-IsReplayed

abbrev payloads : Payloads
payloads = record {
  decode_input = λ _. some (record {
    schema_version = 2;
    text = txt "hello";
    payload = [];
    steer = false;
    message_id = [];
    role = [];
    sender = none;
    reply_to = [];
    correlation_id = [];
  });
  decode_delivery = λ _. some (record {
    message_event_id = 1;
    message_id = [];
    state = accepted;
    attempt = 1;
    error = [];
    startup_attempts = 0;
    retry_at = [];
  });
  decode_error = λ _. [];
}

abbrev inputs : List Event
inputs = event 1 message_input ∷ event 2 turn_completed ∷ []

abbrev deliveries : List Event
deliveries = event 3 message_delivery ∷ []

build_messages-Extends_example :
    Extends (build_messages payloads inputs) (build_messages payloads (inputs ++ deliveries))
build_messages-Extends_example = build_messages-Extends payloads inputs deliveries

build_messages-IsReceipt_example : All IsReceipt (build_messages payloads (inputs ++ deliveries))
build_messages-IsReceipt_example = build_messages-IsReceipt payloads (inputs ++ deliveries)
