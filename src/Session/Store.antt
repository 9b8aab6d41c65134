-- ===== src/Session/Store.antt =====
-- Store.Append, appendLocked, mergeDeltaLocked, Archive and loadSession of
-- agenthub/internal/session/store.go, for one session. Locks, metrics, caches and the subscribers
-- are left out; the outcome of each write to disk is an argument.
use pua.Prelude.{
  ℕ, ◌+◌, Bool, true, false, not, ◌||◌, Option, none, some, List, [], ◌∷◌, ◌++◌, Text, is_blank,
  if◌then◌else◌,
}
use pua.Session.Types.{
  EventType, session_archived, other_state, Session, Event, Codec, is_archived_state,
  is_stopped_state,
}
use pua.Session.Project.{ProjectError, ok, err, no_ids, apply_event}
use pua.Session.Merge.{Fields, mergeable}

pub record Log : Type 0 where
  pub id : Text
  pub session : Session
  pub events : List Event
  pub events_loaded : Bool
  pub revision : ℕ  -- uint64
  pub disk_events : List Event
  pub snapshot : Session
  pub moved : Bool

-- How a write to the log ends. One that fails, which the last sync or the close still can, leaves
-- the log with the events given, each on a line of its own.
pub data Write : Type 0 where
  written : Write
  stopped_with : List Event → Write

-- How the encoding of a new event, the append of its line, the rewrite of the last line and the write
-- of the snapshot end.
pub record Disk : Type 0 where
  pub encode_ok : Bool
  pub append_end : Write
  pub rewrite_end : Write
  pub snapshot_ok : Bool

pub data StoreError : Type 0 where
  archived_error active_error no_events encode_error write_error snapshot_error : StoreError
  conflict_error move_error : StoreError
  project_error : ProjectError → StoreError

-- The stored event and the frame for subscribers, or an error.
pub data Outcome : Type 0 where
  appended : Event → Event → Outcome
  failed : StoreError → Outcome

abbrev pub zero_session : Session
zero_session = record {
  id = [];
  title = [];
  cwd = [];
  agent_name = [];
  idempotency_key = [];
  source = none;
  launch_environment = [];
  provider = [];
  steer = false;
  provider_session_id = [];
  state = other_state [];
  stop_reason = [];
  current_turn_id = [];
  pending_approval_ids = [];
  last_event_id = 0;
  last_activity_at = none;
  last_activity_turn_id = [];
  last_progress_at = none;
  last_progress_turn_id = [];
  created_at = 0;
  updated_at = 0;
}

unfoldable pub set_last : List Event → Event → List Event
set_last [] e = []
set_last (x ∷ []) e = e ∷ []
set_last (x ∷ y ∷ xs) e = x ∷ set_last (y ∷ xs) e

-- How the rename of the directory into Archive ends.
pub data Move : Type 0 where
  done target_exists rename_failed : Move

abbrev pub rename : Move → Log → Log × Option StoreError
rename done st = (record st { moved = true }, none)
rename target_exists st = (st, some conflict_error)
rename rename_failed st = (st, some move_error)

-- moveToArchive.
unfoldable pub move_to_archive : Move → Log → Log × Option StoreError
move_to_archive move st = if st.moved then (st, none) else rename move st

abbrev pub after_close : Move → Log × Outcome → Log × Option StoreError
after_close move (st, appended stored frame) = move_to_archive move st
after_close move (st, failed x) = (st, some x)

-- The write of session.json after the state has changed.
unfoldable pub write_snapshot : Disk → Log → Event → Event → Log × Outcome
write_snapshot disk st stored frame =
    if disk.snapshot_ok
    then (record st { snapshot = st.session }, appended stored frame)
    else (st, failed snapshot_error)

unfoldable pub new_event : Log → EventType → Text → Text → ℕ → Event
new_event st kind turn_id payload now = record {
  id = st.session.last_event_id + 1;
  time = now;
  start_time = none;
  kind = kind;
  session_id = st.id;
  turn_id = turn_id;
  payload = payload;
}

abbrev pub start_or : Option ℕ → ℕ → Option ℕ
start_or none t = some t
start_or (some u) t = some u

-- The last event with the merged payload and the time of the newest fragment.
unfoldable pub merged_event : Event → Event → Text → Event
merged_event last e payload = record last {
  start_time = start_or last.start_time last.time;
  time = e.time;
  payload = payload;
}

-- ensureEventsLocked: `none` is the error of an empty log.
unfoldable pub ensure_events : Log → Option Log
ensure_events st = if st.events_loaded then some st else elim st.disk_events [
  | [] ↦ none
  | e ∷ es ↦ some (record st { events = e ∷ es; events_loaded = true })
]

-- What appendDurable leaves, for a session that the event brings to `s`.
abbrev pub append_line : Write → Disk → Log → Event → Session → Log × Outcome
append_line written disk st e s =
    write_snapshot disk
      (record st {
        session = s;
        events = st.events ++ e ∷ [];
        revision = st.revision + 1;
        disk_events = st.disk_events ++ e ∷ [];
      })
      e e
append_line (stopped_with es) disk st e s = (record st { disk_events = es }, failed write_error)

module _ (codec : Codec) where
  open codec use {encode_object}

  unfoldable pub append_plain : Disk → Log → Event → Log × Outcome
  unfolding write_snapshot
  append_plain disk st e =
      if not disk.encode_ok
      then (st, failed encode_error)
      else elim (apply_event codec st.session e) [
        | err x ↦ (st, failed (project_error x))
        | ok s ↦ append_line disk.append_end disk st e s
      ]

  -- mergeDeltaLocked from the rewritten line on.
  unfoldable pub commit_merge : Disk → Log → Event → Option Text → Log × Outcome
  unfolding write_snapshot set_last
  commit_merge disk st merged none =
      (record st { disk_events = set_last st.disk_events merged }, failed encode_error)
  commit_merge disk st merged (some patch) = elim (apply_event codec st.session merged) [
    | err x ↦ (record st { disk_events = set_last st.disk_events merged }, failed (project_error x))
    | ok s ↦
        write_snapshot disk
          (record st {
            session = s;
            events = set_last st.events merged;
            revision = st.revision + 1;
            disk_events = set_last st.disk_events merged;
          })
          merged (record merged { payload = patch })
  ]

  -- A rewrite that fails is followed by a plain append.
  abbrev pub rewrite_line : Write → Disk → Log → Event → Event → Option Text → Log × Outcome
  rewrite_line written disk st e merged patch = commit_merge disk st merged patch
  rewrite_line (stopped_with es) disk st e merged patch =
      append_plain disk (record st { disk_events = es }) e

  unfoldable pub append_merged : Disk → Log → Event → Event × Fields × Fields → Log × Outcome
  unfolding commit_merge merged_event append_plain
  append_merged disk st e (last, merged, patch) = elim (encode_object merged) [
    | none ↦ (st, failed encode_error)
    | some payload ↦
        rewrite_line disk.rewrite_end disk st e (merged_event last e payload) (encode_object patch)
  ]

  unfoldable pub append_locked : Disk → Log → Event → Log × Outcome
  unfolding append_merged append_plain
  append_locked disk st e = elim (mergeable codec st.events e) [
    | none ↦ append_plain disk st e
    | some m ↦ append_merged disk st e m
  ]

  unfoldable pub append_event : Disk → Log → EventType → Text → Text → ℕ → Log × Outcome
  unfolding append_locked ensure_events new_event
  append_event disk st kind turn_id payload now =
      if is_archived_state st.session.state
      then (st, failed archived_error)
      else elim (ensure_events st) [
        | none ↦ (st, failed no_events)
        | some loaded ↦ append_locked disk loaded (new_event loaded kind turn_id payload now)
      ]

  -- The event that Archive appends to a session that is not archived yet.
  unfoldable pub close_log : Disk → Log → ℕ → Log × Outcome
  unfolding append_locked new_event
  close_log disk st now =
      if not (is_stopped_state st.session.state)
      then (st, failed active_error)
      else if not (is_blank st.session.current_turn_id)
          || not (no_ids st.session.pending_approval_ids)
      then (st, failed active_error)
      else append_locked disk st (new_event st session_archived [] [] now)

  -- Archive; `none` is success.
  unfoldable pub archive_session : Disk → Move → Log → ℕ → Log × Option StoreError
  unfolding close_log move_to_archive
  archive_session disk move st now =
      if is_archived_state st.session.state
      then move_to_archive move st
      else after_close move (close_log disk st now)
