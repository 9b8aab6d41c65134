-- ===== src/Session/Pages.antt =====
-- EventsPage, EventsPageBefore and EventsThrough of agenthub/internal/session/store.go. A cursor and
-- a limit are numbers from 0 on; sort.Search is the first index whose test holds.
use pua.Prelude.{
  ℕ, suc, ◌+◌, ◌-◌, Bool, false, Option, none, some, List, [], ◌∷◌, last?, take, drop, ltb, leb,
  ◌==◌, if◌then◌else◌,
}
use pua.Session.Types.{Event}
use pua.Session.Store.{Log, ensure_events}

pub record EventPage : Type 0 where
  pub events : List Event
  pub after : ℕ
  pub limit : ℕ
  pub next_after : ℕ
  pub has_more : Bool
  pub before : ℕ
  pub next_before : ℕ
  pub has_more_before : Bool
  pub latest_cursor : ℕ

pub data Answer : Type 0 where
  page : EventPage → Answer
  cursor_ahead : EventPage → Answer
  no_history : Answer

abbrev default_page_size : ℕ
default_page_size = 500

abbrev max_page_size : ℕ
max_page_size = 1000

unfoldable pub normalize_limit : ℕ → ℕ
normalize_limit limit =
    if leb limit 0
    then default_page_size
    else if ltb max_page_size limit
    then max_page_size
    else limit

-- The index of the first event whose id is at least `id`, or the number of events.
unfoldable pub first_from : ℕ → List Event → ℕ
first_from id [] = 0
first_from id (e ∷ es) = let rest = first_from id es in if leb id e.id then 0 else suc rest

-- The loop that collects events until `limit` of them are held; `held` counts those.
unfoldable pub collect : ℕ → ℕ → List Event → List Event
collect held limit [] = []
collect held limit (e ∷ es) =
    let rest = collect (held + 1) limit es in if held + 1 == limit then e ∷ [] else e ∷ rest

-- The same loop of EventsThrough, which stops at an event past the mark.
unfoldable pub collect_through : ℕ → ℕ → ℕ → List Event → List Event
collect_through mark held limit [] = []
collect_through mark held limit (e ∷ es) =
    let rest = collect_through mark (held + 1) limit es in
    if ltb mark e.id then [] else if held + 1 == limit then e ∷ [] else e ∷ rest

-- The id of the last event, or the given number.
abbrev pub last_id : ℕ → Option Event → ℕ
last_id n none = n
last_id n (some e) = e.id

unfoldable pub page_after : ℕ → ℕ → ℕ → List Event → EventPage
unfolding collect
page_after latest after limit rest =
    let events = collect 0 limit rest in
    let next = last_id after (last? events) in
    record {
      events = events;
      after = after;
      limit = limit;
      next_after = next;
      has_more = ltb next latest;
      before = 0;
      next_before = 0;
      has_more_before = false;
      latest_cursor = latest;
    }

abbrev pub empty_page : ℕ → ℕ → ℕ → EventPage
empty_page latest after limit = record {
  events = [];
  after = after;
  limit = limit;
  next_after = after;
  has_more = false;
  before = 0;
  next_before = 0;
  has_more_before = false;
  latest_cursor = latest;
}

-- EventsPage, with the log that the load of the history leaves.
unfoldable pub events_page : Log → ℕ → ℕ → Log × Answer
unfolding ensure_events normalize_limit first_from page_after
events_page st after limit =
    let latest = st.session.last_event_id in
    let size = normalize_limit limit in
    if ltb latest after
    then (st, cursor_ahead (empty_page latest after size))
    else elim (ensure_events st) [
      | none ↦ (st, no_history)
      | some loaded ↦ (
        loaded,
        page (
            page_after latest after size
              (drop (first_from (after + 1) loaded.events) loaded.events)),
      )
    ]

-- `before` moved into the range from 1 to the head and one more.
unfoldable pub clamp_before : ℕ → ℕ → ℕ
clamp_before latest before =
    let low = if ltb before 1 then 1 else before in if ltb (latest + 1) low then latest + 1 else low

-- The fields that are set on a page with events, by its first event.
abbrev pub with_first : EventPage → List Event → EventPage
with_first p [] = p
with_first p (e ∷ es) = record p { next_before = e.id; has_more_before = ltb 1 e.id }

unfoldable pub page_before : ℕ → ℕ → ℕ → List Event → EventPage
unfolding first_from
page_before latest before limit all =
    let end = first_from before all in
    let events = drop (end - limit) (take end all) in
    let next = last_id (before - 1) (last? events) in
    with_first
      (record {
        events = events;
        after = 0;
        limit = limit;
        next_after = next;
        has_more = ltb next latest;
        before = before;
        next_before = 0;
        has_more_before = false;
        latest_cursor = latest;
      })
      events

unfoldable pub events_page_before : Log → ℕ → ℕ → Log × Answer
unfolding ensure_events normalize_limit clamp_before page_before
events_page_before st before limit =
    let latest = st.session.last_event_id in
    elim (ensure_events st) [
      | none ↦ (st, no_history)
      | some loaded ↦ (
        loaded,
        page
            (page_before latest (clamp_before latest before) (normalize_limit limit) loaded.events),
      )
    ]

-- EventsThrough; `none` is the error of the load.
unfoldable pub events_through : Log → ℕ → ℕ → ℕ → Log × Option (List Event)
unfolding ensure_events normalize_limit first_from collect_through
events_through st after mark limit = elim (ensure_events st) [
  | none ↦ (st, none)
  | some loaded ↦ (
    loaded,
    some (
        collect_through mark 0 (normalize_limit limit)
          (drop (first_from (after + 1) loaded.events) loaded.events)),
  )
]
