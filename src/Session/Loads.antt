-- ===== src/Session/Loads.antt =====
-- What the load of the history leaves of a log (agenthub/internal/session/store.go).
use pua.Prelude.{◌≡◌, refl, ◌⊎◌, inl, inr, true, false, some, List, [], ◌∷◌, arith, Bool-cases}
use pua.Session.Types.{Event}
use pua.Session.Store.{Log, ensure_events}

pub List-cases :
    (es : List Event) → (es ≡ []) ⊎ ((e : Event) × (rest : List Event) × (es ≡ e ∷ rest))
List-cases [] = inl refl
List-cases (e ∷ rest) = inr (e, rest, refl)

load_cases :
    (st : Log) {loaded : Log}
    → st.events_loaded ≡ false
    → ensure_events st ≡ some loaded
    → record st { events = st.disk_events; events_loaded = true } ≡ loaded
unfolding ensure_events
load_cases st l e = elim (List-cases st.disk_events) [
  | inl d ↦ cc (rw (l, d) at e)
  | inr (x, rest, d) ↦ ground (arith, d, l, e)
]

read_loaded : (st : Log) → st.events_loaded ≡ true → ensure_events st ≡ some st
unfolding ensure_events
read_loaded st l = simp l

pub ensure_events-cases :
    (st : Log) {loaded : Log}
    → (st.events_loaded ≡ false) ⊎ (st.events ≡ st.disk_events)
    → ensure_events st ≡ some loaded
    → (st.events ≡ st.disk_events) × (st ≡ loaded)
      ⊎ (record st { events = st.disk_events; events_loaded = true } ≡ loaded)
ensure_events-cases st (inl l) e = inr (load_cases st l e)
ensure_events-cases st (inr same) e = elim (Bool-cases st.events_loaded) [
  | inl l ↦ inl (same, cc (read_loaded st l, e))
  | inr l ↦ inr (load_cases st l e)
]
