-- ===== src/Session/Replay.antt =====
-- The state of a session is the replay of its durable log (agenthub/internal/session/store.go).
use pua.Prelude.{
  ℕ, suc, ◌+◌, ◌≡◌, refl, ap, ◌∙◌, ◌⊎◌, inl, inr, true, false, some, List, [], ◌∷◌, ◌++◌, length,
  length-append, last?, arith, Text,
}
use pua.Session.Types.{Session, Event, Codec, is_delta}
use pua.Session.Project.{ProjectError, Result, ok, err, ◌>>=◌, stamp, apply_event, switch, replay}
use pua.Session.Merge.{Fields}
use pua.Session.Store.{Log, set_last, zero_session}

-- The ids of a log follow one another.
abbrev pub Numbered : ℕ → List Event → Type 0
Numbered n [] = Unit
Numbered n (e ∷ es) = (e.id ≡ suc n) × Numbered (suc n) es

pub Numbered-append :
    (n : ℕ) (es : List Event) (e : Event)
    → Numbered n es
    → e.id ≡ suc (n + length es)
    → Numbered n (es ++ e ∷ [])
Numbered-append n [] e h k = (omega arith, tt)
Numbered-append n (x ∷ es) e h k = (h.0, Numbered-append (suc n) es e h.1 (omega arith))

pub Numbered-last :
    (n : ℕ) (es : List Event) (e : Event)
    → Numbered n (es ++ e ∷ [])
    → Numbered n es × (e.id ≡ suc (n + length es))
Numbered-last n [] e h = (tt, omega arith)
Numbered-last n (x ∷ es) e h =
    let (before, id) = Numbered-last (suc n) es e h.1 in ((h.0, before), omega arith)

-- A list with a last entry is its front and that entry.
pub last?-split :
    (es : List Event) (e : Event)
    → last? es ≡ some e
    → (front : List Event) × (es ≡ front ++ e ∷ [])
last?-split [] e h = cc
last?-split (x ∷ []) e h = ([], ground arith)
last?-split (x ∷ y ∷ es) e h =
    let (front, split) = last?-split (y ∷ es) e h in (x ∷ front, ap (◌∷◌ x) split)

pub set_last-append : (es : List Event) (e f : Event) → set_last (es ++ e ∷ []) f ≡ es ++ f ∷ []
unfolding set_last
set_last-append [] e f = refl
set_last-append (x ∷ []) e f = refl
set_last-append (x ∷ y ∷ es) e f = ap (◌∷◌ x) (set_last-append (y ∷ es) e f)

-- A delta event only stamps the session, and a later version of it hides the earlier one.
pub stamp_again :
    (s : Session) (e f : Event)
    → f.kind ≡ e.kind
    → f.turn_id ≡ e.turn_id
    → stamp f (stamp e s) ≡ stamp f s
unfolding stamp
stamp_again s e f k t = ground arith

pub Result-cases :
    (r : Result Session) → ((t : Session) × (r ≡ ok t)) ⊎ ((x : ProjectError) × (r ≡ err x))
Result-cases (ok t) = inl (t, refl)
Result-cases (err x) = inr (x, refl)

-- The session is the replay of the durable events, the events in memory are those where they are
-- loaded, and the ids run from 1 to the cursor.
pub record IsReplayed (codec : Codec) (st : Log) : Type 0 where
  pub replayed : replay codec zero_session st.disk_events ≡ ok st.session
  pub loaded : (st.events_loaded ≡ false) ⊎ (st.events ≡ st.disk_events)
  pub numbered : Numbered 0 st.disk_events
  pub cursor : st.session.last_event_id ≡ length st.disk_events

-- json.Marshal succeeds on a map of JSON values.
abbrev pub Encodes : Codec → Type 0
Encodes codec = (fields : Fields) → (t : Text) × (codec.encode_object fields ≡ some t)

module _ (codec : Codec) where
  pub replay-append :
      (s : Session) (es : List Event) (e : Event)
      → replay codec s (es ++ e ∷ []) ≡ (replay codec s es >>= λ t. apply_event codec t e)
  unfolding replay
  replay-append s [] e =
      elim (apply_event codec s e) as (λ r. elim r [ ok t ↦ ok t | err x ↦ err x ] ≡ r) [
        | ok t ↦ refl
        | err x ↦ refl
      ]
  replay-append s (x ∷ es) e = elim (Result-cases (apply_event codec s x)) [
    | inl (t, h) ↦ rw (h, replay) (replay-append t es e)
    | inr (y, h) ↦ rw (h, replay)
  ]

  pub apply_delta :
      (s : Session) (e : Event) → is_delta e.kind ≡ true → apply_event codec s e ≡ ok (stamp e s)
  unfolding apply_event
  apply_delta s e h = ground arith

  pub apply_event-cursor :
      (s : Session) (e : Event) {t : Session}
      → apply_event codec s e ≡ ok t
      → t.last_event_id ≡ e.id
  unfolding apply_event stamp
  apply_event-cursor s e {t} h = elim (Result-cases (switch codec e.kind e s)) [
    | inl (u, k) ↦ ground (arith, rw k at h)
    | inr (x, k) ↦ ground (arith, rw k at h)
  ]

  -- What both ways of appending an event leave behind.
  pub appended-IsReplayed :
      (front : List Event) (e : Event) (s t : Session)
      → replay codec zero_session front ≡ ok s
      → apply_event codec s e ≡ ok t
      → Numbered 0 front
      → e.id ≡ suc (length front)
      → (after : Log) → after.session ≡ t
      → after.disk_events ≡ front ++ e ∷ []
      → (after.events_loaded ≡ false) ⊎ (after.events ≡ front ++ e ∷ [])
      → IsReplayed codec after
  appended-IsReplayed front e s t r a n i after es ed el = record {
    replayed = rw (ed, es) (replay-append zero_session front e ∙ rw r a);
    loaded = rw ed el;
    numbered = rw ed (Numbered-append 0 front e n (omega arith));
    cursor = rw (es, ed) (omega (arith, apply_event-cursor s e a, length-append front (e ∷ [])));
  }
