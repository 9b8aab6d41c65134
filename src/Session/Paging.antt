-- ===== src/Session/Paging.antt =====
-- Paging through the durable log with EventsPage, EventsPageBefore and EventsThrough
-- (agenthub/internal/session/store.go).
use pua.Prelude.{
  ℕ, zero, suc, ◌+◌, ◌≤◌, ◌<◌, ◌≡◌, refl, sym, ap, ◌∙◌, subst, ◌⊎◌, inl, inr, true, false, none,
  some, List, [], ◌∷◌, ◌++◌, length, last?, take, drop, arith, Bool-cases, Option-cases, ltb,
}
use pua.Session.Types.{Event, Codec}
use pua.Session.Store.{Log, ensure_events}
use pua.Session.Replay.{IsReplayed, Numbered}
use pua.Session.Loads.{List-cases, ensure_events-cases}
use pua.Session.Pages.{
  EventPage, Answer, page, cursor_ahead, no_history, normalize_limit, first_from, collect,
  page_after, events_page, last_id,
}

pub first_from-Numbered :
    (n k : ℕ) (es : List Event) → Numbered n es → k ≤ length es → first_from (suc (n + k)) es ≡ k
unfolding first_from
first_from-Numbered n zero [] h le = refl
first_from-Numbered n (suc k) [] h le = omega (arith, le)
first_from-Numbered n zero (e ∷ es) h le = ground (arith, h.0)
first_from-Numbered n (suc k) (e ∷ es) h le =
    ground (arith, h.0, first_from-Numbered (suc n) k es h.1 (omega (arith, le)))

collect-take : (held m : ℕ) (es : List Event) → collect held (held + suc m) es ≡ take (suc m) es
unfolding collect
collect-take held m [] = refl
collect-take held zero (e ∷ es) = ground arith
collect-take held (suc m) (e ∷ es) = ground (arith, collect-take (suc held) m es)

pub normalize_limit-positive : (limit : ℕ) → (m : ℕ) × (normalize_limit limit ≡ suc m) × (m < 1000)
unfolding normalize_limit
normalize_limit-positive zero = (499, refl, omega arith)
normalize_limit-positive (suc n) = elim (Bool-cases (ltb 1000 (suc n))) [
  | inl e ↦ (999, ground arith, omega arith)
  | inr e ↦ (n, ground arith, ground arith)
]

take-drop : (m : ℕ) (es : List Event) → take m es ++ drop (length (take m es)) es ≡ es
take-drop zero es = refl
take-drop (suc m) [] = refl
take-drop (suc m) (e ∷ es) = ap (◌∷◌ e) (take-drop m es)

drop_empty : (j : ℕ) → drop {A = Event} j [] ≡ []
drop_empty zero = refl
drop_empty (suc j) = refl

drop-drop : (k j : ℕ) (es : List Event) → drop (k + j) es ≡ drop j (drop k es)
drop-drop zero j es = ap (λ i. drop i es) (omega arith)
drop-drop (suc k) j [] = drop_empty (suc k + j) ∙ sym (drop_empty j)
drop-drop (suc k) j (e ∷ es) =
    let eq : suc k + j ≡ suc (k + j) = omega arith in
    ap (λ i. drop i (e ∷ es)) eq ∙ drop-drop k j es

length-drop : (k : ℕ) (es : List Event) → k ≤ length es → k + length (drop k es) ≡ length es
length-drop zero es le = omega arith
length-drop (suc k) [] le = omega (arith, le)
length-drop (suc k) (e ∷ es) le = omega (arith, length-drop k es (omega (arith, le)))

length-take :
    (m : ℕ) (es : List Event) → (length (take m es) ≤ m) × (length (take m es) ≤ length es)
length-take zero es = (omega arith, omega arith)
length-take (suc m) [] = (omega arith, omega arith)
length-take (suc m) (e ∷ es) = let (a, b) = length-take m es in (omega (arith, a), omega (arith, b))

-- A page that is not empty where events remain.
length-take-positive : (m : ℕ) (es : List Event) → (length (take (suc m) es) ≡ 0) → length es ≡ 0
length-take-positive m [] h = refl
length-take-positive m (e ∷ es) h = omega (arith, h)

pub Numbered-drop : (n k : ℕ) (es : List Event) → Numbered n es → Numbered (n + k) (drop k es)
Numbered-drop n zero es h = subst (λ i. Numbered i es) (omega arith) h
Numbered-drop n (suc k) [] h = tt
Numbered-drop n (suc k) (e ∷ es) h =
    subst (λ i. Numbered i (drop k es)) (omega arith) (Numbered-drop (suc n) k es h.1)

pub Numbered-take : (n k : ℕ) (es : List Event) → Numbered n es → Numbered n (take k es)
Numbered-take n zero es h = tt
Numbered-take n (suc k) [] h = tt
Numbered-take n (suc k) (e ∷ es) h = (h.0, Numbered-take (suc n) k es h.1)

last_id-Numbered : (n : ℕ) (es : List Event) → Numbered n es → last_id n (last? es) ≡ n + length es
last_id-Numbered n [] h = omega arith
last_id-Numbered n (e ∷ []) h = omega (arith, h.0)
last_id-Numbered n (e ∷ f ∷ es) h =
    last_id_suc e f es ∙ last_id-Numbered (suc n) (f ∷ es) h.1 ∙ omega arith
  where
    last_id_suc :
        (e f : Event) (es : List Event)
        → last_id n (last? (e ∷ f ∷ es)) ≡ last_id (suc n) (last? (f ∷ es))
    last_id_suc e f [] = refl
    last_id_suc e f (g ∷ es) = last_id_suc f g es

-- A page holds the events after its cursor, at most a thousand, and the events after `next_after` are
-- those that remain; either there are more of them and the cursor has moved, or it is at the head.
abbrev pub Follows : ℕ → List Event → EventPage → Type 0
Follows after log p =
    (p.events ++ drop p.next_after log ≡ drop after log)
    × (length p.events ≤ 1000)
    × ((p.has_more ≡ true) × (after < p.next_after) × (p.next_after < length log)
        ⊎ (p.has_more ≡ false) × (p.next_after ≡ length log))

page_after-Follows :
    (log : List Event) (after m : ℕ)
    → Numbered 0 log
    → after ≤ length log
    → m < 1000
    → Follows after log (page_after (length log) after (suc m) (drop after log))
unfolding page_after
page_after-Follows log after m h le small =
    let rest = drop after log in
    let events : collect 0 (suc m) rest ≡ take (suc m) rest =
      ap (λ i. collect 0 i rest) (omega arith) ∙ collect-take 0 m rest in
    let next : last_id after (last? (take (suc m) rest)) ≡ after + length (take (suc m) rest) =
      last_id-Numbered after _ (
        Numbered-take after (suc m) rest
          (subst (λ i. Numbered i (drop after log)) (omega arith) (Numbered-drop 0 after log h))) in
    let (short, within) = length-take (suc m) rest in
    let total = length-drop after log le in
    rw (events, next)
      (
        ap (take (suc m) rest ++◌) (drop-drop after (length (take (suc m) rest)) log)
            ∙ take-drop (suc m) rest,
        omega (arith, short, small),
        elim (Bool-cases (ltb (after + length (take (suc m) rest)) (length log))) [
          | inl e ↦ inl (e, ground (arith, total, length-take-positive m rest), ground (arith, e))
          | inr e ↦ inr (e, ground (arith, e, within, total))
        ],
      )

-- What EventsPage answers with.
abbrev pub AnswersAfter : ℕ → List Event → Answer → Type 0
AnswersAfter after log (page p) = Follows after log p
AnswersAfter after log (cursor_ahead p) = (length log < after) × (p.events ≡ [])
AnswersAfter after log no_history = log ≡ []

pub loaded_events :
    (codec : Codec) (st : Log) {loaded : Log}
    → IsReplayed codec st
    → ensure_events st ≡ some loaded
    → loaded.events ≡ st.disk_events
loaded_events codec st h e = elim (ensure_events-cases st h.loaded e) [
  | inl (same, eq) ↦ ap (λ x. x.events) (sym eq) ∙ same
  | inr eq ↦ ap (λ x. x.events) (sym eq)
]

pub unloaded : (st : Log) → ensure_events st ≡ none → st.disk_events ≡ []
unfolding ensure_events
unloaded st h = elim (List-cases st.disk_events) [
  | inl d ↦ d
  | inr (x, rest, d) ↦ ground (arith, d, h)
]

-- EventsPage where the session is the replay of its log: a cursor past the head is refused, and only
-- that. Else the page holds at most a thousand events, and these followed by the events after its
-- next cursor are the events after the cursor given, so that none is skipped or repeated; either more
-- events remain and the next cursor is a later one, or it is at the head. Only an empty log has no
-- history to page.
pub events_page-AnswersAfter :
    (codec : Codec) (st : Log) (after limit : ℕ)
    → IsReplayed codec st
    → AnswersAfter after st.disk_events (events_page st after limit).1
unfolding events_page
events_page-AnswersAfter codec st after limit h =
    elim (Bool-cases (ltb st.session.last_event_id after)) [
      | inl a ↦ rw a (ground (arith, a, h.cursor), refl)
      | inr a ↦ elim (Option-cases (ensure_events st)) [
        | inl n ↦ rw (a, n) (unloaded st n)
        | inr (loaded, l) ↦
            let (m, size, small) = normalize_limit-positive limit in
            let le : after ≤ length st.disk_events = ground (arith, a, h.cursor) in
            rw (a, l, size, loaded_events codec st h l, h.cursor, first_index after le)
              (page_after-Follows st.disk_events after m h.numbered le small)
      ]
    ]
  where
    first_index : (k : ℕ) → k ≤ length st.disk_events → first_from (k + 1) st.disk_events ≡ k
    first_index k le =
        ap (λ i. first_from i st.disk_events) (omega arith)
        ∙ first_from-Numbered 0 k st.disk_events h.numbered le
