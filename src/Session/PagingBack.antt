-- ===== src/Session/PagingBack.antt =====
-- Paging backwards through the durable log with EventsPageBefore
-- (agenthub/internal/session/store.go).
use pua.Prelude.{
  ℕ, zero, suc, ◌-◌, ◌≤◌, ◌≡◌, refl, sym, ap, ◌∙◌, ◌⊎◌, inl, inr, List, [], ◌∷◌, ◌++◌, length, take,
  drop, arith, Option-cases, ltb,
}
use pua.Session.Types.{Event, Codec}
use pua.Session.Store.{Log, ensure_events}
use pua.Session.Replay.{IsReplayed, Numbered}
use pua.Session.Loads.{List-cases}
use pua.Session.Pages.{
  EventPage, Answer, page, cursor_ahead, no_history, first_from, page_before, events_page_before,
  clamp_before,
}
use pua.Session.Paging.{
  first_from-Numbered, normalize_limit-positive, Numbered-drop, Numbered-take, loaded_events,
  unloaded,
}

take-take : (j k : ℕ) (es : List Event) → j ≤ k → take j (take k es) ≡ take j es
take-take zero k es le = refl
take-take (suc j) zero es le = ground arith
take-take (suc j) (suc k) [] le = refl
take-take (suc j) (suc k) (e ∷ es) le = ap (◌∷◌ e) (take-take j k es (omega (arith, le)))

split_at : (j : ℕ) (es : List Event) → take j es ++ drop j es ≡ es
split_at zero es = refl
split_at (suc j) [] = refl
split_at (suc j) (e ∷ es) = ap (◌∷◌ e) (split_at j es)

length_of_take : (j : ℕ) (es : List Event) → j ≤ length es → length (take j es) ≡ j
length_of_take zero es le = refl
length_of_take (suc j) [] le = omega (arith, le)
length_of_take (suc j) (e ∷ es) le = omega (arith, length_of_take j es (omega (arith, le)))

drop_to_empty : (j : ℕ) (es : List Event) → drop j es ≡ [] → length es ≤ j
drop_to_empty zero es h = ground (arith, ap length h)
drop_to_empty (suc j) [] h = omega arith
drop_to_empty (suc j) (e ∷ es) h = omega (arith, drop_to_empty j es h)

-- A page before a cursor that is at most one past the head: it is empty only before the first event;
-- else the events before its `next_before`, and then those of the page, are those before the cursor.
abbrev pub Precedes : List Event → EventPage → Type 0
Precedes log p =
    (p.events ≡ []) × (p.before ≡ 1)
    ⊎ ((s : ℕ) × (p.next_before ≡ suc s)
        × (take s log ++ p.events ≡ take (p.before - 1) log)
        × (p.has_more_before ≡ ltb 0 s))

page_before-Precedes :
    (latest : ℕ) (log : List Event) (end m : ℕ)
    → Numbered 0 log
    → end ≤ length log
    → Precedes log (page_before latest (suc end) (suc m) log)
unfolding page_before
page_before-Precedes latest log end m h le =
    let start = end - suc m in
    let before = take end log in
    let index : first_from (suc end) log ≡ end =
      ap (λ i. first_from i log) (omega arith) ∙ first_from-Numbered 0 end log h le in
    let joined : take start log ++ drop start before ≡ before =
      ap (λ xs. xs ++ drop start before) (sym (take-take start end log (omega arith)))
      ∙ split_at start before in
    let numbers = Numbered-drop 0 start before (Numbered-take 0 end log h) in
    elim (List-cases (drop start before)) [
      | inl e ↦
          rw (index, e)
            (inl (refl, ground (arith, drop_to_empty start before e, length_of_take end log le)))
      | inr (e, rest, d) ↦
          let id : e.id ≡ suc start = ground (arith, (rw d at numbers).0) in
          let page : take start log ++ e ∷ rest ≡ take end log =
            ap (take start log ++◌) (sym d) ∙ joined in
          let back : suc end - 1 ≡ end = omega arith in
          rw (index, d, back) (inr (start, id, page, ground (arith, id)))
    ]

clamp_before-Range :
    (latest before : ℕ) → (end : ℕ) × (clamp_before latest before ≡ suc end) × (end ≤ latest)
unfolding clamp_before
clamp_before-Range latest before = (clamp_before latest before - 1, ground arith, ground arith)

-- What EventsPageBefore answers with; the cursor is never refused.
abbrev pub AnswersBefore : List Event → Answer → Type 0
AnswersBefore log (page p) = Precedes log p
AnswersBefore log (cursor_ahead p) = ⊥
AnswersBefore log no_history = log ≡ []

-- EventsPageBefore where the session is the replay of its log: no cursor is refused, and the page is
-- empty only before the first event. Else the events before its next cursor, followed by those of the
-- page, are the events before the cursor, which is moved to at most one past the head; more are
-- announced exactly where some come before the page.
pub events_page_before-AnswersBefore :
    (codec : Codec) (st : Log) (before limit : ℕ)
    → IsReplayed codec st
    → AnswersBefore st.disk_events (events_page_before st before limit).1
unfolding events_page_before
events_page_before-AnswersBefore codec st before limit h = elim (Option-cases (ensure_events st)) [
  | inl n ↦ rw (n, events_page_before) (unloaded st n)
  | inr (loaded, l) ↦
      let (m, size, small) = normalize_limit-positive limit in
      let (end, clamped, le) = clamp_before-Range st.session.last_event_id before in
      rw (l, events_page_before, size, clamped, loaded_events codec st h l)
        (page_before-Precedes st.session.last_event_id st.disk_events end m h.numbered
          (omega (arith, le, h.cursor)))
]
