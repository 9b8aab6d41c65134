-- ===== src/Session/Appends.antt =====
-- Appending and archiving keep a session the replay of its log
-- (agenthub/internal/session/store.go).
use pua.Prelude.{
  ℕ, suc, ◌≡◌, refl, sym, ap, ◌∙◌, subst, ◌⊎◌, inl, inr, true, false, some, List, [], ◌∷◌, ◌++◌,
  length, last?, arith, Text, Bool-cases, Option-cases,
}
use pua.Session.Types.{EventType, is_archived_state, Session, Event, Codec, is_delta}
use pua.Session.Project.{ok, stamp, apply_event, replay}
use pua.Session.Merge.{Fields, mergeable, mergeable_with}
use pua.Session.Store.{
  Log, Disk, Write, written, stopped_with, append_line, rewrite_line, set_last, zero_session,
  write_snapshot, append_plain, append_merged, commit_merge, merged_event, append_locked,
  ensure_events, append_event, new_event,
}
use pua.Session.Loads.{ensure_events-cases}
use pua.Session.Replay.{
  IsReplayed, Numbered, Encodes, appended-IsReplayed, Numbered-last, last?-split, set_last-append,
  replay-append, apply_delta, stamp_again, Result-cases,
}

-- A write that fails leaves the log as it was.
abbrev pub Leaves : List Event → Write → Type 0
Leaves es written = Unit
Leaves es (stopped_with fs) = fs ≡ es

abbrev pub IsClean : Disk → Log → Type 0
IsClean disk st = Leaves st.disk_events disk.append_end × Leaves st.disk_events disk.rewrite_end

module _ (codec : Codec) where
  write_snapshot-IsReplayed :
      (disk : Disk) (st : Log) (a b : Event)
      → IsReplayed codec st
      → IsReplayed codec (write_snapshot disk st a b).0
  unfolding write_snapshot
  write_snapshot-IsReplayed disk st a b h = elim (Bool-cases disk.snapshot_ok) [
    | inl e ↦ rw e (record {
      replayed = h.replayed;
      loaded = h.loaded;
      numbered = h.numbered;
      cursor = h.cursor;
    })
    | inr e ↦ rw e h
  ]

  append_line-IsReplayed :
      (w : Write) (disk : Disk) (st : Log) (e : Event) (t : Session)
      → Leaves st.disk_events w
      → IsReplayed codec st
      → e.id ≡ suc st.session.last_event_id
      → apply_event codec st.session e ≡ ok t
      → IsReplayed codec (append_line w disk st e t).0
  append_line-IsReplayed written disk st e t c h i k = write_snapshot-IsReplayed disk _ e e (
      appended-IsReplayed codec st.disk_events e st.session t h.replayed k h.numbered
        (omega (arith, h.cursor)) _ refl refl (loaded_append h.loaded))
    where
      loaded_append :
          (st.events_loaded ≡ false) ⊎ (st.events ≡ st.disk_events)
          → (st.events_loaded ≡ false) ⊎ (st.events ++ e ∷ [] ≡ st.disk_events ++ e ∷ [])
      loaded_append (inl u) = inl u
      loaded_append (inr u) = inr (ap (λ (es : List Event). es ++ e ∷ []) u)
  append_line-IsReplayed (stopped_with es) disk st e t c h i k =
      subst (λ fs. IsReplayed codec (record st { disk_events = fs })) (sym c) h

  pub append_plain-IsReplayed :
      (disk : Disk) (st : Log) (e : Event)
      → Leaves st.disk_events disk.append_end
      → IsReplayed codec st
      → e.id ≡ suc st.session.last_event_id
      → IsReplayed codec (append_plain codec disk st e).0
  unfolding append_plain
  append_plain-IsReplayed disk st e c h i = elim (Bool-cases disk.encode_ok) [
    | inr b ↦ rw (b, append_plain) h
    | inl b ↦ elim (Result-cases (apply_event codec st.session e)) [
      | inr (x, k) ↦ rw (b, k, append_plain) h
      | inl (t, k) ↦
          rw (b, k, append_plain) (append_line-IsReplayed disk.append_end disk st e t c h i k)
    ]
  ]

  -- What a session and its log are where the last event is known.
  record Tail (st : Log) (last : Event) : Type 0 where
    front : List Event
    before : Session
    split : st.disk_events ≡ front ++ last ∷ []
    split_events : st.events ≡ front ++ last ∷ []
    replayed : replay codec zero_session front ≡ ok before
    applied : apply_event codec before last ≡ ok st.session
    numbered : Numbered 0 front
    id : last.id ≡ suc (length front)

  replayed_before :
      (front : List Event) (last : Event) (s : Session)
      → replay codec zero_session (front ++ last ∷ []) ≡ ok s
      → (t : Session) × (replay codec zero_session front ≡ ok t) × (apply_event codec t last ≡ ok s)
  replayed_before front last s h = elim (Result-cases (replay codec zero_session front)) [
    | inl (t, k) ↦ (t, k, rw k at (sym (replay-append codec zero_session front last) ∙ h))
    | inr (x, k) ↦ cc (rw k at (sym (replay-append codec zero_session front last) ∙ h))
  ]

  last?-Tail :
      (st : Log) (last : Event)
      → IsReplayed codec st
      → st.events ≡ st.disk_events
      → last? st.events ≡ some last
      → Tail st last
  last?-Tail st last h same e =
      let (front, split) = last?-split st.events last e in
      let disk = sym same ∙ split in
      let (t, r, a) =
        replayed_before front last st.session
          (ap (replay codec zero_session) (sym disk) ∙ h.replayed) in
      let (n, i) = Numbered-last 0 front last (subst (Numbered 0) disk h.numbered) in
      record {
        front = front;
        before = t;
        split = disk;
        split_events = split;
        replayed = r;
        applied = a;
        numbered = n;
        id = omega (arith, i);
      }

  -- A merged event is folded into the tail of the log.
  commit_merge-IsReplayed :
      (disk : Disk) (st : Log) (last merged : Event) (patch : Text)
      → Tail st last
      → is_delta last.kind ≡ true
      → merged.kind ≡ last.kind
      → merged.turn_id ≡ last.turn_id
      → merged.id ≡ last.id
      → IsReplayed codec (commit_merge codec disk st merged (some patch)).0
  unfolding commit_merge
  commit_merge-IsReplayed disk st last merged patch tail d k t i =
      let delta : is_delta merged.kind ≡ true = ap is_delta k ∙ d in
      let session : ok (stamp last tail.before) ≡ ok st.session =
        sym (apply_delta codec tail.before last d) ∙ tail.applied in
      let hidden : stamp merged st.session ≡ stamp merged tail.before =
        ap (stamp merged) (ground (arith, session)) ∙ stamp_again tail.before last merged k t in
      rw (apply_delta codec st.session merged delta, commit_merge)
        (write_snapshot-IsReplayed disk _ merged (record merged { payload = patch })
          (appended-IsReplayed codec tail.front merged tail.before (stamp merged st.session)
            tail.replayed (apply_delta codec tail.before merged delta ∙ ap ok (sym hidden))
            tail.numbered (i ∙ tail.id) _ refl
            (ap (λ es. set_last es merged) tail.split ∙ set_last-append tail.front last merged)
            (inr (
              ap (λ es. set_last es merged) tail.split_events
              ∙ set_last-append tail.front last merged))))

  mergeable_with-delta :
      (last e : Event) {m : Fields × Fields}
      → mergeable_with codec last e ≡ some m
      → is_delta last.kind ≡ true
  unfolding mergeable_with
  mergeable_with-delta last e h = ground arith

  mergeable-last :
      (events : List Event) (e last : Event) (merged patch : Fields)
      → mergeable codec events e ≡ some (last, merged, patch)
      → (last? events ≡ some last) × (is_delta last.kind ≡ true)
  unfolding mergeable
  mergeable-last events e last merged patch h =
      ground (arith, mergeable_with-delta last e {m = (merged, patch)})

  rewrite_line-IsReplayed :
      (w : Write) (disk : Disk) (st : Log) (e last merged : Event) (patch : Text)
      → Leaves st.disk_events w
      → Leaves st.disk_events disk.append_end
      → IsReplayed codec st
      → Tail st last
      → is_delta last.kind ≡ true
      → merged.kind ≡ last.kind
      → merged.turn_id ≡ last.turn_id
      → merged.id ≡ last.id
      → e.id ≡ suc st.session.last_event_id
      → IsReplayed codec (rewrite_line codec w disk st e merged (some patch)).0
  rewrite_line-IsReplayed written disk st e last merged patch c a h tail d k t m i =
      commit_merge-IsReplayed disk st last merged patch tail d k t m
  rewrite_line-IsReplayed (stopped_with es) disk st e last merged patch c a h tail d k t m i =
      subst (λ fs. IsReplayed codec (append_plain codec disk (record st { disk_events = fs }) e).0)
        (sym c) (append_plain-IsReplayed disk st e a h i)

  append_merged-IsReplayed :
      (disk : Disk) (st : Log) (e last : Event) (merged patch : Fields)
      → Encodes codec
      → IsClean disk st
      → IsReplayed codec st
      → Tail st last
      → is_delta last.kind ≡ true
      → e.id ≡ suc st.session.last_event_id
      → IsReplayed codec (append_merged codec disk st e (last, merged, patch)).0
  unfolding append_merged merged_event
  append_merged-IsReplayed disk st e last merged patch encodes (a, c) h tail d i =
      let (payload, pe) = encodes merged in
      let (text, te) = encodes patch in
      rw (pe, append_merged, te)
        (rewrite_line-IsReplayed disk.rewrite_end disk st e last (merged_event last e payload) text
          c a h tail d refl refl refl i)

  append_locked-IsReplayed :
      (disk : Disk) (st : Log) (e : Event)
      → Encodes codec
      → IsClean disk st
      → IsReplayed codec st
      → st.events ≡ st.disk_events
      → e.id ≡ suc st.session.last_event_id
      → IsReplayed codec (append_locked codec disk st e).0
  unfolding append_locked
  append_locked-IsReplayed disk st e encodes c h same i =
      elim (Option-cases (mergeable codec st.events e)) [
        | inl m ↦ rw (m, append_locked) (append_plain-IsReplayed disk st e c.0 h i)
        | inr ((last, merged, patch), m) ↦
            let (t, d) = mergeable-last st.events e last merged patch m in
            rw (m, append_locked)
              (append_merged-IsReplayed disk st e last merged patch encodes c h
                (last?-Tail st last h same t) d i)
      ]

  -- Loading the history fills in the events that the log holds.
  pub ensure_events-IsReplayed :
      (st : Log) {loaded : Log}
      → IsReplayed codec st
      → ensure_events st ≡ some loaded
      → IsReplayed codec loaded
        × (loaded.events ≡ loaded.disk_events)
        × (loaded.disk_events ≡ st.disk_events)
  ensure_events-IsReplayed st {loaded} h e = elim (ensure_events-cases st (h.loaded) e) [
    | inl (same, eq) ↦
        subst
          (λ (x : Log).
            IsReplayed codec x × (x.events ≡ x.disk_events) × (x.disk_events ≡ st.disk_events))
          eq (h, same, refl)
    | inr eq ↦
        subst
          (λ (x : Log).
            IsReplayed codec x × (x.events ≡ x.disk_events) × (x.disk_events ≡ st.disk_events))
          eq
          (
            record {
              replayed = h.replayed;
              loaded = inr refl;
              numbered = h.numbered;
              cursor = h.cursor;
            },
            refl,
            refl,
          )
  ]

  -- Where the fields of a JSON object can be encoded, a write to the log that fails leaves the log as
  -- it was, and the session is the replay of its log, with the ids running from 1 to the cursor, the
  -- same holds after Append: the session is still the replay of the durable log, the ids still run
  -- from 1 to the cursor and the events in memory, where they are loaded, are those of the log,
  -- whatever the event, whichever of the writes fail in that way, and also where a streaming delta is
  -- folded into the last event.
  pub append_event-IsReplayed :
      (disk : Disk) (st : Log) (kind : EventType) (turn_id payload : Text) (now : ℕ)
      → Encodes codec
      → IsClean disk st
      → IsReplayed codec st
      → IsReplayed codec (append_event codec disk st kind turn_id payload now).0
  unfolding append_event new_event
  append_event-IsReplayed disk st kind turn_id payload now encodes c h =
      elim (Bool-cases (is_archived_state st.session.state)) [
        | inl a ↦ rw a h
        | inr a ↦ elim (Option-cases (ensure_events st)) [
          | inl n ↦ rw (a, n, append_event) h
          | inr (loaded, l) ↦
              let (hl, same, kept) = ensure_events-IsReplayed st h l in
              let clean : IsClean disk loaded =
                subst (λ es. Leaves es disk.append_end × Leaves es disk.rewrite_end) (sym kept) c in
              rw (a, l, append_event)
                (append_locked-IsReplayed disk loaded _ encodes clean hl same (omega arith))
        ]
      ]
