-- ===== src/Session/Durable.antt =====
-- What Append has stored where it succeeds (agenthub/internal/session/store.go).
use pua.Prelude.{
  ℕ, ◌≡◌, refl, sym, ap, ◌∙◌, subst, inl, inr, true, false, some, List, [], ◌∷◌, ◌++◌, last?, arith,
  Text, text_eq_iff, Option-cases,
}
use pua.Session.Types.{EventType, is_archived_state, Session, Event, Codec, is_delta}
use pua.Session.Project.{ok, stamp, apply_event}
use pua.Session.Merge.{Fields, mergeable, mergeable_with, same_delta}
use pua.Session.Store.{
  Log, Disk, Write, written, stopped_with, rewrite_line, Outcome, appended, failed, write_snapshot,
  append_plain, append_merged, commit_merge, merged_event, append_locked, ensure_events,
  append_event, new_event,
}
use pua.Session.Replay.{
  IsReplayed, Encodes, last?-split, set_last-append, apply_delta, apply_event-cursor,
}
use pua.Session.Appends.{ensure_events-IsReplayed}

-- The event is the last of the log, the cursor and the snapshot are up to date, and the event is of
-- the type and the turn given.
abbrev pub IsStored : EventType → Text → Log × Outcome → Type 0
IsStored kind turn_id (st, failed x) = ⊥
IsStored kind turn_id (st, appended stored frame) =
    (last? st.disk_events ≡ some stored)
    × (st.session.last_event_id ≡ stored.id)
    × (st.snapshot ≡ st.session)
    × (stored.kind ≡ kind)
    × (stored.turn_id ≡ turn_id)
    × (frame.id ≡ stored.id)

-- The encoding of the event, the append of a line and the write of the snapshot succeed.
abbrev pub Works : Disk → Type 0
Works disk = (disk.encode_ok ≡ true) × (disk.append_end ≡ written) × (disk.snapshot_ok ≡ true)

last?-append : (es : List Event) (e : Event) → last? (es ++ e ∷ []) ≡ some e
last?-append [] e = refl
last?-append (x ∷ []) e = refl
last?-append (x ∷ y ∷ es) e = last?-append (y ∷ es) e

same_delta-kind : (a b : EventType) → same_delta a b ≡ true → (a ≡ b) × (is_delta a ≡ true)
same_delta-kind a b h = ground (arith, h)

module _ (codec : Codec) where
  append_plain-IsStored :
      (disk : Disk) (st : Log) (e : Event) {t : Session}
      → Works disk
      → apply_event codec st.session e ≡ ok t
      → IsStored e.kind e.turn_id (append_plain codec disk st e)
  unfolding append_plain write_snapshot
  append_plain-IsStored disk st e (c, a, s) k =
      rw (c, k, append_plain, a, s)
        (
          last?-append st.disk_events e,
          apply_event-cursor codec st.session e k,
          refl,
          refl,
          refl,
          refl,
        )

  commit_merge-IsStored :
      (disk : Disk) (st : Log) (last merged : Event) (patch : Text)
      → disk.snapshot_ok ≡ true
      → last? st.disk_events ≡ some last
      → is_delta merged.kind ≡ true
      → IsStored merged.kind merged.turn_id (commit_merge codec disk st merged (some patch))
  unfolding commit_merge write_snapshot stamp
  commit_merge-IsStored disk st last merged patch s l d =
      let (front, split) = last?-split st.disk_events last l in
      rw
        (
          apply_delta codec st.session merged d,
          commit_merge,
          s,
          split,
          set_last-append front last merged,
        )
        (last?-append front merged, refl, refl, refl, refl, refl)

  mergeable_with-same :
      (last e : Event) {m : Fields × Fields}
      → mergeable_with codec last e ≡ some m
      → (last.kind ≡ e.kind) × (is_delta last.kind ≡ true) × (last.turn_id ≡ e.turn_id)
  unfolding mergeable_with
  mergeable_with-same last e h =
      ground (arith, h, same_delta-kind last.kind e.kind, text_eq_iff last.turn_id e.turn_id)

  mergeable-last? :
      (events : List Event) (e last : Event) (merged patch : Fields)
      → mergeable codec events e ≡ some (last, merged, patch)
      → (last? events ≡ some last) × (mergeable_with codec last e ≡ some (merged, patch))
  unfolding mergeable
  mergeable-last? events e last merged patch h = elim (Option-cases (last? events)) [
    | inl n ↦ cc (rw (n, mergeable) at h)
    | inr (x, l) ↦ elim (Option-cases (mergeable_with codec x e)) [
      | inl n ↦ cc (rw (l, mergeable, n) at h)
      | inr (f, w) ↦
          let found : some (x, f.0, f.1) ≡ some (last, merged, patch) = rw (l, mergeable, w) at h in
          let pair : (x, f.0, f.1) ≡ (last, merged, patch) = cc found in
          let event : x ≡ last = ap (λ (z : Event × Fields × Fields). z.0) pair in
          let fields : f ≡ (merged, patch) =
            ap (λ (z : Event × Fields × Fields). (z.1, z.2)) pair in
          (l ∙ ap some event, ap (λ y. mergeable_with codec y e) (sym event) ∙ w ∙ ap some fields)
    ]
  ]

  rewrite_line-IsStored :
      (w : Write) (disk : Disk) (st : Log) (e last merged : Event) (patch : Text) {t : Session}
      → Works disk
      → apply_event codec st.session e ≡ ok t
      → last? st.disk_events ≡ some last
      → is_delta merged.kind ≡ true
      → merged.kind ≡ e.kind
      → merged.turn_id ≡ e.turn_id
      → IsStored e.kind e.turn_id (rewrite_line codec w disk st e merged (some patch))
  rewrite_line-IsStored written disk st e last merged patch works k l d m u =
      subst (λ k. IsStored k e.turn_id (commit_merge codec disk st merged (some patch))) m
        (subst (λ u. IsStored merged.kind u (commit_merge codec disk st merged (some patch))) u
          (commit_merge-IsStored disk st last merged patch works.2 l d))
  rewrite_line-IsStored (stopped_with es) disk st e last merged patch works k l d m u =
      append_plain-IsStored disk (record st { disk_events = es }) e works k

  append_merged-IsStored :
      (disk : Disk) (st : Log) (e last : Event) (merged patch : Fields) {t : Session}
      → Encodes codec
      → Works disk
      → apply_event codec st.session e ≡ ok t
      → last? st.disk_events ≡ some last
      → (last.kind ≡ e.kind) × (is_delta last.kind ≡ true) × (last.turn_id ≡ e.turn_id)
      → IsStored e.kind e.turn_id (append_merged codec disk st e (last, merged, patch))
  unfolding append_merged merged_event
  append_merged-IsStored disk st e last merged patch encodes works k l (kind, d, turn) =
      let (payload, pe) = encodes merged in
      let (text, te) = encodes patch in
      rw (pe, append_merged, te)
        (rewrite_line-IsStored disk.rewrite_end disk st e last (merged_event last e payload) text
          works k l d kind turn)

  append_locked-IsStored :
      (disk : Disk) (st : Log) (e : Event) {t : Session}
      → Encodes codec
      → Works disk
      → st.events ≡ st.disk_events
      → apply_event codec st.session e ≡ ok t
      → IsStored e.kind e.turn_id (append_locked codec disk st e)
  unfolding append_locked
  append_locked-IsStored disk st e encodes works same k =
      elim (Option-cases (mergeable codec st.events e)) [
        | inl m ↦ rw (m, append_locked) (append_plain-IsStored disk st e works k)
        | inr ((last, merged, patch), m) ↦
            let (l, w) = mergeable-last? st.events e last merged patch m in
            rw (m, append_locked)
              (append_merged-IsStored disk st e last merged patch encodes works k
                (ap last? (sym same) ∙ l) (mergeable_with-same last e w))
      ]

  -- Append to a session that is not archived, whose history loads and whose state the new event can be
  -- applied to succeeds where the event encodes and the append of a line and the write of the snapshot
  -- succeed, whether the rewrite of the last line works or fails and whatever whole lines a rewrite
  -- that fails leaves. The stored event is then the last of the durable log, has the type and turn given and
  -- the id at which the cursor stands, the frame for subscribers has the same id, and the snapshot is
  -- the session.
  pub append_event-IsStored :
      (disk : Disk) (st loaded : Log) (kind : EventType) (turn_id payload : Text) (now : ℕ)
      (t : Session)
      → Encodes codec
      → Works disk
      → IsReplayed codec st
      → is_archived_state st.session.state ≡ false
      → ensure_events st ≡ some loaded
      → apply_event codec loaded.session (new_event loaded kind turn_id payload now) ≡ ok t
      → IsStored kind turn_id (append_event codec disk st kind turn_id payload now)
  unfolding append_event
  append_event-IsStored disk st loaded kind turn_id payload now t encodes works h a l k =
      let same = (ensure_events-IsReplayed codec st h l).1 in
      rw (a, l, append_event)
        (unfold new_event in
          append_locked-IsStored disk loaded (new_event loaded kind turn_id payload now) encodes
            works same k)
