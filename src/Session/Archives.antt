-- ===== src/Session/Archives.antt =====
-- Archiving a session (agenthub/internal/session/store.go).
use pua.Prelude.{
  if◌then◌else◌, ℕ, ◌≡◌, refl, ◌⊎◌, inl, inr, Bool, true, false, Option, none, some, List, [],
  arith, is_blank, Bool-cases, Option-cases, last?,
}
use pua.Session.Types.{
  EventType, assistant_delta, reasoning_delta, session_archived, is_archived_state,
  is_stopped_state, Session, Event, Codec,
}
use pua.Session.Project.{stamp, no_ids, apply_event}
use pua.Session.Merge.{same_delta, mergeable, mergeable_with}
use pua.Session.Store.{
  Log, Disk, Outcome, appended, failed, Move, done, target_exists, rename_failed, StoreError,
  new_event, append_plain, append_locked, close_log, move_to_archive, archive_session,
  write_snapshot, rename, after_close, active_error,
}
use pua.Session.Replay.{IsReplayed}
use pua.Session.Appends.{Leaves, append_plain-IsReplayed}

-- The session is stopped, with no open turn and no pending approval.
abbrev pub IsQuiet : Session → Type 0
IsQuiet s =
    (is_stopped_state s.state ≡ true)
    × (is_blank s.current_turn_id ≡ true)
    × (no_ids s.pending_approval_ids ≡ true)

-- What Archive leaves: on success an archived session that has moved, and which was archived or quiet
-- before; on an error the directory is where it was.
abbrev pub IsArchive : Log → Log × Option StoreError → Type 0
IsArchive st (after, none) =
    (is_archived_state after.session.state ≡ true)
    × (after.moved ≡ true)
    × ((is_archived_state st.session.state ≡ true) ⊎ IsQuiet st.session)
IsArchive st (after, some x) = after.moved ≡ st.moved

abbrev IsClosing : Log → Log × Outcome → Type 0
IsClosing st (after, appended stored frame) =
    (is_archived_state after.session.state ≡ true) × (after.moved ≡ st.moved) × IsQuiet st.session
IsClosing st (after, failed x) = after.moved ≡ st.moved

archived_not_delta : (k : EventType) → same_delta k session_archived ≡ false
archived_not_delta assistant_delta = refl
archived_not_delta reasoning_delta = refl
archived_not_delta _ = refl

module _ (codec : Codec) where
  mergeable-none :
      (events : List Event) (e : Event)
      → e.kind ≡ session_archived
      → mergeable codec events e ≡ none
  unfolding mergeable mergeable_with
  mergeable-none events e k = elim (Option-cases (last? events)) [
    | inl n ↦ rw (n, mergeable)
    | inr (l, n) ↦ rw (n, mergeable) (rw (k, archived_not_delta l.kind) refl)
  ]

  append_plain-IsClosing :
      (disk : Disk) (st : Log) (e : Event)
      → e.kind ≡ session_archived
      → IsQuiet st.session
      → IsClosing st (append_plain codec disk st e)
  unfolding append_plain write_snapshot apply_event stamp
  append_plain-IsClosing disk st e k q = ground (arith, k, q)

  append_locked-plain :
      (disk : Disk) (st : Log) (e : Event)
      → e.kind ≡ session_archived
      → append_locked codec disk st e ≡ append_plain codec disk st e
  unfolding append_locked
  append_locked-plain disk st e k = rw (mergeable-none st.events e k, append_locked)

  -- The event that closes a session, appended.
  abbrev closing : Disk → Log → ℕ → Log × Outcome
  closing disk st now = append_plain codec disk st (new_event st session_archived [] [] now)

  close_log-cases :
      (disk : Disk) (st : Log) (now : ℕ)
      → (close_log codec disk st now ≡ (st, failed active_error))
        ⊎ (close_log codec disk st now ≡ closing disk st now) × IsQuiet st.session
  unfolding close_log
  close_log-cases disk st now =
      let plain =
        append_locked-plain disk st (new_event st session_archived [] [] now)
          (unfold new_event in refl) in
      ground (arith, plain)

  closing-IsReplayed :
      (disk : Disk) (st : Log) (now : ℕ)
      → Leaves st.disk_events disk.append_end
      → IsReplayed codec st
      → IsReplayed codec (closing disk st now).0
  closing-IsReplayed disk st now l h =
      append_plain-IsReplayed codec disk st (new_event st session_archived [] [] now) l h
        (unfold new_event in omega arith)

  close_log-IsClosing :
      (disk : Disk) (st : Log) (now : ℕ)
      → Leaves st.disk_events disk.append_end
      → IsReplayed codec st
      → IsReplayed codec (close_log codec disk st now).0
        × IsClosing st (close_log codec disk st now)
  close_log-IsClosing disk st now l h = elim (close_log-cases disk st now) [
    | inl e ↦ rw e (h, refl)
    | inr c ↦ rw (c.0) (
      closing-IsReplayed disk st now l h,
      append_plain-IsClosing disk st (new_event st session_archived [] [] now)
          (unfold new_event in refl) c.1,
    )
  ]

  move-IsArchive :
      (move : Move) (st after : Log)
      → IsReplayed codec after
      → is_archived_state after.session.state ≡ true
      → after.moved ≡ st.moved
      → (is_archived_state st.session.state ≡ true) ⊎ IsQuiet st.session
      → IsReplayed codec (move_to_archive move after).0 × IsArchive st (move_to_archive move after)
  unfolding move_to_archive
  move-IsArchive move st after h a m q = decide after.moved refl
    where
      moved :
          (move : Move) → IsReplayed codec (rename move after).0 × IsArchive st (rename move after)
      moved done = (
        record {
          replayed = h.replayed;
          loaded = h.loaded;
          numbered = h.numbered;
          cursor = h.cursor;
        },
        (a, refl, q),
      )
      moved target_exists = (h, m)
      moved rename_failed = (h, m)

      decide :
          (b : Bool)
          → after.moved ≡ b
          → IsReplayed codec (if b then (after, none) else rename move after).0
            × IsArchive st (if b then (after, none) else rename move after)
      decide true e = (h, (a, e, q))
      decide false e = moved move

  -- Archive keeps the session the replay of its log, where an append that fails leaves the log as it
  -- was. Where it succeeds the session is archived and its directory has moved, and before it was
  -- archived already or was stopped, with no open turn and no pending approval; where it fails the
  -- directory is where it was. This holds whichever of the writes fail in that way and however the
  -- move ends.
  pub archive_session-IsArchive :
      (disk : Disk) (move : Move) (st : Log) (now : ℕ)
      → Leaves st.disk_events disk.append_end
      → IsReplayed codec st
      → IsReplayed codec (archive_session codec disk move st now).0
        × IsArchive st (archive_session codec disk move st now)
  unfolding archive_session
  archive_session-IsArchive disk move st now l h =
      elim (Bool-cases (is_archived_state st.session.state)) [
        | inl a ↦ rw (a, archive_session) (move-IsArchive move st st h a refl (inl a))
        | inr a ↦
            rw (a, archive_session)
              (after (close_log codec disk st now) (close_log-IsClosing disk st now l h))
      ]
    where
      after :
          (r : Log × Outcome)
          → IsReplayed codec r.0 × IsClosing st r
          → IsReplayed codec (after_close move r).0 × IsArchive st (after_close move r)
      after (x, appended stored frame) (k, c) = move-IsArchive move st x k c.0 c.1 (inr c.2)
      after (x, failed e) (k, c) = (k, c)
