-- ===== src/Idle/Due.antt =====
-- When the deadline that the first poll of a ready session sets is due.
use pua.Prelude.{
  ℕ, ◌+◌, ◌<◌, Bool, true, false, not, ◌&&◌, ◌||◌, ◌==◌, ltb, ◌≡◌, refl, ap, ◌∙◌, Option, some,
  Text, txt, text_eq, is_blank, trim_space, arith,
}
use pua.Generation.Legacy.{runs}
use pua.Idle.Deadline.{
  IdleRecord, IdleSession, is_resuming, with_status, generation_time, boundary_of, project_idle,
  is_deadline_due,
}
use pua.Idle.Settled.{
  woken_awake, never_both, boundary, first_deadline, settled, settled_first, projected_ready,
}

ready_runs : (t : Text) → t ≡ txt "ready" → runs t ≡ false
unfolding runs text_eq
ready_runs t e = rw e refl

ready_starts : (t : Text) → t ≡ txt "ready" → text_eq t (txt "starting") ≡ false
unfolding text_eq
ready_starts t e = rw e refl

ready_rests : (t : Text) → t ≡ txt "ready" → text_eq t (txt "ready") ≡ true
unfolding text_eq
ready_rests t e = rw e refl

module _ (parse_time : Text → Option ℕ) (format_time : ℕ → Text)
    (parses : (t : ℕ) → parse_time (trim_space (format_time t)) ≡ some t) where
  read_back : (t : ℕ) → generation_time parse_time format_time (format_time t) ≡ t
  unfolding generation_time
  read_back t = rw (parses t, generation_time) refl

  is_deadline_due-first_deadline :
      (now after n : ℕ) (s : IdleSession) (previous : Text) (finished : Bool) (r : IdleRecord)
      → 0 < after
      → is_deadline_due parse_time format_time n
          (with_status
            (txt "idle")
            (first_deadline parse_time format_time now after s previous finished r)).generation
        ≡ not (ltb n (boundary parse_time format_time now after s previous finished r + after))
  unfolding is_deadline_due
  is_deadline_due-first_deadline now after n s previous finished r z =
      ap (λ u. (not (u == 0) && not (ltb n u)))
        (read_back (boundary parse_time format_time now after s previous finished r + after))
      ∙ positive _ _ z
    where
      positive : (b d : ℕ) → 0 < d → (not (b + d == 0) && not (ltb n (b + d))) ≡ not (ltb n (b + d))
      positive b d z = ground arith

  -- A poll that finds the session ready, where no sleep is requested, no turn ended or ran before and
  -- there is no deadline yet, sets one: it is due from the time on that is the delay, which is not 0,
  -- after the first of the end of the last turn, the two times of the session and the present time
  -- that is known. Times are read as they are printed.
  pub is_deadline_due-project_idle :
      (now after n : ℕ) (s : IdleSession) (previous : Text) (finished : Bool) (r : IdleRecord)
      → s.hub.state ≡ txt "ready"
      → r.generation.idle_sleep_stop_requested ≡ false
      → (finished || runs previous) ≡ false
      → is_blank (trim_space r.generation.idle_deadline_at) ≡ true
      → 0 < after
      → is_deadline_due parse_time format_time n
          (project_idle parse_time format_time now after s previous finished r).generation
        ≡ not (
            ltb n (
              boundary_of parse_time format_time now
                (generation_time parse_time format_time r.completion_at)
                s
              + after))
  is_deadline_due-project_idle now after n s previous finished r e a b c z =
      ap (λ (x : IdleRecord). is_deadline_due parse_time format_time n x.generation)
        (projected_ready parse_time format_time now after s previous finished r (ready_runs _ e)
            (ready_starts _ e) (ready_rests _ e)
          ∙ ap (settled parse_time format_time now after s previous finished)
              (woken_awake r (rw a (never_both (is_resuming r))))
          ∙ settled_first parse_time format_time now after s previous finished r a b c)
      ∙ is_deadline_due-first_deadline now after n s previous finished r z
