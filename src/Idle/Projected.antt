-- ===== src/Idle/Projected.antt =====
-- The deadline of an idle generation is set once, and is due when the sleep is.
use pua.Prelude.{
  ℕ, ◌+◌, Bool, false, ◌&&◌, ◌||◌, ◌≡◌, refl, ap, ◌∙◌, inl, inr, Bool-cases, Option, Text, txt,
  text_eq, is_blank, trim_space,
}
use pua.Generation.Legacy.{runs}
use pua.Idle.Deadline.{
  IdleRecord, IdleSession, is_resuming, with_status, clear_deadline, project_idle,
}
use pua.Idle.Settled.{
  answers_again, woken_awake, kept_twice, woken_rests, woken, keeps, is_suspended, settled_asleep,
  settled_retiring, settled_busy, settled_first, settled_later, projected_running,
  projected_starting, projected_ready, projected_suspended, projected_other, settled, boundary,
  first_deadline, projected,
}

module _ (parse_time : Text → Option ℕ) (format_time : ℕ → Text) where
  module _ (prints : (t : ℕ) → is_blank (trim_space (format_time t)) ≡ false)
      (now later after delay : ℕ) (s t : IdleSession) (previous before : Text)
      (finished over : Bool) (same : (over || runs before) ≡ (finished || runs previous)) where
    abbrev Settles : IdleRecord → Type 0
    Settles r =
        (x : IdleRecord) × (settled parse_time format_time now after s previous finished r ≡ x)
        × (settled parse_time format_time later delay t before over x ≡ x)
        × (is_resuming x ≡ is_resuming r)
        × (x.generation.idle_sleep_stop_requested ≡ r.generation.idle_sleep_stop_requested)

    settles : (r : IdleRecord) → Settles r
    settles r = elim (Bool-cases r.generation.idle_sleep_stop_requested) [
      | inl a ↦ (
        with_status (txt "stopping") r,
        settled_asleep parse_time format_time now after s previous finished r a,
        settled_asleep parse_time format_time later delay t before over
            (with_status (txt "stopping") r) a,
        refl,
        refl,
      )
      | inr a ↦ elim (Bool-cases (finished || runs previous)) [
        | inl b ↦ elim (Bool-cases r.generation.archived_task_stop_requested) [
          | inl c ↦ (
            with_status (txt "stopping") r,
            settled_retiring parse_time format_time now after s previous finished r a b c,
            settled_retiring parse_time format_time later delay t before over
                (with_status (txt "stopping") r) a (same ∙ b) c,
            refl,
            refl,
          )
          | inr c ↦ (
            r,
            settled_busy parse_time format_time now after s previous finished r a b c,
            settled_busy parse_time format_time later delay t before over r a (same ∙ b) c,
            refl,
            refl,
          )
        ]
        | inr b ↦ elim (Bool-cases (is_blank (trim_space r.generation.idle_deadline_at))) [
          | inl c ↦ (
            with_status (txt "idle")
                (first_deadline parse_time format_time now after s previous finished r),
            settled_first parse_time format_time now after s previous finished r a b c,
            settled_later parse_time format_time later delay t before over
                (with_status (txt "idle")
                  (first_deadline parse_time format_time now after s previous finished r))
                a (same ∙ b)
                (prints (boundary parse_time format_time now after s previous finished r + after)),
            refl,
            refl,
          )
          | inr c ↦ (
            with_status (txt "idle") r,
            settled_later parse_time format_time now after s previous finished r a b c,
            settled_later parse_time format_time later delay t before over
                (with_status (txt "idle") r) a (same ∙ b) c,
            refl,
            refl,
          )
        ]
      ]
    ]

    settled-woken :
        (r : IdleRecord)
        → (is_resuming r && r.generation.idle_sleep_stop_requested) ≡ false
        → settled parse_time format_time later delay t before over
            (woken (settled parse_time format_time now after s previous finished r))
          ≡ settled parse_time format_time now after s previous finished r
    settled-woken r n =
        let (x, e, h, p, q) = settles r in
        answers_again (settled parse_time format_time now after s previous finished)
          (λ y. settled parse_time format_time later delay t before over (woken y)) r x e
          (ap (settled parse_time format_time later delay t before over)
              (woken_awake x (rw (p, q) n))
            ∙ h)

    -- Where two polls find the session in the same state, and both or neither of them end a turn or
    -- follow a session that was active, the second leaves the record as the first left it, whatever
    -- the two times, the two delays and the session's own times, where a time is not printed as a blank
    -- text.
    pub project_idle-project_idle :
        (r : IdleRecord)
        → t.hub.state ≡ s.hub.state
        → project_idle parse_time format_time later delay t before over
            (project_idle parse_time format_time now after s previous finished r)
          ≡ project_idle parse_time format_time now after s previous finished r
    project_idle-project_idle r e = elim (Bool-cases (runs s.hub.state)) [
      | inl a ↦
          answers_again first second r (clear_deadline false r)
            (projected_running parse_time format_time now after s previous finished r a)
            (projected_running parse_time format_time later delay t before over
              (clear_deadline false r) (rw e a))
      | inr a ↦ elim (Bool-cases (text_eq s.hub.state (txt "starting"))) [
        | inl b ↦
            answers_again first second r (clear_deadline (keeps r) r)
              (projected_starting parse_time format_time now after s previous finished r a b)
              (projected_starting parse_time format_time later delay t before over
                  (clear_deadline (keeps r) r) (rw e a) (rw e b)
                ∙ ap (λ k. clear_deadline k r) (kept_twice (is_resuming r) _))
        | inr b ↦ elim (Bool-cases (text_eq s.hub.state (txt "ready"))) [
          | inl c ↦
              answers_again first second r
                (settled parse_time format_time now after s previous finished (woken r))
                (projected_ready parse_time format_time now after s previous finished r a b c)
                (projected_ready parse_time format_time later delay t before over
                    (settled parse_time format_time now after s previous finished (woken r))
                    (rw e a) (rw e b) (rw e c)
                  ∙ settled-woken (woken r) (woken_rests r))
          | inr c ↦ elim (Bool-cases (is_suspended s.hub.state r)) [
            | inl d ↦
                answers_again first second r (with_status (txt "idle-suspended") r)
                  (projected_suspended parse_time format_time now after s previous finished r a b c
                    d)
                  (projected_suspended parse_time format_time later delay t before over
                    (with_status (txt "idle-suspended") r) (rw e a) (rw e b) (rw e c) (rw e d))
            | inr d ↦
                answers_again first second r r
                  (projected_other parse_time format_time now after s previous finished r a b c d)
                  (projected_other parse_time format_time later delay t before over r (rw e a)
                    (rw e b) (rw e c) (rw e d))
          ]
        ]
      ]
    ]
      where
        first : IdleRecord → IdleRecord
        first = projected parse_time format_time now after s previous finished

        second : IdleRecord → IdleRecord
        second = projected parse_time format_time later delay t before over
