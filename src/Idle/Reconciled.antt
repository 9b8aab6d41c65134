-- ===== src/Idle/Reconciled.antt =====
-- A retirement begins only for a generation that was put to sleep or whose deadline is due.
use pua.Prelude.{
  ℕ, true, false, not, ◌&&◌, ◌||◌, ◌≡◌, refl, sym, ◌∙◌, ◌⊎◌, inl, inr, Bool-cases, Option, none,
  some, Text, is_blank, trim_space,
}
use pua.Idle.Deadline.{IdleRecord, IdleSession, is_suspension_stable, is_deadline_due}
use pua.Idle.Retire.{retiring, start_retirement}
use pua.Idle.Retired.{Retires, start_retirement-Retires}
use pua.Idle.Reconcile.{
  ReconcileWorld, is_observed, is_elsewhere, with_deadline, retire_due, reconcile_ready,
  reconcile_record, reconcile_found, reconcile_idle,
}

abbrev pub IsAsleep : IdleRecord → Type 0
IsAsleep r = r.generation.idle_sleep_stop_requested ≡ true

module _ (parse_time : Text → Option ℕ) (format_time : ℕ → Text) where
  -- No turn waits to be completed, the generation is idle with a session that is ready, and the
  -- deadline, which is set first where there is none, has come.
  abbrev pub IsDue : ReconcileWorld → IdleSession → IdleRecord → Type 0
  IsDue w s r =
      (r.completion_pending ≡ false)
      × (is_elsewhere r s ≡ false)
      × (is_deadline_due parse_time format_time w.now
            (with_deadline parse_time format_time w s r).generation
          ≡ true)

  -- Why a record is retired.
  abbrev pub Chosen : ReconcileWorld → IdleSession → IdleRecord → IdleRecord → Type 0
  Chosen w s x r = (IsAsleep r ⊎ IsDue w s r) × Retires parse_time format_time w.retire x

  module _ (w : ReconcileWorld) (o : IdleRecord) (s : IdleSession) (x : IdleRecord) where
    reconcile_ready-Chosen :
        (r : IdleRecord)
        → r.completion_pending ≡ false
        → reconcile_ready parse_time format_time w s r ≡ retiring x
        → Chosen w s x r
    reconcile_ready-Chosen r p h = elim (Bool-cases (is_elsewhere r s)) [
      | inl a ↦ absurd (cc (rw a at h))
      | inr a ↦
          elim (Bool-cases (is_blank (trim_space r.generation.idle_deadline_at) && not w.stored)) [
            | inl b ↦ absurd (cc (rw (a, b) at h))
            | inr b ↦ due a (rw (a, b) at h)
          ]
    ]
      where
        due :
            is_elsewhere r s ≡ false
            → retire_due parse_time format_time w (with_deadline parse_time format_time w s r)
              ≡ retiring x
            → Chosen w s x r
        due a k =
            elim (Bool-cases (
              is_deadline_due parse_time format_time w.now
                (with_deadline parse_time format_time w s r).generation)) [
                  | inl c ↦ (
                    inr (p, a, c),
                    (start_retirement-Retires parse_time format_time w.retire _ x (rw c at k)).1,
                  )
                  | inr c ↦ absurd (cc (rw c at k))
                ]

    reconcile_record-Chosen :
        (r : IdleRecord)
        → reconcile_record parse_time format_time w o s r ≡ retiring x
        → Chosen w s x r
    reconcile_record-Chosen r h =
        elim (Bool-cases
          (not (is_observed r o) || is_suspension_stable r.generation s.hub || w.in_flight)) [
            | inl a ↦ absurd (cc (rw a at h))
            | inr a ↦ elim (Bool-cases r.generation.idle_sleep_stop_requested) [
              | inl b ↦ (
                inl b,
                (start_retirement-Retires parse_time format_time w.retire r x
                    (sym (asleep_starts a b) ∙ h)).1,
              )
              | inr b ↦ elim (Bool-cases r.completion_pending) [
                | inl c ↦ absurd (cc (rw (a, b, c) at h))
                | inr c ↦ reconcile_ready-Chosen r c (sym (awake_goes a b c) ∙ h)
              ]
            ]
          ]
      where
        asleep_starts :
            (not (is_observed r o) || is_suspension_stable r.generation s.hub || w.in_flight)
              ≡ false
            → r.generation.idle_sleep_stop_requested ≡ true
            → reconcile_record parse_time format_time w o s r
              ≡ start_retirement parse_time format_time w.retire r
        asleep_starts a b = simp (a, b)

        awake_goes :
            (not (is_observed r o) || is_suspension_stable r.generation s.hub || w.in_flight)
              ≡ false
            → r.generation.idle_sleep_stop_requested ≡ false
            → r.completion_pending ≡ false
            → reconcile_record parse_time format_time w o s r
              ≡ reconcile_ready parse_time format_time w s r
        awake_goes a b c = simp (a, b, c)

    reconcile_found-Chosen :
        (found : Option IdleRecord)
        → reconcile_found parse_time format_time w o s found ≡ retiring x
        → (r : IdleRecord) × (found ≡ some r) × Chosen w s x r
    reconcile_found-Chosen none h = absurd (cc)
    reconcile_found-Chosen (some r) h = (r, refl, reconcile_record-Chosen r h)

  -- Where reconcileIdleGenerationLocked begins a retirement, the record that was read again was put
  -- to sleep before, or no turn of it waits to be completed, it is idle with a session that is ready
  -- and its deadline, set first where there was none, has come; and the retirement is one that
  -- startIdleRetirementLocked may begin.
  pub reconcile_idle-Retires :
      (w : ReconcileWorld) (o : IdleRecord) (s : IdleSession) (x : IdleRecord)
      → reconcile_idle parse_time format_time w o s ≡ retiring x
      → (r : IdleRecord) × (w.found ≡ some r) × Chosen w s x r
  unfolding reconcile_idle
  reconcile_idle-Retires w o s x h =
      elim (Bool-cases (is_blank (trim_space o.generation.generation_id))) [
        | inl a ↦ absurd (cc (rw a at h))
        | inr a ↦ elim (Bool-cases w.readable) [
          | inl b ↦ reconcile_found-Chosen w o s x w.found (rw (a, b) at h)
          | inr b ↦ absurd (cc (rw (a, b) at h))
        ]
      ]
