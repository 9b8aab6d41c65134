-- ===== src/Idle/Settled.antt =====
-- What projectResourceIdleState makes of a record in each case (internal/serve/resource_idle.go).
use pua.Prelude.{
  ℕ, ◌+◌, Bool, true, false, not, ◌&&◌, ◌||◌, ◌≡◌, refl, sym, ap, ◌∙◌, inl, inr, Bool-cases, Option,
  Text, txt, text_eq, is_blank, trim_space, if◌then◌else◌,
}
use pua.Generation.Legacy.{runs}
use pua.Idle.Deadline.{
  IdleRecord, IdleSession, is_resuming, with_status, clear_deadline, with_sleep, set_deadline,
  generation_time, boundary_of, initialize_deadline, settle_ready, project_idle,
}

-- A function that leaves what it answered answers it again.
pub answers_again : {A : Type 0} (f g : A → A) (r x : A) → f r ≡ x → g x ≡ x → g (f r) ≡ f r
answers_again f g r x e h = ap g e ∙ h ∙ sym e

-- What becomes of the request to sleep of a session that is resumed.
abbrev pub woken : IdleRecord → IdleRecord
woken r = if is_resuming r && r.generation.idle_sleep_stop_requested then with_sleep false r else r

abbrev pub keeps : IdleRecord → Bool
keeps r = is_resuming r && r.generation.idle_sleep_stop_requested

abbrev pub is_suspended : Text → IdleRecord → Bool
is_suspended state r =
    text_eq state (txt "stopped")
    && r.generation.idle_sleep_stop_requested
    && not r.generation.replacement_pending
    && not r.generation.archived_task_stop_requested

pub woken_awake : (r : IdleRecord) → keeps r ≡ false → woken r ≡ r
woken_awake r h = simp (h)

pub kept_twice : (a b : Bool) → (a && (a && b)) ≡ (a && b)
kept_twice true b = refl
kept_twice false b = refl

pub never_both : (b : Bool) → (b && false) ≡ false
never_both true = refl
never_both false = refl

pub woken_rests : (r : IdleRecord) → keeps (woken r) ≡ false
woken_rests r = elim (Bool-cases (keeps r)) [
  | inl e ↦ ap keeps (woken_asleep r e) ∙ never_both (is_resuming r)
  | inr e ↦ ap keeps (woken_awake r e) ∙ e
]
  where
    woken_asleep : (r : IdleRecord) → keeps r ≡ true → woken r ≡ with_sleep false r
    woken_asleep r h = simp (h)

module _ (parse_time : Text → Option ℕ) (format_time : ℕ → Text) where
  module _ (now after : ℕ) (s : IdleSession) (previous : Text) (finished : Bool) where
    abbrev pub settled : IdleRecord → IdleRecord
    settled r = settle_ready parse_time format_time now after s previous finished r

    abbrev pub boundary : IdleRecord → ℕ
    boundary r =
        boundary_of parse_time format_time now
          (generation_time parse_time format_time r.completion_at) s

    abbrev pub first_deadline : IdleRecord → IdleRecord
    first_deadline r = set_deadline (format_time (boundary r)) (format_time (boundary r + after)) r

    pub settled_asleep :
        (r : IdleRecord)
        → r.generation.idle_sleep_stop_requested ≡ true
        → settled r ≡ with_status (txt "stopping") r
    settled_asleep r a = simp (a)

    pub settled_retiring :
        (r : IdleRecord)
        → r.generation.idle_sleep_stop_requested ≡ false
        → (finished || runs previous) ≡ true
        → r.generation.archived_task_stop_requested ≡ true
        → settled r ≡ with_status (txt "stopping") r
    settled_retiring r a b c = simp (a, b, c)

    pub settled_busy :
        (r : IdleRecord)
        → r.generation.idle_sleep_stop_requested ≡ false
        → (finished || runs previous) ≡ true
        → r.generation.archived_task_stop_requested ≡ false
        → settled r ≡ r
    settled_busy r a b c = simp (a, b, c)

    pub settled_first :
        (r : IdleRecord)
        → r.generation.idle_sleep_stop_requested ≡ false
        → (finished || runs previous) ≡ false
        → is_blank (trim_space r.generation.idle_deadline_at) ≡ true
        → settled r
          ≡ with_status
              (txt "idle")
              (set_deadline (format_time (boundary r)) (format_time (boundary r + after)) r)
    unfolding initialize_deadline
    settled_first r a b c = simp (a, b, c)

    pub settled_later :
        (r : IdleRecord)
        → r.generation.idle_sleep_stop_requested ≡ false
        → (finished || runs previous) ≡ false
        → is_blank (trim_space r.generation.idle_deadline_at) ≡ false
        → settled r ≡ with_status (txt "idle") r
    unfolding initialize_deadline
    settled_later r a b c = simp (a, b, c)

    abbrev pub projected : IdleRecord → IdleRecord
    projected r = project_idle parse_time format_time now after s previous finished r

    pub projected_running :
        (r : IdleRecord) → runs s.hub.state ≡ true → projected r ≡ clear_deadline false r
    unfolding project_idle
    projected_running r a = simp (a)

    pub projected_starting :
        (r : IdleRecord)
        → runs s.hub.state ≡ false
        → text_eq s.hub.state (txt "starting") ≡ true
        → projected r ≡ clear_deadline (is_resuming r && r.generation.idle_sleep_stop_requested) r
    unfolding project_idle
    projected_starting r a b = simp (a, b)

    pub projected_ready :
        (r : IdleRecord)
        → runs s.hub.state ≡ false
        → text_eq s.hub.state (txt "starting") ≡ false
        → text_eq s.hub.state (txt "ready") ≡ true
        → projected r ≡ settled (woken r)
    unfolding project_idle
    projected_ready r a b c = simp (a, b, c)

    pub projected_suspended :
        (r : IdleRecord)
        → runs s.hub.state ≡ false
        → text_eq s.hub.state (txt "starting") ≡ false
        → text_eq s.hub.state (txt "ready") ≡ false
        → is_suspended s.hub.state r ≡ true
        → projected r ≡ with_status (txt "idle-suspended") r
    unfolding project_idle
    projected_suspended r a b c d = simp (a, b, c, d)

    pub projected_other :
        (r : IdleRecord)
        → runs s.hub.state ≡ false
        → text_eq s.hub.state (txt "starting") ≡ false
        → text_eq s.hub.state (txt "ready") ≡ false
        → is_suspended s.hub.state r ≡ false
        → projected r ≡ r
    unfolding project_idle
    projected_other r a b c d = simp (a, b, c, d)
