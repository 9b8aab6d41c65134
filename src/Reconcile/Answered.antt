-- ===== src/Reconcile/Answered.antt =====
-- The gates of a round and what follows a delivery that was sent keep the round sound.
use pua.Prelude.{
  true, false, not, ◌&&◌, ◌≡◌, refl, sym, ◌∙◌, ◌⊎◌, inl, inr, Option, none, some, txt, text_eq,
  text_eq_iff, arith, Bool-cases,
}
use pua.Generation.Facts.{Plan}
use pua.Generation.Legacy.{HubSession, runs}
use pua.Mailbox.Message.{
  MailMessage, Status, queued, delivering, delivered, is_waiting, is_queued, is_delivering,
  is_interrupting, is_delivered, is_steer,
}
use pua.Reconcile.Steps.{Steps, rests, one, delivers_it, accepts_it}
use pua.Reconcile.Updates.{Failure, Canonical, finish_delivery, recover_delivery, touched}
use pua.Reconcile.World.{
  World, Answer, given, refused, Sending, received, not_received, State, again, pure, update, ◌>>=◌,
}
use pua.Reconcile.Sound.{
  Sound, Same, Same-refl, has_delivery, Ensures, goes_on, ends, bind, branch, asked, written,
  failure_leaves, write_then,
}
use pua.Reconcile.Round.{is_task_resource}
use pua.Reconcile.Deliver.{
  gate, prepare_work_chain, delivered_turn_id, recover, answered, fail_with, inspect_failure,
}
use pua.Reconcile.Interrupted.{still_current-keeps}

-- What the gates let through.
abbrev pub Admitted : MailMessage → HubSession → Type 0
Admitted x s =
    (is_delivering x.status ≡ true) ⊎ (is_steer x.actual_mode ≡ true) ⊎ (s.state ≡ txt "ready")

-- A delivery is sent and not yet answered.
abbrev pub Told : MailMessage → State → Type 0
Told m t = Sound m t × (has_delivery t.sent ≡ true) × (t.current.status ≡ delivering)

pub to_delivering :
    (s : Status) → is_waiting s ≡ true → is_interrupting s ≡ false → Steps s delivering
to_delivering queued h i = one delivers_it
to_delivering delivering h i = rests
to_delivering s h i = absurd (ground (arith, h, i))

accepts : (a b : Status) → a ≡ delivering → b ≡ delivered → Steps a b
accepts a b e f = rw (e, f) (one accepts_it)

admits :
    (x : MailMessage) (s : HubSession)
    → (not (is_delivering x.status)
        && not (text_eq s.state (txt "ready"))
        && not (is_steer x.actual_mode))
      ≡ false
    → Admitted x s
admits x s b = elim (Bool-cases (is_delivering x.status)) [
  | inl d ↦ inl d
  | inr d ↦ elim (Bool-cases (is_steer x.actual_mode)) [
    | inl c ↦ inr (inl c)
    | inr c ↦ inr (inr ((text_eq_iff _ _).0 (ground (arith, b, c, d))))
  ]
]

is_delivering_eq : (s : Status) → is_delivering s ≡ true → s ≡ delivering
is_delivering_eq s h = ground (arith, h)

pub told_not : (s : Status) → is_waiting s ≡ true → is_delivered s ≡ true → ⊥
told_not s h d = ground (arith, h, d)

pub admitted :
    (y : MailMessage) (s : HubSession) (m : MailMessage)
    → y.status ≡ m.status
    → Admitted y s
    → (m.status ≡ delivering) ⊎ (is_steer y.actual_mode ≡ true) ⊎ (s.state ≡ txt "ready")
admitted y s m e (inl d) = inl (sym e ∙ is_delivering_eq y.status d)
admitted y s m e (inr a) = inr a

pub carries :
    (x y : MailMessage) (s : HubSession)
    → y.status ≡ x.status
    → y.actual_mode ≡ x.actual_mode
    → Admitted x s
    → Admitted y s
carries x y s e f (inl d) = inl (rw e d)
carries x y s e f (inr (inl d)) = inr (inl (rw f d))
carries x y s e f (inr (inr d)) = inr (inr d)

module _ (w : World) where
  pub gate-Admitted :
      {m : MailMessage} {R : State → Type 0} (x : MailMessage) (s : HubSession) (t : State)
      → Sound m t
      → R t
      → Ensures m (λ a u. R u × Admitted x s) (gate w x s t)
  unfolding gate
  gate-Admitted x s t q r =
      branch (not (is_delivering x.status) && runs s.state && not (is_steer x.actual_mode)) _ _ _
        (λ a. ends q)
        (λ a.
          branch
            (not (is_delivering x.status)
              && not (text_eq s.state (txt "ready"))
              && not (is_steer x.actual_mode))
            _ _ _ (λ b. ends q) (λ b. goes_on (r, admits x s b)))

  fail_with-Sound :
      {m : MailMessage} (e : Failure) (s : State)
      → Sound m s
      → Ensures m (λ x t. Sound m t) (fail_with w e s)
  fail_with-Sound e s h = failure_leaves w e _ s h

  -- The end of a delivery that was sent.
  finishes :
      {m : MailMessage} (f : MailMessage → MailMessage) (s : State)
      → Told m s
      → Same s.current (f s.current)
      → (f s.current).status ≡ delivered
      → Ensures m (λ x t. Sound m t) ((update w f >>= λ y. pure again) s)
  unfolding touched
  finishes f s (h, sent, status) same e =
      write_then w f _ s h (goes_on (written _ h same (accepts _ _ status e) (λ d. sent)))

  recover-Sound :
      {m : MailMessage} (p : Plan) (x : HubSession) (e : Failure) (c : Answer (Option Canonical))
      (s : State)
      → Told m s
      → Ensures m (λ y t. Sound m t) (recover w p x e c s)
  unfolding recover recover_delivery
  recover-Sound p x e (refused f) s q = fail_with-Sound (inspect_failure w e f) s q.0
  recover-Sound p x e (given none) s q = fail_with-Sound e s q.0
  recover-Sound {m} p x e (given (some c)) s q =
      bind _ _ _ (still_current-keeps w (Told m) 2 p x s q.0 q)
        (λ a t r. finishes (recover_delivery c x w.clock) t r (Same-refl t.current) refl)

  pub answered-Sound :
      {m : MailMessage} (p : Plan) (x : HubSession) (y : MailMessage) (z : Sending) (s : State)
      → Told m s
      → Ensures m (λ y t. Sound m t) (answered w p x y z s)
  unfolding answered finish_delivery
  answered-Sound {m} p x y (received d) s q =
      bind _ _ _ (still_current-keeps w (Told m) 1 p d s q.0 q) (λ a t r.
        finishes (finish_delivery w.clock (delivered_turn_id w y d x)) t r (Same-refl t.current)
          refl)
  answered-Sound {m} p x y (not_received b e) s q =
      bind _ _ _ (still_current-keeps w (Told m) 1 p x s q.0 q) (λ a t r.
        branch b _ _ _ (λ c. recover-Sound p x e w.canonical t r) (λ c. fail_with-Sound e t r.0))

  pub work_chain-keeps :
      {m : MailMessage} {R : State → Type 0} (y : MailMessage) (s : State)
      → Sound m s
      → R s
      → Ensures m (λ a t. R t) (prepare_work_chain w y s)
  unfolding prepare_work_chain
  work_chain-keeps y s q r =
      branch (is_task_resource y && is_queued y.status) _ _ _ (λ e. asked w.work_chain s q (λ a. r))
        (λ e. goes_on r)
