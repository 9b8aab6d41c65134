-- ===== src/Reconcile/Frozen.antt =====
-- The mode that a round fixes keeps it sound.
use pua.Prelude.{ℕ, ◌+◌, true, not, ◌&&◌, ◌≡◌, refl, [], is_blank, if◌then◌else◌, arith}
use pua.Generation.Facts.{Plan}
use pua.Generation.Legacy.{GenerationRecord, HubSession, runs}
use pua.Mailbox.Message.{
  MailMessage, Mode, Status, steer, enqueue, interrupt, other_mode, queued, is_waiting, is_queued,
}
use pua.Reconcile.Steps.{rests, one, interrupts_it}
use pua.Reconcile.Updates.{
  freeze_enqueue, freeze_steer, begin_interrupt, no_active_turn, steer_unsupported,
  generation_replacing, touched,
}
use pua.Reconcile.World.{World, State, update}
use pua.Reconcile.Sound.{
  Start, Same, Same-refl, begin, Ensures, goes_on, branch, updated, written, then_leave, changed,
  write_then, weaken,
}
use pua.Reconcile.Deliver.{freeze_interrupt, freeze_by, freeze}
use pua.Reconcile.Opened.{begun}
use pua.Reconcile.Interrupted.{send_interrupt-Sound}

is_queued_eq : (s : Status) → is_queued s ≡ true → s ≡ queued
is_queued_eq s h = ground (arith, h)

-- The message whose mode is fixed.
abbrev pub Frozen : MailMessage → MailMessage → State → Type 0
Frozen m x t = Start x t × Same m x × (x.status ≡ m.status)

module _ (w : World) (m : MailMessage) (h : is_waiting m.status ≡ true) where
  -- A mode that is fixed by a write.
  fixes :
      (f : MailMessage → MailMessage) (n : ℕ)
      → Same m (f m)
      → (f m).status ≡ m.status
      → Ensures m (λ x t. Frozen m x t) (update w f (begin m n))
  unfolding touched
  fixes f n same e = updated w f (begin m n) (begun w m h n) ((n + 1, refl), same, e)

  freeze_interrupt-Sound :
      (p : Plan) (g : GenerationRecord) (x : HubSession) (n : ℕ)
      → m.status ≡ queued
      → Ensures m (λ y t. Frozen m y t) (freeze_interrupt w p g m x (begin m n))
  unfolding freeze_enqueue begin_interrupt touched
  freeze_interrupt-Sound p g x n e =
      branch (not (is_blank m.interrupt_at)) _ _ _ (λ a. goes_on ((n, refl), Same-refl m, refl))
        (λ a.
          branch (g.replacement_pending && not (runs x.state)) _ _ _
            (λ b. then_leave _ _ _ (
              changed w (freeze_enqueue generation_replacing) (begin m n) (begun w m h n)
                (Same-refl m, rests, rw e refl)))
            (λ b.
              branch (runs x.state) _ _ _
                (λ c. write_then w (begin_interrupt g x w.clock) _ (begin m n) (begun w m h n) (
                  then_leave _ _ _ (
                    weaken
                      (send_interrupt-Sound w p x (touched w.clock (begin_interrupt g x w.clock m))
                        (n + 1)
                        (written _ (begun w m h n) (Same-refl m) (rw e (one interrupts_it))
                          (λ d. ground (arith, d)))
                        refl (refl, refl, c, refl))
                      (λ a t q. q.0))))
                (λ c. fixes (freeze_enqueue no_active_turn) n (Same-refl m) refl)))

  freeze_by-Sound :
      (o : Mode) (p : Plan) (g : GenerationRecord) (x : HubSession) (n : ℕ)
      → m.status ≡ queued
      → Ensures m (λ y t. Frozen m y t) (freeze_by w o p g m x (begin m n))
  unfolding freeze_enqueue freeze_steer
  freeze_by-Sound interrupt p g x n e = freeze_interrupt-Sound p g x n e
  freeze_by-Sound steer p g x n e =
      branch (runs x.state && x.steer) _ _ _ (λ b. fixes freeze_steer n (Same-refl m) refl)
        (λ b.
          fixes (freeze_enqueue (if runs x.state then steer_unsupported else no_active_turn)) n
            (Same-refl m) refl)
  freeze_by-Sound enqueue p g x n e = fixes (freeze_enqueue []) n (Same-refl m) refl
  freeze_by-Sound (other_mode t) p g x n e = goes_on ((n, refl), Same-refl m, refl)

  pub freeze-Sound :
      (p : Plan) (g : GenerationRecord) (x : HubSession) (n : ℕ)
      → Ensures m (λ y t. Frozen m y t) (freeze w p g m x (begin m n))
  unfolding freeze
  freeze-Sound p g x n =
      branch (is_queued m.status && not m.mode_frozen) _ _ _
        (λ b. freeze_by-Sound m.requested_mode p g x n (is_queued_eq m.status (ground (arith, b))))
        (λ b. goes_on ((n, refl), Same-refl m, refl))
