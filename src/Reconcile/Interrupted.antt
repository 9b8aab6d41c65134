-- ===== src/Reconcile/Interrupted.antt =====
-- The interrupt of a round keeps it sound.
use pua.Prelude.{
  ℕ, ◌+◌, Bool, true, false, ◌&&◌, ◌≡◌, refl, ◌∙◌, ap, [], ◌∷◌, text_eq, text_eq_iff, arith,
}
use pua.Generation.Facts.{Plan}
use pua.Generation.Legacy.{GenerationRecord, HubSession, runs}
use pua.Mailbox.Message.{
  MailMessage, Status, interrupting, is_waiting, is_interrupting, is_delivered,
}
use pua.Reconcile.Steps.{rests, one, requeues_it}
use pua.Reconcile.Updates.{count_attempt, requeue, touched}
use pua.Reconcile.World.{World, Answer, given, refused, Sent, interrupts, State, send}
use pua.Reconcile.Sound.{
  Sound, Start, Same-refl, Proper, has_delivery, begin, Ensures, goes_on, ends, bind, branch, asked,
  written, then_leave, failure_leaves, changed, write_then, weaken,
}
use pua.Reconcile.Deliver.{
  still_current, interrupted_by, send_interrupt, attempt, requeue_by, await_interrupt,
}
use pua.Reconcile.Opened.{begun}

is_interrupting_eq : (s : Status) → is_interrupting s ≡ true → s ≡ interrupting
is_interrupting_eq s h = ground (arith, h)

module _ (w : World) where
  -- A read that finds the plan stale ends the round, and else changes nothing.
  pub still_current-keeps :
      {m : MailMessage} (R : State → Type 0) (k : ℕ) (p : Plan) (x : HubSession) (s : State)
      → Sound m s
      → R s
      → Ensures m (λ a t. R t) (still_current w k p x s)
  unfolding still_current
  still_current-keeps {m} R k p x s h r =
      bind {Q = λ a u. Sound m u × R u} _ _ _
        (bind {Q = λ a u. Sound m u × R u} _ _ _ (asked (w.reread k) s h (λ a. (h, r)))
          (λ g t q. goes_on q))
        (λ holds t q. branch holds _ _ _ (λ e. goes_on q.1) (λ e. ends q.0))

  -- What is sent is appended to what was sent.
  pub sends :
      {m : MailMessage} (kind : HubSession → MailMessage → Sent) (x : HubSession) (y : MailMessage)
      (n : ℕ)
      → Sound m (begin y n)
      → is_delivered y.status ≡ false
      → Proper m (kind x y)
      → Ensures m
          (λ a t.
            Sound m t × (t.current ≡ y) × (has_delivery t.sent ≡ has_delivery (kind x y ∷ [])))
          (send kind x (begin y n))
  unfolding send
  sends kind x y n h waits ok = goes_on (
    record {
      same = h.same;
      moved = h.moved;
      proper = (ok, tt);
      few = omega arith;
      told = λ d. ground (arith, waits, d);
    },
    refl,
    refl,
  )

  interrupted_by-Sound :
      {m : MailMessage} (p : Plan) (x : Answer HubSession) (s : State)
      → Sound m s
      → Ensures m (λ a t. Sound m t × (t.current ≡ s.current)) (interrupted_by w p x s)
  interrupted_by-Sound p (refused e) s h = failure_leaves w e _ s h
  interrupted_by-Sound {m} p (given x) s h =
      bind _ _ _
        (still_current-keeps (λ t. Sound m t × (t.current ≡ s.current)) 0 p x s h (h, refl))
        (λ a t q. goes_on q)

  -- An interrupt of a message that is stored as interrupting.
  pub send_interrupt-Sound :
      {m : MailMessage} (p : Plan) (x : HubSession) (y : MailMessage) (n : ℕ)
      → Sound m (begin y n)
      → y.status ≡ interrupting
      → Proper m (interrupts x y)
      → Ensures m (λ a t. Sound m t × (t.current ≡ y)) (send_interrupt w p x (begin y n))
  unfolding send_interrupt
  send_interrupt-Sound p x y n h status ok =
      bind _ _ _ (sends interrupts x y n h (rw status refl) ok)
        (λ a t q. weaken (interrupted_by-Sound p w.interrupted t q.0) (λ b u r. (r.0, r.1 ∙ q.1)))

module _ (w : World) (m : MailMessage) (h : is_waiting m.status ≡ true) where
  attempt-Sound :
      (p : Plan) (x : HubSession) (n : ℕ)
      → m.status ≡ interrupting
      → runs x.state ≡ true
      → x.current_turn_id ≡ m.interrupt_turn_id
      → Ensures m (λ a t. Sound m t × (t.current.status ≡ interrupting)) (attempt w p x (begin m n))
  unfolding count_attempt touched
  attempt-Sound p x n e r same =
      branch w.attempt_due _ _ _
        (λ d. write_then w (count_attempt w.clock) _ (begin m n) (begun w m h n) (
          weaken
            (send_interrupt-Sound w p x (touched w.clock (count_attempt w.clock m)) (n + 1)
              (written _ (begun w m h n) (Same-refl m) rests (begun w m h n).told) e
              (refl, e, r, same))
            (λ a t q. (q.0, ap (λ y. y.status) q.1 ∙ e))))
        (λ d. ends (begun w m h n))

  requeue_by-Sound :
      {Q : Bool → State → Type 0} (g : GenerationRecord) (x : HubSession) (s : State)
      → Sound m s
      → s.current.status ≡ interrupting
      → Ensures m Q (requeue_by w g x s)
  unfolding requeue
  requeue_by-Sound g x s q e =
      branch (runs x.state) _ _ _ (λ r. ends q)
        (λ r.
          then_leave _ _ _
            (changed w (requeue w.clock) s q (Same-refl s.current, rw e (one requeues_it), refl)))

  pub await_interrupt-Sound :
      (p : Plan) (g : GenerationRecord) (x : HubSession) (n : ℕ)
      → Ensures m
          (λ a t. Start m t × (is_interrupting m.status ≡ false))
          (await_interrupt w p g m x (begin m n))
  unfolding await_interrupt
  await_interrupt-Sound p g x n =
      branch (is_interrupting m.status) _ _ _
        (λ i.
          branch (runs x.state && text_eq x.current_turn_id m.interrupt_turn_id) _ _ _
            (λ b.
              bind _ _ _
                (attempt-Sound p x n (is_interrupting_eq m.status i) (ground (arith, b))
                  ((text_eq_iff _ _).0 (ground (arith, b))))
                (λ y t q. requeue_by-Sound g y t q.0 q.1))
            (λ b. requeue_by-Sound g x (begin m n) (begun w m h n) (is_interrupting_eq m.status i)))
        (λ i. goes_on ((n, refl), i))
