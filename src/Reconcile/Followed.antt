-- ===== src/Reconcile/Followed.antt =====
-- The stages from the generation to the lifecycle plan leave the message as it was selected or end
-- soundly.
use pua.Prelude.{ℕ, true, false, not, ◌&&◌, ◌||◌, ◌≡◌, refl, is_blank, txt, text_eq, arith}
use pua.Generation.Facts.{
  Operation, no_operation, create_generation, wait_for_session, deliver_message,
  wait_for_message_receipt, wait_for_turn_terminal, interrupt_turn, stop_session, resume_session,
  wait_for_stopped, archive_session, retire_generation, observe_session, finalize_archived_mailbox,
  other_operation,
}
use pua.Generation.Legacy.{GenerationRecord, HubSession}
use pua.Mailbox.Message.{MailMessage, Mode, is_waiting, is_steer, is_queued, is_interrupt}
use pua.Reconcile.Steps.{rests}
use pua.Reconcile.Updates.{freeze_enqueue, generation_replacing}
use pua.Reconcile.World.{
  World, Fetched, fetched, gone, unreachable, Prepared, replaced, kept, not_prepared, Resumed,
  resumed, not_resumed, cannot_resume, resume_failed,
}
use pua.Reconcile.Sound.{
  Sound, Start, Same-refl, begin, Ensures, goes_on, ends, bind, branch, asked, recorded, then_leave,
  failure_leaves, changed, from_Start,
}
use pua.Reconcile.Round.{
  lifecycle_pending, freeze_replaced, matched, observe_by, prepare_by, resume_by, retire_archived,
  hold, retire, observe, starts_new_turn, prepare, follow,
}
use pua.Reconcile.Opened.{keep, begun, asks, start_failed-Sound, waits_not_delivered}

not_steer : (k : Mode) → is_interrupt k ≡ true → is_steer k ≡ false
not_steer k h = ground (arith, h)

module _ (w : World) (m : MailMessage) (h : is_waiting m.status ≡ true) where
  freeze_replaced-Sound :
      (n : ℕ)
      → Ensures m
          (λ a t. Sound m t × (is_steer m.requested_mode ≡ false → Start m t))
          (freeze_replaced w m (begin m n))
  unfolding freeze_enqueue
  freeze_replaced-Sound n =
      branch (is_steer m.requested_mode) _ _ _
        (λ e.
          bind _ _ _
            (changed w (freeze_enqueue generation_replacing) (begin m n) (begun w m h n)
              (Same-refl m, rests, waits_not_delivered m.status h))
            (λ a t q. goes_on (q, λ f. ground (arith, e, f))))
        (λ e. goes_on (begun w m h n, λ f. (n, refl)))

  pub hold-Sound :
      (g : GenerationRecord) (n : ℕ) → Ensures m (λ a t. Start m t) (hold w m g (begin m n))
  unfolding hold
  hold-Sound g n =
      branch (lifecycle_pending g) _ _ _ (λ e. ends (begun w m h n))
        (λ e.
          branch (g.replacement_pending && is_queued m.status) _ _ _
            (λ f. bind _ _ _ (freeze_replaced-Sound n) (λ a t q.
              branch (not (is_interrupt m.requested_mode) || not (is_blank m.interrupt_at)) _ _ _
                (λ i. ends q.0)
                (λ i. goes_on (q.1 (not_steer m.requested_mode (ground (arith, i)))))))
            (λ f. keep w m h n))

  retire-Sound : (n : ℕ) → Ensures m (λ a t. Start m t) (retire w (begin m n))
  unfolding retire
  retire-Sound n =
      then_leave _ _ _ (asked w.retired (begin m n) (begun w m h n) (λ a. begun w m h n))

  matched-Sound : (x : HubSession) (n : ℕ) → Ensures m (λ a t. Start m t) (matched w x (begin m n))
  matched-Sound x n = bind _ _ _ (asks w m h w.config_read n) (λ a t q.
      branch w.matches _ _ _ (λ e. goes_on q)
        (λ e. bind _ _ _ (from_Start m (retire w) retire-Sound t q) (λ b u r. goes_on r)))

  observe_by-Sound :
      (x : Fetched) (n : ℕ) → Ensures m (λ a t. Start m t) (observe_by w x (begin m n))
  observe_by-Sound (fetched x) n = matched-Sound x n
  observe_by-Sound (gone e) n =
      then_leave _ _ _ (asked w.retired (begin m n) (begun w m h n) (λ a. begun w m h n))
  observe_by-Sound (unreachable e) n = failure_leaves w e _ (begin m n) (begun w m h n)

  pub observe-Sound : (n : ℕ) → Ensures m (λ a t. Start m t) (observe w (begin m n))
  unfolding observe
  observe-Sound n = observe_by-Sound w.session n

  prepare_by-Sound :
      (x : Prepared) (n : ℕ) → Ensures m (λ a t. Start m t) (prepare_by w x (begin m n))
  prepare_by-Sound replaced n = ends (begun w m h n)
  prepare_by-Sound (kept g) n = keep w m h n
  prepare_by-Sound (not_prepared e) n = failure_leaves w e _ (begin m n) (begun w m h n)

  pub prepare-Sound :
      (x : HubSession) (n : ℕ) → Ensures m (λ a t. Start m t) (prepare w m x (begin m n))
  unfolding prepare
  prepare-Sound x n =
      branch (starts_new_turn w m x) _ _ _ (λ e. prepare_by-Sound w.prepared n) (λ e. keep w m h n)

  resume_by-Sound :
      (x : Resumed) (n : ℕ) → Ensures m (λ a t. Start m t) (resume_by w m x (begin m n))
  resume_by-Sound resumed n = ends (begun w m h n)
  resume_by-Sound not_resumed n = ends (begun w m h n)
  resume_by-Sound (resume_failed e) n = failure_leaves w e _ (begin m n) (begun w m h n)
  resume_by-Sound (cannot_resume e) n =
      bind _ _ _ (recorded w e (begin m n) (begun w m h n)) (λ x t q.
        bind _ _ _ (start_failed-Sound w m h e t q.1 q.0)
          (λ over u r. then_leave _ _ _ (asked w.retired u r (λ a. r))))

  retire_archived-Sound :
      (x : HubSession) (n : ℕ) → Ensures m (λ a t. Start m t) (retire_archived w x (begin m n))
  retire_archived-Sound x n =
      branch (text_eq x.state (txt "archived")) _ _ _
        (λ e.
          bind _ _ _ (asked w.retired (begin m n) (begun w m h n) (λ a. begun w m h n))
            (λ a t q. then_leave _ _ _ (asked w.current_found t q (λ b. q))))
        (λ e. ends (begun w m h n))

  pub follow-Sound :
      (o : Operation) (x : HubSession) (n : ℕ)
      → Ensures m (λ a t. Start m t) (follow w o m x (begin m n))
  unfolding follow
  follow-Sound resume_session x n = resume_by-Sound w.resume n
  follow-Sound stop_session x n = ends (begun w m h n)
  follow-Sound wait_for_stopped x n = ends (begun w m h n)
  follow-Sound archive_session x n = ends (begun w m h n)
  follow-Sound wait_for_session x n = ends (begun w m h n)
  follow-Sound retire_generation x n = retire_archived-Sound x n
  follow-Sound no_operation x n = keep w m h n
  follow-Sound create_generation x n = keep w m h n
  follow-Sound deliver_message x n = keep w m h n
  follow-Sound wait_for_message_receipt x n = keep w m h n
  follow-Sound wait_for_turn_terminal x n = keep w m h n
  follow-Sound interrupt_turn x n = keep w m h n
  follow-Sound observe_session x n = keep w m h n
  follow-Sound finalize_archived_mailbox x n = keep w m h n
  follow-Sound (other_operation t) x n = keep w m h n
