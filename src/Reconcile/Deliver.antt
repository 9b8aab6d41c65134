-- ===== src/Reconcile/Deliver.antt =====
-- The second half of a round of reconcileResourceMailboxLocked in internal/serve/resource_mailbox.go:
-- the interrupt, the frozen mode, the gates and the delivery; and legacyLifecyclePlanStillCurrent of
-- generation_lifecycle.go. `m` is the round's variable `message`, `p` the lifecycle plan.
use pua.Prelude.{
  ℕ, Bool, true, false, not, ◌&&◌, Option, none, some, [], map, ◌++◌, Text, txt, text_eq, is_blank,
  trim_space, if◌then◌else◌,
}
use pua.Generation.Facts.{Plan}
use pua.Generation.Guard.{guard_matches_facts}
use pua.Generation.Legacy.{GenerationRecord, HubSession, runs}
use pua.Mailbox.Message.{
  ProviderContext, MailMessage, Mailbox, Mode, steer, enqueue, interrupt, is_queued, is_delivering,
  is_interrupting, is_steer,
}
use pua.Reconcile.Updates.{
  Failure, Canonical, freeze_enqueue, freeze_steer, count_attempt, begin_interrupt, requeue,
  add_context, begin_delivery, finish_delivery, recover_delivery, no_active_turn, steer_unsupported,
  generation_replacing,
}
use pua.Reconcile.World.{
  World, Answer, given, refused, Sending, received, not_received, Exit, again, done, failed, next,
  interrupts, delivers, Round, pure, ◌>>=◌, leave, reach, update, record_failure, send,
}
use pua.Reconcile.Round.{
  facts_for, is_task_resource, drop_legacy, acquire, hold, observe, prepare, lifecycle_plan, follow,
}

-- The mailbox with a message as it is stored now.
unfoldable pub with_stored : MailMessage → Mailbox → Mailbox
with_stored x = map (λ y. if text_eq y.id x.id then x else y)

module _ (w : World) where
  -- The plan against the generation read anew, if it is still there.
  unfoldable pub plan_holds : Plan → HubSession → MailMessage → Option GenerationRecord → Bool
  unfolding facts_for with_stored guard_matches_facts
  plan_holds p s x none = false
  plan_holds p s x (some g) = guard_matches_facts p (facts_for w g s (with_stored x w.mailbox) 0)

  abbrev pub current_by : Plan → HubSession → Option GenerationRecord → Round Bool
  current_by p s g st = next (plan_holds p s st.current g) st

  -- legacyLifecyclePlanStillCurrent, and the return where the plan is stale; `k` numbers the reads.
  unfoldable pub still_current : ℕ → Plan → HubSession → Round Bool
  unfolding plan_holds
  still_current k p s =
      reach (w.reread k) >>= current_by p s >>= λ holds. if holds then pure true else leave done

  abbrev pub interrupted_by : Plan → Answer HubSession → Round HubSession
  interrupted_by p (refused e) = record_failure w e >>= λ _. leave (failed e)
  interrupted_by p (given s) = still_current 0 p s >>= λ _. pure s

  -- client.Interrupt with the checks that follow: the session that it answers.
  unfoldable pub send_interrupt : Plan → HubSession → Round HubSession
  unfolding send record_failure still_current
  send_interrupt p s = send interrupts s >>= λ _. interrupted_by p w.interrupted

  abbrev pub attempt : Plan → HubSession → Round HubSession
  attempt p s =
      if w.attempt_due
      then (update w (count_attempt w.clock) >>= λ _. send_interrupt p s)
      else leave done

  abbrev pub requeue_by : GenerationRecord → HubSession → Round Bool
  requeue_by g s =
      if runs s.state
      then leave done
      else update w (requeue w.clock) >>= λ _. leave (if g.replacement_pending then done else again)

  -- A message that interrupts its turn: the interrupt is tried again while that turn is active, and
  -- the message is queued again once no turn is.
  unfoldable pub await_interrupt : Plan → GenerationRecord → MailMessage → HubSession → Round Bool
  unfolding runs send_interrupt update count_attempt requeue
  await_interrupt p g m s =
      if is_interrupting m.status
      then (if runs s.state && text_eq s.current_turn_id m.interrupt_turn_id
          then attempt p s >>= requeue_by g
          else requeue_by g s)
      else pure true

  abbrev pub freeze_interrupt :
      Plan → GenerationRecord → MailMessage → HubSession → Round MailMessage
  freeze_interrupt p g m s =
      if not (is_blank m.interrupt_at)
      then pure m
      else if g.replacement_pending && not (runs s.state)
      then (update w (freeze_enqueue generation_replacing) >>= λ _. leave done)
      else if runs s.state
      then (update w (begin_interrupt g s w.clock) >>= λ _. send_interrupt p s >>= λ _. leave again)
      else update w (freeze_enqueue no_active_turn)

  abbrev pub freeze_by :
      Mode → Plan → GenerationRecord → MailMessage → HubSession → Round MailMessage
  freeze_by interrupt p g m s = freeze_interrupt p g m s
  freeze_by steer p g m s =
      if runs s.state && s.steer
      then update w freeze_steer
      else update w (freeze_enqueue (if runs s.state then steer_unsupported else no_active_turn))
  freeze_by enqueue p g m s = update w (freeze_enqueue [])
  freeze_by _ p g m s = pure m

  -- The mode of a queued message is fixed once.
  unfoldable pub freeze : Plan → GenerationRecord → MailMessage → HubSession → Round MailMessage
  unfolding runs send_interrupt update freeze_enqueue freeze_steer begin_interrupt
  freeze p g m s =
      if is_queued m.status && not m.mode_frozen then freeze_by m.requested_mode p g m s else pure m

  -- What is not yet on its way waits for an active turn to end and for the session to be ready,
  -- unless it steers.
  unfoldable pub gate : MailMessage → HubSession → Round Bool
  unfolding runs
  gate m s =
      if not (is_delivering m.status) && runs s.state && not (is_steer m.actual_mode)
      then leave done
      else if not (is_delivering m.status)
          && not (text_eq s.state (txt "ready"))
          && not (is_steer m.actual_mode)
      then leave done
      else pure true

  abbrev pub context_by : Option ProviderContext → MailMessage → Round MailMessage
  context_by (some c) m = pure m
  context_by none m = reach w.context >>= λ c. update w (add_context c)

  -- ensureProviderMessageContext.
  unfoldable pub ensure_context : MailMessage → Round MailMessage
  unfolding update add_context
  ensure_context m = context_by m.provider_context m

  -- prepareTaskWorkChain, which writes the task and not the mailbox.
  unfoldable pub prepare_work_chain : MailMessage → Round Bool
  prepare_work_chain m =
      if is_task_resource m && is_queued m.status then reach w.work_chain else pure true

  -- deliveredMailboxTurnID.
  unfoldable pub delivered_turn_id : MailMessage → HubSession → HubSession → Text
  delivered_turn_id m delivered before =
      if not (is_blank (trim_space before.id)) && not (is_blank canonical)
      then canonical
      else if not (is_blank (trim_space delivered.current_turn_id))
      then trim_space delivered.current_turn_id
      else if not (is_blank (trim_space before.current_turn_id)) && is_steer m.actual_mode
      then trim_space before.current_turn_id
      else []
    where
      canonical : Text
      canonical = elim w.canonical_turn [ none ↦ [] | some t ↦ trim_space t ]

  abbrev pub inspect_failure : Failure → Failure → Failure
  inspect_failure e f = record e { text = e.text ++ (txt "; inspect canonical input: " ++ f.text) }

  abbrev pub fail_with : Failure → Round Exit
  fail_with e = record_failure w e >>= λ _. leave (failed e)

  -- After a conflict of the message's id: the delivery is taken from the canonical input.
  unfoldable pub recover : Plan → HubSession → Failure → Answer (Option Canonical) → Round Exit
  unfolding still_current update recover_delivery record_failure
  recover p s e (refused f) = fail_with (inspect_failure e f)
  recover p s e (given none) = fail_with e
  recover p s e (given (some c)) =
      still_current 2 p s >>= λ _. update w (recover_delivery c s w.clock) >>= λ _. pure again

  unfoldable pub answered : Plan → HubSession → MailMessage → Sending → Round Exit
  unfolding still_current update finish_delivery delivered_turn_id recover record_failure
  answered p s m (received d) = still_current 1 p d >>= λ _.
      update w (finish_delivery w.clock (delivered_turn_id m d s)) >>= λ _. pure again
  answered p s m (not_received conflict e) =
      still_current 1 p s >>= λ _. if conflict then recover p s e w.canonical else fail_with e

  -- The write before the delivery, and the delivery.
  unfoldable pub dispatch : Plan → GenerationRecord → HubSession → Round Exit
  unfolding update begin_delivery send answered
  dispatch p g s = update w (begin_delivery g s w.clock) >>= λ x.
      reach w.outbound >>= λ _. send delivers s >>= λ _. answered p s x w.sending

  unfoldable pub deliver : Plan → GenerationRecord → MailMessage → HubSession → Round Exit
  unfolding ensure_context prepare_work_chain dispatch
  deliver p g m s = ensure_context m >>= prepare_work_chain >>= λ _. dispatch p g s

  -- The round from the lifecycle plan on.
  unfoldable pub carry_out : Plan → GenerationRecord → MailMessage → HubSession → Round Exit
  unfolding follow await_interrupt freeze gate deliver
  carry_out p g m s = follow w p.operation m s >>= λ _.
      await_interrupt p g m s >>= λ _. freeze p g m s >>= λ x. gate x s >>= λ _. deliver p g x s

  -- One round for the selected message.
  unfoldable pub round : MailMessage → Round Exit
  unfolding drop_legacy acquire hold observe prepare lifecycle_plan carry_out
  round m = drop_legacy w m >>= λ _. acquire w m >>= λ g. hold w m g >>= λ _.
      observe w >>= λ s. prepare w m s >>= λ r. carry_out (lifecycle_plan w r s) r m s
