-- ===== src/Reconcile/Round.antt =====
-- The first half of a round of reconcileResourceMailboxLocked in internal/serve/resource_mailbox.go:
-- the message of a removed kind, the generation, the session and the lifecycle plan. `m` is the
-- message as the round selected it; the state holds it as it is stored.
use pua.Prelude.{
  ℕ, Bool, true, false, not, ◌&&◌, ◌||◌, Option, none, some, [], Text, txt, text_eq, is_blank, ltb,
  contains, if◌then◌else◌,
}
use pua.Generation.Facts.{
  Operation, Plan, resume_session, stop_session, wait_for_stopped, archive_session,
  wait_for_session, retire_generation, Facts,
}
use pua.Generation.Legacy.{GenerationRecord, HubSession, runs}
use pua.Generation.Adapt.{adapt_facts}
use pua.Generation.Plan.{plan_generation}
use pua.Mailbox.Message.{MailMessage, Mailbox, is_queued, is_under_way, is_steer, is_interrupt}
use pua.Mailbox.Select.{normalized_resource_id}
use pua.Reconcile.Updates.{
  Failure, drop_turn_result, lose_generation, freeze_enqueue, count_start_failure,
  max_start_attempts, generation_replacing,
}
use pua.Reconcile.World.{
  World, Answer, given, refused, Fetched, fetched, gone, unreachable, Prepared, replaced, kept,
  not_prepared, Resumed, resumed, not_resumed, cannot_resume, resume_failed, again, done, failed,
  Round, pure, ◌>>=◌, leave, reach, update, record_failure,
}

unfoldable pub is_legacy_turn_result : Text → Bool
is_legacy_turn_result kind =
    text_eq kind (txt "turn_result") || text_eq kind (txt "creator_turn_result")

unfoldable pub is_task_resource : MailMessage → Bool
unfolding normalized_resource_id contains
is_task_resource m = contains (normalized_resource_id m.resource_id) (txt ".task")

-- resourceGenerationLifecyclePending.
unfoldable pub lifecycle_pending : GenerationRecord → Bool
lifecycle_pending g =
    (text_eq g.status (txt "stopping") || text_eq g.status (txt "stopped"))
    && (g.replacement_pending || g.archived_task_stop_requested)

module _ (w : World) where
  -- The message of a kind that is no longer delivered.
  unfoldable pub drop_legacy : MailMessage → Round Bool
  unfolding update drop_turn_result
  drop_legacy m =
      if is_legacy_turn_result m.kind
      then (update w (drop_turn_result w.clock) >>= λ _. leave again)
      else pure true

  -- recordTaskStartFailure after its write: whether the attempts are exhausted.
  unfoldable pub exhausted : MailMessage → MailMessage → Round Bool
  exhausted m updated =
      if ltb updated.task_start_failure_count max_start_attempts
      then pure false
      else if is_task_resource m
      then (reach w.task_state >>= λ _. pure true)
      else pure true

  unfoldable pub start_failed : MailMessage → Failure → Round Bool
  unfolding update count_start_failure exhausted
  start_failed m e =
      if is_blank m.generation_id
      then update w (count_start_failure (is_task_resource m) e w.clock) >>= exhausted m
      else pure false

  abbrev pub adopt : Option GenerationRecord → Round GenerationRecord
  adopt none = update w (lose_generation w.clock) >>= λ _. leave again
  adopt (some g) = reach w.configured >>= λ _. pure g

  abbrev pub ensure : MailMessage → Answer GenerationRecord → Round GenerationRecord
  ensure m (given g) = pure g
  ensure m (refused e) = record_failure w e >>= λ _.
      start_failed m e >>= λ over. leave (if over then done else failed e)

  -- The generation that the message belongs to, or the one that is made ready for it.
  unfoldable pub acquire : MailMessage → Round GenerationRecord
  unfolding start_failed record_failure update
  acquire m =
      if not (is_blank m.generation_id) && is_under_way m.status
      then reach w.associated >>= adopt
      else ensure m w.ensured

  abbrev pub freeze_replaced : MailMessage → Round Bool
  freeze_replaced m =
      if is_steer m.requested_mode
      then (update w (freeze_enqueue generation_replacing) >>= λ _. pure true)
      else pure true

  -- A generation that is going away takes no new message; only an interrupt that has not stopped
  -- the turn yet goes on.
  unfoldable pub hold : MailMessage → GenerationRecord → Round Bool
  unfolding update lifecycle_pending
  hold m g =
      if lifecycle_pending g
      then leave done
      else if g.replacement_pending && is_queued m.status
      then (freeze_replaced m >>= λ _.
          if not (is_interrupt m.requested_mode) || not (is_blank m.interrupt_at)
          then leave done
          else pure true)
      else pure true

  unfoldable pub retire : Round Bool
  retire = reach w.retired >>= λ _. leave again

  abbrev pub matched : HubSession → Round HubSession
  matched s = reach w.config_read >>= λ _. if w.matches then pure s else (retire >>= λ _. pure s)

  abbrev pub observe_by : Fetched → Round HubSession
  observe_by (fetched s) = matched s
  observe_by (gone e) = reach w.retired >>= λ _. leave again
  observe_by (unreachable e) = record_failure w e >>= λ _. leave (failed e)

  unfoldable pub observe : Round HubSession
  unfolding retire record_failure
  observe = observe_by w.session

  -- A queued input at an inactive boundary is about to start a turn.
  unfoldable pub starts_new_turn : MailMessage → HubSession → Bool
  unfolding runs
  starts_new_turn m s =
      is_queued m.status
      && not (runs s.state)
      && (not m.mode_frozen || not (is_steer m.actual_mode))

  abbrev pub prepare_by : Prepared → Round GenerationRecord
  prepare_by replaced = leave done
  prepare_by (kept g) = pure g
  prepare_by (not_prepared e) = record_failure w e >>= λ _. leave (failed e)

  unfoldable pub prepare : MailMessage → HubSession → Round GenerationRecord
  unfolding record_failure
  prepare m s = if starts_new_turn m s then prepare_by w.prepared else pure w.observed

  -- The facts of the adapter, for the mailbox as it is stored at that time.
  unfoldable pub facts_for : GenerationRecord → HubSession → Mailbox → ℕ → Facts
  unfolding adapt_facts
  facts_for g s mailbox now = adapt_facts w.parse_time (record {
    generation = g;
    session = some s;
    resource_archived = false;
    binding_changed = false;
    mailbox = mailbox;
    workspace_instance_id = [];
    revision = g.updated_at;
    now = now;
    agent_hub_stop_requested = false;
    lifecycle_stop_in_flight = false;
  })

  unfoldable pub lifecycle_plan : GenerationRecord → HubSession → Plan
  unfolding facts_for plan_generation
  lifecycle_plan g s = plan_generation (facts_for g s w.mailbox w.now)

  abbrev pub resume_by : MailMessage → Resumed → Round Bool
  resume_by m resumed = leave again
  resume_by m not_resumed = leave done
  resume_by m (resume_failed e) = record_failure w e >>= λ _. leave (failed e)
  resume_by m (cannot_resume e) = record_failure w e >>= λ _.
      start_failed m e >>= λ over. reach w.retired >>= λ _. leave (if over then done else again)

  abbrev pub retire_archived : HubSession → Round Bool
  retire_archived s =
      if text_eq s.state (txt "archived")
      then (reach w.retired >>= λ _.
          reach w.current_found >>= λ found. leave (if found then done else again))
      else leave done

  -- The switch on the operation that the planner wants.
  unfoldable pub follow : Operation → MailMessage → HubSession → Round Bool
  unfolding record_failure start_failed
  follow resume_session m s = resume_by m w.resume
  follow stop_session m s = leave done
  follow wait_for_stopped m s = leave done
  follow archive_session m s = leave done
  follow wait_for_session m s = leave done
  follow retire_generation m s = retire_archived s
  follow _ m s = pure true
