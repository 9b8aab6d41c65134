-- ===== src/Idle/Reconcile.antt =====
-- reconcileIdleGenerationLocked of internal/serve/resource_idle.go, for a client that is there.
use pua.Prelude.{
  ℕ, Bool, not, ◌&&◌, ◌||◌, Option, none, some, Text, txt, text_eq, is_blank, trim_space,
  if◌then◌else◌,
}
use pua.Idle.Deadline.{
  IdleRecord, IdleSession, generation_time, initialize_deadline, is_deadline_due,
  is_suspension_stable,
}
use pua.Idle.Retire.{RetireWorld, Retirement, left, failed, start_retirement}

-- `found` is the record that is read again by its ids, where it is `readable`; `stored` says whether
-- the first deadline is written. The record of the runtime is the one that was read.
pub record ReconcileWorld : Type 0 where
  pub readable : Bool
  pub found : Option IdleRecord
  pub in_flight : Bool
  pub stored : Bool
  pub now : ℕ
  pub delay : ℕ
  pub retire : RetireWorld

-- The record that was read is the one that was observed.
abbrev pub is_observed : IdleRecord → IdleRecord → Bool
is_observed r o =
    text_eq r.id o.id && text_eq r.generation.agent_hub_session_id o.generation.agent_hub_session_id

-- The generation is on its way, or is not idle.
abbrev pub is_elsewhere : IdleRecord → IdleSession → Bool
is_elsewhere r s =
    r.generation.replacement_pending
    || r.generation.archived_task_stop_requested
    || not (text_eq r.generation.status (txt "idle"))
    || not (text_eq s.hub.state (txt "ready"))

module _ (parse_time : Text → Option ℕ) (format_time : ℕ → Text) where
  -- The record with its first deadline.
  abbrev pub with_deadline : ReconcileWorld → IdleSession → IdleRecord → IdleRecord
  with_deadline w s r =
      if is_blank (trim_space r.generation.idle_deadline_at)
      then initialize_deadline parse_time format_time w.now w.delay s
          (generation_time parse_time format_time r.completion_at) r
      else r

  abbrev pub retire_due : ReconcileWorld → IdleRecord → Retirement
  retire_due w r =
      if is_deadline_due parse_time format_time w.now r.generation
      then start_retirement parse_time format_time w.retire r
      else left

  abbrev pub reconcile_ready : ReconcileWorld → IdleSession → IdleRecord → Retirement
  reconcile_ready w s r =
      if is_elsewhere r s
      then left
      else if is_blank (trim_space r.generation.idle_deadline_at) && not w.stored
      then failed
      else retire_due w (with_deadline w s r)

  abbrev pub reconcile_record : ReconcileWorld → IdleRecord → IdleSession → IdleRecord → Retirement
  reconcile_record w o s r =
      if not (is_observed r o) || is_suspension_stable r.generation s.hub || w.in_flight
      then left
      else if r.generation.idle_sleep_stop_requested
      then start_retirement parse_time format_time w.retire r
      else if r.completion_pending
      then left
      else reconcile_ready w s r

  abbrev pub reconcile_found :
      ReconcileWorld → IdleRecord → IdleSession → Option IdleRecord → Retirement
  reconcile_found w o s none = left
  reconcile_found w o s (some r) = reconcile_record w o s r

  -- reconcileIdleGenerationLocked.
  unfoldable pub reconcile_idle : ReconcileWorld → IdleRecord → IdleSession → Retirement
  unfolding is_suspension_stable initialize_deadline is_deadline_due start_retirement
  reconcile_idle w o s =
      if is_blank (trim_space o.generation.generation_id)
      then left
      else if w.readable
      then reconcile_found w o s w.found
      else failed
