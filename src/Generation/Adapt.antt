-- ===== src/Generation/Adapt.antt =====
-- AdaptLegacyGenerationFacts and ApplyLegacyLifecyclePlan of
-- internal/serve/generation_lifecycle.go.
use pua.Prelude.{
  ℕ, Bool, true, false, not, ◌&&◌, ◌||◌, ◌==◌, ltb, Option, none, some, [], ◌∷◌, Text, txt,
  is_blank, trim_space, if◌then◌else◌,
}
use pua.Generation.Facts.{
  Intent, idle, replacement, archive, Operation, stop_session, resume_session, wait_for_stopped,
  archive_session, retire_generation, requested, unknown, Receipt, Message, Facts, Plan,
}
use pua.Generation.Normal.{first_non_empty, normalize}
use pua.Generation.Legacy.{GenerationRecord, LegacyInput, record_facts, add_session, mailbox_facts}

-- The turn of a record whose session is not known.
unfoldable pub add_record_turn : GenerationRecord → Facts → Facts
add_record_turn r f = record f {
  turn_id =
      if is_blank f.turn_id && not f.session_known then trim_space r.current_turn_id else f.turn_id;
}

abbrev pub message_turn : Option Message → Text
message_turn none = []
message_turn (some m) = first_non_empty (m.interrupt_turn_id ∷ m.turn_id ∷ [])

unfoldable pub add_mailbox : Bool × Option Message → Facts → Facts
add_mailbox (pending, m) f = record f {
  mailbox_pending = pending;
  next_message = m;
  turn_id = if is_blank f.turn_id then message_turn m else f.turn_id;
}

unfoldable pub add_stop_receipt : Bool → Facts → Facts
add_stop_receipt stop f = record f {
  lifecycle = record lifecycle { receipt = if stop then stop_receipt else lifecycle.receipt };
}
  where
    open f use {lifecycle}

    stop_receipt : Receipt
    stop_receipt = record {
      operation = stop_session;
      state = unknown;
      operation_id = [];
      generation_id = f.generation_id;
      session_id = f.session_id;
      turn_id = [];
      message_id = [];
      revision = f.revision;
    }

-- `time.Parse(time.RFC3339Nano, text)`, in nanoseconds, is a parameter.
module _ (parse_time : Text → Option ℕ) where
  -- The text is not blank and parses to a time that `test` accepts; the clock must be set.
  unfoldable pub checks_time : ℕ → Text → (ℕ → Bool) → Bool
  checks_time now text test =
      not (now == 0)
      && not (is_blank (trim_space text))
      && elim (parse_time (trim_space text)) [ none ↦ false | some t ↦ test t ]

  unfoldable pub add_times : LegacyInput → Facts → Facts
  unfolding checks_time
  add_times input f = record f {
    session_resume_unavailable = input.generation.session_resume_unavailable;
    resume_backoff_active =
        checks_time input.now input.generation.resume_retry_at (λ t. ltb input.now t);
    idle_deadline_due =
        checks_time input.now input.generation.idle_deadline_at (λ t. not (ltb input.now t));
  }

  unfoldable pub adapt_facts : LegacyInput → Facts
  unfolding add_times add_stop_receipt add_record_turn
  adapt_facts input =
      let known =
        add_record_turn r (add_times input (add_session input.session (record_facts input))) in
      normalize (
        add_stop_receipt (input.agent_hub_stop_requested || input.lifecycle_stop_in_flight)
          (add_mailbox (mailbox_facts input.mailbox known.resource_id) known))
    where
      r : GenerationRecord
      r = input.generation

-- The three switches of ApplyLegacyLifecyclePlan, in their order.
unfoldable pub apply_intent : Intent → GenerationRecord → GenerationRecord
apply_intent archive r = record r { archived_task_stop_requested = true }
apply_intent replacement r = record r { replacement_pending = true }
apply_intent idle r = record r { idle_sleep_stop_requested = true }
apply_intent _ r = r

unfoldable pub apply_status : Operation → GenerationRecord → GenerationRecord
apply_status stop_session r = record r { status = txt "stopping" }
apply_status wait_for_stopped r = record r { status = txt "stopping" }
apply_status resume_session r = record r {
  status = txt "starting";
  agent_hub_stopped_observed = false;
}
apply_status archive_session r = record r { status = txt "stopped" }
apply_status retire_generation r = record r { status = txt "stopped" }
apply_status _ r = r

abbrev pub takes_receipt : Operation → Bool
takes_receipt stop_session = true
takes_receipt resume_session = true
takes_receipt archive_session = true
takes_receipt _ = false

unfoldable pub plan_receipt : Plan → Receipt
plan_receipt p = record {
  operation = p.operation;
  state = requested;
  operation_id = p.operation_id;
  generation_id = p.generation_id;
  session_id = p.session_id;
  turn_id = p.turn_id;
  message_id = p.message_id;
  revision = p.guard.revision;
}

unfoldable pub apply_receipt : Plan → GenerationRecord → GenerationRecord
apply_receipt p r =
    if takes_receipt p.operation then record r { lifecycle_receipt = some (plan_receipt p) } else r

unfoldable pub apply_retire : Operation → GenerationRecord → GenerationRecord
apply_retire retire_generation r = record r {
  replacement_pending = false;
  idle_sleep_stop_requested = false;
  archived_task_stop_requested = false;
  agent_hub_stopped_observed = true;
}
apply_retire _ r = r

unfoldable pub apply_plan : GenerationRecord → Plan → GenerationRecord
unfolding apply_intent apply_status apply_receipt apply_retire
apply_plan r p =
    apply_retire p.operation (apply_receipt p (apply_status p.operation (apply_intent p.intent r)))
