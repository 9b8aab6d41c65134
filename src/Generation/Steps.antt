-- ===== src/Generation/Steps.antt =====
-- finishGenerationPlan, planMessage and planLifecycleIntent of
-- internal/serve/generation_lifecycle.go.
use pua.Prelude.{
  Bool, true, false, not, ◌&&◌, ◌||◌, Option, none, some, [], ◌∷◌, Text, txt, text_eq, is_blank,
  trim_space, join, if◌then◌else◌,
}
use pua.Generation.Facts.{
  Phase, ready, stopping, stopped, archived, Intent, Operation, wait_for_session, deliver_message,
  wait_for_message_receipt, wait_for_turn_terminal, interrupt_turn, stop_session, resume_session,
  wait_for_stopped, archive_session, retire_generation, observe_session, Message, Facts, Guard,
  Plan, intent_text, operation_text, steer_mode, interrupt_mode, queued_status, delivering_status,
  interrupting_status, is_idle, is_replacement, is_ready, is_active, is_stopped, is_leaving,
  is_arriving,
}
use pua.Generation.Normal.{reason_or, first_non_empty, message_mode, observed_phase}

abbrev pub separator : Text
separator = 0 ∷ []

unfoldable pub lifecycle_operation_id : Operation → Text → Text → Text → Text → Text
unfolding join
lifecycle_operation_id op generation_id session_id turn_id message_id =
    join separator (operation_text op ∷ generation_id ∷ session_id ∷ turn_id ∷ message_id ∷ [])

-- What finishGenerationPlan does where the message is not nil, for each field that it changes.
unfoldable pub finish_message_id : Text → Option Message → Text
finish_message_id id none = id
finish_message_id id (some m) = trim_space m.id

unfoldable pub finish_mode : Text → Option Message → Text
finish_mode mode none = mode
finish_mode mode (some m) = message_mode (some m)

unfoldable pub finish_guard : Guard → Option Message → Guard
finish_guard g none = g
finish_guard g (some m) = record g {
  message_id = if is_blank g.message_id then trim_space m.id else g.message_id;
}

unfoldable pub finish_turn : Text → Option Message → Text
finish_turn turn none = turn
finish_turn turn (some m) =
    if is_blank turn
    then first_non_empty (trim_space m.turn_id ∷ trim_space m.interrupt_turn_id ∷ turn ∷ [])
    else turn

unfoldable pub finish : Plan → Operation → Text → Option Message → Plan
finish p op reason m = record p {
  operation = op;
  reason = reason_or p.reason reason;
  message_id = finish_message_id p.message_id m;
  message_mode = finish_mode p.message_mode m;
  guard = finish_guard p.guard m;
  turn_id = finish_turn p.turn_id m;
  operation_id =
      lifecycle_operation_id op p.generation_id p.session_id (finish_turn p.turn_id m)
        (finish_message_id p.message_id m);
}

-- `status == delivering || status == interrupting || accepted`
unfoldable pub in_flight : Message → Bool
in_flight m =
    text_eq m.status delivering_status
    || text_eq m.status interrupting_status
    || m.agent_hub_accepted

-- A stopped session that a message wakes: wait out the back-off, or resume.
unfoldable pub wake : Plan → Facts → Text → Option Message → Plan
wake p f reason m =
    if f.resume_backoff_active
    then finish p wait_for_session (txt "resume_backoff") m
    else finish p resume_session reason m

unfoldable pub turn_is_open : Facts → Bool
turn_is_open f =
    f.turn_active
    || f.approval_pending
    || is_active (observed_phase f)
    || text_eq f.session_state (txt "running")
    || text_eq f.session_state (txt "waiting_approval")

plan_known_message : Plan → Facts → Message → Plan
plan_known_message p f m =
    if in_flight m
    then finish p wait_for_message_receipt (txt "message_receipt_pending") (some m)
    else if is_leaving phase
    then finish p wait_for_stopped (txt "generation_not_deliverable") (some m)
    else if is_stopped phase
    then (if f.session_known && f.session_resumable && not f.session_resume_unavailable
        then wake p f (txt "resume_stopped_session") (some m)
        else finish p wait_for_stopped (txt "generation_not_deliverable") (some m))
    else if text_eq m.requested_mode interrupt_mode && turn_is_open f
    then finish (record p { turn_id = interrupted }) interrupt_turn (txt "interrupt_requested")
        (some m)
    else if turn_is_open f
    then (if text_eq p.message_mode steer_mode && f.steer_supported
        then finish p deliver_message (txt "steer_requested") (some m)
        else finish p wait_for_turn_terminal (txt "enqueue_waits_for_turn") (some m))
    else if not (is_ready phase)
    then finish p wait_for_session (txt "session_not_ready") (some m)
    else finish p deliver_message (txt "message_waiting") (some m)
  where
    phase : Phase
    phase = observed_phase f

    interrupted : Text
    interrupted = first_non_empty (trim_space m.interrupt_turn_id ∷ f.turn_id ∷ [])

unfoldable pub plan_message : Plan → Facts → Option Message → Plan
unfolding plan_known_message
plan_message p f none = finish p observe_session (txt "mailbox_fact_incomplete") none
plan_message p f (some m) =
    if is_blank (trim_space m.id)
    then finish p observe_session (txt "mailbox_fact_incomplete") none
    else plan_known_message
        (record p { message_id = trim_space m.id; message_mode = message_mode (some m) }) f m

abbrev pub has_message : Option Message → Bool
has_message none = false
has_message (some m) = true

abbrev pub next_in_flight : Option Message → Bool
next_in_flight none = false
next_in_flight (some m) = in_flight m

-- A queued message that asks for an interrupt.
abbrev pub asks_interrupt : Option Message → Bool
asks_interrupt none = false
asks_interrupt (some m) = text_eq m.requested_mode interrupt_mode && text_eq m.status queued_status

-- The `switch` that ends planLifecycleIntent.
converge : Plan → Phase → Intent → Text → Plan
converge p ready i reason = finish p stop_session (reason_or reason (intent_text i)) none
converge p stopping i reason =
    finish p wait_for_stopped (reason_or reason (txt "stop_in_flight")) none
converge p stopped i reason = finish p archive_session (reason_or reason (txt "stopped")) none
converge p archived i reason = finish p retire_generation (reason_or reason (txt "archived")) none
converge p _ i reason =
    finish p observe_session (reason_or reason (txt "unknown_session_state")) none

unfoldable pub plan_lifecycle_intent : Plan → Facts → Intent → Text → Plan
unfolding converge
plan_lifecycle_intent p f i reason =
    if is_idle i && is_stopped phase && not f.session_resume_unavailable
    then p
    else if is_replacement i && f.turn_active && asks_interrupt f.next_message
    then plan_message p f f.next_message
    else if f.turn_active || f.approval_pending || is_active phase
    then finish p wait_for_turn_terminal (reason_or reason (txt "active_turn")) none
    else if not f.session_known || is_arriving phase
    then finish p wait_for_session (reason_or reason (txt "session_state_not_ready")) none
    else converge p phase i reason
  where
    phase : Phase
    phase = observed_phase f
