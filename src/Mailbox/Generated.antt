-- ===== src/Mailbox/Generated.antt =====
-- acceptGeneratedMailboxMessage of internal/serve/resource_mailbox.go: a message of the server itself,
-- under an id that is made from what it is about.
use pua.Prelude.{
  Bool, true, false, not, ◌&&◌, ◌||◌, Option, none, some, List, [], ◌∷◌, ◌++◌, Text, txt, text_eq,
  is_blank, trim_space, if◌then◌else◌,
}
use pua.Mailbox.Message.{
  MailMessage, Mailbox, queued, Mode, is_interrupt, mode_text, Sender, Causation,
}
use pua.Mailbox.Select.{normalized_resource_id}
use pua.Mailbox.Operations.{ResourceMailbox, MailboxEnv, lowered_mode, next_number}

pub data GeneratedError : Type 0 where
  invalid_mode interrupts turn_result incomplete message_conflict write_failed : GeneratedError

pub data Generated : Type 0 where
  accepted : MailMessage → Generated
  refused : GeneratedError → Generated

-- reflect.DeepEqual on the senders, and on the causations.
abbrev pub sender_eq : Option Sender → Option Sender → Bool
sender_eq none none = true
sender_eq (some s) (some t) =
    text_eq s.id t.id && text_eq s.name t.name && text_eq s.session_id t.session_id
sender_eq _ _ = false

unfoldable pub texts_eq : List Text → List Text → Bool
texts_eq [] [] = true
texts_eq (s ∷ ss) (t ∷ ts) = text_eq s t && texts_eq ss ts
texts_eq _ _ = false

unfoldable pub bool_eq : Bool → Bool → Bool
bool_eq true b = b
bool_eq false b = not b

abbrev pub causation_eq : Option Causation → Option Causation → Bool
causation_eq none none = true
causation_eq (some c) (some d) =
    text_eq c.kind d.kind
    && text_eq c.source_workspace_instance_id d.source_workspace_instance_id
    && text_eq c.source_resource_id d.source_resource_id
    && text_eq c.message_id d.message_id
    && texts_eq c.source_message_ids d.source_message_ids
    && text_eq c.generation_id d.generation_id
    && text_eq c.turn_id d.turn_id
    && text_eq c.turn_reference d.turn_reference
    && text_eq c.turn_status d.turn_status
    && bool_eq c.history_unavailable d.history_unavailable
    && text_eq c.terminal_code d.terminal_code
    && text_eq c.reason d.reason
    && text_eq c.schedule_digest d.schedule_digest
causation_eq _ _ = false

-- The stored message agrees with the one expected in all that does not change.
unfoldable pub agrees : MailMessage → MailMessage → Bool
unfolding texts_eq bool_eq
agrees c e =
    text_eq c.resource_id e.resource_id
    && (is_blank c.text || text_eq c.text e.text)
    && text_eq c.role e.role
    && text_eq c.kind e.kind
    && text_eq c.sender_workspace_instance_id e.sender_workspace_instance_id
    && sender_eq c.sender e.sender
    && causation_eq c.causation e.causation

-- The first message of the id.
unfoldable pub find_message : Text → Mailbox → Option MailMessage
find_message id [] = none
find_message id (m ∷ ms) = let rest = find_message id ms in if text_eq m.id id then some m else rest

abbrev pub numbered : MailMessage → ResourceMailbox → MailMessage
numbered e b = record e { sequence = next_number b }

-- The function that acceptGeneratedMailboxMessage passes to the store.
abbrev pub store_found :
    Option MailMessage → MailMessage → ResourceMailbox → Generated × ResourceMailbox
store_found none e b = (
  accepted (numbered e b),
  record { next_sequence = next_number b; messages = b.messages ++ numbered e b ∷ [] },
)
store_found (some c) e b = (if agrees c e then accepted c else refused message_conflict, b)

unfoldable pub store_generated : MailMessage → ResourceMailbox → Generated × ResourceMailbox
unfolding agrees find_message
store_generated e b = store_found (find_message e.id b.messages) e b

abbrev pub is_absent : Option Causation → Bool
is_absent none = true
is_absent (some c) = false

abbrev text_or : Text → Text → Text
text_or t u = if is_blank t then u else t

abbrev pub is_turn_result : MailMessage → Bool
is_turn_result m = text_eq m.kind (txt "turn_result") || text_eq m.kind (txt "creator_turn_result")

module _ (env : MailboxEnv) where
  -- normalizeResourceMessageMode.
  abbrev pub normalized_mode : Text → Option Mode
  normalized_mode t = lowered_mode (env.to_lower (trim_space t))

  -- The message as it is to be stored, in the requested and the actual mode.
  abbrev pub to_store : MailMessage → Mode → Mode → MailMessage
  to_store m requested actual = record m {
    id = trim_space m.id;
    resource_id = normalized_resource_id m.resource_id;
    text = trim_space m.text;
    role = txt "system";
    requested_mode = requested;
    actual_mode = if m.mode_frozen then actual else requested;
    status = queued;
    accepted_at = text_or m.accepted_at env.now;
    updated_at = env.now;
  }

  -- The outcome of the write: a refusal of the function that changes the mailbox goes before it.
  abbrev pub written : Generated × ResourceMailbox → ResourceMailbox → Generated × ResourceMailbox
  written (refused e, x) b = (refused e, b)
  written (accepted m, x) b = if env.disk then (accepted m, x) else (refused write_failed, b)

  abbrev pub accept_in :
      Option Mode → Option Mode → MailMessage → ResourceMailbox → Generated × ResourceMailbox
  accept_in none actual m b = (refused invalid_mode, b)
  accept_in (some requested) none m b =
      (if is_interrupt requested then refused interrupts else refused invalid_mode, b)
  accept_in (some requested) (some actual) m b =
      if is_interrupt requested || is_interrupt actual
      then (refused interrupts, b)
      else if is_turn_result m
      then (refused turn_result, b)
      else if is_blank (trim_space m.id)
          || is_blank (trim_space m.text)
          || is_blank m.kind
          || is_absent m.causation
      then (refused incomplete, b)
      else written (store_generated (to_store m requested actual) b) b

  -- acceptGeneratedMailboxMessage. An actual mode that is blank is the requested one.
  unfoldable pub accept_generated : MailMessage → ResourceMailbox → Generated × ResourceMailbox
  unfolding lowered_mode normalized_resource_id store_generated
  accept_generated m b =
      accept_in (normalized_mode (mode_text m.requested_mode))
        (if is_blank (trim_space (mode_text m.actual_mode))
          then normalized_mode (mode_text m.requested_mode)
          else normalized_mode (trim_space (mode_text m.actual_mode)))
        m b
