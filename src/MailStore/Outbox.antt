-- ===== src/MailStore/Outbox.antt =====
-- The notifications that a mailbox owes to other resources, resourceMailboxNotificationOp of
-- internal/serve/resource_mailbox_store.go, and how two of them with one id are joined.
use pua.Prelude.{
  Bool, true, false, not, ◌&&◌, ◌||◌, Option, none, some, List, [], ◌∷◌, ◌++◌, Text, txt, text_eq,
  is_blank, trim_space, if◌then◌else◌,
}
use pua.Mailbox.Message.{MailMessage, Sender, Causation, Notification, mode_text}
use pua.Mailbox.Select.{normalized_resource_id}

pub record Operation : Type 0 where
  pub id : Text
  pub kind : Text
  pub source_message_id : Text
  pub source_message_ids : List Text
  pub source_resource_id : Text
  pub source_workspace_instance_id : Text
  pub target_workspace_instance_id : Text
  pub target_resource_id : Text
  pub generated_message_id : Text
  pub generated_text : Text
  pub generated_sender : Option Sender
  pub generated_causation : Option Causation
  pub generated_requested_mode : Text
  pub generated_actual_mode : Text
  pub generated_mode_frozen : Bool
  pub generated_downgrade_reason : Text
  pub status : Text
  pub accepted_at : Text
  pub updated_at : Text
  pub delivered_at : Text
  pub terminal_at : Text
  pub delivery_status : Text
  pub last_error : Text
  pub last_error_code : Text
  pub generation_id : Text
  pub turn_id : Text
  pub turn_reference : Text
  pub turn_status : Text
  pub history_unavailable : Bool

-- The text is in the list.
unfoldable pub has_text : Text → List Text → Bool
has_text t [] = false
has_text t (u ∷ us) = let rest = has_text t us in if text_eq u t then true else rest

-- `appendID` of mailboxOperationSourceIDs.
unfoldable pub append_id : List Text → Text → List Text
unfolding has_text
append_id ids value =
    if is_blank (trim_space value) || has_text (trim_space value) ids
    then ids
    else ids ++ trim_space value ∷ []

unfoldable pub append_ids : List Text → List Text → List Text
unfolding append_id
append_ids ids [] = ids
append_ids ids (v ∷ vs) = append_ids (append_id ids v) vs

-- mailboxOperationSourceIDs.
unfoldable pub source_ids : Operation → List Text
unfolding append_ids
source_ids o = append_ids [] (o.source_message_id ∷ o.source_message_ids)

-- mailboxOperationHasSource.
unfoldable pub has_source : Operation → Text → Bool
unfolding source_ids has_text
has_source o id =
    if is_blank (trim_space id) then false else has_text (trim_space id) (source_ids o)

abbrev pub first_or : Text → List Text → Text
first_or t [] = t
first_or t (u ∷ us) = u

-- The source ids of an operation, and the first of them as the source.
abbrev pub set_sources : List Text → Operation → Operation
set_sources ids o = record o {
  source_message_ids = ids;
  source_message_id = first_or o.source_message_id ids;
}

-- normalizeMailboxOperationSources.
unfoldable pub normalize_sources : Operation → Operation
unfolding source_ids
normalize_sources o = set_sources (source_ids o) o

-- The loop over the source ids of the new operation.
unfoldable pub join_ids : List Text → List Text → List Text
unfolding has_text
join_ids ids [] = ids
join_ids ids (v ∷ vs) = join_ids (if has_text v ids then ids else ids ++ v ∷ []) vs

abbrev pub text_or : Text → Text → Text
text_or new current = if is_blank new then current else new

abbrev pub option_or {ℓ} : {A : Type ℓ} → Option A → Option A → Option A
option_or none current = current
option_or (some x) current = some x

-- The current operation, updated by a new one of the same id.
unfoldable pub update_operation : Operation → Operation → Operation
unfolding source_ids join_ids
update_operation c o = record (set_sources (join_ids (source_ids c) (source_ids o)) c) {
  generated_text = text_or o.generated_text c.generated_text;
  generated_message_id = text_or o.generated_message_id c.generated_message_id;
  generated_sender = option_or o.generated_sender c.generated_sender;
  generated_causation = option_or o.generated_causation c.generated_causation;
  generated_requested_mode = text_or o.generated_requested_mode c.generated_requested_mode;
  generated_actual_mode =
      if not (is_blank o.generated_actual_mode) && not c.generated_mode_frozen
      then o.generated_actual_mode
      else c.generated_actual_mode;
  generated_mode_frozen = o.generated_mode_frozen || c.generated_mode_frozen;
  generated_downgrade_reason = text_or o.generated_downgrade_reason c.generated_downgrade_reason;
  status = text_or o.status c.status;
  target_workspace_instance_id =
      text_or o.target_workspace_instance_id c.target_workspace_instance_id;
  target_resource_id = text_or o.target_resource_id c.target_resource_id;
  updated_at = o.updated_at;
}

unfoldable pub append_operation : Operation → List Operation → List Operation
unfolding update_operation
append_operation o [] = o ∷ []
append_operation o (c ∷ cs) =
    let rest = append_operation o cs in
    if text_eq c.id o.id then update_operation c o ∷ cs else c ∷ rest

-- appendUniqueMailboxOperation.
unfoldable pub append_unique : List Operation → Operation → List Operation
unfolding append_operation normalize_sources
append_unique operations o = append_operation (normalize_sources o) operations

abbrev with_receipt : Option Notification → Operation → Operation
with_receipt none o = o
with_receipt (some n) o = record o {
  target_workspace_instance_id = n.target_workspace_instance_id;
  target_resource_id = n.target_resource_id;
  status = n.status;
  accepted_at = n.accepted_at;
  delivery_status = n.delivery_status;
  delivered_at = n.delivered_at;
  terminal_at = n.terminal_at;
  last_error = n.last_error;
  last_error_code = n.last_error_code;
}

abbrev generated_operation : Text → MailMessage → MailMessage → Operation
generated_operation now source generated = record {
  id = generated.id;
  kind = generated.kind;
  source_message_id = source.id;
  source_message_ids = source.id ∷ [];
  source_resource_id = normalized_resource_id source.resource_id;
  source_workspace_instance_id = trim_space generated.sender_workspace_instance_id;
  target_workspace_instance_id = [];
  target_resource_id = [];
  generated_message_id = generated.id;
  generated_text = generated.text;
  generated_sender = generated.sender;
  generated_causation = generated.causation;
  generated_requested_mode = mode_text generated.requested_mode;
  generated_actual_mode = mode_text generated.actual_mode;
  generated_mode_frozen = generated.mode_frozen;
  generated_downgrade_reason = generated.downgrade_reason;
  status = txt "waiting";
  accepted_at = [];
  updated_at = now;
  delivered_at = [];
  terminal_at = [];
  delivery_status = [];
  last_error = [];
  last_error_code = [];
  generation_id = [];
  turn_id = [];
  turn_reference = [];
  turn_status = [];
  history_unavailable = false;
}

abbrev with_workspace : MailMessage → Operation → Operation
with_workspace source o =
    if is_blank o.source_workspace_instance_id
    then record o { source_workspace_instance_id = trim_space source.sender_workspace_instance_id }
    else o

-- mailboxNotificationOperationFromGenerated.
unfoldable pub operation_of_generated : Text → MailMessage → MailMessage → Operation
unfolding normalized_resource_id
operation_of_generated now source generated =
    with_workspace source
      (with_receipt source.notification (generated_operation now source generated))
