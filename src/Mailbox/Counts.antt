-- ===== src/Mailbox/Counts.antt =====
-- What is told of a mailbox: mailboxCounts, waitingMailboxMessages, mailboxPendingForResource,
-- publicResourceMessageStatus, publicSessionState and terminalMailboxRuntimeError of
-- internal/serve/resource_mailbox.go.
use pua.Prelude.{
  ℕ, ◌+◌, Bool, true, false, not, ◌&&◌, ◌||◌, Option, none, some, [], ◌∷◌, Text, txt, text_eq,
  is_blank, trim_space, if◌then◌else◌,
}
use pua.Mailbox.Message.{
  MailMessage, Mailbox, Status, queued, delivering, interrupting, delivered, cancelled,
  undeliverable, delivery_unknown, is_queued, is_waiting, status_text,
}
use pua.Mailbox.Select.{normalized_resource_id}

pub record Counts : Type 0 where
  pub waiting : ℕ
  pub delivering_count : ℕ
  pub interrupting_count : ℕ
  pub delivered_count : ℕ
  pub cancelled_count : ℕ
  pub undeliverable_count : ℕ
  pub unknown_count : ℕ

-- The counts with the last error and its code.
pub record Tally : Type 0 where
  pub counts : Counts
  pub last_error : Text
  pub last_error_code : Text

-- The switch on the status.
abbrev pub count_status : Status → Counts → Counts
count_status queued c = record c { waiting = c.waiting + 1 }
count_status delivering c = record c { delivering_count = c.delivering_count + 1 }
count_status interrupting c = record c { interrupting_count = c.interrupting_count + 1 }
count_status delivered c = record c { delivered_count = c.delivered_count + 1 }
count_status cancelled c = record c { cancelled_count = c.cancelled_count + 1 }
count_status undeliverable c = record c { undeliverable_count = c.undeliverable_count + 1 }
count_status delivery_unknown c = record c { unknown_count = c.unknown_count + 1 }
count_status _ c = c

abbrev pub note_error : MailMessage → Tally → Tally
note_error m t =
    if is_blank (trim_space m.last_error)
    then t
    else record t { last_error = m.last_error; last_error_code = m.last_error_code }

abbrev pub of_resource : Text → MailMessage → Bool
of_resource id m = text_eq (normalized_resource_id m.resource_id) id

-- One message of the loop.
unfoldable pub count_message : Text → MailMessage → Tally → Tally
count_message id m t =
    if of_resource id m
    then note_error m (record t { counts = count_status m.status t.counts })
    else t

unfoldable pub count_from : Text → Tally → Mailbox → Tally
unfolding count_message
count_from id t [] = t
count_from id t (m ∷ ms) = count_from id (count_message id m t) ms

abbrev pub no_tally : Tally
no_tally = record {
  counts = record {
    waiting = 0;
    delivering_count = 0;
    interrupting_count = 0;
    delivered_count = 0;
    cancelled_count = 0;
    undeliverable_count = 0;
    unknown_count = 0;
  };
  last_error = [];
  last_error_code = [];
}

-- mailboxCounts.
unfoldable pub mailbox_counts : Mailbox → Text → Tally
unfolding count_from
mailbox_counts mailbox id = count_from (normalized_resource_id id) no_tally mailbox

unfoldable pub waiting_of : Text → Mailbox → Mailbox
waiting_of id [] = []
waiting_of id (m ∷ ms) =
    let rest = waiting_of id ms in if of_resource id m && is_queued m.status then m ∷ rest else rest

-- waitingMailboxMessages; the response to a message is the message itself.
unfoldable pub waiting_messages : Mailbox → Text → Mailbox
unfolding waiting_of
waiting_messages mailbox id = waiting_of (normalized_resource_id id) mailbox

-- mailboxPendingForResource, for the hot messages of the resource.
unfoldable pub any_pending : Mailbox → Bool
any_pending [] = false
any_pending (m ∷ ms) = let rest = any_pending ms in if is_waiting m.status then true else rest

-- publicResourceMessageStatus.
abbrev pub public_status : Status → Text
public_status queued = txt "waiting"
public_status s = status_text s

-- What publicSessionState makes of the session's state and of the generation's status.
abbrev pub state_of_generation : Option Text → Text
state_of_generation none = txt "idle"
state_of_generation (some s) =
    if text_eq s (txt "starting")
      || text_eq s (txt "running")
      || text_eq s (txt "stopping")
      || text_eq s (txt "recovering")
    then txt "working"
    else if text_eq s (txt "waiting_approval")
    then txt "attention_required"
    else if text_eq s (txt "failed")
    then txt "unavailable"
    else txt "idle"

abbrev pub state_of_session : Option Text → Option Text → Text
state_of_session none generation = state_of_generation generation
state_of_session (some s) generation =
    if text_eq s (txt "waiting_approval")
    then txt "attention_required"
    else if text_eq s (txt "running")
    then txt "working"
    else state_of_generation generation

-- publicSessionState.
unfoldable pub public_session_state : Bool → Text → Option Text → Option Text → Text → Text
public_session_state archived unavailable generation session runtime_error =
    if archived
    then txt "archived"
    else if not (is_blank (trim_space unavailable)) || not (is_blank (trim_space runtime_error))
    then txt "unavailable"
    else state_of_session session generation

-- terminalMailboxRuntimeError, for a code that is trimmed and in lower case.
unfoldable pub terminal_runtime_error : Text → Text → Text
terminal_runtime_error code message =
    if text_eq code (txt "task_state_retry_exhausted")
      || text_eq code (txt "generation_start_retry_exhausted")
    then trim_space message
    else []
