-- ===== src/Mailbox/Promote.antt =====
-- promoteWaitingMessageLocked of internal/serve/resource_mailbox.go: a waiting message is to steer the
-- active turn.
use pua.Prelude.{
  Bool, true, not, ◌&&◌, Option, none, some, [], ◌∷◌, Text, text_eq, is_blank, trim_space,
  if◌then◌else◌,
}
use pua.Generation.Legacy.{GenerationRecord, HubSession, runs}
use pua.Mailbox.Message.{MailMessage, Mailbox, steer, is_queued}
use pua.Mailbox.Operations.{ResourceMailbox}
use pua.Mailbox.Generated.{find_message}

pub data PromoteError : Type 0 where
  workspace_not_owned unreadable message_not_found message_not_waiting resource_not_found
        resource_archived generation_unreadable steer_unavailable write_failed :
      PromoteError

-- What a promotion meets: `none` is an error, and for the generation also that there is none.
pub record PromoteWorld : Type 0 where
  pub owned : Bool
  pub readable : Bool
  pub archived : Option Bool
  pub generation_read : Bool
  pub generation : Option GenerationRecord
  pub configured : Bool
  pub session : Option HubSession
  pub now : Text
  pub disk : Bool

pub data Promoted : Type 0 where
  promoted : MailMessage → Promoted
  not_promoted : PromoteError → Promoted

abbrev pub or_else : Option PromoteError → Option PromoteError → Option PromoteError
or_else none o = o
or_else (some e) o = some e

abbrev pub unless : Bool → PromoteError → Option PromoteError
unless b e = if b then none else some e

-- The resource is there and not archived.
abbrev pub resource_obstacle : Option Bool → Option PromoteError
resource_obstacle none = some resource_not_found
resource_obstacle (some a) = unless (not a) resource_archived

-- The generation has a session and is not being replaced.
abbrev pub generation_obstacle : Option GenerationRecord → Option PromoteError
generation_obstacle none = some steer_unavailable
generation_obstacle (some g) =
    unless (not g.replacement_pending && not (is_blank (trim_space g.agent_hub_session_id)))
      steer_unavailable

-- The session has an active turn that can be steered.
abbrev pub session_obstacle : Option HubSession → Option PromoteError
session_obstacle none = some steer_unavailable
session_obstacle (some s) = unless (runs s.state && s.steer) steer_unavailable

abbrev pub message_obstacle : Option MailMessage → Option PromoteError
message_obstacle none = some message_not_found
message_obstacle (some m) = unless (is_queued m.status) message_not_waiting

-- The first of the checks that fails.
unfoldable pub obstacle : PromoteWorld → Option MailMessage → Option PromoteError
unfolding runs
obstacle w m = or_else (unless w.owned workspace_not_owned) (
    or_else (unless w.readable unreadable) (
      or_else (message_obstacle m) (
        or_else (resource_obstacle w.archived) (
          or_else (unless w.generation_read generation_unreadable) (
            or_else (generation_obstacle w.generation)
              (or_else (unless w.configured steer_unavailable) (session_obstacle w.session)))))))

-- The function that is passed to updateMailboxMessage, with the time that it writes.
abbrev pub promote : Text → MailMessage → MailMessage
promote now m = record m {
  actual_mode = steer;
  mode_frozen = true;
  downgrade_reason = [];
  promoted_at = now;
  last_error = [];
  last_error_code = [];
  updated_at = now;
}

-- updateMailboxMessage on the messages: the first one of the id is changed.
unfoldable pub update_first : (MailMessage → MailMessage) → Text → Mailbox → Mailbox
update_first f id [] = []
update_first f id (m ∷ ms) =
    let rest = update_first f id ms in if text_eq m.id id then f m ∷ ms else m ∷ rest

abbrev pub promote_by :
    PromoteWorld
    → Text
    → Option PromoteError
    → Option MailMessage
    → ResourceMailbox
    → Promoted × ResourceMailbox
promote_by w id (some e) m b = (not_promoted e, b)
promote_by w id none none b = (not_promoted message_not_found, b)
promote_by w id none (some m) b =
    if w.disk
    then (
      promoted (promote w.now m),
      record b { messages = update_first (promote w.now) id b.messages },
    )
    else (not_promoted write_failed, b)

-- promoteWaitingMessageLocked.
unfoldable pub promote_message : PromoteWorld → Text → ResourceMailbox → Promoted × ResourceMailbox
unfolding obstacle update_first find_message
promote_message w id b =
    promote_by w id (obstacle w (find_message id b.messages)) (find_message id b.messages) b
