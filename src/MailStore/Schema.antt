-- ===== src/MailStore/Schema.antt =====
-- The documents of a stored mailbox and their constants: internal/serve/resource_mailbox_store.go.
use pua.Prelude.{ℕ, List, Text}
use pua.Mailbox.Message.{Mailbox}
use pua.Mailbox.Operations.{ResourceMailbox}
use pua.MailStore.Receipts.{Receipt}
use pua.MailStore.Outbox.{Operation}

pub record Expired : Type 0 where
  pub id : Text
  pub expired_at : Text

pub record HotDocument : Type 0 where
  pub version : ℕ
  pub resource_id : Text
  pub next_sequence : ℕ  -- uint64
  pub messages : Mailbox

pub record ReceiptDocument : Type 0 where
  pub version : ℕ
  pub resource_id : Text
  pub receipts : List Receipt
  pub expired : List Expired

pub record OutboxDocument : Type 0 where
  pub version : ℕ
  pub resource_id : Text
  pub operations : List Operation

pub record Checkpoint : Type 0 where
  pub version : ℕ
  pub resource_id : Text
  pub last_tick_message_id : Text
  pub generation_id : Text
  pub agent_hub_session_id : Text
  pub turn_id : Text
  pub config_digest : Text
  pub reason : Text
  pub accepted_at : Text
  pub delivery_terminal_at : Text
  pub turn_terminal_at : Text
  pub turn_status : Text

-- resourceMailboxStore; the directory's name is left out.
pub record MailStore : Type 0 where
  pub resource_id : Text
  pub instance_id : Text
  pub resource_key : Text
  pub mailbox : ResourceMailbox
  pub receipts : ReceiptDocument
  pub outbox : OutboxDocument
  pub scheduler : Checkpoint

pub record Documents : Type 0 where
  pub hot : HotDocument
  pub receipts : ReceiptDocument
  pub outbox : OutboxDocument
  pub scheduler : Checkpoint

abbrev pub store_version : ℕ
store_version = 1

abbrev pub retention_count : ℕ
retention_count = 2048

-- Seven days, and thirty.
abbrev pub receipt_window : ℕ
receipt_window = 604800000000000

abbrev pub expired_window : ℕ
expired_window = 2592000000000000
