-- ===== src/MailStore/Load.antt =====
-- loadResourceMailboxStoreInternal of internal/serve/resource_mailbox_store.go after the recovery, for
-- the documents that the decoder found.
use pua.Prelude.{
  ℕ, Bool, false, ◌&&◌, ◌==◌, ltb, Option, none, some, List, [], ◌∷◌, map, Text, text_eq,
  if◌then◌else◌,
}
use pua.Mailbox.Message.{MailMessage, Mailbox}
use pua.Mailbox.Select.{normalized_resource_id}
use pua.Mailbox.Operations.{ResourceMailbox}
use pua.Version.Compare.{text_less}
use pua.MailStore.Maps.{put, sort, has_key}
use pua.MailStore.Receipts.{Receipt, message_of_receipt}
use pua.MailStore.Documents.{highest, in_order}
use pua.MailStore.Schema.{
  HotDocument, ReceiptDocument, OutboxDocument, Checkpoint, MailStore, Documents, store_version,
}

pub record Meta : Type 0 where
  pub version : ℕ
  pub instance_id : Text
  pub resource_id : Text
  pub resource_key : Text

-- What is found on disk, each file decoded.
pub record Found : Type 0 where
  pub meta : Option Meta
  pub hot : Option HotDocument
  pub receipts : Option ReceiptDocument
  pub outbox : Option OutboxDocument
  pub scheduler : Option Checkpoint

pub data LoadError : Type 0 where
  metadata_mismatch : LoadError
  unsupported_hot unsupported_receipts unsupported_outbox unsupported_scheduler : ℕ → LoadError

pub data Loaded : Type 0 where
  loaded : MailStore → Loaded
  not_loaded : LoadError → Loaded

-- defaultResourceMailboxStore.
abbrev pub default_store : Text → Text → Text → MailStore
default_store resource instance_id key = record {
  resource_id = resource;
  instance_id = instance_id;
  resource_key = key;
  mailbox = record { next_sequence = 0; messages = [] };
  receipts = record {
    version = store_version;
    resource_id = resource;
    receipts = [];
    expired = [];
  };
  outbox = record { version = store_version; resource_id = resource; operations = [] };
  scheduler = record {
    version = store_version;
    resource_id = resource;
    last_tick_message_id = [];
    generation_id = [];
    agent_hub_session_id = [];
    turn_id = [];
    config_digest = [];
    reason = [];
    accepted_at = [];
    delivery_terminal_at = [];
    turn_terminal_at = [];
    turn_status = [];
  };
}

-- A message of the hot document.
abbrev pub read_message : MailMessage → MailMessage
read_message m = record m { resource_id = normalized_resource_id m.resource_id; receipt = false }

abbrev pub id_of : MailMessage → Text
id_of m = m.id

-- `byID[message.ID] = message` for each message.
unfoldable pub put_all : Mailbox → Mailbox → Mailbox
unfolding put
put_all acc [] = acc
put_all acc (m ∷ ms) = put_all (put id_of m acc) ms

-- The mailbox with the message of a receipt.
abbrev pub with_receipt : ResourceMailbox → Receipt → ResourceMailbox
with_receipt b r = record {
  next_sequence = if ltb b.next_sequence r.sequence then r.sequence else b.next_sequence;
  messages = put id_of (message_of_receipt r) b.messages;
}

-- One receipt of the loop: it is passed over where its message is there.
unfoldable pub receive : ResourceMailbox → Receipt → ResourceMailbox
unfolding put has_key message_of_receipt
receive b r = if has_key id_of r.id b.messages then b else with_receipt b r

unfoldable pub add_receipts : ResourceMailbox → List Receipt → ResourceMailbox
unfolding receive
add_receipts b [] = b
add_receipts b (r ∷ rs) = add_receipts (receive b r) rs

-- The messages of the two documents; a hot one goes before a receipt of the same id.
unfoldable pub merge : ℕ → Mailbox → List Receipt → ResourceMailbox
unfolding put_all add_receipts sort text_less
merge next hot receipts =
    let b = add_receipts (record { next_sequence = next; messages = put_all [] hot }) receipts in
    record b { messages = sort in_order b.messages }

abbrev pub matches : MailStore → Meta → Bool
matches s m =
    m.version == store_version
    && text_eq m.resource_id s.resource_id
    && text_eq m.instance_id s.instance_id

unfoldable pub load_hot : Option HotDocument → MailStore → Loaded
unfolding highest normalized_resource_id
load_hot none s = loaded s
load_hot (some d) s =
    if d.version == store_version
    then loaded (record s {
      mailbox = record {
        next_sequence = highest d.next_sequence (map read_message d.messages);
        messages = map read_message d.messages;
      };
    })
    else not_loaded (unsupported_hot d.version)

abbrev pub load_receipts : Option ReceiptDocument → MailStore → Loaded
load_receipts none s = loaded s
load_receipts (some d) s =
    if d.version == store_version
    then loaded (record s { receipts = d })
    else not_loaded (unsupported_receipts d.version)

abbrev pub load_outbox : Option OutboxDocument → MailStore → Loaded
load_outbox none s = loaded s
load_outbox (some d) s =
    if d.version == store_version
    then loaded (record s { outbox = d })
    else not_loaded (unsupported_outbox d.version)

abbrev pub load_scheduler : Option Checkpoint → MailStore → Loaded
load_scheduler none s = loaded s
load_scheduler (some d) s =
    if d.version == store_version
    then loaded (record s { scheduler = d })
    else not_loaded (unsupported_scheduler d.version)

abbrev pub check_meta : Option Meta → MailStore → Loaded
check_meta none s = loaded s
check_meta (some m) s = if matches s m then loaded s else not_loaded metadata_mismatch

unfoldable pub merge_store : MailStore → Loaded
unfolding merge
merge_store s =
    loaded
      (record s { mailbox = merge s.mailbox.next_sequence s.mailbox.messages s.receipts.receipts })

infixl 5 ◌>>=◌
abbrev pub ◌>>=◌ : Loaded → (MailStore → Loaded) → Loaded
loaded s >>= f = f s
not_loaded e >>= f = not_loaded e

-- loadResourceMailboxStoreInternal, where the directory is there.
unfoldable pub load_store : MailStore → Found → Loaded
unfolding load_hot merge_store
load_store s f =
    check_meta f.meta s
    >>= load_hot f.hot
    >>= load_receipts f.receipts
    >>= load_outbox f.outbox
    >>= load_scheduler f.scheduler
    >>= merge_store

-- The files as they are after a write of the documents.
abbrev pub found_of : Meta → Documents → Found
found_of m d = record {
  meta = some m;
  hot = some d.hot;
  receipts = some d.receipts;
  outbox = some d.outbox;
  scheduler = some d.scheduler;
}

-- mailboxStoreMeta.
abbrev pub meta_of : MailStore → Meta
meta_of s = record {
  version = store_version;
  instance_id = s.instance_id;
  resource_id = s.resource_id;
  resource_key = s.resource_key;
}
