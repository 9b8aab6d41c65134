-- ===== src/MailStore/Tests.antt =====
-- The theorems on the stored mailbox at a small store and at a directory with two writes.
use pua.Prelude.{
  ℕ, ◌≡◌, refl, true, false, Option, none, some, [], ◌∷◌, Text, txt, text_eq, is_blank, trim_space,
  trim_left, trim_right, join_right, is_space, arith,
}
use pua.Mailbox.Message.{MailMessage, enqueue, queued}
use pua.MailStore.Maps.{In, here, has_key}
use pua.MailStore.Disk.{
  Doc, hot, receipts, outbox, scheduler, same_doc, Directory, DiskEnv, returned,
}
use pua.MailStore.Commit.{write_documents, recover}
use pua.MailStore.Runs.{Ensures}
use pua.MailStore.Atomic.{IsReliable, IsNew, IsSafe}
use pua.MailStore.Recovery.{IsSettled, attempts, left, write_documents-IsAtomic}
use pua.MailStore.Finished.{recover-Returns}
use pua.MailStore.Outbox.{Operation, append_unique}
use pua.MailStore.Documents.{Clock, normalized_message}
use pua.MailStore.Load.{default_store, loaded}
use pua.MailStore.Bounded.{IsBounded, prepare-IsBounded}
use pua.MailStore.Reloaded.{Stays, load-prepare, reload}
use pua.MailStore.Joined.{Covers, append_unique-Covers}
use pua.MailStore.Members.{Unique}
use pua.MailStore.Schema.{MailStore}
use pua.MailStore.Sources.{operation_id}

abbrev name_of : Doc → Text
name_of hot = txt "hot.1.tmp"
name_of receipts = txt "receipts.2.tmp"
name_of outbox = txt "outbox.3.tmp"
name_of scheduler = txt "scheduler.4.tmp"

abbrev text_of : Doc → Option Text
text_of hot = some (txt "{new hot}")
text_of receipts = some (txt "{new receipts}")
text_of outbox = some (txt "{new outbox}")
text_of scheduler = some (txt "{new scheduler}")

abbrev old_text : Doc → Option Text
old_text a = some (txt "{old}")

abbrev disk : DiskEnv
disk = record { works = λ c k. true; encode = text_of; encoded_meta = txt "{meta}"; name = name_of }

abbrev directory : Directory
directory = record { file = old_text; temp = λ t. none; meta = some (txt "{meta}"); commit = none }

distinct_names : (a b : Doc) → same_doc a b ≡ false → text_eq (name_of a) (name_of b) ≡ false
unfolding text_eq
distinct_names hot hot h = absurd (cc)
distinct_names hot receipts h = refl
distinct_names hot outbox h = refl
distinct_names hot scheduler h = refl
distinct_names receipts hot h = refl
distinct_names receipts receipts h = absurd (cc)
distinct_names receipts outbox h = refl
distinct_names receipts scheduler h = refl
distinct_names outbox hot h = refl
distinct_names outbox receipts h = refl
distinct_names outbox outbox h = absurd (cc)
distinct_names outbox scheduler h = refl
distinct_names scheduler hot h = refl
distinct_names scheduler receipts h = refl
distinct_names scheduler outbox h = refl
distinct_names scheduler scheduler h = absurd (cc)

named_docs : (a : Doc) → is_blank (trim_space (name_of a)) ≡ false
unfolding trim_space trim_left trim_right join_right is_space
named_docs hot = refl
named_docs receipts = refl
named_docs outbox = refl
named_docs scheduler = refl

reliable : IsReliable disk
reliable = record {
  distinct = distinct_names;
  named = named_docs;
  renames = λ k. refl;
  syncs = λ k. refl;
}

-- The process dies after twenty-six calls, and a first recovery after three.
write_documents-IsAtomic_example :
    Ensures
      (IsNew disk old_text)
      (IsSafe disk old_text)
      (IsSafe disk old_text)
      (write_documents disk directory 26)
    × Ensures
        (IsSettled disk old_text reliable)
        (IsSafe disk old_text)
        (IsSafe disk old_text)
        (recover disk (attempts ((disk, 3) ∷ []) (left (write_documents disk directory 26))) 20)
write_documents-IsAtomic_example =
    write_documents-IsAtomic disk old_text reliable directory 26 ((disk, 3) ∷ []) disk 20
      (refl, λ a. refl)

recover-Returns_example :
    (e : Directory) × (k : ℕ) × (recover disk directory 20 ≡ returned e k) × (e.commit ≡ none)
recover-Returns_example = recover-Returns disk (λ c k. refl) directory 20 (omega arith)

abbrev operation : Operation
operation = record {
  id = txt "op";
  kind = [];
  source_message_id = txt "m";
  source_message_ids = txt "m" ∷ txt "n" ∷ [];
  source_resource_id = [];
  source_workspace_instance_id = [];
  target_workspace_instance_id = [];
  target_resource_id = [];
  generated_message_id = [];
  generated_text = [];
  generated_sender = none;
  generated_causation = none;
  generated_requested_mode = [];
  generated_actual_mode = [];
  generated_mode_frozen = false;
  generated_downgrade_reason = [];
  status = txt "waiting";
  accepted_at = [];
  updated_at = [];
  delivered_at = [];
  terminal_at = [];
  delivery_status = [];
  last_error = [];
  last_error_code = [];
  generation_id = [];
  turn_id = [];
  turn_reference = [];
  turn_status = [];
  history_unavailable = false;
}

one_operation : Unique operation_id (operation ∷ [])
unfolding has_key
one_operation = (refl, tt)

append_unique-Covers_example :
    Unique operation_id (append_unique (operation ∷ []) operation)
    × ((d : Operation) × In d (append_unique (operation ∷ []) operation) × Covers operation d)
append_unique-Covers_example =
    append_unique-Covers (operation ∷ []) operation operation one_operation (here operation _ refl)

abbrev message : MailMessage
message = record {
  id = txt "m";
  sequence = 1;
  resource_id = txt "r";
  text = txt "hello";
  role = txt "user";
  sender = none;
  sender_workspace_instance_id = [];
  subscribe_result = none;
  result_subscription_status = [];
  result_operation_id = [];
  kind = [];
  causation = none;
  notification = none;
  requested_mode = enqueue;
  actual_mode = enqueue;
  mode_frozen = false;
  downgrade_reason = [];
  status = queued;
  accepted_at = [];
  updated_at = [];
  delivered_at = [];
  terminal_at = [];
  generation_id = [];
  agent_hub_session_id = [];
  turn_id = [];
  provider_context = none;
  turn_terminal_at = [];
  interrupt_turn_id = [];
  interrupt_at = [];
  promoted_at = [];
  attempt_count = 0;
  task_start_failure_count = 0;
  last_attempt_at = [];
  last_error = [];
  last_error_code = [];
  receipt = false;
}

abbrev clock : Clock
clock = record { now = 9; now_text = txt "t9"; parse_time = λ t. none }

abbrev small_store : MailStore
small_store = record (default_store (txt "r") (txt "i") (txt "k")) {
  mailbox = record { next_sequence = 1; messages = message ∷ [] };
}

prepare-IsBounded_example : IsBounded clock small_store
prepare-IsBounded_example = prepare-IsBounded clock small_store

message_named : is_blank (trim_space message.id) ≡ false
unfolding trim_space trim_left trim_right join_right is_space
message_named = refl

load-prepare_example :
    (t : MailStore) × (reload clock small_store ≡ loaded t)
    × Stays clock small_store (normalized_message message) t
unfolding has_key
load-prepare_example =
    load-prepare clock small_store message (here _ [] refl) (refl, tt) message_named
