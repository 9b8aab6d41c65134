-- ===== src/MailStore/Documents.antt =====
-- The four documents of a stored mailbox, and what the store makes of a mailbox when it writes them:
-- internal/serve/resource_mailbox_store.go. A time is a number of nanoseconds, and 0 the zero time.
use pua.Prelude.{
  ℕ, ◌+◌, ◌-◌, Bool, false, not, ◌&&◌, ◌||◌, ◌==◌, ltb, leb, Option, none, some, List, [], ◌∷◌,
  ◌++◌, map, take, Text, txt, text_eq, trim_space, if◌then◌else◌,
}
use pua.Mailbox.Message.{MailMessage, Mailbox}
use pua.Mailbox.Select.{normalized_resource_id}
use pua.Reconcile.Round.{is_legacy_turn_result}
use pua.Version.Compare.{text_less}
use pua.MailStore.Maps.{by_key, sort, select, has_key}
use pua.MailStore.Receipts.{Receipt, receipt_of_message, message_of_receipt}
use pua.MailStore.Outbox.{Operation}
use pua.MailStore.Schema.{
  Expired, MailStore, Documents, store_version, retention_count, receipt_window, expired_window,
}
use pua.MailStore.Hot.{is_closed_status, hot_tick_id, is_hot}

-- The greatest sequence, and at least the one given.
unfoldable pub highest : ℕ → Mailbox → ℕ
highest n [] = n
highest n (m ∷ ms) = highest (if ltb n m.sequence then m.sequence else n) ms

-- By the sequence, then by the id.
abbrev pub in_order : MailMessage → MailMessage → Bool
in_order m x = if m.sequence == x.sequence then text_less m.id x.id else ltb m.sequence x.sequence

-- time.Now, its RFC 3339 text, and time.Parse.
pub record Clock : Type 0 where
  pub now : ℕ
  pub now_text : Text
  pub parse_time : Text → Option ℕ

-- The operation is done, and no record of a removed subscription.
unfoldable pub is_done : Operation → Bool
unfolding is_legacy_turn_result
is_done o =
    is_closed_status o.status
    && not (
        is_legacy_turn_result o.kind
        && text_eq o.last_error_code (txt "result_subscription_removed"))

abbrev pub normalized_message : MailMessage → MailMessage
normalized_message m = record m { resource_id = normalized_resource_id m.resource_id }

abbrev pub awake : MailMessage → MailMessage
awake m = record m { receipt = false }

-- The messages by their ids.
unfoldable pub keyed_messages : Mailbox → Mailbox
unfolding by_key normalized_resource_id
keyed_messages ms = by_key (λ (m : MailMessage). m.id) [] (map normalized_message ms)

unfoldable pub hot_messages : Mailbox → Mailbox
unfolding select is_hot hot_tick_id
hot_messages ms = map awake (select (is_hot (hot_tick_id ms)) ms)

unfoldable pub cold_receipts : Mailbox → List Receipt
unfolding select is_hot hot_tick_id receipt_of_message
cold_receipts ms = map receipt_of_message (select (λ m. not (is_hot (hot_tick_id ms) m)) ms)

-- The message is in the hot document or has a receipt.
unfoldable pub is_known : Mailbox → List Receipt → Text → Bool
unfolding has_key
is_known hot retained id =
    has_key (λ (m : MailMessage). m.id) id hot || has_key (λ (r : Receipt). r.id) id retained

abbrev pub by_sequence : Receipt → Receipt → Bool
by_sequence r x = ltb r.sequence x.sequence

abbrev pub latest_first : Expired → Expired → Bool
latest_first e x = text_less x.expired_at e.expired_at

module _ (clock : Clock) where
  abbrev first_time : List Text → ℕ
  first_time [] = 0
  first_time (t ∷ ts) =
      let rest = first_time ts in
      elim (clock.parse_time (trim_space t)) [ none ↦ rest | some n ↦ n ]

  -- mailboxMessageRetentionTime.
  unfoldable pub retention_time : MailMessage → ℕ
  retention_time m = first_time (m.terminal_at ∷ m.updated_at ∷ m.accepted_at ∷ [])

  -- mailboxReceiptRetentionTime.
  unfoldable pub receipt_time : Receipt → ℕ
  unfolding retention_time message_of_receipt
  receipt_time r = retention_time (message_of_receipt r)

  abbrev pub newer_first : Receipt → Receipt → Bool
  newer_first r x =
      if not (receipt_time r == receipt_time x)
      then ltb (receipt_time x) (receipt_time r)
      else if not (r.sequence == x.sequence)
      then ltb x.sequence r.sequence
      else text_less x.id r.id

  -- uniqueMailboxReceipts.
  unfoldable pub unique_receipts : List Receipt → List Receipt
  unfolding by_key sort receipt_time text_less
  unique_receipts rs = sort newer_first (by_key (λ (r : Receipt). r.id) [] rs)

  unfoldable pub is_recent : Receipt → Bool
  unfolding receipt_time
  is_recent r = receipt_time r == 0 || leb (clock.now - receipt_time r) receipt_window

  unfoldable pub is_retained : ℕ → Receipt → Bool
  unfolding is_recent
  is_retained index r = is_recent r && ltb index retention_count

  -- The two results of the loop over the receipts.
  unfoldable pub retained_from : ℕ → List Receipt → List Receipt
  unfolding is_retained
  retained_from index [] = []
  retained_from index (r ∷ rs) =
      let rest = retained_from (index + 1) rs in if is_retained index r then r ∷ rest else rest

  unfoldable pub dropped_from : ℕ → List Receipt → List Expired
  unfolding is_retained
  dropped_from index [] = []
  dropped_from index (r ∷ rs) =
      let rest = dropped_from (index + 1) rs in
      if is_retained index r then rest else record { id = r.id; expired_at = clock.now_text } ∷ rest

  abbrev is_stale_at : Option ℕ → Bool
  is_stale_at none = false
  is_stale_at (some t) = ltb expired_window (clock.now - t)

  unfoldable pub is_stale : Expired → Bool
  is_stale e = is_stale_at (clock.parse_time e.expired_at)

  unfoldable pub expired_entries : List Expired → Mailbox → List Receipt → List Expired
  unfolding by_key select sort is_stale is_known text_less
  expired_entries entries hot retained = take retention_count (
      sort latest_first (
        select (λ (e : Expired). not (is_known hot retained e.id))
          (select (λ (e : Expired). not (is_stale e)) (by_key (λ (e : Expired). e.id) [] entries))))

  -- The receipts that were stored and those of the messages, less those of hot messages.
  unfoldable pub receipt_candidates : List Receipt → Mailbox → List Receipt
  unfolding unique_receipts select has_key hot_messages cold_receipts
  receipt_candidates stored ms = unique_receipts (
      select (λ (r : Receipt). not (has_key (λ (m : MailMessage). m.id) r.id (hot_messages ms)))
        (stored ++ cold_receipts ms))

  -- prepareResourceMailboxDocuments, for the messages by their ids.
  unfoldable pub prepare_keyed : MailStore → Mailbox → Documents
  unfolding hot_messages receipt_candidates retained_from dropped_from expired_entries highest sort
      select is_done text_less
  prepare_keyed s ms =
      let candidates = receipt_candidates s.receipts.receipts ms in
      let retained = retained_from 0 candidates in
      record {
        hot = record {
          version = store_version;
          resource_id = s.resource_id;
          next_sequence = highest s.mailbox.next_sequence (hot_messages ms);
          messages = sort in_order (hot_messages ms);
        };
        receipts = record {
          version = store_version;
          resource_id = s.resource_id;
          receipts = sort by_sequence retained;
          expired =
              expired_entries (s.receipts.expired ++ dropped_from 0 candidates) (hot_messages ms)
                retained;
        };
        outbox = record {
          version = store_version;
          resource_id = s.resource_id;
          operations = select (λ (o : Operation). not (is_done o)) s.outbox.operations;
        };
        scheduler = record s.scheduler { version = store_version; resource_id = s.resource_id };
      }

  -- prepareResourceMailboxDocuments.
  unfoldable pub prepare : MailStore → Documents
  unfolding prepare_keyed keyed_messages
  prepare s = prepare_keyed s (keyed_messages s.mailbox.messages)
