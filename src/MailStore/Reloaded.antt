-- ===== src/MailStore/Reloaded.antt =====
-- A mailbox that is written and loaded again.
use pua.Prelude.{
  Bool, true, false, not, ◌≡◌, refl, ap, ◌∙◌, subst, ◌⊎◌, inl, inr, Bool-cases, List, [], ◌++◌, map,
  text_eq_refl, is_blank, trim_space,
}
use pua.Mailbox.Message.{MailMessage, Mailbox}
use pua.Mailbox.Select.{normalized_resource_id}
use pua.Mailbox.Operations.{ResourceMailbox}
use pua.MailStore.Maps.{In, by_key, select, has_key}
use pua.MailStore.Members.{has_key-sort, Unique, Unique-sort}
use pua.MailStore.Mapped.{In-map, has_key-map, Unique-map}
use pua.MailStore.Entries.{Unique-by_key, In-by_key}
use pua.MailStore.Receipts.{
  Receipt, receipt_of_message, forgotten, normalized_resource_id_idem,
  message_of_receipt-receipt_of_message,
}
use pua.MailStore.Documents.{
  in_order, Clock, normalized_message, awake, keyed_messages, hot_messages, cold_receipts,
  retained_from, newer_first, by_sequence, receipt_candidates, unique_receipts, prepare_keyed,
  prepare, highest,
}
use pua.MailStore.Load.{
  id_of, read_message, merge, load_hot, load_store, merge_store, Loaded, loaded, default_store,
  found_of, meta_of,
}
use pua.MailStore.Kept.{
  receipt_id, keyed_message, keyed_messages-Unique, hot_messages-Unique, cold-not_hot, IsDropped,
  prepare-hot, prepare-cold,
}
use pua.MailStore.Merged.{merge-hot, merge-receipt, Unique-retained}
use pua.MailStore.Schema.{MailStore}
use pua.MailStore.Hot.{is_hot, hot_tick_id}

module _ (clock : Clock) (s : MailStore) where
  -- The messages by their ids, and the id of the Scheduler's tick that stays.
  abbrev pub stored : Mailbox
  stored = keyed_messages s.mailbox.messages

  abbrev pub stays_hot : MailMessage → Bool
  stays_hot m = is_hot (hot_tick_id stored) m

  -- What is loaded after the documents of the store are written.
  abbrev pub reload : Loaded
  reload =
      load_store (default_store s.resource_id s.instance_id s.resource_key)
        (found_of (meta_of s) (prepare clock s))

  abbrev read_back : ResourceMailbox
  read_back =
      merge
        (highest (prepare clock s).hot.next_sequence
          (map read_message (prepare clock s).hot.messages))
        (map read_message (prepare clock s).hot.messages) (prepare clock s).receipts.receipts

  abbrev reloaded : MailStore
  reloaded = record {
    resource_id = s.resource_id;
    instance_id = s.instance_id;
    resource_key = s.resource_key;
    mailbox = read_back;
    receipts = (prepare clock s).receipts;
    outbox = (prepare clock s).outbox;
    scheduler = (prepare clock s).scheduler;
  }

  reload_lem : reload ≡ loaded reloaded
  unfolding load_store load_hot merge_store prepare prepare_keyed
  reload_lem = rw (text_eq_refl s.resource_id, text_eq_refl s.instance_id) refl

  read-Unique : Unique id_of (map read_message (prepare clock s).hot.messages)
  unfolding prepare prepare_keyed
  read-Unique =
      Unique-map read_message id_of id_of (λ _. refl) _
        (Unique-sort id_of in_order (hot_messages stored)
          (hot_messages-Unique stored (keyed_messages-Unique s.mailbox.messages)))

  unique_receipts-Unique : (l : List Receipt) → Unique receipt_id (unique_receipts clock l)
  unfolding unique_receipts
  unique_receipts-Unique l =
      Unique-sort receipt_id (newer_first clock) (by_key receipt_id [] l)
        (Unique-by_key receipt_id [] l tt)

  abbrev candidates : List Receipt
  candidates = receipt_candidates clock s.receipts.receipts stored

  candidates-Unique : Unique receipt_id candidates
  unfolding receipt_candidates
  candidates-Unique = unique_receipts-Unique (
      select (λ (r : Receipt). not (has_key id_of r.id (hot_messages stored)))
        (s.receipts.receipts ++ cold_receipts stored))

  receipts-Unique : Unique receipt_id (prepare clock s).receipts.receipts
  unfolding prepare prepare_keyed
  receipts-Unique =
      Unique-sort receipt_id by_sequence (retained_from clock 0 candidates)
        (Unique-retained clock 0 candidates candidates-Unique)

  -- A cold message is not among the hot ones that are read.
  not_read :
      (m : MailMessage)
      → In m stored
      → stays_hot m ≡ false
      → has_key id_of m.id (map read_message (prepare clock s).hot.messages) ≡ false
  unfolding prepare prepare_keyed
  not_read m i h =
      has_key-map read_message id_of id_of (λ _. refl) m.id _
      ∙ has_key-sort in_order id_of m.id (hot_messages stored)
      ∙ cold-not_hot stored (keyed_messages-Unique s.mailbox.messages) i h

  normal_message :
      (m n : MailMessage)
      → m ≡ normalized_message n
      → normalized_resource_id m.resource_id ≡ m.resource_id
  normal_message m n e =
      rw (ap (λ (x : MailMessage). x.resource_id) e) (normalized_resource_id_idem n.resource_id)

  read_awake :
      (m : MailMessage)
      → normalized_resource_id m.resource_id ≡ m.resource_id
      → read_message (awake m) ≡ awake m
  read_awake m e = ap (λ t. record (awake m) { resource_id = t }) e

  -- A message is in the mailbox as it was, only marked as no receipt; or it stands there with its
  -- text and its attempts forgotten, marked as a receipt; or its receipt was dropped.
  abbrev pub Stays : MailMessage → MailStore → Type 0
  Stays m t =
      ((stays_hot m ≡ true) × In (awake m) t.mailbox.messages)
      ⊎ ((stays_hot m ≡ false)
          × (In (forgotten m) t.mailbox.messages ⊎ IsDropped clock s (receipt_of_message m)))

  stays_cold :
      (m : MailMessage)
      → In m stored
      → stays_hot m ≡ false
      → In (forgotten m) read_back.messages ⊎ IsDropped clock s (receipt_of_message m)
  unfolding receipt_of_message
  stays_cold m i h = elim (prepare-cold clock s i h) [
    | inl j ↦ inl (
        subst (λ x. In x read_back.messages) (message_of_receipt-receipt_of_message m)
          (merge-receipt _ _ _ j receipts-Unique (not_read m i h)))
    | inr d ↦ inr d
  ]

  stays_awake :
      (m : MailMessage) → In m stored → stays_hot m ≡ true → In (awake m) read_back.messages
  stays_awake m i h =
      let ((n, e), b) = keyed_message s.mailbox.messages i in
      subst (λ x. In x read_back.messages) (read_awake m (normal_message m n e))
        (merge-hot _ _ _ (In-map read_message (prepare-hot clock s i h)) read-Unique)

  load-prepare_stored :
      (m : MailMessage) → In m stored → (t : MailStore) × (reload ≡ loaded t) × Stays m t
  load-prepare_stored m i = (
    reloaded,
    reload_lem,
    elim (Bool-cases (stays_hot m)) [
      | inl h ↦ inl (h, stays_awake m i h)
      | inr h ↦ inr (h, stays_cold m i h)
    ],
  )

  -- Where the messages of a mailbox have different ids and the documents of its store are written and
  -- loaded again, the load succeeds, and each message of the mailbox whose id is not blank is there,
  -- under its normalized resource: one that is still worked on unchanged, any other with its text and
  -- its attempts forgotten, unless it ended more than seven days ago or there are more than 2,048
  -- receipts.
  pub load-prepare :
      (m : MailMessage)
      → In m s.mailbox.messages
      → Unique id_of s.mailbox.messages
      → is_blank (trim_space m.id) ≡ false
      → (t : MailStore) × (reload ≡ loaded t) × Stays (normalized_message m) t
  unfolding keyed_messages
  load-prepare m i u b = load-prepare_stored (normalized_message m) (
      In-by_key id_of [] (In-map normalized_message i)
        (Unique-map normalized_message id_of id_of (λ _. refl) s.mailbox.messages u) b)
