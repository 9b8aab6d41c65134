-- ===== src/MailStore/Kept.antt =====
-- What the documents keep of the messages of a mailbox.
use pua.Prelude.{
  ℕ, ◌+◌, ◌<◌, Bool, true, false, not, ◌≡◌, refl, sym, ap, ◌∙◌, subst, ◌⊎◌, inl, inr, Bool-cases,
  ltb, List, [], ◌∷◌, map, length, Text, text_eq, text_eq_iff, is_blank, trim_space, if_cases,
  arith,
}
use pua.Mailbox.Message.{MailMessage, Mailbox}
use pua.MailStore.Maps.{In, here, there, by_key, select, has_key}
use pua.MailStore.Members.{
  In-select, select-In, select-append, In-sort, Unique, Unique-select, Unique-eq,
}
use pua.MailStore.Mapped.{In-map, map-In, Unique-map}
use pua.MailStore.Entries.{Unique-by_key, by_key-append, In-by_key, by_key-In}
use pua.MailStore.Receipts.{Receipt, receipt_of_message}
use pua.MailStore.Documents.{
  in_order, Clock, normalized_message, awake, keyed_messages, hot_messages, cold_receipts,
  is_recent, is_retained, retained_from, unique_receipts, receipt_candidates, prepare_keyed,
  prepare,
}
use pua.MailStore.Load.{id_of}
use pua.MailStore.Schema.{MailStore, retention_count}
use pua.MailStore.Hot.{is_hot, hot_tick_id}

abbrev pub receipt_id : Receipt → Text
receipt_id r = r.id

not-false : (b : Bool) → b ≡ false → not b ≡ true
not-false b h = rw h refl

-- A message by its id is normalised, and its id is not blank.
pub keyed_message :
    (ms : Mailbox) {m : MailMessage}
    → In m (keyed_messages ms)
    → ((n : MailMessage) × (m ≡ normalized_message n)) × (is_blank (trim_space m.id) ≡ false)
unfolding keyed_messages
keyed_message ms i = elim (by_key-In id_of [] (map normalized_message ms) i) [
  | inl j ↦ absurd (elim j [ ])
  | inr (j, b) ↦ let (n, k, e) = map-In normalized_message ms j in ((n, e), b)
]

pub keyed_messages-Unique : (ms : Mailbox) → Unique id_of (keyed_messages ms)
unfolding keyed_messages
keyed_messages-Unique ms = Unique-by_key id_of [] (map normalized_message ms) tt

pub hot_messages-Unique : (ms : Mailbox) → Unique id_of ms → Unique id_of (hot_messages ms)
unfolding hot_messages
hot_messages-Unique ms u =
    Unique-map awake id_of id_of (λ _. refl) _ (Unique-select id_of (is_hot (hot_tick_id ms)) ms u)

pub In-hot_messages :
    (ms : Mailbox) {m : MailMessage}
    → In m ms
    → is_hot (hot_tick_id ms) m ≡ true
    → In (awake m) (hot_messages ms)
unfolding hot_messages
In-hot_messages ms i h = In-map awake (In-select (is_hot (hot_tick_id ms)) i h)

pub hot_messages-In :
    (ms : Mailbox) {x : MailMessage}
    → In x (hot_messages ms)
    → (m : MailMessage) × In m ms × (is_hot (hot_tick_id ms) m ≡ true) × (x ≡ awake m)
unfolding hot_messages
hot_messages-In ms i =
    let (m, j, e) = map-In awake (select (is_hot (hot_tick_id ms)) ms) i in
    let (k, h) = select-In (is_hot (hot_tick_id ms)) ms j in (m, k, h, e)

-- An entry with the key.
pub found_key :
    (k : Text) (xs : Mailbox) → has_key id_of k xs ≡ true → (x : MailMessage) × In x xs × (x.id ≡ k)
unfolding has_key
found_key k [] h = absurd (cc)
found_key k (x ∷ xs) h = elim (Bool-cases (text_eq x.id k)) [
  | inl e ↦ (x, here x xs refl, (text_eq_iff x.id k).0 e)
  | inr e ↦ let (y, i, f) = found_key k xs (ground (arith, h, e)) in (y, there x xs i, f)
]

-- No hot message has the id of one that is not.
pub cold-not_hot :
    (ms : Mailbox) {m : MailMessage}
    → Unique id_of ms
    → In m ms
    → is_hot (hot_tick_id ms) m ≡ false
    → has_key id_of m.id (hot_messages ms) ≡ false
cold-not_hot ms {m} u i h = elim (Bool-cases (has_key id_of m.id (hot_messages ms))) [
  | inl e ↦ absurd (clash e)
  | inr e ↦ e
]
  where
    clash : has_key id_of m.id (hot_messages ms) ≡ true → ⊥
    clash e =
        let (x, j, f) = found_key m.id (hot_messages ms) e in
        let (y, k, g, l) = hot_messages-In ms j in
        let same : y ≡ m = Unique-eq id_of ms u k i (ap id_of (sym l) ∙ f) in cc

module _ (clock : Clock) where
  In-retained :
      {r : Receipt} (index : ℕ) {rs : List Receipt}
      → In r rs
      → In r (retained_from clock index rs)
        ⊎ (is_recent clock r ≡ false)
        ⊎ (retention_count < index + length rs)
  unfolding retained_from is_retained
  In-retained {r} index (here x rs e) = elim (Bool-cases (is_recent clock x)) [
    | inl c ↦ elim (Bool-cases (ltb index retention_count)) [
      | inl d ↦ inl (rw (c, d) (here x (retained_from clock (index + 1) rs) e))
      | inr d ↦ inr (inr (ground (arith, d)))
    ]
    | inr c ↦ inr (inl (ap (is_recent clock) e ∙ c))
  ]
  In-retained {r} index (there x rs i) = elim (In-retained (index + 1) i) [
    | inl j ↦ inl (if_cases (In r) (is_retained clock index x) (there x _ j) j)
    | inr (inl h) ↦ inr (inl h)
    | inr (inr h) ↦ inr (inr (omega (arith, h)))
  ]

  -- The receipt of a message that is not hot is a candidate.
  cold-candidate :
      (stored : List Receipt) (ms : Mailbox) {m : MailMessage}
      → Unique id_of ms
      → In m ms
      → is_blank (trim_space m.id) ≡ false
      → is_hot (hot_tick_id ms) m ≡ false
      → In (receipt_of_message m) (receipt_candidates clock stored ms)
  unfolding receipt_candidates unique_receipts cold_receipts receipt_of_message
  cold-candidate stored ms {m} u i b h = In-sort _ (
      subst (λ l. In (receipt_of_message m) (by_key receipt_id [] l))
        (sym (select-append lone stored (cold_receipts ms)))
        (rw (by_key-append receipt_id [] (select lone stored) (select lone (cold_receipts ms))) (
          In-by_key receipt_id (by_key receipt_id [] (select lone stored))
            (In-select lone (In-map receipt_of_message (In-select cold i (not-false _ h)))
              (not-false _ (cold-not_hot ms u i h)))
            (Unique-select receipt_id lone (cold_receipts ms) (
              Unique-map receipt_of_message id_of receipt_id (λ _. refl) (select cold ms)
                (Unique-select id_of cold ms u)))
            b)))
    where
      lone : Receipt → Bool
      lone r = not (has_key id_of r.id (hot_messages ms))

      cold : MailMessage → Bool
      cold x = not (is_hot (hot_tick_id ms) x)

  abbrev candidates : MailStore → List Receipt
  candidates s = receipt_candidates clock s.receipts.receipts (keyed_messages s.mailbox.messages)

  -- Why a receipt is not kept: it is older than seven days, or there are more than 2,048 of them.
  abbrev pub IsDropped : MailStore → Receipt → Type 0
  IsDropped s r = (is_recent clock r ≡ false) ⊎ (retention_count < length (candidates s))

  pub prepare-hot :
      (s : MailStore) {m : MailMessage}
      → In m (keyed_messages s.mailbox.messages)
      → is_hot (hot_tick_id (keyed_messages s.mailbox.messages)) m ≡ true
      → In (awake m) (prepare clock s).hot.messages
  unfolding prepare prepare_keyed
  prepare-hot s i h = In-sort in_order (In-hot_messages (keyed_messages s.mailbox.messages) i h)

  pub prepare-cold :
      (s : MailStore) {m : MailMessage}
      → In m (keyed_messages s.mailbox.messages)
      → is_hot (hot_tick_id (keyed_messages s.mailbox.messages)) m ≡ false
      → In (receipt_of_message m) (prepare clock s).receipts.receipts
        ⊎ IsDropped s (receipt_of_message m)
  unfolding prepare prepare_keyed
  prepare-cold s {m} i h =
      elim (In-retained 0 (
        cold-candidate s.receipts.receipts (keyed_messages s.mailbox.messages)
          (keyed_messages-Unique s.mailbox.messages) i (keyed_message s.mailbox.messages i).1 h)) [
            | inl j ↦ inl (In-sort _ j)
            | inr (inl a) ↦ inr (inl a)
            | inr (inr a) ↦ inr (inr (omega (arith, a)))
          ]
