-- ===== src/MailStore/Bounded.antt =====
-- The bounds of the documents, and that they do not name one message twice.
use pua.Prelude.{
  ℕ, zero, suc, ◌+◌, ◌-◌, ◌≤◌, ◌<◌, Bool, true, false, not, ◌&&◌, ◌||◌, ◌≡◌, refl, sym, ◌∙◌, subst,
  inl, inr, Bool-cases, ltb, List, [], ◌∷◌, ◌++◌, take, length, if◌then◌else◌, arith,
}
use pua.Mailbox.Message.{MailMessage, Mailbox}
use pua.MailStore.Maps.{In, here, there, select, has_key}
use pua.MailStore.Members.{In-cons, select-In, sort-In, length-sort, has_key-sort}
use pua.MailStore.Entries.{by_key-In}
use pua.MailStore.Receipts.{Receipt}
use pua.MailStore.Documents.{
  in_order, Clock, keyed_messages, hot_messages, cold_receipts, is_recent, is_retained,
  retained_from, dropped_from, newer_first, by_sequence, unique_receipts, receipt_candidates,
  expired_entries, prepare_keyed, prepare, is_known, latest_first, highest,
}
use pua.MailStore.Load.{id_of}
use pua.MailStore.Kept.{receipt_id}
use pua.MailStore.Schema.{Expired, MailStore, Documents, retention_count}

take_bounded {ℓ} : {A : Type ℓ} (n : ℕ) (xs : List A) → length (take n xs) ≤ n
take_bounded zero xs = omega arith
take_bounded (suc n) [] = omega arith
take_bounded (suc n) (x ∷ xs) = omega (arith, take_bounded n xs)

take-In {ℓ} : {A : Type ℓ} {x : A} (n : ℕ) (xs : List A) → In x (take n xs) → In x xs
take-In zero xs i = absurd (elim i [ ])
take-In (suc n) [] i = absurd (elim i [ ])
take-In (suc n) (y ∷ xs) i = elim (In-cons i) [
  | inl e ↦ here y xs e
  | inr j ↦ there y xs (take-In n xs j)
]

highest_above : (n : ℕ) (ms : Mailbox) → n ≤ highest n ms
unfolding highest
highest_above n [] = omega arith
highest_above n (m ∷ ms) =
    ground (arith, highest_above (if ltb n m.sequence then m.sequence else n) ms)

highest_of : {m : MailMessage} (n : ℕ) {ms : Mailbox} → In m ms → m.sequence ≤ highest n ms
unfolding highest
highest_of {m} n (here x ms e) =
    subst (λ (z : MailMessage). z.sequence ≤ highest n (x ∷ ms)) (sym e)
      (ground (arith, highest_above (if ltb n x.sequence then x.sequence else n) ms))
highest_of n (there x ms i) = highest_of (if ltb n x.sequence then x.sequence else n) i

not-true : (b : Bool) → not b ≡ true → b ≡ false
not-true b h = ground (arith, h)

neither : (a b : Bool) → (a || b) ≡ false → (a ≡ false) × (b ≡ false)
neither false b h = (refl, h)
neither true b h = absurd (cc)

below_of : (a : Bool) (i n : ℕ) → (a && ltb i n) ≡ true → i < n
below_of a i n h = ground (arith, h)

-- The receipt of no hot message.
abbrev lone : Mailbox → Receipt → Bool
lone ms r = not (has_key id_of r.id (hot_messages ms))

module _ (clock : Clock) where
  retained_below : (index : ℕ) (r : Receipt) → is_retained clock index r ≡ true → index < 2048
  unfolding is_retained
  retained_below index r e = below_of (is_recent clock r) index retention_count e

  retained_bounded :
      (index : ℕ) (rs : List Receipt)
      → length (retained_from clock index rs) ≤ retention_count - index
  unfolding retained_from
  retained_bounded index [] = omega arith
  retained_bounded index (r ∷ rs) = elim (Bool-cases (is_retained clock index r)) [
    | inl e ↦ rw e (omega (arith, retained_bounded (index + 1) rs, retained_below index r e))
    | inr e ↦ rw e (omega (arith, retained_bounded (index + 1) rs))
  ]

  retained-In :
      {r : Receipt} (index : ℕ) (rs : List Receipt) → In r (retained_from clock index rs) → In r rs
  unfolding retained_from
  retained-In index [] i = absurd (elim i [ ])
  retained-In {r} index (x ∷ rs) i = elim (Bool-cases (is_retained clock index x)) [
    | inl e ↦
        elim (In-cons (
          subst
            (λ b. In r (
              if b
              then x ∷ retained_from clock (index + 1) rs
              else retained_from clock (index + 1) rs))
            e i)) [ inl f ↦ here x rs f | inr j ↦ there x rs (retained-In (index + 1) rs j) ]
    | inr e ↦ there x rs (
        retained-In (index + 1) rs (
          subst
            (λ b. In r (
              if b
              then x ∷ retained_from clock (index + 1) rs
              else retained_from clock (index + 1) rs))
            e i))
  ]

  candidate_apart :
      {r : Receipt} (stored : List Receipt) (ms : Mailbox)
      → In r (receipt_candidates clock stored ms)
      → has_key id_of r.id (hot_messages ms) ≡ false
  unfolding receipt_candidates unique_receipts
  candidate_apart stored ms i =
      elim (by_key-In receipt_id [] (select (lone ms) (stored ++ cold_receipts ms))
        (sort-In (newer_first clock) _ i)) [
          | inl j ↦ absurd (elim j [ ])
          | inr (j, b) ↦ not-true _ (select-In (lone ms) (stored ++ cold_receipts ms) j).1
        ]

  expired_unknown :
      {e : Expired} (entries : List Expired) (hot : Mailbox) (retained : List Receipt)
      → In e (expired_entries clock entries hot retained)
      → is_known hot retained e.id ≡ false
  unfolding expired_entries
  expired_unknown entries hot retained i =
      not-true _
        (select-In (λ (e : Expired). not (is_known hot retained e.id)) _
          (sort-In latest_first _ (take-In retention_count _ i))).1

  expired_short :
      (entries : List Expired) (hot : Mailbox) (retained : List Receipt)
      → length (expired_entries clock entries hot retained) ≤ 2048
  unfolding expired_entries
  expired_short entries hot retained = take_bounded retention_count _

  module _ (s : MailStore) where
    abbrev docs : Documents
    docs = prepare clock s

    -- The documents are bounded, no hot message is above the next sequence, which is no lower
    -- than before, and no id is in two of the hot messages, the receipts and the expired entries.
    pub record IsBounded : Type 0 where
      pub receipts_bound : length docs.receipts.receipts ≤ 2048
      pub expired_bound : length docs.receipts.expired ≤ 2048
      pub next_kept : s.mailbox.next_sequence ≤ docs.hot.next_sequence
      pub next_above :
          (m : MailMessage) → In m docs.hot.messages → m.sequence ≤ docs.hot.next_sequence
      pub receipts_apart :
          (r : Receipt) → In r docs.receipts.receipts → has_key id_of r.id docs.hot.messages ≡ false
      pub expired_apart :
          (e : Expired)
          → In e docs.receipts.expired
          → (has_key id_of e.id docs.hot.messages ≡ false)
            × (has_key receipt_id e.id docs.receipts.receipts ≡ false)

    abbrev ms : Mailbox
    ms = keyed_messages s.mailbox.messages

    abbrev retained : List Receipt
    retained = retained_from clock 0 (receipt_candidates clock s.receipts.receipts ms)

    abbrev entries : List Expired
    entries =
        s.receipts.expired ++ dropped_from clock 0 (receipt_candidates clock s.receipts.receipts ms)

    expired_elsewhere :
        (e : Expired)
        → In e docs.receipts.expired
        → (has_key id_of e.id docs.hot.messages ≡ false)
          × (has_key receipt_id e.id docs.receipts.receipts ≡ false)
    unfolding prepare prepare_keyed is_known
    expired_elsewhere e i =
        let (a, b) = neither _ _ (expired_unknown entries (hot_messages ms) retained i) in
        (
          has_key-sort in_order id_of e.id (hot_messages ms) ∙ a,
          has_key-sort by_sequence receipt_id e.id retained ∙ b,
        )

    -- Whatever the store, the documents that prepareResourceMailboxDocuments makes of it hold at most
    -- 2,048 receipts and as many expired entries; the next sequence is not lowered and not below those
    -- of the hot messages; no receipt has the id of a hot message, and no expired entry that of a hot
    -- message or of a receipt.
    pub prepare-IsBounded : IsBounded
    unfolding prepare prepare_keyed
    prepare-IsBounded = record {
      receipts_bound = omega (
        arith,
        length-sort by_sequence retained,
        retained_bounded 0 (receipt_candidates clock s.receipts.receipts ms),
      );
      expired_bound = expired_short entries (hot_messages ms) retained;
      next_kept = highest_above s.mailbox.next_sequence (hot_messages ms);
      next_above = λ m i. highest_of s.mailbox.next_sequence (sort-In in_order (hot_messages ms) i);
      receipts_apart = λ r i.
          has_key-sort in_order id_of r.id (hot_messages ms)
          ∙ candidate_apart s.receipts.receipts ms
              (retained-In 0 _ (sort-In by_sequence retained i));
      expired_apart = expired_elsewhere;
    }
