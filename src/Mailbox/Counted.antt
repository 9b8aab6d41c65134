-- ===== src/Mailbox/Counted.antt =====
-- The counts of a mailbox agree with its waiting messages and with the choice of the next one.
use pua.Prelude.{
  ℕ, ◌+◌, ◌≤◌, Bool, ◌&&◌, ◌≡◌, ◌↔◌, refl, ap, ◌∙◌, inl, inr, Bool-cases, none, some, [], ◌∷◌, Text,
  is_blank, trim_space, length, if◌then◌else◌, if_cases, arith,
}
use pua.Mailbox.Message.{MailMessage, Mailbox, Status, queued, is_queued, is_waiting}
use pua.Mailbox.Select.{
  normalized_resource_id, is_pending, choose, goes_before, select_from, select_pending,
}
use pua.Mailbox.Counts.{
  Counts, Tally, count_status, note_error, of_resource, count_message, count_from, no_tally,
  mailbox_counts, waiting_of, waiting_messages,
}

-- The messages that wait, are being delivered or interrupt a turn.
abbrev pub pending_count : Counts → ℕ
pending_count c = c.waiting + c.delivering_count + c.interrupting_count

abbrev one_if : Bool → ℕ
one_if b = if b then 1 else 0

noted : (m : MailMessage) (t : Tally) → (note_error m t).counts ≡ t.counts
noted m t =
    if_cases (λ (u : Tally). u.counts ≡ t.counts) (is_blank (trim_space m.last_error)) refl refl

count_status-waiting :
    (s : Status) (c : Counts) → (count_status s c).waiting ≡ c.waiting + one_if (is_queued s)
count_status-waiting queued c = refl
count_status-waiting s c = ground arith

count_status-pending :
    (s : Status) (c : Counts)
    → pending_count (count_status s c) ≡ pending_count c + one_if (is_waiting s)
count_status-pending queued c = omega arith
count_status-pending s c = ground arith

count_message-waiting :
    (id : Text) (m : MailMessage) (t : Tally)
    → (count_message id m t).counts.waiting
      ≡ t.counts.waiting + one_if (of_resource id m && is_queued m.status)
unfolding count_message
count_message-waiting id m t = elim (Bool-cases (of_resource id m)) [
  | inl e ↦
      rw e (ap (λ (c : Counts). c.waiting) (noted m _) ∙ count_status-waiting m.status t.counts)
  | inr e ↦ rw e (omega arith)
]

count_message-pending :
    (id : Text) (m : MailMessage) (t : Tally)
    → pending_count (count_message id m t).counts
      ≡ pending_count t.counts + one_if (is_pending id m)
unfolding count_message is_pending
count_message-pending id m t = elim (Bool-cases (of_resource id m)) [
  | inl e ↦ rw e (ap pending_count (noted m _) ∙ count_status-pending m.status t.counts)
  | inr e ↦ rw e (omega arith)
]

count_from-waiting :
    (id : Text) (t : Tally) (ms : Mailbox)
    → (count_from id t ms).counts.waiting ≡ t.counts.waiting + length (waiting_of id ms)
unfolding count_from waiting_of
count_from-waiting id t [] = omega arith
count_from-waiting id t (m ∷ ms) = elim (Bool-cases (of_resource id m && is_queued m.status)) [
  | inl e ↦ rw e (
      omega (
        arith,
        count_from-waiting id (count_message id m t) ms,
        rw e at (count_message-waiting id m t),
      ))
  | inr e ↦ rw e (
      omega (
        arith,
        count_from-waiting id (count_message id m t) ms,
        rw e at (count_message-waiting id m t),
      ))
]

pending_grows :
    (id : Text) (t : Tally) (ms : Mailbox)
    → pending_count t.counts ≤ pending_count (count_from id t ms).counts
unfolding count_from
pending_grows id t [] = omega arith
pending_grows id t (m ∷ ms) =
    omega (arith, pending_grows id (count_message id m t) ms, count_message-pending id m t)

-- Once a message is selected one stays selected.
select_from-some :
    (id : Text) (s : MailMessage) (ms : Mailbox)
    → (x : MailMessage) × (select_from id (some s) ms ≡ some x)
unfolding select_from choose
select_from-some id s [] = (s, refl)
select_from-some id s (m ∷ ms) = elim (Bool-cases (is_pending id m)) [
  | inl e ↦ rw e (elim (Bool-cases (goes_before m s)) [
    | inl f ↦ rw f (select_from-some id m ms)
    | inr f ↦ rw f (select_from-some id s ms)
  ])
  | inr e ↦ rw e (select_from-some id s ms)
]

count_from-select :
    (id : Text) (t : Tally) (ms : Mailbox)
    → (pending_count (count_from id t ms).counts ≡ pending_count t.counts)
      ↔ (select_from id none ms ≡ none)
unfolding count_from select_from choose
count_from-select id t [] = (λ _. refl, λ _. refl)
count_from-select id t (m ∷ ms) = elim (Bool-cases (is_pending id m)) [
  | inl e ↦
      let (x, f) = select_from-some id m ms in
      (
        λ h. absurd (
            omega (
              arith,
              h,
              pending_grows id (count_message id m t) ms,
              rw e at (count_message-pending id m t),
            )),
        λ h. absurd (cc (f, rw e at h)),
      )
  | inr e ↦
      let (p, q) = count_from-select id (count_message id m t) ms in
      rw e (
        λ h. p (omega (arith, h, rw e at (count_message-pending id m t))),
        λ h. omega (arith, q h, rw e at (count_message-pending id m t)),
      )
]

-- The number of waiting messages that mailboxCounts tells is the length of what
-- waitingMailboxMessages lists; and selectPendingMailboxMessage finds no message exactly where
-- mailboxCounts tells of none that waits, is being delivered or interrupts.
pub mailbox_counts-waiting_messages :
    (mailbox : Mailbox) (id : Text)
    → ((mailbox_counts mailbox id).counts.waiting ≡ length (waiting_messages mailbox id))
      × ((pending_count (mailbox_counts mailbox id).counts ≡ 0)
          ↔ (select_pending mailbox id ≡ none))
unfolding mailbox_counts waiting_messages select_pending
mailbox_counts-waiting_messages mailbox id = (
  count_from-waiting (normalized_resource_id id) no_tally mailbox ∙ omega arith,
  count_from-select (normalized_resource_id id) no_tally mailbox,
)
