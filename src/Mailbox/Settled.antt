-- ===== src/Mailbox/Settled.antt =====
-- What accepting, cancelling and archiving keep: the numbers of the messages and the steps of their
-- statuses.
use pua.Prelude.{
  ℕ, ◌+◌, ◌≤◌, ◌<◌, Bool, true, false, not, ◌&&◌, ◌^◌, ◌%◌, ◌≡◌, refl, sym, subst, ◌⊎◌, inl, inr,
  Option, none, some, [], ◌∷◌, ◌++◌, map, All, Text, text_eq, is_blank, trim_space, if_cases,
  if◌then◌else◌, arith, Bool-cases,
}
use pua.Mailbox.Message.{
  MailMessage, Mailbox, Mode, Status, queued, delivering, interrupting, cancelled, undeliverable,
  delivery_unknown, is_waiting, is_queued, is_delivering,
}
use pua.Mailbox.Select.{normalized_resource_id}
use pua.Mailbox.Operations.{
  ResourceMailbox, Accepted, MailboxEnv, MessageRequest, append_written, accept_checked,
  accept_message, is_pending_steer, cancel_steer, cancel_pending_steers, is_abandoned, abandoned,
  abandon, mark_archived,
}
use pua.Reconcile.Steps.{Steps, rests, one, loses_it, cancels_it, gives_it_up}

-- The sequences rise, from above `low` to at most `high`.
abbrev pub Rises : ℕ → ℕ → Mailbox → Type 0
Rises low high [] = low ≤ high
Rises low high (m ∷ ms) = (low < m.sequence) × Rises m.sequence high ms

-- The messages are numbered in their order, and none is above the last number given.
abbrev pub IsNumbered : ResourceMailbox → Type 0
IsNumbered b = Rises 0 b.next_sequence b.messages

wraps_not : (n : ℕ) → n < 2 ^ 64 → n % 2 ^ 64 ≡ n
wraps_not n h = omega (arith, h)

Rises-append :
    (low high : ℕ) (ms : Mailbox) (x : MailMessage)
    → x.sequence ≡ high + 1
    → Rises low high ms
    → Rises low (high + 1) (ms ++ x ∷ [])
Rises-append low high [] x e h = (omega (arith, e, h), omega (arith, e))
Rises-append low high (m ∷ ms) x e (a, h) = (a, Rises-append m.sequence high ms x e h)

Rises-map :
    (f : MailMessage → MailMessage) (keeps : (m : MailMessage) → (f m).sequence ≡ m.sequence)
    (low high : ℕ) (ms : Mailbox)
    → Rises low high ms
    → Rises low high (map f ms)
Rises-map f keeps low high [] h = h
Rises-map f keeps low high (m ∷ ms) (a, h) =
    (rw (keeps m) a, rw (keeps m) (Rises-map f keeps m.sequence high ms h))

-- A message after the change: the same one, its status moved along the steps that are allowed.
abbrev pub Moved : MailMessage → MailMessage → Type 0
Moved m x = (x.id ≡ m.id) × (x.sequence ≡ m.sequence) × Steps m.status x.status

-- The messages stay in their places, each one moved.
abbrev pub AllMoved : Mailbox → Mailbox → Type 0
AllMoved [] [] = Unit
AllMoved (m ∷ ms) (x ∷ xs) = Moved m x × AllMoved ms xs
AllMoved _ _ = ⊥

pub Moved-refl : (m : MailMessage) → Moved m m
Moved-refl m = (refl, refl, rests)

pub AllMoved-refl : (ms : Mailbox) → AllMoved ms ms
AllMoved-refl [] = tt
AllMoved-refl (m ∷ ms) = (Moved-refl m, AllMoved-refl ms)

AllMoved-map :
    (f : MailMessage → MailMessage)
    → ((m : MailMessage) → Moved m (f m))
    → (ms : Mailbox) → AllMoved ms (map f ms)
AllMoved-map f h [] = tt
AllMoved-map f h (m ∷ ms) = (h m, AllMoved-map f h ms)

queued_cancelled : (s : Status) → is_queued s ≡ true → Steps s cancelled
queued_cancelled queued h = one (cancels_it refl refl)
queued_cancelled s h = absurd (ground (arith, h))

waiting_abandoned :
    (s : Status)
    → is_waiting s ≡ true
    → Steps s (if is_delivering s then delivery_unknown else undeliverable)
waiting_abandoned delivering h = one (loses_it refl)
waiting_abandoned queued h = one (gives_it_up refl)
waiting_abandoned interrupting h = one (gives_it_up refl)
waiting_abandoned s h = absurd (ground (arith, h))

settled :
    (s : Status) → is_waiting (if is_delivering s then delivery_unknown else undeliverable) ≡ false
settled s = ground arith

last_false : (a b c : Bool) → c ≡ false → (a && b && c) ≡ false
last_false a b c h = ground (arith, h)

some_false : (a b c : Bool) → (a && not b && c) ≡ false → (a ≡ false) ⊎ (b ≡ true) ⊎ (c ≡ false)
some_false false b c h = inl refl
some_false true true c h = inr (inl refl)
some_false true false c h = inr (inr h)

module _ (env : MailboxEnv) (resource : Text) where
  cancel_steer-Moved : (m : MailMessage) → Moved m (cancel_steer env resource m)
  unfolding cancel_steer
  cancel_steer-Moved m = elim (Bool-cases (is_pending_steer env resource m)) [
    | inl e ↦ rw e (refl, refl, queued_cancelled m.status (ground (arith, e)))
    | inr e ↦ rw e (Moved-refl m)
  ]

  abandon-Moved : (m : MailMessage) → Moved m (abandon env resource m)
  unfolding abandon
  abandon-Moved m = elim (Bool-cases (is_abandoned env resource m)) [
    | inl e ↦ rw e (refl, refl, waiting_abandoned m.status (ground (arith, e)))
    | inr e ↦ rw e (Moved-refl m)
  ]

  idle : (x : MailMessage) → is_waiting x.status ≡ false → is_abandoned env resource x ≡ false
  idle x h = last_false _ (not x.receipt) (is_waiting x.status) h

  abandon-settles : (m : MailMessage) → is_abandoned env resource (abandon env resource m) ≡ false
  unfolding abandon
  abandon-settles m = elim (Bool-cases (is_abandoned env resource m)) [
    | inl e ↦ rw e (idle (abandoned env resource m) (settled m.status))
    | inr e ↦ rw e e
  ]

  -- Each message of the mailbox is of another resource, or a receipt, or waits no longer.
  abbrev pub IsArchived : Mailbox → Type 0
  IsArchived = All (λ m.
      (text_eq (normalized_resource_id m.resource_id) (normalized_resource_id resource) ≡ false)
      ⊎ (m.receipt ≡ true)
      ⊎ (is_waiting m.status ≡ false))

  map-IsArchived : (ms : Mailbox) → IsArchived (map (abandon env resource) ms)
  map-IsArchived [] = tt
  map-IsArchived (m ∷ ms) = (some_false _ _ _ (abandon-settles m), map-IsArchived ms)

  abbrev Archives : Bool → ResourceMailbox → ResourceMailbox → Type 0
  Archives disk b r = AllMoved b.messages r.messages × ((disk ≡ false) ⊎ IsArchived r.messages)

  -- The write of the archived mailbox.
  archived_write :
      (disk : Bool) (b : ResourceMailbox)
      → Archives disk b
          (if disk then record b { messages = map (abandon env resource) b.messages } else b)
  archived_write true b = (
    AllMoved-map (abandon env resource) abandon-Moved b.messages,
    inr (map-IsArchived b.messages),
  )
  archived_write false b = (AllMoved-refl b.messages, inl refl)

  -- After markResourceMailboxArchived every message stands in its place and is the same one, its
  -- status moved along the steps that are allowed; and where the write worked no message that is no
  -- receipt waits for the resource.
  pub mark_archived-IsArchived :
      (b : ResourceMailbox)
      → AllMoved b.messages (mark_archived env resource b).1.messages
        × (((mark_archived env resource b).0 ≡ false)
            ⊎ IsArchived (mark_archived env resource b).1.messages)
  unfolding mark_archived
  mark_archived-IsArchived b = archived_write env.disk b

  append_written-IsNumbered :
      (disk : Bool) (message : ℕ → MailMessage) (b : ResourceMailbox)
      → ((n : ℕ) → (message n).sequence ≡ n)
      → b.next_sequence + 1 < 2 ^ 64
      → IsNumbered b
      → IsNumbered (append_written disk message b).1
  append_written-IsNumbered true message b e n h =
      subst
        (λ k. IsNumbered (record { next_sequence = k; messages = b.messages ++ message k ∷ [] }))
        (sym (wraps_not (b.next_sequence + 1) n))
        (Rises-append 0 b.next_sequence b.messages (message (b.next_sequence + 1))
          (e (b.next_sequence + 1)) h)
  append_written-IsNumbered false message b e n h = h

  accept_checked-IsNumbered :
      (request : MessageRequest) (mode : Option Mode) (role : Option Text) (b : ResourceMailbox)
      → b.next_sequence + 1 < 2 ^ 64
      → IsNumbered b
      → IsNumbered (accept_checked env resource request mode role b).1
  accept_checked-IsNumbered request none role b n h = h
  accept_checked-IsNumbered request (some mode) none b n h = h
  accept_checked-IsNumbered request (some mode) (some role) b n h =
      if_cases (λ (r : Accepted × ResourceMailbox). IsNumbered r.1)
        (is_blank (trim_space request.text)) h
        (append_written-IsNumbered env.disk _ b (λ k. refl) n h)

  changes-IsNumbered :
      (f : MailMessage → MailMessage) (b : ResourceMailbox)
      → ((m : MailMessage) → Moved m (f m))
      → IsNumbered b
      → IsNumbered (if env.disk then record b { messages = map f b.messages } else b)
  changes-IsNumbered f b h k =
      if_cases IsNumbered env.disk (Rises-map f (λ m. (h m).1) 0 b.next_sequence b.messages k) k

  -- Where the messages of a mailbox rise in number, none is above the last number given and that one is
  -- below 2^64 - 1, the same holds after a message is accepted or refused, after the pending steers
  -- are cancelled and after the mailbox is archived, save that the last number may then be 2^64 - 1.
  pub operations-IsNumbered :
      (request : MessageRequest) (b : ResourceMailbox)
      → b.next_sequence + 1 < 2 ^ 64
      → IsNumbered b
      → IsNumbered (accept_message env resource request b).1
        × IsNumbered (cancel_pending_steers env resource b).2
        × IsNumbered (mark_archived env resource b).1
  unfolding accept_message cancel_pending_steers mark_archived
  operations-IsNumbered request b n h = (
    accept_checked-IsNumbered request _ _ b n h,
    changes-IsNumbered (cancel_steer env resource) b cancel_steer-Moved h,
    changes-IsNumbered (abandon env resource) b abandon-Moved h,
  )
