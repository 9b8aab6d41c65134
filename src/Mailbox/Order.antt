-- ===== src/Mailbox/Order.antt =====
-- The message that selectPendingMailboxMessage returns (internal/serve/resource_mailbox.go).
use pua.Prelude.{
  ◌≤◌, ◌<◌, ◌≡◌, refl, subst, ◌⊎◌, inl, inr, true, false, Option, none, some, [], ◌∷◌, arith, Text,
  All, Bool-cases,
}
use pua.Mailbox.Message.{MailMessage, Mailbox, is_waiting}
use pua.Mailbox.Select.{
  mailbox_priority, is_pending, goes_before, select_from, select_pending, normalized_resource_id,
}

-- `m` has a smaller priority number than `x`, or the same with no greater sequence.
abbrev pub IsFirst : MailMessage → MailMessage → Type 0
IsFirst m x =
    (mailbox_priority m < mailbox_priority x)
    ⊎ (mailbox_priority m ≡ mailbox_priority x) × (m.sequence ≤ x.sequence)

-- Some entry of the mailbox is this message.
abbrev pub Holds : MailMessage → Mailbox → Type 0
Holds m [] = ⊥
Holds m (x ∷ xs) = (m ≡ x) ⊎ Holds m xs

goes_before-IsFirst : (m s : MailMessage) → goes_before m s ≡ true → IsFirst m s
unfolding goes_before
goes_before-IsFirst m s h = ground arith

not-goes_before-IsFirst : (m s : MailMessage) → goes_before m s ≡ false → IsFirst s m
unfolding goes_before
not-goes_before-IsFirst m s h = ground arith

IsFirst-trans : (a b c : MailMessage) → IsFirst a b → IsFirst b c → IsFirst a c
IsFirst-trans a b c h k = ground arith

-- A message that waits and stands in the mailbox, or another one that is named.
abbrev FromMailbox : Text → MailMessage → Mailbox → MailMessage → Type 0
FromMailbox id s ms m = (m ≡ s) ⊎ Holds m ms × (is_pending id m ≡ true)

abbrev AllAfter : Text → MailMessage → Mailbox → Type 0
AllAfter id m ms = All (λ x. (is_pending id x ≡ false) ⊎ IsFirst m x) ms

-- A result of the loop that began with the message `s` selected.
abbrev Continues : Text → MailMessage → Mailbox → Option MailMessage → Type 0
Continues id s ms none = ⊥
Continues id s ms (some m) = IsFirst m s × AllAfter id m ms × FromMailbox id s ms m

FromMailbox-skip :
    (id : Text) (s x : MailMessage) (ms : Mailbox) (m : MailMessage)
    → FromMailbox id s ms m
    → FromMailbox id s (x ∷ ms) m
FromMailbox-skip id s x ms m (inl e) = inl e
FromMailbox-skip id s x ms m (inr h) = inr (inr h.0, h.1)

FromMailbox-take :
    (id : Text) (s x : MailMessage) (ms : Mailbox) (m : MailMessage)
    → is_pending id x ≡ true
    → FromMailbox id x ms m
    → Holds m (x ∷ ms) × (is_pending id m ≡ true)
FromMailbox-take id s x ms m p (inl e) = (inl e, rw e p)
FromMailbox-take id s x ms m p (inr h) = (inr h.0, h.1)

Continues-skip :
    (id : Text) (s x : MailMessage) (ms : Mailbox) (r : Option MailMessage)
    → is_pending id x ≡ false
    → Continues id s ms r
    → Continues id s (x ∷ ms) r
Continues-skip id s x ms none p h = h
Continues-skip id s x ms (some m) p h = (h.0, (inl p, h.1), FromMailbox-skip id s x ms m h.2)

Continues-keep :
    (id : Text) (s x : MailMessage) (ms : Mailbox) (r : Option MailMessage)
    → IsFirst s x
    → Continues id s ms r
    → Continues id s (x ∷ ms) r
Continues-keep id s x ms none p h = h
Continues-keep id s x ms (some m) p h =
    (h.0, (inr (IsFirst-trans m s x h.0 p), h.1), FromMailbox-skip id s x ms m h.2)

Continues-take :
    (id : Text) (s x : MailMessage) (ms : Mailbox) (r : Option MailMessage)
    → is_pending id x ≡ true
    → IsFirst x s
    → Continues id x ms r
    → Continues id s (x ∷ ms) r
Continues-take id s x ms none p f h = h
Continues-take id s x ms (some m) p f h =
    (IsFirst-trans m x s h.0 f, (inr h.0, h.1), inr (FromMailbox-take id s x ms m p h.2))

select_from-Continues :
    (id : Text) (s : MailMessage) (ms : Mailbox) → Continues id s ms (select_from id (some s) ms)
unfolding select_from
select_from-Continues id s [] = (inr (refl, omega arith), tt, inl refl)
select_from-Continues id s (x ∷ xs) = elim (Bool-cases (is_pending id x)) [
  | inl p ↦ elim (Bool-cases (goes_before x s)) [
    | inl b ↦
        rw (p, b)
          (Continues-take id s x xs _ p (goes_before-IsFirst x s b) (select_from-Continues id x xs))
    | inr b ↦
        rw (p, b)
          (Continues-keep id s x xs _ (not-goes_before-IsFirst x s b)
            (select_from-Continues id s xs))
  ]
  | inr p ↦ rw p (Continues-skip id s x xs _ p (select_from-Continues id s xs))
]

-- A result of the whole loop.
abbrev pub Selects : Text → Mailbox → Option MailMessage → Type 0
Selects id ms none = All (λ x. is_pending id x ≡ false) ms
Selects id ms (some m) =
    Holds m ms × (is_pending id m ≡ true) × All (λ x. (is_pending id x ≡ false) ⊎ IsFirst m x) ms

Selects-skip :
    (id : Text) (x : MailMessage) (ms : Mailbox) (r : Option MailMessage)
    → is_pending id x ≡ false
    → Selects id ms r
    → Selects id (x ∷ ms) r
Selects-skip id x ms none p h = (p, h)
Selects-skip id x ms (some m) p h = (inr h.0, h.1, (inl p, h.2))

Selects-take :
    (id : Text) (x : MailMessage) (ms : Mailbox) (r : Option MailMessage)
    → is_pending id x ≡ true
    → Continues id x ms r
    → Selects id (x ∷ ms) r
Selects-take id x ms none p h = absurd h
Selects-take id x ms (some m) p h =
    let (held, pending) = FromMailbox-take id x x ms m p h.2 in (held, pending, (inr h.0, h.1))

select_from-Selects : (id : Text) (ms : Mailbox) → Selects id ms (select_from id none ms)
unfolding select_from
select_from-Selects id [] = tt
select_from-Selects id (x ∷ xs) = elim (Bool-cases (is_pending id x)) [
  | inl p ↦ rw p (Selects-take id x xs _ p (select_from-Continues id x xs))
  | inr p ↦ rw p (Selects-skip id x xs _ p (select_from-Selects id xs))
]

-- The message selected is in the mailbox, waits for the resource, and no message that waits for the
-- resource has a smaller priority, or the same priority and a smaller sequence; none is selected
-- only where no message waits for the resource.
pub select_pending-Selects :
    (mailbox : Mailbox) (id : Text)
    → Selects (normalized_resource_id id) mailbox (select_pending mailbox id)
unfolding select_pending
select_pending-Selects mailbox id = select_from-Selects (normalized_resource_id id) mailbox

pending_waits : (id : Text) (m : MailMessage) → is_pending id m ≡ true → is_waiting m.status ≡ true
unfolding is_pending
pending_waits id m h = ground (arith, h)

pub select_pending-waiting :
    (mailbox : Mailbox) (id : Text) (m : MailMessage)
    → select_pending mailbox id ≡ some m
    → is_waiting m.status ≡ true
select_pending-waiting mailbox id m e =
    pending_waits (normalized_resource_id id) m
      (subst (Selects (normalized_resource_id id) mailbox) e (select_pending-Selects mailbox id)).1
