-- ===== src/Mailbox/Select.antt =====
-- mailboxPriority, normalizedResourceID and selectPendingMailboxMessage of
-- internal/serve/resource_mailbox.go.
use pua.Prelude.{
  ℕ, Bool, not, ◌&&◌, ◌||◌, ◌==◌, ltb, Option, none, some, [], ◌∷◌, Text, txt, text_eq, is_blank,
  trim_space, if◌then◌else◌,
}
use pua.Mailbox.Message.{
  MailMessage, Mailbox, Mode, steer, interrupt, is_delivering, is_interrupting, is_waiting,
}

unfoldable pub normalized_resource_id : Text → Text
normalized_resource_id id = if is_blank (trim_space id) then txt "workspace" else trim_space id

-- The switch on the requested mode, with numbers that are the source's plus 2.
abbrev pub mode_priority : Mode → ℕ
mode_priority interrupt = 2
mode_priority steer = 4
mode_priority _ = 5

-- The source's int, from -2 to 3, plus 2.
unfoldable pub mailbox_priority : MailMessage → ℕ
mailbox_priority m =
    if is_delivering m.status
    then 0
    else if is_interrupting m.status
    then 1
    else if not (is_blank m.promoted_at)
    then 3
    else mode_priority m.requested_mode

-- The message waits for the resource, whose id is normalised.
unfoldable pub is_pending : Text → MailMessage → Bool
unfolding normalized_resource_id
is_pending id m = text_eq (normalized_resource_id m.resource_id) id && is_waiting m.status

-- `message` goes before `selected`.
unfoldable pub goes_before : MailMessage → MailMessage → Bool
goes_before m s =
    ltb (mailbox_priority m) (mailbox_priority s)
    || (mailbox_priority m == mailbox_priority s && ltb m.sequence s.sequence)

-- One round of the loop.
unfoldable pub choose : Option MailMessage → MailMessage → Option MailMessage
unfolding goes_before
choose none m = some m
choose (some s) m = if goes_before m s then some m else some s

unfoldable pub select_from : Text → Option MailMessage → Mailbox → Option MailMessage
unfolding choose is_pending
select_from id selected [] = selected
select_from id selected (m ∷ ms) =
    select_from id (if is_pending id m then choose selected m else selected) ms

unfoldable pub select_pending : Mailbox → Text → Option MailMessage
unfolding select_from
select_pending mailbox id = select_from (normalized_resource_id id) none mailbox
