-- ===== src/MailStore/Hot.antt =====
-- Which messages stay in the hot document, and whether a store has work or is to be compacted:
-- internal/serve/resource_mailbox_store.go.
use pua.Prelude.{
  Bool, true, false, not, ◌&&◌, ◌||◌, ◌==◌, ltb, Option, none, some, List, [], ◌∷◌, Text, txt,
  text_eq, is_blank, trim_space, if◌then◌else◌,
}
use pua.Mailbox.Message.{
  MailMessage, Mailbox, Status, Sender, Notification, is_waiting, is_delivered, cancelled,
  undeliverable, delivery_unknown,
}
use pua.Version.Compare.{text_less}
use pua.MailStore.Outbox.{Operation}
use pua.MailStore.Schema.{MailStore}

abbrev pub is_abandoned_status : Status → Bool
is_abandoned_status cancelled = true
is_abandoned_status undeliverable = true
is_abandoned_status delivery_unknown = true
is_abandoned_status _ = false

-- `status == delivered || status == terminal` of a notification.
abbrev pub is_closed_status : Text → Bool
is_closed_status s = text_eq s (txt "delivered") || text_eq s (txt "terminal")

abbrev pub is_open_notification : Option Notification → Bool
is_open_notification none = false
is_open_notification (some n) = not (is_closed_status n.status)

abbrev pub is_named_sender : Option Sender → Bool
is_named_sender none = false
is_named_sender (some s) = not (is_blank (trim_space s.id))

abbrev pub is_absent : Option Notification → Bool
is_absent none = true
is_absent (some n) = false

-- The message ended without delivery, and its sender is still to be told.
abbrev pub owes_notice : MailMessage → Bool
owes_notice m =
    is_blank m.kind
    && is_abandoned_status m.status
    && text_eq m.role (txt "agent")
    && is_named_sender m.sender
    && not (is_blank (trim_space m.sender_workspace_instance_id))
    && is_absent m.notification

-- mailboxMessageNeedsHot.
unfoldable pub needs_hot : MailMessage → Bool
needs_hot m =
    not m.receipt && (is_waiting m.status || is_open_notification m.notification || owes_notice m)

abbrev pub is_tick : MailMessage → Bool
is_tick m = text_eq m.kind (txt "scheduler_tick")

abbrev pub is_later : MailMessage → MailMessage → Bool
is_later m s = ltb s.sequence m.sequence || (m.sequence == s.sequence && text_less s.id m.id)

abbrev pub later_of : Option MailMessage → MailMessage → Option MailMessage
later_of none m = some m
later_of (some s) m = if is_later m s then some m else some s

unfoldable pub latest_tick : Option MailMessage → Mailbox → Option MailMessage
unfolding text_less
latest_tick latest [] = latest
latest_tick latest (m ∷ ms) = latest_tick (if is_tick m then later_of latest m else latest) ms

abbrev pub open_tick_id : Option MailMessage → Text
open_tick_id none = []
open_tick_id (some m) =
    if m.receipt || not (is_delivered m.status) || not (is_blank (trim_space m.turn_terminal_at))
    then []
    else m.id

-- latestSchedulerTickNeedingHot.
unfoldable pub hot_tick_id : Mailbox → Text
unfolding latest_tick
hot_tick_id ms = open_tick_id (latest_tick none ms)

-- The message stays in the hot document.
unfoldable pub is_hot : Text → MailMessage → Bool
unfolding needs_hot
is_hot tick m = text_eq m.id tick || needs_hot m

unfoldable pub any_hot : Text → Mailbox → Bool
unfolding is_hot
any_hot tick [] = false
any_hot tick (m ∷ ms) =
    let rest = any_hot tick ms in if not m.receipt && is_hot tick m then true else rest

unfoldable pub any_open : List Operation → Bool
any_open [] = false
any_open (o ∷ os) = let rest = any_open os in if not (is_closed_status o.status) then true else rest

-- resourceMailboxStoreNeedsHotWork.
unfoldable pub needs_hot_work : MailStore → Bool
unfolding hot_tick_id any_hot any_open
needs_hot_work s =
    any_hot (hot_tick_id s.mailbox.messages) s.mailbox.messages || any_open s.outbox.operations

unfoldable pub any_cold : Text → Mailbox → Bool
unfolding is_hot
any_cold tick [] = false
any_cold tick (m ∷ ms) =
    let rest = any_cold tick ms in if m.receipt || is_hot tick m then rest else true

-- resourceMailboxStoreNeedsCompaction.
unfoldable pub needs_compaction : MailStore → Bool
unfolding hot_tick_id any_cold
needs_compaction s = any_cold (hot_tick_id s.mailbox.messages) s.mailbox.messages
