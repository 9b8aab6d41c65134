-- ===== src/Mailbox/Cancelled.antt =====
-- What cancelPendingSteerMessages cancels (internal/serve/resource_mailbox.go).
use pua.Prelude.{Bool, true, false, ◌≡◌, ◌⊎◌, List, [], ◌∷◌, Text, text_eq}
use pua.Mailbox.Message.{MailMessage, Mailbox, queued, cancelled, is_queued, steer, is_steer}
use pua.Mailbox.Select.{normalized_resource_id}
use pua.Mailbox.Operations.{ResourceMailbox, MailboxEnv}

-- Of the resource `id`, queued and asked to steer.
abbrev pub IsWanted : Text → MailMessage → Type 0
IsWanted id m =
    (text_eq (normalized_resource_id m.resource_id) (normalized_resource_id id) ≡ true)
    × (m.status ≡ queued)
    × (m.requested_mode ≡ steer)

abbrev pub IsUnwanted : Text → MailMessage → Type 0
IsUnwanted id m =
    (text_eq (normalized_resource_id m.resource_id) (normalized_resource_id id) ≡ false)
    ⊎ (is_queued m.status ≡ false)
    ⊎ (is_steer m.requested_mode ≡ false)

-- The messages before, after, and the ids of the cancelled ones.
pub data Cancels (id : Text) : Mailbox → Mailbox → List Text → Type 0 where
  ends : Cancels id [] [] []
  cancels :
      {m x : MailMessage} {ms xs : Mailbox} {ids : List Text}
      → IsWanted id m
      → (x.id ≡ m.id) × (x.sequence ≡ m.sequence) × (x.status ≡ cancelled) × (x.text ≡ m.text)
      → Cancels id ms xs ids
      → Cancels id (m ∷ ms) (x ∷ xs) (m.id ∷ ids)
  leaves :
      {m : MailMessage} {ms xs : Mailbox} {ids : List Text}
      → IsUnwanted id m
      → Cancels id ms xs ids
      → Cancels id (m ∷ ms) (m ∷ xs) ids

module _ (env : MailboxEnv) (resource : Text) where
  abbrev pub IsCancellation : ResourceMailbox → List Text × Bool × ResourceMailbox → Type 0
  IsCancellation b (ids, true, r) =
      (r.next_sequence ≡ b.next_sequence) × Cancels resource b.messages r.messages ids
  IsCancellation b (ids, false, r) = r ≡ b
