-- ===== src/Reconcile/World.antt =====
-- What one round of the reconciliation asks of its surroundings, and the steps that it takes: the
-- answers of the generation store, the runtime and the AgentHub client are given as data.
use pua.Prelude.{ℕ, ◌+◌, Bool, Option, List, [], ◌∷◌, ◌++◌, Text, txt, text_eq, ◌&&◌, if◌then◌else◌}
use pua.Generation.Legacy.{GenerationRecord, HubSession}
use pua.Mailbox.Message.{MailMessage, Mailbox, ProviderContext}
use pua.Reconcile.Updates.{Failure, Canonical, touched, note_failure}

-- A result, or the error that is returned.
pub data Answer {ℓ} (A : Type ℓ) : Type ℓ where
  given : A → Answer A
  refused : Failure → Answer A

-- client.GetSession, with an error that isTerminalResumeError recognises apart from the others.
pub data Fetched : Type 0 where
  fetched : HubSession → Fetched
  gone unreachable : Failure → Fetched

-- prepareResourceGenerationForNewTurnLocked.
pub data Prepared : Type 0 where
  replaced : Prepared
  kept : GenerationRecord → Prepared
  not_prepared : Failure → Prepared

-- resumeStoppedGenerationLocked.
pub data Resumed : Type 0 where
  resumed not_resumed : Resumed
  cannot_resume resume_failed : Failure → Resumed

-- client.Message; the flag of an error is whether it is the conflict of a message id.
pub data Sending : Type 0 where
  received : HubSession → Sending
  not_received : Bool → Failure → Sending

pub record World : Type 0 where
  pub clock : Text
  pub now : ℕ
  pub parse_time : Text → Option ℕ
  pub mailbox : Mailbox
  pub disk : ℕ → Bool
  -- currentGenerationRecordByID and agentHubRuntimeConfig.
  pub associated : Answer (Option GenerationRecord)
  pub configured : Answer Bool
  pub ensured : Answer GenerationRecord
  pub task_state : Answer Bool
  pub session : Fetched
  pub retired : Answer Bool
  pub config_read : Answer Bool
  pub matches : Bool
  pub observed : GenerationRecord
  pub prepared : Prepared
  pub resume : Resumed
  -- Whether a current generation is still found.
  pub current_found : Answer Bool
  pub attempt_due : Bool
  pub interrupted : Answer HubSession
  -- The generation that legacyLifecyclePlanStillCurrent finds, one read after the other.
  pub reread : ℕ → Answer (Option GenerationRecord)
  pub context : Answer ProviderContext
  pub work_chain : Answer Bool
  pub outbound : Answer Bool
  pub sending : Sending
  pub canonical : Answer (Option Canonical)
  -- The turn of the canonical event after a delivery; `none` where it is not found.
  pub canonical_turn : Option Text

-- What is sent to AgentHub, with the session observed and the message as it is stored then.
pub data Sent : Type 0 where
  interrupts delivers : HubSession → MailMessage → Sent

pub record State : Type 0 where
  pub current : MailMessage
  pub sent : List Sent
  pub writes : ℕ

-- How a round ends: the loop goes on, or the reconciliation returns.
pub data Exit : Type 0 where
  again done : Exit
  failed : Failure → Exit

pub data Flow {ℓ} (A : Type ℓ) : Type ℓ where
  next : A → State → Flow A
  stop : Exit → State → Flow A

abbrev pub Round {ℓ} : Type ℓ → Type ℓ
Round A = State → Flow A

abbrev pub pure {ℓ} : {A : Type ℓ} → A → Round A
pure a s = next a s

infixl 5 ◌>>=◌
unfoldable pub ◌>>=◌ {ℓ κ} : {A : Type ℓ} {B : Type κ} → Round A → (A → Round B) → Round B
(p >>= f) s = elim (p s) [ next a t ↦ f a t | stop e t ↦ stop e t ]

abbrev pub leave {ℓ} : {A : Type ℓ} → Exit → Round A
leave e s = stop e s

abbrev pub reach {ℓ} : {A : Type ℓ} → Answer A → Round A
reach (given a) s = next a s
reach (refused e) s = stop (failed e) s

abbrev write_failure : Failure
write_failure = record { text = txt "write"; code = [] }

-- The state after one more write, with the message that is stored then.
abbrev pub store : MailMessage → State → State
store x s = record { current = x; sent = s.sent; writes = s.writes + 1 }

-- updateMailboxMessage: the message as stored, or the error of the write.
unfoldable pub update : World → (MailMessage → MailMessage) → Round MailMessage
unfolding touched
update w f s =
    if w.disk s.writes
    then next (touched w.clock (f s.current)) (store (touched w.clock (f s.current)) s)
    else stop (failed write_failure) (store s.current s)

-- recordMailboxFailure, which ignores the error of the write.
unfoldable pub record_failure : World → Failure → Round MailMessage
unfolding note_failure touched
record_failure w e s =
    if text_eq s.current.last_error e.text && text_eq s.current.last_error_code e.code
    then next s.current s
    else if w.disk s.writes
    then next (touched w.clock (note_failure e s.current))
        (store (touched w.clock (note_failure e s.current)) s)
    else next s.current (store s.current s)

unfoldable pub send : (HubSession → MailMessage → Sent) → HubSession → Round MailMessage
send kind session s = next s.current (record s { sent = s.sent ++ kind session s.current ∷ [] })
