-- ===== src/Reconcile/Loop.antt =====
-- The loop of reconcileResourceMailboxLocked (internal/serve/resource_mailbox.go) for a resource that
-- is not archived, and what it sends. `answers` gives what each iteration meets; the mailbox in it
-- holds the messages that were accepted since the iteration before.
use pua.Prelude.{ℕ, zero, suc, Option, none, some, List, [], ◌++◌, Text, txt}
use pua.Mailbox.Message.{MailMessage, Mailbox}
use pua.Mailbox.Select.{select_pending}
use pua.Reconcile.Updates.{Failure}
use pua.Reconcile.World.{World, Sent, State, Exit, again, done, failed, Flow, next, stop}
use pua.Reconcile.Deliver.{with_stored, round}
use pua.Reconcile.Sound.{begin}

pub record Outcome : Type 0 where
  pub error : Option Failure
  pub mailbox : Mailbox
  pub sent : List Sent

abbrev pub over : Flow Exit → Exit × State
over (next e s) = (e, s)
over (stop e s) = (e, s)

-- One iteration for the message that was selected: how it ends, and the state then.
unfoldable pub run : World → MailMessage → Exit × State
unfolding round
run w m = over (round w m (begin m 0))

abbrev iteration_limit : Failure
iteration_limit = record {
  text = txt "resource mailbox reconciliation exceeded its bounded iteration limit";
  code = [];
}

abbrev after : List Sent → Outcome → Outcome
after l o = record o { sent = l ++ o.sent }

abbrev pub max_iterations : ℕ
max_iterations = 32

-- What one iteration leaves; `rest` is the rest of the loop.
unfoldable pub follow_on : (Mailbox → Outcome) → Mailbox → Exit × State → Outcome
unfolding with_stored
follow_on rest mailbox (again, s) = after s.sent (rest (with_stored s.current mailbox))
follow_on rest mailbox (done, s) = record {
  error = none;
  mailbox = with_stored s.current mailbox;
  sent = s.sent;
}
follow_on rest mailbox (failed e, s) = record {
  error = some e;
  mailbox = with_stored s.current mailbox;
  sent = s.sent;
}

unfoldable pub proceed : (Mailbox → Outcome) → World → Option MailMessage → Outcome
unfolding run follow_on
proceed rest w none = record { error = none; mailbox = w.mailbox; sent = [] }
proceed rest w (some m) = follow_on rest w.mailbox (run w m)

module _ (answers : ℕ → World) (id : Text) where
  -- What iteration `i` meets, for the mailbox as the iteration before left it.
  abbrev pub world_at : ℕ → Mailbox → World
  world_at i mailbox = record (answers i) { mailbox = mailbox ++ (answers i).mailbox }

  -- `n` iterations are left, and `i` were made.
  unfoldable pub iterate : ℕ → ℕ → Mailbox → Outcome
  unfolding proceed select_pending
  iterate zero i mailbox = record { error = some iteration_limit; mailbox = mailbox; sent = [] }
  iterate (suc n) i mailbox =
      proceed (iterate n (suc i)) (world_at i mailbox)
        (select_pending (mailbox ++ (answers i).mailbox) id)

  unfoldable pub reconcile_mailbox : Mailbox → Outcome
  unfolding iterate
  reconcile_mailbox mailbox = iterate max_iterations 0 mailbox
