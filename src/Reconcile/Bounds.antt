-- ===== src/Reconcile/Bounds.antt =====
-- What one iteration of the reconciliation keeps.
use pua.Prelude.{true, ◌≡◌}
use pua.Mailbox.Message.{MailMessage, is_waiting}
use pua.Reconcile.World.{World, Exit, Flow}
use pua.Reconcile.Sound.{Sound, Ensures, goes_on, ends}
use pua.Reconcile.Delivered.{round-Sound}
use pua.Reconcile.Loop.{over, run}

over-Sound : {m : MailMessage} {f : Flow Exit} → Ensures m (λ e t. Sound m t) f → Sound m (over f).1
over-Sound (goes_on q) = q
over-Sound (ends q) = q

-- For a message that waits, one iteration of the reconciliation keeps the message's identity, moves
-- its status along the steps that are allowed, sends at most one thing, and sends it only at its
-- time; and the message is delivered only where its delivery was sent.
pub run-Sound : (w : World) (m : MailMessage) → is_waiting m.status ≡ true → Sound m (run w m).1
unfolding run
run-Sound w m h = over-Sound (round-Sound w m h 0)
