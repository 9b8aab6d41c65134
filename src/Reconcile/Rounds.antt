-- ===== src/Reconcile/Rounds.antt =====
-- The loop of the reconciliation as a sequence of rounds.
use pua.Prelude.{
  ℕ, zero, suc, ◌≤◌, ◌≡◌, refl, Option, none, some, List, [], ◌++◌, Text, length, length-append,
  arith,
}
use pua.Mailbox.Message.{MailMessage, Mailbox}
use pua.Mailbox.Select.{select_pending}
use pua.Mailbox.Order.{select_pending-waiting}
use pua.Reconcile.World.{World, Sent, State, Exit, again, done, failed}
use pua.Reconcile.Deliver.{with_stored}
use pua.Reconcile.Sound.{Sound}
use pua.Reconcile.Loop.{
  run, follow_on, proceed, world_at, iterate, reconcile_mailbox, max_iterations,
}
use pua.Reconcile.Bounds.{run-Sound}

module _ (answers : ℕ → World) (id : Text) where
  -- The mailbox of round `i`, with the messages accepted since the round before.
  abbrev pub mailbox_at : ℕ → Mailbox → Mailbox
  mailbox_at i b = b ++ (answers i).mailbox

  -- At most `n` rounds from round `i` on: the mailbox before, what is sent, and the mailbox after.
  pub data Rounds : ℕ → ℕ → Mailbox → List Sent → Mailbox → Type 0 where
    exhausted : {i : ℕ} {b : Mailbox} → Rounds 0 i b [] b
    rests :
        {n i : ℕ} {b : Mailbox}
        → select_pending (mailbox_at i b) id ≡ none
        → Rounds (suc n) i b [] (mailbox_at i b)
    ends :
        {n i : ℕ} {b : Mailbox} {m : MailMessage} {s : State}
        → select_pending (mailbox_at i b) id ≡ some m
        → Sound m s
        → Rounds (suc n) i b s.sent (with_stored s.current (mailbox_at i b))
    goes :
        {n i : ℕ} {b c : Mailbox} {m : MailMessage} {s : State} {l : List Sent}
        → select_pending (mailbox_at i b) id ≡ some m
        → Sound m s
        → Rounds n (suc i) (with_stored s.current (mailbox_at i b)) l c
        → Rounds (suc n) i b (s.sent ++ l) c

  follow_on-Rounds :
      (n i : ℕ) (b : Mailbox) (m : MailMessage) (r : Exit × State)
      → select_pending (mailbox_at i b) id ≡ some m
      → Sound m r.1
      → ((c : Mailbox)
          → Rounds n
              (suc i)
              c
              (iterate answers id n (suc i) c).sent
              (iterate answers id n (suc i) c).mailbox)
      → Rounds
          (suc n)
          i
          b
          (follow_on (iterate answers id n (suc i)) (mailbox_at i b) r).sent
          (follow_on (iterate answers id n (suc i)) (mailbox_at i b) r).mailbox
  unfolding follow_on
  follow_on-Rounds n i b m (again, s) e q k = goes e q (k (with_stored s.current (mailbox_at i b)))
  follow_on-Rounds n i b m (done, s) e q k = ends e q
  follow_on-Rounds n i b m (failed x, s) e q k = ends e q

  proceed-Rounds :
      (n i : ℕ) (b : Mailbox) (o : Option MailMessage)
      → select_pending (mailbox_at i b) id ≡ o
      → ((c : Mailbox)
          → Rounds n
              (suc i)
              c
              (iterate answers id n (suc i) c).sent
              (iterate answers id n (suc i) c).mailbox)
      → Rounds
          (suc n)
          i
          b
          (proceed (iterate answers id n (suc i)) (world_at answers id i b) o).sent
          (proceed (iterate answers id n (suc i)) (world_at answers id i b) o).mailbox
  unfolding proceed
  proceed-Rounds n i b none e k = rests e
  proceed-Rounds n i b (some m) e k =
      follow_on-Rounds n i b m (run (world_at answers id i b) m) e
        (run-Sound (world_at answers id i b) m (select_pending-waiting (mailbox_at i b) id m e)) k

  iterate-Rounds :
      (n i : ℕ) (b : Mailbox)
      → Rounds n i b (iterate answers id n i b).sent (iterate answers id n i b).mailbox
  unfolding iterate
  iterate-Rounds zero i b = exhausted
  iterate-Rounds (suc n) i b =
      proceed-Rounds n i b (select_pending (mailbox_at i b) id) refl (iterate-Rounds n (suc i))

  Rounds-length : {n i : ℕ} {b c : Mailbox} {l : List Sent} → Rounds n i b l c → length l ≤ n
  Rounds-length exhausted = omega arith
  Rounds-length (rests e) = omega arith
  Rounds-length (ends e q) = omega (arith, q.few)
  Rounds-length (goes {s = s} {l = l} e q r) =
      omega (arith, q.few, Rounds-length r, length-append s.sent l)

  -- Whatever the iterations meet, a reconciliation is a sequence of at most 32 rounds. Each round is
  -- for the message that is selected from the mailbox that the round before left and the messages
  -- accepted since, and is sound for it: it keeps its identity, moves its status along the allowed
  -- steps and sends at most one thing, at its time. What is sent is what the rounds sent, in their
  -- order, at most 32 things; the mailbox is the one that the last round left.
  pub reconcile_mailbox-Rounds :
      (mailbox : Mailbox)
      → Rounds 32 0 mailbox
          (reconcile_mailbox answers id mailbox).sent
          (reconcile_mailbox answers id mailbox).mailbox
        × (length (reconcile_mailbox answers id mailbox).sent ≤ 32)
  unfolding reconcile_mailbox
  reconcile_mailbox-Rounds mailbox =
      let r = iterate-Rounds max_iterations 0 mailbox in (r, Rounds-length r)
