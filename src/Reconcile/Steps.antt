-- ===== src/Reconcile/Steps.antt =====
-- The states of a message in internal/serve/resource_mailbox.go as a step relation.
use pua.Prelude.{true, false, ◌≡◌, refl, arith}
use pua.Mailbox.Message.{
  Status, queued, delivering, interrupting, delivered, cancelled, undeliverable, delivery_unknown,
  is_waiting, is_under_way, is_delivering,
}

-- The changes of a status that are allowed.
pub data Step : Status → Status → Type 0 where
  delivers_it : Step queued delivering
  interrupts_it : Step queued interrupting
  requeues_it : Step interrupting queued
  accepts_it : Step delivering delivered
  loses_it : {s : Status} → is_under_way s ≡ true → Step s delivery_unknown
  cancels_it : {s : Status} → is_waiting s ≡ true → is_delivering s ≡ false → Step s cancelled
  gives_it_up : {s : Status} → is_waiting s ≡ true → Step s undeliverable

-- Any number of steps.
pub data Steps : Status → Status → Type 0 where
  rests : {s : Status} → Steps s s
  goes : {s t u : Status} → Step s t → Steps t u → Steps s u

pub one : {s t : Status} → Step s t → Steps s t
one x = goes x rests

pub Steps-trans : {s t u : Status} → Steps s t → Steps t u → Steps s u
Steps-trans rests q = q
Steps-trans (goes x p) q = goes x (Steps-trans p q)

under_way_waits : (s : Status) → is_under_way s ≡ true → is_waiting s ≡ true
under_way_waits s h = ground arith

-- A step begins at a status that waits.
pub Step-waiting : {s t : Status} → Step s t → is_waiting s ≡ true
Step-waiting delivers_it = refl
Step-waiting interrupts_it = refl
Step-waiting requeues_it = refl
Step-waiting accepts_it = refl
Step-waiting (loses_it h) = under_way_waits _ h
Step-waiting (cancels_it h n) = h
Step-waiting (gives_it_up h) = h

-- Where a message that waits no longer is moved to, it was moved for good.
pub Steps-settled : {s t : Status} → is_waiting s ≡ false → Steps s t → s ≡ t
Steps-settled h rests = refl
Steps-settled h (goes x p) = let y = Step-waiting x in cc
