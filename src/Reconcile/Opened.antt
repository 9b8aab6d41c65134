-- ===== src/Reconcile/Opened.antt =====
-- The stages that find the message's generation leave the message as it was selected or end soundly.
use pua.Prelude.{
  ℕ, ◌+◌, Bool, true, false, not, ◌&&◌, ◌≡◌, refl, Option, none, some, is_blank, ltb, Text,
  if_cases, if◌then◌else◌, arith,
}
use pua.Generation.Legacy.{GenerationRecord}
use pua.Mailbox.Message.{
  MailMessage, Status, is_waiting, is_under_way, is_delivering, is_delivered, undeliverable,
  delivery_unknown, cancelled, delivering, queued, interrupting, delivered, other_status,
}
use pua.Reconcile.Steps.{Steps, rests, one, loses_it, cancels_it, gives_it_up}
use pua.Reconcile.Updates.{
  Failure, drop_turn_result, lose_generation, count_start_failure, max_start_attempts,
}
use pua.Reconcile.World.{World, Answer, given, refused, State, next, reach}
use pua.Reconcile.Sound.{
  Sound, Start, Same-refl, begin, begin-Sound, Ensures, goes_on, bind, branch, asked, recorded,
  then_leave, changed, Change, from_Start,
}
use pua.Reconcile.Round.{
  is_legacy_turn_result, is_task_resource, adopt, ensure, drop_legacy, exhausted, start_failed,
  acquire,
}

drop-Steps :
    (s : Status)
    → is_waiting s ≡ true
    → Steps s (if is_delivering s then delivery_unknown else cancelled)
drop-Steps delivering h = one (loses_it refl)
drop-Steps queued h = one (cancels_it refl refl)
drop-Steps interrupting h = one (cancels_it refl refl)
drop-Steps delivered h = absurd (ground (arith, h))
drop-Steps cancelled h = absurd (ground (arith, h))
drop-Steps undeliverable h = absurd (ground (arith, h))
drop-Steps delivery_unknown h = absurd (ground (arith, h))
drop-Steps (other_status t) h = absurd (ground (arith, h))

drop_not_delivered :
    (s : Status) → is_delivered (if is_delivering s then delivery_unknown else cancelled) ≡ false
drop_not_delivered s = ground arith

pub waits_not_delivered : (s : Status) → is_waiting s ≡ true → is_delivered s ≡ false
waits_not_delivered s h = ground (arith, h)

count_start_failure-Change :
    (b : Bool) (e : Failure) (now : Text) (x : MailMessage)
    → is_waiting x.status ≡ true
    → Change x (count_start_failure b e now x)
unfolding count_start_failure
count_start_failure-Change b e now x h =
    if_cases (Change x) (ltb (x.task_start_failure_count + 1) max_start_attempts)
      (Same-refl x, rests, waits_not_delivered x.status h) (Same-refl x, one (gives_it_up h), refl)

module _ (w : World) (m : MailMessage) (h : is_waiting m.status ≡ true) where
  pub keep {ℓ} : {A : Type ℓ} {a : A} (n : ℕ) → Ensures m (λ a t. Start m t) (next a (begin m n))
  keep n = goes_on (n, refl)

  pub drop_legacy-Sound : (n : ℕ) → Ensures m (λ a t. Start m t) (drop_legacy w m (begin m n))
  unfolding drop_legacy drop_turn_result
  drop_legacy-Sound n =
      branch (is_legacy_turn_result m.kind) _ _ _
        (λ e. then_leave _ _ _ (
          changed w (drop_turn_result w.clock) (begin m n) (begin-Sound m n h)
            (Same-refl m, drop-Steps m.status h, drop_not_delivered m.status)))
        (λ e. keep n)

  pub begun : (n : ℕ) → Sound m (begin m n)
  begun n = begin-Sound m n h

  pub asks {ℓ} :
      {A : Type ℓ} (x : Answer A) (n : ℕ) → Ensures m (λ a t. Start m t) (reach x (begin m n))
  asks x n = asked x (begin m n) (begun n) (λ a. (n, refl))

  exhausted-Sound :
      (x : MailMessage) (s : State) → Sound m s → Ensures m (λ a t. Sound m t) (exhausted w m x s)
  unfolding exhausted
  exhausted-Sound x s q =
      branch (ltb x.task_start_failure_count max_start_attempts) _ _ _ (λ c. goes_on q)
        (λ c.
          branch (is_task_resource m) _ _ _
            (λ d. bind _ _ _ (asked w.task_state s q (λ a. q)) (λ a t r. goes_on r))
            (λ d. goes_on q))

  -- Before the generation is there the message may be given up.
  pub start_failed-Sound :
      (e : Failure) (s : State)
      → s.current.status ≡ m.status
      → Sound m s
      → Ensures m (λ a t. Sound m t) (start_failed w m e s)
  unfolding start_failed
  start_failed-Sound e s keeps sound =
      branch (is_blank m.generation_id) _ _ _
        (λ b.
          bind _ _ _
            (changed w (count_start_failure (is_task_resource m) e w.clock) s sound
              (count_start_failure-Change _ e w.clock s.current (rw keeps h)))
            (λ x t q. exhausted-Sound x t q))
        (λ b. goes_on sound)

  adopt-Sound :
      (g : Option GenerationRecord) (n : ℕ)
      → is_under_way m.status ≡ true
      → Ensures m (λ a t. Start m t) (adopt w g (begin m n))
  unfolding lose_generation
  adopt-Sound none n u = then_leave _ _ _ (
      changed w (lose_generation w.clock) (begin m n) (begun n)
        (Same-refl m, one (loses_it u), refl))
  adopt-Sound (some g) n u = bind _ _ _ (asks w.configured n) (λ a t q. goes_on q)

  ensure-Sound :
      (x : Answer GenerationRecord) (n : ℕ)
      → Ensures m (λ a t. Start m t) (ensure w m x (begin m n))
  ensure-Sound (given g) n = keep n
  ensure-Sound (refused e) n =
      bind _ _ _ (recorded w e (begin m n) (begun n))
        (λ x t q. then_leave _ _ _ (start_failed-Sound e t q.1 q.0))

  pub acquire-Sound : (n : ℕ) → Ensures m (λ a t. Start m t) (acquire w m (begin m n))
  unfolding acquire
  acquire-Sound n =
      branch (not (is_blank m.generation_id) && is_under_way m.status) _ _ _
        (λ e.
          bind _ _ _ (asks w.associated n)
            (λ g t q. from_Start m (adopt w g) (λ k. adopt-Sound g k (ground (arith, e))) t q))
        (λ e. ensure-Sound w.ensured n)
