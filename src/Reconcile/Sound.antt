-- ===== src/Reconcile/Sound.antt =====
-- What a round of the reconciliation keeps, and the rules by which the stages are put together.
use pua.Prelude.{
  ℕ, ◌≤◌, Bool, true, false, ◌≡◌, refl, sym, subst, ◌∙◌, ◌⊎◌, List, [], ◌∷◌, txt, length, All,
  if◌then◌else◌, arith, ◌&&◌, text_eq,
}
use pua.Generation.Legacy.{runs}
use pua.Mailbox.Message.{MailMessage, delivering, interrupting, is_waiting, is_delivered, is_steer}
use pua.Reconcile.Steps.{Steps, rests, Steps-trans}
use pua.Reconcile.Updates.{Failure, touched, note_failure}
use pua.Reconcile.World.{
  World, Answer, given, refused, Sent, interrupts, delivers, State, Exit, Flow, next, stop, Round,
  store, ◌>>=◌, leave, reach, update, record_failure,
}

-- What is sent for the message `m` is stored first, and sent at the right time: an interrupt while
-- the message interrupts the turn that runs, a delivery once the message is bound to the session,
-- and then the delivery was under way before, or steers, or finds the session ready.
abbrev pub Proper : MailMessage → Sent → Type 0
Proper m (interrupts s x) =
    (x.id ≡ m.id)
    × (x.status ≡ interrupting)
    × (runs s.state ≡ true)
    × (s.current_turn_id ≡ x.interrupt_turn_id)
Proper m (delivers s x) =
    (x.id ≡ m.id)
    × (x.status ≡ delivering)
    × (x.agent_hub_session_id ≡ s.id)
    × ((m.status ≡ delivering) ⊎ (is_steer x.actual_mode ≡ true) ⊎ (s.state ≡ txt "ready"))

abbrev pub has_delivery : List Sent → Bool
has_delivery [] = false
has_delivery (interrupts s x ∷ l) = has_delivery l
has_delivery (delivers s x ∷ l) = true

-- The message is the same one.
abbrev pub Same : MailMessage → MailMessage → Type 0
Same m x =
    (x.id ≡ m.id)
    × (x.sequence ≡ m.sequence)
    × (x.resource_id ≡ m.resource_id)
    × (x.text ≡ m.text)
    × (x.requested_mode ≡ m.requested_mode)

pub record Sound (m : MailMessage) (s : State) : Type 0 where
  pub same : Same m s.current
  pub moved : Steps m.status s.current.status
  pub proper : All (Proper m) s.sent
  pub few : length s.sent ≤ 1
  pub told : is_delivered s.current.status ≡ true → has_delivery s.sent ≡ true

-- The state in which nothing is sent and the message is as it was selected.
abbrev pub begin : MailMessage → ℕ → State
begin m n = record { current = m; sent = []; writes = n }

abbrev pub Start : MailMessage → State → Type 0
Start m s = (n : ℕ) × (s ≡ begin m n)

-- A flow that goes on has `Q`, one that ends is sound.
pub data Ensures {ℓ} {A : Type ℓ} (m : MailMessage) (Q : A → State → Type 0) : Flow A → Type ℓ where
  goes_on : {a : A} {t : State} → Q a t → Ensures m Q (next a t)
  ends : {e : Exit} {t : State} → Sound m t → Ensures m Q (stop e t)

then_flow {ℓ κ} :
    {A : Type ℓ} {B : Type κ} {m : MailMessage} {Q : A → State → Type 0} {R : B → State → Type 0}
    {x : Flow A} (f : A → Round B)
    → Ensures m Q x
    → ((a : A) (t : State) → Q a t → Ensures m R (f a t))
    → Ensures m R (elim x [ next a t ↦ f a t | stop e t ↦ stop e t ])
then_flow f (goes_on q) k = k _ _ q
then_flow f (ends h) k = ends h

pub bind {ℓ κ} :
    {A : Type ℓ} {B : Type κ} {m : MailMessage} {Q : A → State → Type 0} {R : B → State → Type 0}
    (p : Round A) (f : A → Round B) (s : State)
    → Ensures m Q (p s)
    → ((a : A) (t : State) → Q a t → Ensures m R (f a t))
    → Ensures m R ((p >>= f) s)
unfolding ◌>>=◌
bind p f s h k = then_flow f h k

pub branch {ℓ} :
    {A : Type ℓ} {m : MailMessage} {Q : A → State → Type 0} (b : Bool) (p q : Round A) (s : State)
    → (b ≡ true → Ensures m Q (p s))
    → (b ≡ false → Ensures m Q (q s))
    → Ensures m Q ((if b then p else q) s)
branch true p q s h k = h refl
branch false p q s h k = k refl

pick {ℓ} :
    {A : Type ℓ} {m : MailMessage} {Q : A → State → Type 0} (b : Bool) (x y : Flow A)
    → Ensures m Q x
    → Ensures m Q y
    → Ensures m Q (if b then x else y)
pick true x y h k = h
pick false x y h k = k

-- Asking changes nothing.
pub asked {ℓ} :
    {A : Type ℓ} {m : MailMessage} {Q : A → State → Type 0} (x : Answer A) (s : State)
    → Sound m s
    → ((a : A) → Q a s)
    → Ensures m Q (reach x s)
asked (given a) s h k = goes_on (k a)
asked (refused e) s h k = ends h

pub Same-refl : (m : MailMessage) → Same m m
Same-refl m = (refl, refl, refl, refl, refl)

Same-trans : (m x y : MailMessage) → Same m x → Same x y → Same m y
Same-trans m x y (a, b, c, d, e) (f, g, h, i, j) = (f ∙ a, g ∙ b, h ∙ c, i ∙ d, j ∙ e)

pub begin-Sound : (m : MailMessage) (n : ℕ) → is_waiting m.status ≡ true → Sound m (begin m n)
begin-Sound m n h = record {
  same = Same-refl m;
  moved = rests;
  proper = tt;
  few = omega arith;
  told = λ d. ground (arith, h, d);
}

-- A sound state whose message is changed.
pub written :
    {m : MailMessage} {s : State} (x : MailMessage)
    → Sound m s
    → Same s.current x
    → Steps s.current.status x.status
    → (is_delivered x.status ≡ true → has_delivery s.sent ≡ true)
    → Sound m (store x s)
written {m} {s} x h same moved told = record {
  same = Same-trans m s.current x h.same same;
  moved = Steps-trans h.moved moved;
  proper = h.proper;
  few = h.few;
  told = told;
}

-- A failed write leaves the message; one that is made changes it by `f`.
pub updated :
    {m : MailMessage} {Q : MailMessage → State → Type 0} (w : World) (f : MailMessage → MailMessage)
    (s : State)
    → Sound m s
    → Q (touched w.clock (f s.current)) (store (touched w.clock (f s.current)) s)
    → Ensures m Q (update w f s)
unfolding update
updated w f s h k =
    pick (w.disk s.writes) _ _ (goes_on k)
      (ends (written s.current h (Same-refl s.current) rests h.told))

pub from_Start {ℓ} :
    {A : Type ℓ} {m : MailMessage} {Q : A → State → Type 0} (x : MailMessage) (p : Round A)
    → ((n : ℕ) → Ensures m Q (p (begin x n)))
    → (s : State) → Start x s
    → Ensures m Q (p s)
from_Start {m} {Q} x p h s (n, e) = subst (λ t. Ensures m Q (p t)) (sym e) (h n)

-- The next stage after one that leaves the message as it was selected.
pub then_next {ℓ κ} :
    {A : Type ℓ} {B : Type κ} {m : MailMessage} {R : B → State → Type 0} (p : Round A)
    (f : A → Round B) (s : State)
    → Ensures m (λ a t. Start m t) (p s)
    → ((a : A) (n : ℕ) → Ensures m R (f a (begin m n)))
    → Ensures m R ((p >>= f) s)
then_next {m} p f s h k = bind p f s h (λ a t q. from_Start m (f a) (λ n. k a n) t q)

-- What follows a write that is made is at the message that it stores.
pub write_then :
    {B : Type 0} {m : MailMessage} {R : B → State → Type 0} (w : World)
    (f : MailMessage → MailMessage) (k : MailMessage → Round B) (s : State)
    → Sound m s
    → Ensures m R (k (touched w.clock (f s.current)) (store (touched w.clock (f s.current)) s))
    → Ensures m R ((update w f >>= k) s)
write_then {B} {m} {R} w f k s h q =
    bind _ _ _ (updated {Q = λ a t. Ensures m R (k a t)} w f s h q) (λ a t r. r)

pub weaken {ℓ} :
    {A : Type ℓ} {m : MailMessage} {Q R : A → State → Type 0} {f : Flow A}
    → Ensures m Q f
    → ((a : A) (t : State) → Q a t → R a t)
    → Ensures m R f
weaken (goes_on q) h = goes_on (h _ _ q)
weaken (ends q) h = ends q

-- What a failure records moves no status.
pub recorded :
    {m : MailMessage} (w : World) (e : Failure) (s : State)
    → Sound m s
    → Ensures m (λ x t. Sound m t × (t.current.status ≡ s.current.status)) (record_failure w e s)
unfolding record_failure touched note_failure
recorded w e s h =
    pick (text_eq s.current.last_error e.text && text_eq s.current.last_error_code e.code)
      (next s.current s) _ (goes_on (h, refl))
      (pick (w.disk s.writes)
        (next (touched w.clock (note_failure e s.current))
          (store (touched w.clock (note_failure e s.current)) s))
        (next s.current (store s.current s))
        (goes_on (written _ h (Same-refl s.current) rests h.told, refl))
        (goes_on (written s.current h (Same-refl s.current) rests h.told, refl)))

-- A step that leaves the state sound, and then the round's end.
pub then_leave {ℓ κ} :
    {A : Type ℓ} {B : Type κ} {m : MailMessage} {Q : B → State → Type 0} (p : Round A)
    (k : A → Exit) (s : State)
    → Ensures m (λ x t. Sound m t) (p s)
    → Ensures m Q ((p >>= λ a. leave (k a)) s)
then_leave p k s h = bind p (λ a. leave (k a)) s h (λ a t q. ends q)

-- The round that fails after the failure is recorded.
pub failure_leaves {ℓ} :
    {A : Type ℓ} {m : MailMessage} {Q : A → State → Type 0} (w : World) (e : Failure) (x : Exit)
    (s : State)
    → Sound m s
    → Ensures m Q ((record_failure w e >>= λ y. leave x) s)
failure_leaves w e x s h =
    bind (record_failure w e) (λ y. leave x) s (recorded w e s h) (λ a t q. ends q.0)

-- A change of the message that keeps what it is and does not finish its delivery.
abbrev pub Change : MailMessage → MailMessage → Type 0
Change x y = Same x y × Steps x.status y.status × (is_delivered y.status ≡ false)

pub changed :
    {m : MailMessage} (w : World) (f : MailMessage → MailMessage) (s : State)
    → Sound m s
    → Change s.current (f s.current)
    → Ensures m (λ x t. Sound m t) (update w f s)
unfolding touched
changed w f s h (same, moved, not_yet) =
    updated w f s h (written _ h same moved (λ d. ground (arith, not_yet, d)))
