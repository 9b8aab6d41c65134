-- ===== src/Mailbox/Promotion.antt =====
-- What a promotion keeps, and the place of the promoted message.
use pua.Prelude.{
  Bool, true, false, ◌≡◌, refl, sym, ap, ◌∙◌, subst, inl, inr, Bool-cases, Option, none, some, [],
  ◌∷◌, Text, text_eq, is_blank, ltb, arith,
}
use pua.Mailbox.Message.{MailMessage, Mailbox, Mode, Status, queued, is_queued, is_interrupt}
use pua.Mailbox.Select.{mode_priority, mailbox_priority, goes_before}
use pua.Mailbox.Operations.{ResourceMailbox}
use pua.Mailbox.Generated.{find_message}
use pua.Mailbox.Settled.{Moved, Moved-refl, AllMoved, AllMoved-refl}
use pua.Mailbox.Promote.{
  PromoteError, PromoteWorld, Promoted, promoted, or_else, unless, message_obstacle, obstacle,
  promote, update_first, promote_by, promote_message,
}

update_first-AllMoved :
    (f : MailMessage → MailMessage) (h : (m : MailMessage) → Moved m (f m)) (id : Text)
    (ms : Mailbox)
    → AllMoved ms (update_first f id ms)
unfolding update_first
update_first-AllMoved f h id [] = tt
update_first-AllMoved f h id (m ∷ ms) = elim (Bool-cases (text_eq m.id id)) [
  | inl e ↦ rw e (h m, AllMoved-refl ms)
  | inr e ↦ rw e (Moved-refl m, update_first-AllMoved f h id ms)
]

found_first :
    (id : Text) (x : MailMessage) (ms : Mailbox)
    → text_eq x.id id ≡ true
    → find_message id (x ∷ ms) ≡ some x
unfolding find_message
found_first id x ms e = rw e refl

first_is : (m c : MailMessage) → some m ≡ some c → m ≡ c
first_is m c e = cc

find_message-update_first :
    (f : MailMessage → MailMessage) (h : (m : MailMessage) → Moved m (f m)) (id : Text)
    (ms : Mailbox) {c : MailMessage}
    → find_message id ms ≡ some c
    → find_message id (update_first f id ms) ≡ some (f c)
unfolding update_first find_message
find_message-update_first f h id [] e = absurd (cc)
find_message-update_first f h id (m ∷ ms) e = elim (Bool-cases (text_eq m.id id)) [
  | inl a ↦ rw a (
      found_first id (f m) ms (ap (λ t. text_eq t id) (h m).0 ∙ a)
      ∙ ap some (ap f (first_is m _ (rw a at e))))
  | inr a ↦ rw (a, a) (find_message-update_first f h id ms (rw a at e))
]

later_none : (o p : Option PromoteError) → or_else o p ≡ none → p ≡ none
later_none none p h = h
later_none (some e) p h = absurd (cc)

first_none : (o p : Option PromoteError) → or_else o p ≡ none → o ≡ none
first_none none p h = refl
first_none (some e) p h = absurd (cc)

unless-none : (b : Bool) (e : PromoteError) → unless b e ≡ none → b ≡ true
unless-none true e h = refl
unless-none false e h = absurd (cc)

-- Where nothing stands in the way the message is queued.
clear_queued :
    (w : PromoteWorld) (m : MailMessage) → obstacle w (some m) ≡ none → is_queued m.status ≡ true
unfolding obstacle
clear_queued w m h =
    unless-none (is_queued m.status) _
      (first_none (message_obstacle (some m)) _ (later_none _ _ (later_none _ _ h)))

queued_eq : (s : Status) → is_queued s ≡ true → s ≡ queued
queued_eq queued h = refl
queued_eq s h = absurd (ground (arith, h))

behind : (mode : Mode) → is_interrupt mode ≡ false → ltb 3 (mode_priority mode) ≡ true
behind mode h = ground (arith, h)

promoted_before :
    (now : Text) (m x : MailMessage)
    → is_blank now ≡ false
    → m.status ≡ queued
    → x.status ≡ queued
    → is_blank x.promoted_at ≡ true
    → is_interrupt x.requested_mode ≡ false
    → goes_before (promote now m) x ≡ true
unfolding goes_before mailbox_priority
promoted_before now m x n p q e i = rw (p, q, n, e, behind x.requested_mode i) refl

promote-Moved : (now : Text) (m : MailMessage) → Moved m (promote now m)
promote-Moved now m = Moved-refl m

promoted_by :
    (w : PromoteWorld) (id : Text) (o : Option PromoteError) (f : Option MailMessage)
    (b r : ResourceMailbox) (m : MailMessage)
    → obstacle w f ≡ o
    → promote_by w id o f b ≡ (promoted m, r)
    → (c : MailMessage) × (m ≡ promote w.now c)
      × (c.status ≡ queued)
      × AllMoved b.messages r.messages
      × (r.messages ≡ update_first (promote w.now) id b.messages)
      × (f ≡ some c)
promoted_by w id (some e) f b r m n h = absurd (cc)
promoted_by w id none none b r m n h = absurd (cc)
promoted_by w id none (some c) b r m n h = elim (Bool-cases w.disk) [
  | inl d ↦
      let k : ◌≡◌ {A = Promoted × ResourceMailbox}
          (
            promoted (promote w.now c),
            record b { messages = update_first (promote w.now) id b.messages },
          )
          (promoted m, r) =
        rw d at h in
      (
        c,
        cc,
        queued_eq c.status (clear_queued w c n),
        subst (λ (z : Promoted × ResourceMailbox). AllMoved b.messages z.1.messages) k
            (update_first-AllMoved (promote w.now) (promote-Moved w.now) id b.messages),
        cc,
        refl,
      )
  | inr d ↦ absurd (cc (rw d at h))
]

-- Where a message is promoted, every message of the mailbox stands in its place and is the same one,
-- its status as it was or moved along the steps that are allowed; the message answered goes before
-- each message that is queued, not promoted and is not to interrupt, where the time that is written
-- is not blank; and the mailbox holds the message answered under the id.
pub promote_message-goes_before :
    (w : PromoteWorld) (id : Text) (b r : ResourceMailbox) (m x : MailMessage)
    → promote_message w id b ≡ (promoted m, r)
    → is_blank w.now ≡ false
    → x.status ≡ queued
    → is_blank x.promoted_at ≡ true
    → is_interrupt x.requested_mode ≡ false
    → (goes_before m x ≡ true)
      × AllMoved b.messages r.messages
      × (find_message id r.messages ≡ some m)
unfolding promote_message
promote_message-goes_before w id b r m x h n q e i =
    let (c, a, s, k, u, f) = promoted_by w id _ (find_message id b.messages) b r m refl h in
    (
      subst (λ z. goes_before z x ≡ true) (sym a) (promoted_before w.now c x n s q e i),
      k,
      ap (find_message id) u
          ∙ find_message-update_first (promote w.now) (promote-Moved w.now) id b.messages f
          ∙ ap some (sym a),
    )
