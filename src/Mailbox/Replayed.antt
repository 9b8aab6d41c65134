-- ===== src/Mailbox/Replayed.antt =====
-- A generated message that is accepted again is the one that was accepted before.
use pua.Prelude.{
  Bool, true, false, ◌&&◌, ◌||◌, ◌≡◌, refl, sym, ap, ◌∙◌, subst, inl, inr, Bool-cases, Option, none,
  some, List, [], ◌∷◌, ◌++◌, Text, text_eq, text_eq_refl, is_blank, trim_space, if◌then◌else◌,
  arith,
}
use pua.Mailbox.Message.{MailMessage, Mailbox, Mode, is_interrupt, Sender, Causation}
use pua.Mailbox.Operations.{ResourceMailbox, MailboxEnv}
use pua.Mailbox.Generated.{
  Generated, accepted, refused, message_conflict, sender_eq, texts_eq, bool_eq, causation_eq,
  agrees, find_message, numbered, store_found, store_generated, to_store, written, is_turn_result,
  is_absent, accept_in, accept_generated,
}

both : (a b : Bool) → a ≡ true → b ≡ true → (a && b) ≡ true
both a b h k = rw (h, k) refl

texts_eq_refl : (ts : List Text) → texts_eq ts ts ≡ true
unfolding texts_eq
texts_eq_refl [] = refl
texts_eq_refl (t ∷ ts) = both _ _ (text_eq_refl t) (texts_eq_refl ts)

bool_eq_refl : (b : Bool) → bool_eq b b ≡ true
unfolding bool_eq
bool_eq_refl true = refl
bool_eq_refl false = refl

sender_eq_refl : (s : Option Sender) → sender_eq s s ≡ true
sender_eq_refl none = refl
sender_eq_refl (some s) =
    rw (text_eq_refl s.id, text_eq_refl s.name, text_eq_refl s.session_id) refl

causation_eq_refl : (c : Option Causation) → causation_eq c c ≡ true
causation_eq_refl none = refl
causation_eq_refl (some c) = simp (text_eq_refl, texts_eq_refl, bool_eq_refl)

agrees_refl : (m : MailMessage) → agrees m m ≡ true
unfolding agrees
agrees_refl m = simp (text_eq_refl, sender_eq_refl, causation_eq_refl) (ground arith)

found_last :
    (id : Text) (ms : Mailbox) (x : MailMessage)
    → find_message id ms ≡ none
    → text_eq x.id id ≡ true
    → find_message id (ms ++ x ∷ []) ≡ some x
unfolding find_message
found_last id [] x h e = rw e refl
found_last id (m ∷ ms) x h e = elim (Bool-cases (text_eq m.id id)) [
  | inl a ↦ absurd (ground (arith, h, a))
  | inr a ↦ rw a (found_last id ms x (ground (arith, h, a)) e)
]

accepted_agrees :
    (t : Bool) (c x : MailMessage) (b r : ResourceMailbox)
    → ◌≡◌ {A = Generated × ResourceMailbox}
        (if t then accepted c else refused message_conflict, b)
        (accepted x, r)
    → (t ≡ true) × (c ≡ x) × (b ≡ r)
accepted_agrees true c x b r h = (refl, cc, cc)
accepted_agrees false c x b r h = absurd (cc)

module _ (env : MailboxEnv) (later : Text) where
  -- A later call, whose write works.
  abbrev pub at_later : MailboxEnv
  at_later = record env { now = later; disk = true }

  module _ (m : MailMessage) (requested actual : Mode) where
    abbrev first : MailMessage
    first = to_store env m requested actual

    abbrev second : MailMessage
    second = to_store at_later m requested actual

    stored_agrees : (b : ResourceMailbox) → agrees (numbered first b) second ≡ true
    unfolding agrees
    stored_agrees b = agrees_refl second

    same_test : (c : MailMessage) → agrees c first ≡ agrees c second
    unfolding agrees
    same_test c = refl

    replay_found :
        (o : Option MailMessage) (x : MailMessage) (b r : ResourceMailbox)
        → find_message (trim_space m.id) b.messages ≡ o
        → store_found o first b ≡ (accepted x, r)
        → store_generated second r ≡ (accepted x, r)
    unfolding store_generated
    replay_found none x b r n h =
        subst (λ (p : Generated × ResourceMailbox). store_generated second p.1 ≡ p) h
          (rw
            (found_last (trim_space m.id) b.messages (numbered first b) n
              (text_eq_refl (trim_space m.id)))
            (rw (stored_agrees b) refl))
    replay_found (some c) x b r n h =
        let (a, d, e) = accepted_agrees (agrees c first) c x b r h in
        subst (λ z. store_generated second z ≡ (accepted x, z)) e
          (rw n (rw (sym (same_test c) ∙ a) (ap (λ z. (accepted z, b)) d)))

    replay_stored :
        (x : MailMessage) (b r : ResourceMailbox)
        → store_generated first b ≡ (accepted x, r)
        → store_generated second r ≡ (accepted x, r)
    unfolding store_generated
    replay_stored x b r h = replay_found (find_message (trim_space m.id) b.messages) x b r refl h

  written-accepted :
      (p : Generated × ResourceMailbox) (x : MailMessage) (b r : ResourceMailbox)
      → written env p b ≡ (accepted x, r)
      → p ≡ (accepted x, r)
  written-accepted (refused e, y) x b r h = absurd (cc)
  written-accepted (accepted z, y) x b r h = elim (Bool-cases env.disk) [
    | inl d ↦ rw d at h
    | inr d ↦ absurd (cc (rw d at h))
  ]

  replay_in :
      (requested actual : Option Mode) (m x : MailMessage) (b r : ResourceMailbox)
      → accept_in env requested actual m b ≡ (accepted x, r)
      → accept_in at_later requested actual m r ≡ (accepted x, r)
  replay_in none actual m x b r h = absurd (cc)
  replay_in (some requested) none m x b r h = elim (Bool-cases (is_interrupt requested)) [
    | inl e ↦ absurd (cc (rw e at h))
    | inr e ↦ absurd (cc (rw e at h))
  ]
  replay_in (some requested) (some actual) m x b r h =
      elim (Bool-cases (is_interrupt requested || is_interrupt actual)) [
        | inl e ↦ absurd (cc (rw e at h))
        | inr e ↦ elim (Bool-cases (is_turn_result m)) [
          | inl f ↦ absurd (cc (rw (e, f) at h))
          | inr f ↦
              elim (Bool-cases (
                is_blank (trim_space m.id)
                || is_blank (trim_space m.text)
                || is_blank m.kind
                || is_absent m.causation)) [
                  | inl g ↦ absurd (cc (rw (e, f, g) at h))
                  | inr g ↦
                      rw (e, f, g)
                        (rw
                          (replay_stored m requested actual x b r
                            (written-accepted _ x b r (rw (e, f, g) at h)))
                          refl)
                ]
        ]
      ]

  -- Where acceptGeneratedMailboxMessage accepts a message, calling it again at any later time for the
  -- same message, with a write that works, answers the message that was stored the first time and
  -- leaves the mailbox as it is.
  pub accept_generated-accept_generated :
      (m x : MailMessage) (b r : ResourceMailbox)
      → accept_generated env m b ≡ (accepted x, r)
      → accept_generated at_later m r ≡ (accepted x, r)
  unfolding accept_generated
  accept_generated-accept_generated m x b r h = replay_in _ _ m x b r h
