-- ===== src/Session/Delivery.antt =====
-- What later events can change of a durable message (agenthub/internal/session/turns.go).
use pua.Prelude.{
  ◌≤◌, ◌≡◌, refl, sym, ◌∙◌, subst, ◌⊎◌, inl, inr, true, false, not, ◌&&◌, none, some, List, [], ◌∷◌,
  ◌++◌, arith, text_eq, text_eq_iff, if◌then◌else◌, Bool-cases, ◌==◌,
}
use pua.Session.Types.{
  EventType, message_input, message_delivery, turn_completed, turn_failed, turn_cancelled, Event,
}
use pua.Session.Messages.{
  Delivery, DurableMessage, Payloads, closed, new_message, is_final, record_delivery, deliver,
  deliver_to, close_message, close_messages, has_message, add_event, add_events, build_messages,
}

-- A later version of a message: the same input, with no fewer attempts; a terminal message stays
-- terminal and, unless its turn closed it, nothing of it changes.
pub record Later (m n : DurableMessage) : Type 0 where
  pub event_id : n.event_id ≡ m.event_id
  pub turn_id : n.turn_id ≡ m.turn_id
  pub input : n.input ≡ m.input
  pub attempt : m.attempt ≤ n.attempt
  pub terminal : (m.terminal ≡ false) ⊎ (n.terminal ≡ true)
  pub settled : (m.terminal ≡ false) ⊎ (m.state ≡ closed) ⊎ (n ≡ m)

-- The messages continue a list of messages: later versions of these in their order, and then others.
abbrev pub Extends : List DurableMessage → List DurableMessage → Type 0
Extends [] ns = Unit
Extends (m ∷ ms) [] = ⊥
Extends (m ∷ ms) (n ∷ ns) = Later m n × Extends ms ns

Later-refl : (m : DurableMessage) → Later m m
Later-refl m = record {
  event_id = refl;
  turn_id = refl;
  input = refl;
  attempt = omega arith;
  terminal = ground arith;
  settled = inr (inr refl);
}

Later-trans : (a b c : DurableMessage) → Later a b → Later b c → Later a c
Later-trans a b c h k = record {
  event_id = k.event_id ∙ h.event_id;
  turn_id = k.turn_id ∙ h.turn_id;
  input = k.input ∙ h.input;
  attempt = omega (arith, h.attempt, k.attempt);
  terminal = ground (arith, h.terminal, k.terminal);
  settled = settles h.settled k.settled;
}
  where
    settles :
        (a.terminal ≡ false) ⊎ (a.state ≡ closed) ⊎ (b ≡ a)
        → (b.terminal ≡ false) ⊎ (b.state ≡ closed) ⊎ (c ≡ b)
        → (a.terminal ≡ false) ⊎ (a.state ≡ closed) ⊎ (c ≡ a)
    settles (inl e) s = inl e
    settles (inr (inl e)) s = inr (inl e)
    settles (inr (inr e)) s =
        subst (λ (x : DurableMessage). (x.terminal ≡ false) ⊎ (x.state ≡ closed) ⊎ (c ≡ x)) e s

Extends-refl : (ms : List DurableMessage) → Extends ms ms
Extends-refl [] = tt
Extends-refl (m ∷ ms) = (Later-refl m, Extends-refl ms)

Extends-trans : (ms ns ks : List DurableMessage) → Extends ms ns → Extends ns ks → Extends ms ks
Extends-trans [] ns ks h k = tt
Extends-trans (m ∷ ms) [] ks h k = elim h [ ]
Extends-trans (m ∷ ms) (n ∷ ns) [] h k = k
Extends-trans (m ∷ ms) (n ∷ ns) (x ∷ ks) h k =
    (Later-trans m n x h.0 k.0, Extends-trans ms ns ks h.1 k.1)

Extends-append : (ms ns : List DurableMessage) → Extends ms (ms ++ ns)
Extends-append [] ns = tt
Extends-append (m ∷ ms) ns = (Later-refl m, Extends-append ms ns)

-- A message that a delivery changes is not terminal, or its turn closed it and the provider accepts.
deliver-Later : (d : Delivery) (m : DurableMessage) → Later m (deliver d m)
unfolding deliver is_final record_delivery
deliver-Later d m = elim (Bool-cases (is_final d m)) [
  | inl e ↦ rw (e, deliver) (Later-refl m)
  | inr e ↦
      rw (e, deliver)
        (record {
          event_id = refl;
          turn_id = refl;
          input = refl;
          attempt = ground arith;
          terminal = ground (arith, e);
          settled = ground (arith, e, text_eq_iff m.state closed);
        })
]

close_message-Later :
    (p : Payloads) (e : Event) (m : DurableMessage) → Later m (close_message p e m)
unfolding close_message
close_message-Later p e m = elim (Bool-cases (text_eq m.turn_id e.turn_id && not m.terminal)) [
  | inr c ↦ rw (c, close_message) (Later-refl m)
  | inl c ↦
      rw (c, close_message)
        (record {
          event_id = refl;
          turn_id = refl;
          input = refl;
          attempt = omega arith;
          terminal = inr refl;
          settled = ground (arith, c);
        })
]

deliver_to-Extends : (d : Delivery) (ms : List DurableMessage) → Extends ms (deliver_to d ms)
unfolding deliver_to
deliver_to-Extends d [] = tt
deliver_to-Extends d (m ∷ ms) =
    elim (m.event_id == d.message_event_id && not (has_message d.message_event_id ms))
      as (λ b. Extends (m ∷ ms) (if b then deliver d m ∷ ms else m ∷ deliver_to d ms)) [
        | true ↦ (deliver-Later d m, Extends-refl ms)
        | false ↦ (Later-refl m, deliver_to-Extends d ms)
      ]

close_messages-Extends :
    (p : Payloads) (e : Event) (ms : List DurableMessage) → Extends ms (close_messages p e ms)
unfolding close_messages
close_messages-Extends p e [] = tt
close_messages-Extends p e (m ∷ ms) = (close_message-Later p e m, close_messages-Extends p e ms)

module _ (payloads : Payloads) where
  add_event-Extends :
      (kind : EventType) (e : Event) (ms : List DurableMessage)
      → Extends ms (add_event payloads kind e ms)
  unfolding add_event
  add_event-Extends message_input e ms =
      elim (payloads.decode_input e.payload)
        as (λ o. Extends ms (elim o [ none ↦ ms | some input ↦ ms ++ new_message e input ∷ [] ])) [
          | none ↦ Extends-refl ms
          | some input ↦ Extends-append ms _
        ]
  add_event-Extends message_delivery e ms =
      elim (payloads.decode_delivery e.payload)
        as (λ o. Extends ms (elim o [ none ↦ ms | some d ↦ deliver_to d ms ])) [
          | none ↦ Extends-refl ms
          | some d ↦ deliver_to-Extends d ms
        ]
  add_event-Extends turn_completed e ms = close_messages-Extends payloads e ms
  add_event-Extends turn_failed e ms = close_messages-Extends payloads e ms
  add_event-Extends turn_cancelled e ms = close_messages-Extends payloads e ms
  add_event-Extends _ e ms = Extends-refl ms

  add_events-Extends :
      (es : List Event) (ms : List DurableMessage) → Extends ms (add_events payloads ms es)
  unfolding add_events
  add_events-Extends [] ms = Extends-refl ms
  add_events-Extends (e ∷ es) ms =
      Extends-trans ms _ _ (add_event-Extends e.kind e ms)
        (add_events-Extends es (add_event payloads e.kind e ms))

  add_events-append :
      (es fs : List Event) (ms : List DurableMessage)
      → add_events payloads ms (es ++ fs) ≡ add_events payloads (add_events payloads ms es) fs
  unfolding add_events
  add_events-append [] fs ms = refl
  add_events-append (e ∷ es) fs ms = add_events-append es fs (add_event payloads e.kind e ms)

  -- The messages of a log that has grown extend those of the log before: the same inputs in the same
  -- order, attempts that never decrease, and terminal messages that stay terminal and are only
  -- changed where the end of the turn had closed them.
  pub build_messages-Extends :
      (es more : List Event)
      → Extends (build_messages payloads es) (build_messages payloads (es ++ more))
  unfolding build_messages
  build_messages-Extends es more =
      subst (Extends (build_messages payloads es)) (sym (add_events-append es more []))
        (add_events-Extends more (add_events payloads [] es))
