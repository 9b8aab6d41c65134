-- ===== src/Session/Receipts.antt =====
-- What the flags of a durable message say of its state (agenthub/internal/session/turns.go).
use pua.Prelude.{
  ◌≡◌, refl, ◌⊎◌, inl, inr, true, false, not, ◌&&◌, none, some, List, [], ◌∷◌, ◌++◌, arith, Text,
  text_eq, text_eq_iff, All, if◌then◌else◌, Bool-cases, ◌==◌,
}
use pua.Session.Types.{
  EventType, message_input, message_delivery, turn_completed, turn_failed, turn_cancelled, Event,
}
use pua.Session.Messages.{
  MessageInput, Delivery, DurableMessage, Payloads, accepted, failed, cancelled, closed,
  new_message, is_final, record_delivery, deliver, deliver_to, close_message, close_messages,
  closing_state, add_event, add_events, build_messages, has_message,
}

-- The four states of a message that is not sent again.
abbrev pub IsOutcome : Text → Type 0
IsOutcome s = (s ≡ accepted) ⊎ (s ≡ failed) ⊎ (s ≡ cancelled) ⊎ (s ≡ closed)

-- A message is delivered exactly where its state is that the provider accepted it; a delivered
-- message is terminal, and a terminal message has one of the four outcomes.
pub record IsReceipt (m : DurableMessage) : Type 0 where
  pub delivered : m.delivered ≡ text_eq m.state accepted
  pub terminal : (m.delivered ≡ false) ⊎ (m.terminal ≡ true)
  pub outcome : (m.terminal ≡ false) ⊎ IsOutcome m.state

deliver-IsReceipt : (d : Delivery) (m : DurableMessage) → IsReceipt m → IsReceipt (deliver d m)
unfolding deliver is_final record_delivery
deliver-IsReceipt d m h = elim (Bool-cases (is_final d m)) [
  | inl e ↦ rw (e, deliver) h
  | inr e ↦
      rw (e, deliver)
        (record {
          delivered = ground (
            arith,
            e,
            h.delivered,
            h.terminal,
            text_eq_iff m.state accepted,
            text_eq_iff m.state closed,
            text_eq_iff d.state accepted,
          );
          terminal = ground (arith, h.terminal);
          outcome = ground (
            arith,
            e,
            text_eq_iff d.state accepted,
            text_eq_iff d.state failed,
            text_eq_iff d.state cancelled,
          );
        })
]

closing_state-IsOutcome :
    (k : EventType) → (text_eq (closing_state k) accepted ≡ false) × IsOutcome (closing_state k)
unfolding text_eq
closing_state-IsOutcome turn_completed = (refl, inr (inr (inr refl)))
closing_state-IsOutcome turn_failed = (refl, inr (inl refl))
closing_state-IsOutcome _ = (refl, inr (inr (inl refl)))

close_message-IsReceipt :
    (p : Payloads) (e : Event) (m : DurableMessage) → IsReceipt m → IsReceipt (close_message p e m)
unfolding close_message
close_message-IsReceipt p e m h =
    elim (Bool-cases (text_eq m.turn_id e.turn_id && not m.terminal)) [
      | inr c ↦ rw (c, close_message) h
      | inl c ↦
          let (rejected, outcome) = closing_state-IsOutcome e.kind in
          rw (c, close_message)
            (record {
              delivered = ground (arith, c, h.terminal, rejected);
              terminal = inr refl;
              outcome = inr outcome;
            })
    ]

deliver_to-IsReceipt :
    (d : Delivery) (ms : List DurableMessage) → All IsReceipt ms → All IsReceipt (deliver_to d ms)
unfolding deliver_to
deliver_to-IsReceipt d [] h = tt
deliver_to-IsReceipt d (m ∷ ms) h =
    elim (m.event_id == d.message_event_id && not (has_message d.message_event_id ms))
      as (λ b. All IsReceipt (if b then deliver d m ∷ ms else m ∷ deliver_to d ms)) [
        | true ↦ (deliver-IsReceipt d m h.0, h.1)
        | false ↦ (h.0, deliver_to-IsReceipt d ms h.1)
      ]

close_messages-IsReceipt :
    (p : Payloads) (e : Event) (ms : List DurableMessage)
    → All IsReceipt ms
    → All IsReceipt (close_messages p e ms)
unfolding close_messages
close_messages-IsReceipt p e [] h = tt
close_messages-IsReceipt p e (m ∷ ms) h =
    (close_message-IsReceipt p e m h.0, close_messages-IsReceipt p e ms h.1)

new_message-IsReceipt :
    (e : Event) (input : MessageInput) (ms : List DurableMessage)
    → All IsReceipt ms
    → All IsReceipt (ms ++ new_message e input ∷ [])
unfolding text_eq
new_message-IsReceipt e input [] h =
    (record { delivered = refl; terminal = inl refl; outcome = inl refl }, tt)
new_message-IsReceipt e input (m ∷ ms) h = (h.0, new_message-IsReceipt e input ms h.1)

module _ (payloads : Payloads) where
  add_event-IsReceipt :
      (kind : EventType) (e : Event) (ms : List DurableMessage)
      → All IsReceipt ms
      → All IsReceipt (add_event payloads kind e ms)
  unfolding add_event
  add_event-IsReceipt message_input e ms h =
      elim (payloads.decode_input e.payload)
        as (λ o.
          All IsReceipt (elim o [ none ↦ ms | some input ↦ ms ++ new_message e input ∷ [] ])) [
            | none ↦ h
            | some input ↦ new_message-IsReceipt e input ms h
          ]
  add_event-IsReceipt message_delivery e ms h =
      elim (payloads.decode_delivery e.payload)
        as (λ o. All IsReceipt (elim o [ none ↦ ms | some d ↦ deliver_to d ms ])) [
          | none ↦ h
          | some d ↦ deliver_to-IsReceipt d ms h
        ]
  add_event-IsReceipt turn_completed e ms h = close_messages-IsReceipt payloads e ms h
  add_event-IsReceipt turn_failed e ms h = close_messages-IsReceipt payloads e ms h
  add_event-IsReceipt turn_cancelled e ms h = close_messages-IsReceipt payloads e ms h
  add_event-IsReceipt _ e ms h = h

  add_events-IsReceipt :
      (es : List Event) (ms : List DurableMessage)
      → All IsReceipt ms
      → All IsReceipt (add_events payloads ms es)
  unfolding add_events
  add_events-IsReceipt [] ms h = h
  add_events-IsReceipt (e ∷ es) ms h =
      add_events-IsReceipt es (add_event payloads e.kind e ms) (add_event-IsReceipt e.kind e ms h)

  -- In the messages of any log, a message is marked delivered exactly where its state is that the
  -- provider accepted it, a delivered message is terminal, and the state of a terminal message is that
  -- it was accepted, failed, was cancelled or was closed with its turn.
  pub build_messages-IsReceipt : (es : List Event) → All IsReceipt (build_messages payloads es)
  unfolding build_messages
  build_messages-IsReceipt es = add_events-IsReceipt es [] tt
