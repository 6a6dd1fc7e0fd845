-- ===== src/Broker/Send.antt =====
-- `event`, `release_messages`, `send_response` and `broadcast` of crates/usahp-daemon/src/broker.rs.
use usahp_core.Base.{
  Bool-cases, inr, inl, Option-cases, ◌≡◌, not, ℕ, Bool, true, false, ◌||◌, List, [], ◌∷◌, Option,
  none, some,
}
use usahp_core.Str.{Str}
use usahp_core.Protocol.Float.{F32}
use usahp_core.Protocol.{
  protocol_version, Action, HandshakeResponse, ServerMessage, switch_event, handshake_response,
}
use usahp_core.State.{LogicalTransition, release_all}
use usahp_core.Channel.{Channel}
use usahp_core.Broker.Types.{Runtime, put_client, next_u64, monotonic_us}

module _ {S : Type 0} ⦃ch : Channel S⦄ where
  -- What `retain` does with one client.
  abbrev pub offer : ServerMessage → Option S → Option S
  offer message none = none
  offer message (some sender) =
      let (sender', sent) = ch.try_send sender message in
      elim sent [ true ↦ some sender' | false ↦ none ]

  -- `delivery_failed |= sender.try_send(…).is_err()` over the messages: none is skipped.
  unfoldable pub send_each : S → List ServerMessage → S × Bool
  send_each s [] = (s, false)
  send_each s (m ∷ ms) =
      let (s', sent) = ch.try_send s m in
      let (s'', delivery_failed) = send_each s' ms in (s'', not sent || delivery_failed)

module _ {S B : Type 0} where
  unfoldable pub event : Runtime S B → ℕ → Str → Action → Option F32 → Runtime S B × ServerMessage
  event r now switch_id action confidence =
      let sequence = next_u64 r.sequence in
      (
        record r { sequence = sequence },
        switch_event (record {
          protocol_version = protocol_version;
          sequence = sequence;
          monotonic_us = monotonic_us r.started now;
          switch_id = switch_id;
          action = action;
          confidence = confidence;
        }),
      )

  -- `.map(|transition| self.event(…)).collect()`
  unfoldable pub events_of :
      Runtime S B → ℕ → List LogicalTransition → Runtime S B × List ServerMessage
  unfolding event
  events_of r now [] = (r, [])
  events_of r now (t ∷ ts) =
      let (r', message) = event r now t.switch_id t.action t.confidence in
      let (r'', messages) = events_of r' now ts in (r'', message ∷ messages)

  unfoldable pub release_messages : Runtime S B → ℕ → Runtime S B × List ServerMessage
  release_messages r now =
      let (transitions, state) = release_all r.state in
      events_of (record r { state = state }) now transitions

  module _ ⦃ch : Channel S⦄ where
    -- `self.clients.get(&client_id).is_some_and(|sender| sender.try_send(…).is_ok())`, and the
    -- client is forgotten if that is false.
    unfoldable pub send_or_drop : Runtime S B → ℕ → ServerMessage → Runtime S B × Bool
    send_or_drop r client_id message = elim (r.clients client_id) [
      | none ↦ (record r { clients = put_client client_id none r.clients }, false)
      | some sender ↦
          let (sender', sent) = ch.try_send sender message in
          elim sent [
            | true ↦ (record r { clients = put_client client_id (some sender') r.clients }, true)
            | false ↦ (record r { clients = put_client client_id none r.clients }, false)
          ]
    ]

    unfoldable pub send_response : Runtime S B → ℕ → HandshakeResponse → Runtime S B × Bool
    unfolding send_or_drop
    send_response r client_id response = send_or_drop r client_id (handshake_response response)

    unfoldable pub broadcast : Runtime S B → ServerMessage → Runtime S B
    broadcast r message = record r { clients = λ k. offer message (r.clients k) }

    unfoldable pub broadcast_all : Runtime S B → List ServerMessage → Runtime S B
    unfolding broadcast
    broadcast_all r [] = r
    broadcast_all r (m ∷ ms) = broadcast_all (broadcast r m) ms

    -- A split of a send: the client is gone, its queue refuses, or its queue takes the message.
    pub send_or_drop_cases {ℓ} :
        (P : Runtime S B × Bool → Type ℓ) (r : Runtime S B) (k : ℕ) (m : ServerMessage)
        → (r.clients k ≡ none → P (record r { clients = put_client k none r.clients }, false))
        → ((s : S)
            → r.clients k ≡ some s
            → (ch.try_send s m).1 ≡ false
            → P (record r { clients = put_client k none r.clients }, false))
        → ((s : S)
            → r.clients k ≡ some s
            → (ch.try_send s m).1 ≡ true
            → P (record r { clients = put_client k (some (ch.try_send s m).0) r.clients }, true))
        → P (send_or_drop r k m)
    unfolding send_or_drop
    send_or_drop_cases P r k m gone full taken = elim (Option-cases (r.clients k)) [
      | inl e ↦ rw (e, send_or_drop) (gone e)
      | inr (s, e) ↦ elim (Bool-cases (ch.try_send s m).1) [
        | inl ok ↦ rw (e, send_or_drop) (rw ok (taken s e ok))
        | inr no_room ↦ rw (e, send_or_drop) (rw no_room (full s e no_room))
      ]
    ]
