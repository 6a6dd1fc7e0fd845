-- ===== src/Broker/Bounds.antt =====
-- The messages of crates/usahp-daemon/src/broker.rs and their fields' ranges: what the queues of all
-- clients hold after a send.
pub mod Handlers
pub mod Runs
use usahp_core.Base.{
  some_inj, ℕ, ◌<◌, ◌≡◌, inl, inr, refl, sym, ◌∙◌, ap, subst, Bool, true, false, not, ◌||◌, List,
  [], ◌∷◌, ◌++◌, map, Option, none, some, arith, nat_eqb, if◌then◌else◌, All, All-append,
  Bool-cases, Option-cases, u64_mod,
}
use usahp_core.Collections.BTreeMap.{BTreeMap}
use usahp_core.Collections.BTreeSet.{BTreeSet}
use usahp_core.Protocol.Float.{F32}
use usahp_core.Protocol.Confidence.{IsPercentage}
use usahp_core.Protocol.{
  protocol_version, Acceptance, Rejection, SwitchSnapshot, ServerMessage, hello, switch_event,
  handshake_response, session_revoked, accepted, rejected, SessionRevocationReason,
}
use usahp_core.State.{SwitchStateMachine, snapshot_entry, snapshots}
use usahp_core.Channel.{Channel}
use usahp_core.Broker.Types.{Runtime, Session, put_client}
use usahp_core.Broker.Send.{
  send_or_drop, send_or_drop_cases, offer, broadcast, broadcast_all, send_each,
}
use usahp_core.Broker.Sessions.{notify}
use usahp_core.Broker.Delivery.{farewell}

-- No confidence, or a number from 0 to 100.
abbrev pub IsLegal : Option F32 → Type 0
IsLegal none = Unit
IsLegal (some v) = IsPercentage v

-- A message of this protocol whose numbers fit their types.
abbrev pub IsInBounds : ServerMessage → Type 0
IsInBounds (hello h) =
    (h.protocol_version ≡ protocol_version)
    × All (λ (x : SwitchSnapshot). IsLegal x.confidence) h.switches
IsInBounds (switch_event e) =
    (e.protocol_version ≡ protocol_version)
    × (e.sequence < u64_mod)
    × (e.monotonic_us < u64_mod)
    × IsLegal e.confidence
IsInBounds (handshake_response (accepted a)) = a.protocol_version ≡ protocol_version
IsInBounds (handshake_response (rejected a)) = a.protocol_version ≡ protocol_version
IsInBounds (session_revoked s) = s.protocol_version ≡ protocol_version

snapshots-IsLegal :
    (l : BTreeMap BTreeSet)
    → All (λ (x : SwitchSnapshot). IsLegal x.confidence) (map snapshot_entry l)
snapshots-IsLegal [] = tt
snapshots-IsLegal (e ∷ l) = (tt, snapshots-IsLegal l)

pub greeting-IsInBounds :
    (m : SwitchStateMachine)
    → IsInBounds (hello (record { protocol_version = protocol_version; switches = snapshots m }))
unfolding snapshots
greeting-IsInBounds m = (refl, snapshots-IsLegal m.active_by_switch)

module _ {S : Type 0} ⦃ch : Channel S⦄ where
  abbrev pub AreInBounds : S → Type 0
  AreInBounds s = All IsInBounds (ch.sent s)

  pub try_send-AreInBounds :
      (s : S) (m : ServerMessage) → IsInBounds m → AreInBounds s → AreInBounds (ch.try_send s m).0
  try_send-AreInBounds s m fits h = elim (Bool-cases (ch.try_send s m).1) [
    | inl taken ↦
        subst (All IsInBounds) (sym (ch.sent_ok s m taken))
          (All-append IsInBounds (ch.sent s) (m ∷ []) h (fits, tt))
    | inr full ↦ subst (All IsInBounds) (sym (ch.sent_failed s m full)) h
  ]

  send_each-AreInBounds :
      (s : S) (ms : List ServerMessage)
      → All IsInBounds ms
      → AreInBounds s
      → AreInBounds (send_each s ms).0
  unfolding send_each
  send_each-AreInBounds s [] fits h = h
  send_each-AreInBounds s (m ∷ ms) fits h =
      send_each-AreInBounds (ch.try_send s m).0 ms fits.1 (try_send-AreInBounds s m fits.0 h)

  -- Every client's queue has had such messages only.
  pub record IsBounded (clients : ℕ → Option S) : Type 0 where
    pub at : (k : ℕ) (s : S) → clients k ≡ some s → AreInBounds s

  pub IsBounded-drop :
      {clients : ℕ → Option S} (k : ℕ) → IsBounded clients → IsBounded (put_client k none clients)
  IsBounded-drop k h = record { at = λ j s e. h.at j s (ground arith) }

  pub IsBounded-put :
      {clients : ℕ → Option S} (k : ℕ) (o : Option S)
      → ((s : S) → o ≡ some s → AreInBounds s)
      → IsBounded clients
      → IsBounded (put_client k o clients)
  IsBounded-put {clients} k o own h = record { at = λ j x e. at_key j x (nat_eqb k j) e }
    where
      at_key : (j : ℕ) (x : S) (b : Bool) → (if b then o else clients j) ≡ some x → AreInBounds x
      at_key j x true e = own x e
      at_key j x false e = h.at j x e

  IsBounded-offer :
      {clients : ℕ → Option S} (m : ServerMessage)
      → IsInBounds m
      → IsBounded clients
      → IsBounded (λ k. offer m (clients k))
  IsBounded-offer {clients} m fits h = record { at = λ k s e. of_client k (clients k) refl s e }
    where
      of_client :
          (k : ℕ) (o : Option S) → clients k ≡ o → (s : S) → offer m o ≡ some s → AreInBounds s
      of_client k none q s e = absurd (cc (e))
      of_client k (some x) q s e =
          let new : (ch.try_send x m).0 ≡ s = ground arith in
          subst AreInBounds new (try_send-AreInBounds x m fits (h.at k x q))

  module _ {B : Type 0} where
    pub broadcast-IsBounded :
        (r : Runtime S B) (m : ServerMessage)
        → IsInBounds m
        → IsBounded r.clients
        → IsBounded (broadcast r m).clients
    unfolding broadcast
    broadcast-IsBounded r m fits h = IsBounded-offer m fits h

    pub broadcast_all-IsBounded :
        (r : Runtime S B) (ms : List ServerMessage)
        → All IsInBounds ms
        → IsBounded r.clients
        → IsBounded (broadcast_all r ms).clients
    unfolding broadcast_all
    broadcast_all-IsBounded r [] fits h = h
    broadcast_all-IsBounded r (m ∷ ms) fits h =
        broadcast_all-IsBounded (broadcast r m) ms fits.1 (broadcast-IsBounded r m fits.0 h)

    pub send_or_drop-IsBounded :
        (r : Runtime S B) (k : ℕ) (m : ServerMessage)
        → IsInBounds m
        → IsBounded r.clients
        → IsBounded (send_or_drop r k m).0.clients
    send_or_drop-IsBounded r k m fits h =
        send_or_drop_cases (λ o. IsBounded o.0.clients) r k m (λ e. IsBounded-drop k h)
          (λ s e full. IsBounded-drop k h)
          (λ s e taken.
            IsBounded-put k (some (ch.try_send s m).0)
              (λ x q. subst AreInBounds (some_inj q) (try_send-AreInBounds s m fits (h.at k s e)))
              h)

    pub notify-IsBounded :
        (r : Runtime S B) (s : Session) (ms : List ServerMessage) (reason : SessionRevocationReason)
        → All IsInBounds ms
        → IsBounded r.clients
        → IsBounded (notify r s ms reason).clients
    unfolding notify
    notify-IsBounded r s ms reason fits h = elim (Option-cases (r.clients s.client_id)) [
      | inl e ↦ rw (e, notify) h
      | inr (x, e) ↦
          rw (e, notify)
            (IsBounded-put s.client_id _
              (λ y q. subst AreInBounds (ground arith) (
                try_send-AreInBounds (send_each x ms).0 (farewell s reason) refl
                  (send_each-AreInBounds x ms fits (h.at s.client_id x e))))
              h)
    ]
