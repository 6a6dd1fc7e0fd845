-- ===== src/Broker/Order/Rounds.antt =====
-- The order of the events through a round of the loop of crates/usahp-daemon/src/broker.rs.
use usahp_core.Base.{
  u64_mod, length, ℕ, [], ◌∷◌, ◌∙◌, List, ◌+◌, ◌≤◌, ◌<◌, ◌≡◌, refl, sym, subst, Bool, true, false,
  Option, none, some, arith,
}
use usahp_core.Str.{Str}
use usahp_core.Collections.BTreeMap
use usahp_core.Collections.BTreeMap.{BTreeMap}
use usahp_core.Protocol.{accepted, HandshakeResponse, handshake_response, ServerMessage, Handshake}
use usahp_core.Broker.Types.{Runtime, Session}
use usahp_core.Broker.Send.{
  send_response, event, send_or_drop_cases, send_or_drop, broadcast, release_messages,
  broadcast_all,
}
use usahp_core.Broker.Loop.{route, emit, after_apply}
use usahp_core.Broker.Sessions.{acceptance, new_session, opened, open_session, release_if_passive}
use usahp_core.Broker.Logs.{
  Logs, InOrder, Logs-broadcast, Logs-send_or_drop, Logs-broadcast_all, Logs-refl,
}
use usahp_core.Broker.Numbers.{width, release_messages-Releases}
use usahp_core.State.{SwitchStateMachine, Outcome, ok, err}
use usahp_core.Broker.Order.{
  send_response, Backend, Channel, Advances, Advances-refl, Advances-weaken, confirm-Advances,
}

length-set :
    {V : Type 0} (k : Str) (v : V) (m : BTreeMap V) → length (BTreeMap.set k v m) ≡ length m
unfolding BTreeMap.set
length-set k v [] = refl
length-set k v ((j, w) ∷ m) = omega (arith, length-set k v m)

module _ {S B : Type 0} ⦃ch : Channel S⦄ where
  send_or_drop-same :
      (r : Runtime S B) (k : ℕ) (m : ServerMessage)
      → ((send_or_drop r k m).0.sequence ≡ r.sequence)
        × (width (send_or_drop r k m).0 ≡ width r)
        × ((send_or_drop r k m).0.next_client ≡ r.next_client)
  send_or_drop-same r k m =
      send_or_drop_cases
        (λ o.
          (o.0.sequence ≡ r.sequence) × (width o.0 ≡ width r) × (o.0.next_client ≡ r.next_client))
        r k m (λ e. (refl, refl, refl)) (λ s e f. (refl, refl, refl)) (λ s e f. (refl, refl, refl))

  sent-Advances :
      (q r : Runtime S B) (k : ℕ) (m : ServerMessage)
      → r.clients ≡ q.clients
      → width r ≡ width q
      → r.next_client ≡ q.next_client
      → r.sequence ≤ q.sequence + 1
      → InOrder q.sequence r.sequence m
      → Advances 1 q (send_or_drop r k m).0
  sent-Advances q r k m same wide next high h = record {
    logs =
        subst
          (λ f. Logs q.sequence (send_or_drop r k m).0.sequence f (send_or_drop r k m).0.clients)
          same
          (subst (λ p. Logs q.sequence p r.clients (send_or_drop r k m).0.clients)
            (sym (send_or_drop-same r k m).0) (Logs-send_or_drop q.sequence r.sequence r k m h));
    most = omega (arith, (send_or_drop-same r k m).0);
    same_width = (send_or_drop-same r k m).1 ∙ wide;
    same_next = (send_or_drop-same r k m).2 ∙ next;
  }

  broadcast_all-same :
      (r : Runtime S B) (ms : List ServerMessage)
      → ((broadcast_all r ms).sequence ≡ r.sequence)
        × (width (broadcast_all r ms) ≡ width r)
        × ((broadcast_all r ms).next_client ≡ r.next_client)
  unfolding broadcast_all broadcast
  broadcast_all-same r [] = (refl, refl, refl)
  broadcast_all-same r (m ∷ ms) = broadcast_all-same (broadcast r m) ms

  pub response-Advances :
      (q r : Runtime S B) (k : ℕ) (response : HandshakeResponse)
      → r.clients ≡ q.clients
      → width r ≡ width q
      → r.next_client ≡ q.next_client
      → r.sequence ≡ q.sequence
      → Advances 1 q (send_response r k response).0
  unfolding send_response
  response-Advances q r k response same wide next number =
      sent-Advances q r k (handshake_response response) same wide next (omega arith) (omega arith)

  broadcast-Advances :
      (q r : Runtime S B) (m : ServerMessage)
      → r.clients ≡ q.clients
      → width r ≡ width q
      → r.next_client ≡ q.next_client
      → r.sequence ≤ q.sequence + 1
      → InOrder q.sequence r.sequence m
      → Advances 1 q (broadcast r m)
  unfolding broadcast
  broadcast-Advances q r m same wide next high h = record {
    logs =
        subst (λ f. Logs q.sequence r.sequence f (broadcast r m).clients) same
          (Logs-broadcast q.sequence r.sequence r m h);
    most = high;
    same_width = wide;
    same_next = next;
  }

  module _ ⦃be : Backend B⦄ where
    route-Advances :
        (q r : Runtime S B) (now : ℕ) (m : ServerMessage) (o : Option Session)
        → r.clients ≡ q.clients
        → width r ≡ width q
        → r.next_client ≡ q.next_client
        → r.sequence ≤ q.sequence + 1
        → InOrder q.sequence r.sequence m
        → q.sequence + 1 + width q < u64_mod
        → Advances (1 + width q) q (route r now m o)
    unfolding route
    route-Advances q r now m none same wide next high h fits =
        Advances-weaken 1 (1 + width q) (omega arith)
          (broadcast-Advances q r m same wide next high h)
    route-Advances q r now m (some s) same wide next high h fits =
        confirm-Advances 1 q (send_or_drop r s.client_id m) now
          (sent-Advances q r s.client_id m same wide next high h) fits

    pub after_apply-Advances :
        (r : Runtime S B) (now : ℕ) (o : SwitchStateMachine × Outcome)
        → length o.0.active_by_switch ≡ width r
        → r.sequence + 1 + width r < u64_mod
        → Advances (1 + width r) r (after_apply r now o)
    unfolding after_apply emit event
    after_apply-Advances r now (m, ok (some t)) wide fits =
        route-Advances r _ now _ r.session refl wide refl (omega arith) (omega arith, omega arith)
          fits
    after_apply-Advances r now (m, ok none) wide fits = record {
      logs = Logs-refl r.sequence r.sequence r.clients (omega arith);
      most = omega arith;
      same_width = wide;
      same_next = refl;
    }
    after_apply-Advances r now (m, err e) wide fits = record {
      logs = Logs-refl r.sequence r.sequence r.clients (omega arith);
      most = omega arith;
      same_width = wide;
      same_next = refl;
    }

    pub release_if_passive-Advances :
        (p : Bool) (r : Runtime S B) (now : ℕ)
        → r.sequence + width r < u64_mod
        → Advances (width r) r (release_if_passive p r now)
    unfolding release_if_passive
    release_if_passive-Advances true r now fits = Advances-refl (width r) r
    release_if_passive-Advances false r now fits =
        let made = release_messages-Releases r now fits in
        record {
          logs =
              subst
                (λ q.
                  Logs r.sequence q r.clients
                    (broadcast_all (release_messages r now).0 (release_messages r now).1).clients)
                (sym (broadcast_all-same (release_messages r now).0 (release_messages r now).1).0)
                (subst
                  (λ f.
                    Logs r.sequence (release_messages r now).0.sequence f
                      (broadcast_all (release_messages r now).0 (release_messages r now).1).clients)
                  made.clients
                  (Logs-broadcast_all r.sequence (release_messages r now).0.sequence
                    (release_messages r now).0 (release_messages r now).1 made.in_order));
          most = omega (
            arith,
            (broadcast_all-same (release_messages r now).0 (release_messages r now).1).0,
            made.most,
          );
          same_width =
              (broadcast_all-same (release_messages r now).0 (release_messages r now).1).1
              ∙ made.same_width;
          same_next =
              (broadcast_all-same (release_messages r now).0 (release_messages r now).1).2
              ∙ made.same_next;
        }

    pub open_session-Advances :
        (r : Runtime S B) (now : ℕ) (uuid : Str) (k : ℕ) (h : Handshake)
        → r.sequence + 1 + width r < u64_mod
        → Advances (1 + width r) r (open_session r now uuid k h)
    unfolding open_session
    open_session-Advances r now uuid k h fits =
        confirm-Advances 1 r
          (send_response (opened r (new_session now uuid k h)) k (accepted (acceptance uuid))) now
          (response-Advances r (opened r (new_session now uuid k h)) k (accepted (acceptance uuid))
            refl refl refl refl)
          fits
