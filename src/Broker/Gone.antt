-- ===== src/Broker/Gone.antt =====
-- A client that crates/usahp-daemon/src/broker.rs has forgotten, and the sends.
use usahp_core.Base.{
  ap, ℕ, ◌≡◌, ◌≢◌, ◌<◌, inl, inr, refl, Bool, true, false, List, [], ◌∷◌, Option, none, some, arith,
  nat_eqb, if◌then◌else◌, Option-cases,
}
use usahp_core.Protocol.{ServerMessage, SessionRevocationReason, HandshakeResponse}
use usahp_core.State.{LogicalTransition, release_all}
use usahp_core.Channel.{Channel}
use usahp_core.Broker.Types.{Runtime, Session, put_client}
use usahp_core.Broker.Send.{
  event, events_of, release_messages, send_or_drop, send_or_drop_cases, send_response, offer,
  broadcast, broadcast_all,
}
use usahp_core.Broker.Sessions.{notify}
pub mod Handlers
pub mod Opening
pub mod Runs

-- No queue stands under the identifier `k`, and the session is not its client's; it is below `n`,
-- the next identifier.
pub record IsGone {S B : Type 0} (k n : ℕ) (r : Runtime S B) : Type 0 where
  pub given : k < n
  pub next : r.next_client ≡ n
  pub absent : r.clients k ≡ none
  pub foreign : (s : Session) → r.session ≡ some s → s.client_id ≢ k

pub put_client-absent :
    {S : Type 0} (j k : ℕ) (o : Option S) (f : ℕ → Option S)
    → f k ≡ none
    → (j ≡ k → o ≡ none)
    → put_client j o f k ≡ none
put_client-absent j k o f h same = ground (arith, same)

module _ {S B : Type 0} {k n : ℕ} where
  -- A queue is put back only under an identifier that has one.
  put_back :
      ⦃ch : Channel S⦄ {r : Runtime S B} (j : ℕ) (o : Option S) (s : S)
      → r.clients j ≡ some s
      → IsGone k n r
      → IsGone k n (record r { clients = put_client j o r.clients })
  put_back {r} j o s e h = record {
    given = h.given;
    next = h.next;
    absent = put_client-absent j k o r.clients h.absent (λ q. absurd (cc (e, q, h.absent)));
    foreign = h.foreign;
  }

  pub dropped :
      {r : Runtime S B} (j : ℕ)
      → IsGone k n r
      → IsGone k n (record r { clients = put_client j none r.clients })
  dropped {r} j h = record {
    given = h.given;
    next = h.next;
    absent = put_client-absent j k none r.clients h.absent (λ q. refl);
    foreign = h.foreign;
  }

  pub events_of-IsGone :
      (r : Runtime S B) (now : ℕ) (ts : List LogicalTransition)
      → IsGone k n r
      → IsGone k n (events_of r now ts).0
  unfolding events_of event
  events_of-IsGone r now [] h = h
  events_of-IsGone r now (t ∷ ts) h =
      events_of-IsGone (event r now t.switch_id t.action t.confidence).0 now ts
        (record { given = h.given; next = h.next; absent = h.absent; foreign = h.foreign })

  pub release_messages-IsGone :
      (r : Runtime S B) (now : ℕ) → IsGone k n r → IsGone k n (release_messages r now).0
  unfolding release_messages
  release_messages-IsGone r now h =
      events_of-IsGone (record r { state = (release_all r.state).1 }) now (release_all r.state).0
        (record { given = h.given; next = h.next; absent = h.absent; foreign = h.foreign })

  module _ ⦃ch : Channel S⦄ where
    pub send_or_drop-IsGone :
        (r : Runtime S B) (j : ℕ) (m : ServerMessage)
        → IsGone k n r
        → IsGone k n (send_or_drop r j m).0
    send_or_drop-IsGone r j m h =
        send_or_drop_cases (λ o. IsGone k n o.0) r j m (λ e. dropped j h) (λ s e full. dropped j h)
          (λ s e ok. put_back j (some (ch.try_send s m).0) s e h)

    pub send_response-IsGone :
        (r : Runtime S B) (j : ℕ) (m : HandshakeResponse)
        → IsGone k n r
        → IsGone k n (send_response r j m).0
    unfolding send_response
    send_response-IsGone r j m h = send_or_drop-IsGone r j _ h

    pub broadcast-IsGone :
        (r : Runtime S B) (m : ServerMessage) → IsGone k n r → IsGone k n (broadcast r m)
    unfolding broadcast
    broadcast-IsGone r m h = record {
      given = h.given;
      next = h.next;
      absent = ap (λ o. offer m o) h.absent;
      foreign = h.foreign;
    }

    pub broadcast_all-IsGone :
        (r : Runtime S B) (ms : List ServerMessage) → IsGone k n r → IsGone k n (broadcast_all r ms)
    unfolding broadcast_all
    broadcast_all-IsGone r [] h = h
    broadcast_all-IsGone r (m ∷ ms) h =
        broadcast_all-IsGone (broadcast r m) ms (broadcast-IsGone r m h)

    pub notify-IsGone :
        (r : Runtime S B) (s : Session) (ms : List ServerMessage) (reason : SessionRevocationReason)
        → IsGone k n r
        → IsGone k n (notify r s ms reason)
    unfolding notify
    notify-IsGone r s ms reason h = elim (Option-cases (r.clients s.client_id)) [
      | inl e ↦ rw (e, notify) h
      | inr (x, e) ↦ rw (e, notify) (put_back s.client_id _ x e h)
    ]
