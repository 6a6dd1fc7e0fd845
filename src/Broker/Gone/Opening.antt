-- ===== src/Broker/Gone/Opening.antt =====
-- `register` and `handshake` of crates/usahp-daemon/src/broker.rs, and a client that the broker has
-- forgotten.
use usahp_core.Base.{
  ℕ, ◌+◌, ◌<◌, ◌≡◌, refl, ap, ◌∙◌, Bool, true, false, Option, none, some, some_inj, arith, is_some,
  u64_mod,
}
use usahp_core.Str.{Str}
use usahp_core.Protocol.{
  Handshake, HandshakeRejectionReason, capture_unavailable, accepted, protocol_version, hello,
}
use usahp_core.State.{snapshots}
use usahp_core.Channel.{Channel}
use usahp_core.Capture.{Backend, CaptureResult, done, failed, resume}
use usahp_core.Broker.Types.{Runtime, Session, put_client, next_u64}
use usahp_core.Broker.Send.{send_response, release_messages}
use usahp_core.Broker.Sessions.{
  register, reject, opened, new_session, acceptance, open_session, release_if_passive, enter,
  take_over, resumed, acquire, answer, handshake, rejection,
}
use usahp_core.Broker.Gone.{
  IsGone, put_client-absent, release_messages-IsGone, send_response-IsGone, broadcast_all-IsGone,
}
use usahp_core.Broker.Gone.Handlers.{confirm-IsGone}

module _ {S B : Type 0} {k n : ℕ} ⦃ch : Channel S⦄ where
  -- The new identifier is not a used one, while the counter does not wrap.
  pub register-IsGone :
      (r : Runtime S B) (s : S) → n + 1 < u64_mod → IsGone k n r → IsGone k (n + 1) (register r s).0
  unfolding register
  register-IsGone r s room h =
      with_room
        (ch.try_send s
          (hello (record { protocol_version = protocol_version; switches = snapshots r.state }))).1
        _
    where
      next : next_u64 r.next_client ≡ n + 1
      next = ap next_u64 h.next ∙ omega arith

      other : (q : r.next_client ≡ k) → ⊥
      other q = omega (arith, h.given, h.next)

      with_room :
          (sent : Bool) (s' : S)
          → IsGone k
              (n + 1)
              (elim sent as (λ _. Runtime S B × Option ℕ) [
                | true ↦ (
                  record r {
                    next_client = next_u64 r.next_client;
                    clients = put_client r.next_client (some s') r.clients;
                  },
                  some r.next_client,
                )
                | false ↦ (record r { next_client = next_u64 r.next_client }, none)
              ]).0
      with_room true s' = record {
        given = omega (arith, h.given);
        next = next;
        absent =
            put_client-absent r.next_client k (some s') r.clients h.absent (λ q. absurd (other q));
        foreign = h.foreign;
      }
      with_room false s' = record {
        given = omega (arith, h.given);
        next = next;
        absent = h.absent;
        foreign = h.foreign;
      }

  module _ ⦃be : Backend B⦄ where
    reject-IsGone :
        (r : Runtime S B) (j : ℕ) (reason : HandshakeRejectionReason)
        → IsGone k n r
        → IsGone k n (reject r j reason)
    reject-IsGone r j reason h = send_response-IsGone r j _ h

    release_if_passive-IsGone :
        (b : Bool) (r : Runtime S B) (now : ℕ)
        → IsGone k n r
        → IsGone k n (release_if_passive b r now)
    unfolding release_if_passive
    release_if_passive-IsGone true r now h = h
    release_if_passive-IsGone false r now h =
        broadcast_all-IsGone (release_messages r now).0 (release_messages r now).1
          (release_messages-IsGone r now h)

    -- Only a client that has a queue gets into a session.
    enter-IsGone :
        (b : Bool) (r : Runtime S B) (now : ℕ) (uuid : Str) (j : ℕ) (x : Handshake)
        → is_some (r.clients j) ≡ b
        → IsGone k n r
        → IsGone k n (enter b r now uuid j x)
    unfolding enter open_session
    enter-IsGone true r now uuid j x e h =
        let o = opened r (new_session now uuid j x) in
        let sent = send_response o j (accepted (acceptance uuid)) in
        confirm-IsGone sent.0 sent.1 now (
          send_response-IsGone o j (accepted (acceptance uuid)) (record {
            given = h.given;
            next = h.next;
            absent = h.absent;
            foreign = λ s q same.
                let mine : j ≡ k = ap (λ (y : Session). y.client_id) (some_inj q) ∙ same in
                absurd (cc (e, ap (λ i. is_some (r.clients i)) mine, ap is_some h.absent));
          }))
    enter-IsGone false r now uuid j x e h = record {
      given = h.given;
      next = h.next;
      absent = h.absent;
      foreign = h.foreign;
    }

    take_over-IsGone :
        (r : Runtime S B) (now : ℕ) (uuid : Str) (j : ℕ) (x : Handshake)
        → IsGone k n r
        → IsGone k n (take_over r now uuid j x)
    unfolding take_over
    take_over-IsGone r now uuid j x h =
        enter-IsGone _ (release_if_passive r.paused r now) now uuid j x refl
          (release_if_passive-IsGone r.paused r now h)

    resumed-IsGone :
        (r : Runtime S B) (o : CaptureResult) (now : ℕ) (uuid : Str) (j : ℕ) (x : Handshake)
        → IsGone k n r
        → IsGone k n (resumed r o now uuid j x)
    unfolding resumed
    resumed-IsGone r done now uuid j x h = take_over-IsGone r now uuid j x h
    resumed-IsGone r (failed e) now uuid j x h = reject-IsGone r j capture_unavailable h

    acquire-IsGone :
        (b : Bool) (r : Runtime S B) (now : ℕ) (uuid : Str) (j : ℕ) (x : Handshake)
        → IsGone k n r
        → IsGone k n (acquire b r now uuid j x)
    unfolding acquire
    acquire-IsGone true r now uuid j x h =
        resumed-IsGone (record r { capture = (resume r.capture).0 }) (resume r.capture).1 now uuid j
          x (record { given = h.given; next = h.next; absent = h.absent; foreign = h.foreign })
    acquire-IsGone false r now uuid j x h = take_over-IsGone r now uuid j x h

    answer-IsGone :
        (r : Runtime S B) (o : Option HandshakeRejectionReason) (now : ℕ) (uuid : Str) (j : ℕ)
        (x : Handshake)
        → IsGone k n r
        → IsGone k n (answer r o now uuid j x)
    unfolding answer
    answer-IsGone r (some reason) now uuid j x h = reject-IsGone r j reason h
    answer-IsGone r none now uuid j x h = acquire-IsGone r.paused r now uuid j x h

    pub handshake-IsGone :
        (r : Runtime S B) (now : ℕ) (uuid : Str) (j : ℕ) (x : Handshake)
        → IsGone k n r
        → IsGone k n (handshake r now uuid j x)
    unfolding handshake
    handshake-IsGone r now uuid j x h = answer-IsGone r (rejection r x) now uuid j x h
