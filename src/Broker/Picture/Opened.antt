-- ===== src/Broker/Picture/Opened.antt =====
-- The pictures of the clients when a session of crates/usahp-daemon/src/broker.rs opens.
use usahp_core.Base.{
  ℕ, ◌≡◌, refl, sym, ◌∙◌, ap, subst, Bool, true, false, List, [], ◌∷◌, Option, none, some, nat_eqb,
  if◌then◌else◌, is_some,
}
use usahp_core.Str.{Str}
use usahp_core.Protocol.{
  ServerMessage, Handshake, HandshakeRejectionReason, handshake_response, accepted, rejected,
  protocol_version,
}
use usahp_core.State.{release_all, snapshots}
use usahp_core.State.Idle.{idle_snapshots, release_all-again}
use usahp_core.Channel.{Channel}
use usahp_core.Capture.{Backend, CaptureResult, done, failed, resume}
use usahp_core.Broker.Types.{Runtime, Session}
use usahp_core.Broker.Send.{release_messages, send_or_drop, send_response, broadcast_all}
use usahp_core.Broker.Sessions.{
  acceptance, answer, acquire, enter, handshake, new_session, open_session, opened, reject,
  rejection, release_if_passive, resumed, take_over,
}
use usahp_core.Broker.Numbers.{release_messages-clients}
use usahp_core.Broker.Admission.{rejection_iff}
use usahp_core.Broker.Picture.{expected, Pictured, IsSeen, Pictured-same}
use usahp_core.Broker.Picture.Sends.{Pictured-broadcast_all}
use usahp_core.Broker.Send.{broadcast}
use usahp_core.Broker.Picture.Sessions.{
  seen, see_all-release_messages, release_messages-same, send_or_drop-IsSeen, confirm-IsSeen,
}

module _ {S B : Type 0} ⦃ch : Channel S⦄ ⦃be : Backend B⦄ where
  -- Without a session, a broker whose switches are up.
  record IsReady (r : Runtime S B) : Type 0 where
    seen_all : IsSeen r
    free : r.session ≡ none
    rest : snapshots r.state ≡ idle_snapshots r.state

  opened-IsSeen : (r : Runtime S B) (s : Session) → IsReady r → IsSeen (opened r s)
  opened-IsSeen r s h = record {
    pictured =
        Pictured-same (λ k. ap (λ o. expected r.state o k) h.free ∙ either (nat_eqb s.client_id k))
          h.seen_all.pictured;
    rests = λ p. absurd (cc (p));
  }
    where
      either :
          (b : Bool) → snapshots r.state ≡ (if b then snapshots r.state else idle_snapshots r.state)
      either true = refl
      either false = h.rest

  enter-IsSeen :
      (b : Bool) (r : Runtime S B) (now : ℕ) (uuid : Str) (k : ℕ) (x : Handshake)
      → IsReady r
      → IsSeen (enter b r now uuid k x)
  unfolding enter open_session send_response
  enter-IsSeen true r now uuid k x h =
      let message = handshake_response (accepted (acceptance uuid)) in
      let o = opened r (new_session now uuid k x) in
      confirm-IsSeen (send_or_drop o k message).0 (send_or_drop o k message).1 now (
        send_or_drop-IsSeen o k message (λ xs. refl) (opened-IsSeen r (new_session now uuid k x) h))
  enter-IsSeen false r now uuid k x h = record {
    pictured = h.seen_all.pictured;
    rests = λ p. h.rest;
  }

  pub broadcast_all-same :
      (r : Runtime S B) (ms : List ServerMessage)
      → ((broadcast_all r ms).state ≡ r.state) × ((broadcast_all r ms).session ≡ r.session)
  unfolding broadcast_all
  broadcast_all-same r [] = (refl, refl)
  broadcast_all-same r (m ∷ ms) = broadcast_all-same (broadcast r m) ms

  release_if_passive-IsReady :
      (b : Bool) (r : Runtime S B) (now : ℕ)
      → r.paused ≡ b
      → r.session ≡ none
      → IsSeen r
      → IsReady (release_if_passive b r now)
  unfolding release_if_passive
  release_if_passive-IsReady true r now e free h = record {
    seen_all = h;
    free = free;
    rest = h.rests e;
  }
  release_if_passive-IsReady false r now e free h =
      let released = release_messages r now in
      let (state, session, _) = release_messages-same r now in
      let (state', session') = broadcast_all-same released.0 released.1 in
      let known = state' ∙ state in
      let again = sym (release_all-again r.state) in
      let told =
        Pictured-broadcast_all (λ k. snapshots r.state) released.0 released.1
          (subst (λ f. Pictured (λ k. snapshots r.state) f) (sym (release_messages-clients r now))
            (Pictured-same (λ k. ap (λ o. expected r.state o k) free) h.pictured)) in
      record {
        seen_all =
            seen (broadcast_all released.0 released.1) (release_all r.state).1 none known
              (session' ∙ session ∙ free) (λ p. again)
              (Pictured-same (λ k. see_all-release_messages r now) told);
        free = session' ∙ session ∙ free;
        rest = ap snapshots known ∙ again ∙ ap idle_snapshots (sym known);
      }

  take_over-IsSeen :
      (r : Runtime S B) (now : ℕ) (uuid : Str) (k : ℕ) (x : Handshake)
      → r.session ≡ none
      → IsSeen r
      → IsSeen (take_over r now uuid k x)
  unfolding take_over
  take_over-IsSeen r now uuid k x free h =
      enter-IsSeen (is_some ((release_if_passive r.paused r now).clients k))
        (release_if_passive r.paused r now) now uuid k x
        (release_if_passive-IsReady r.paused r now refl free h)

  reject-IsSeen :
      (r : Runtime S B) (k : ℕ) (reason : HandshakeRejectionReason)
      → IsSeen r
      → IsSeen (reject r k reason)
  unfolding send_response
  reject-IsSeen r k reason h =
      send_or_drop-IsSeen r k
        (handshake_response
          (rejected (record { protocol_version = protocol_version; reason = reason })))
        (λ xs. refl) h

  resumed-IsSeen :
      (r : Runtime S B) (result : CaptureResult) (now : ℕ) (uuid : Str) (k : ℕ) (x : Handshake)
      → r.session ≡ none
      → IsSeen r
      → IsSeen (resumed r result now uuid k x)
  unfolding resumed
  resumed-IsSeen r done now uuid k x free h = take_over-IsSeen r now uuid k x free h
  resumed-IsSeen r (failed e) now uuid k x free h = reject-IsSeen r k _ h

  acquire-IsSeen :
      (b : Bool) (r : Runtime S B) (now : ℕ) (uuid : Str) (k : ℕ) (x : Handshake)
      → r.session ≡ none
      → IsSeen r
      → IsSeen (acquire b r now uuid k x)
  unfolding acquire
  acquire-IsSeen true r now uuid k x free h =
      resumed-IsSeen (record r { capture = (resume r.capture).0 }) (resume r.capture).1 now uuid k x
        free (record { pictured = h.pictured; rests = h.rests })
  acquire-IsSeen false r now uuid k x free h = take_over-IsSeen r now uuid k x free h

  answer-IsSeen :
      (r : Runtime S B) (o : Option HandshakeRejectionReason) (now : ℕ) (uuid : Str) (k : ℕ)
      (x : Handshake)
      → rejection r x ≡ o
      → IsSeen r
      → IsSeen (answer r o now uuid k x)
  unfolding answer
  answer-IsSeen r (some reason) now uuid k x e h = reject-IsSeen r k reason h
  answer-IsSeen r none now uuid k x e h =
      acquire-IsSeen r.paused r now uuid k x ((rejection_iff r x).0 e).1 h

  pub handshake-IsSeen :
      (r : Runtime S B) (now : ℕ) (uuid : Str) (k : ℕ) (x : Handshake)
      → IsSeen r
      → IsSeen (handshake r now uuid k x)
  unfolding handshake
  handshake-IsSeen r now uuid k x h = answer-IsSeen r (rejection r x) now uuid k x refl h
