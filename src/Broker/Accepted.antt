-- ===== src/Broker/Accepted.antt =====
-- A handshake that passes the tests of crates/usahp-daemon/src/broker.rs: how it ends.
use usahp_core.Base.{
  ℕ, ◌≡◌, ◌⊎◌, inl, inr, refl, sym, ◌∙◌, subst, Bool, true, false, List, [], ◌∷◌, ◌++◌, none, some,
  arith, is_some,
}
use usahp_core.Str.{Str}
use usahp_core.Protocol.{
  Handshake, ServerMessage, handshake_response, accepted, queue_overflow, rejected,
  protocol_version, capture_unavailable,
}
use usahp_core.Channel.{Channel}
use usahp_core.Capture.{Backend, CaptureResult, done, failed, resume}
use usahp_core.Broker.Types.{Runtime, Session, put_client}
use usahp_core.Broker.Send.{send_or_drop_cases, send_response, release_messages}
use usahp_core.Broker.Sessions.{
  acceptance, answer, acquire, confirm, enter, handshake, new_session, open_session, opened,
  rejection, release_if_passive, resumed, take_over,
}
use usahp_core.Broker.Admission.{rejection_iff}
use usahp_core.Broker.Escape.{revoke-IsClosed}
use usahp_core.Broker.Picture.Sessions.{release_messages-same, send_or_drop-same}
use usahp_core.Broker.Picture.Opened.{broadcast_all-same}

module _ {S B : Type 0} ⦃ch : Channel S⦄ where
  -- The client has the session, and its acceptance is the last message in its queue.
  pub record IsOpened (r : Runtime S B) (now : ℕ) (uuid : Str) (k : ℕ) (h : Handshake)
      : Type 0 where
    pub session : r.session ≡ some (new_session now uuid k h)
    pub on : r.paused ≡ false
    pub fresh : r.escape_tracker ≡ []
    pub client : S
    pub there : r.clients k ≡ some client
    pub earlier : List ServerMessage
    pub told : ch.sent client ≡ earlier ++ handshake_response (accepted (acceptance uuid)) ∷ []

  -- There is no session, and the broker is paused.
  pub record IsShut (r : Runtime S B) : Type 0 where
    pub no_session : r.session ≡ none
    pub off : r.paused ≡ true

  module _ ⦃be : Backend B⦄ where
    abbrev Ends : Runtime S B → ℕ → Str → ℕ → Handshake → Type 0
    Ends r now uuid k h = IsOpened r now uuid k h ⊎ IsShut r

    overflow-IsShut :
        (r : Runtime S B) (now : ℕ) (s : Session)
        → r.session ≡ some s
        → IsShut (confirm (r, false) now)
    unfolding confirm
    overflow-IsShut r now s e =
        let closed = revoke-IsClosed r now queue_overflow s e in
        record { no_session = closed.no_session; off = closed.suspended }

    open_session-Ends :
        (r : Runtime S B) (now : ℕ) (uuid : Str) (k : ℕ) (h : Handshake)
        → Ends (open_session r now uuid k h) now uuid k h
    unfolding open_session send_response confirm
    open_session-Ends r now uuid k h =
        let s = new_session now uuid k h in
        let o = opened r s in
        let m = handshake_response (accepted (acceptance uuid)) in
        send_or_drop_cases (λ x. Ends (confirm x now) now uuid k h) o k m
          (λ e.
            inr (overflow-IsShut (record o { clients = put_client k none o.clients }) now s refl))
          (λ q e full.
            inr (overflow-IsShut (record o { clients = put_client k none o.clients }) now s refl))
          (λ q e taken. inl (record {
            session = refl;
            on = refl;
            fresh = refl;
            client = (ch.try_send q m).0;
            there = ground arith;
            earlier = ch.sent q;
            told = ch.sent_ok q m taken;
          }))

    enter-Ends :
        (b : Bool) (r : Runtime S B) (now : ℕ) (uuid : Str) (k : ℕ) (h : Handshake)
        → r.session ≡ none
        → Ends (enter b r now uuid k h) now uuid k h
    unfolding enter
    enter-Ends true r now uuid k h free = open_session-Ends r now uuid k h
    enter-Ends false r now uuid k h free = inr (record { no_session = free; off = refl })

    release_if_passive-session :
        (b : Bool) (r : Runtime S B) (now : ℕ) → (release_if_passive b r now).session ≡ r.session
    unfolding release_if_passive
    release_if_passive-session true r now = refl
    release_if_passive-session false r now =
        (broadcast_all-same (release_messages r now).0 (release_messages r now).1).1
        ∙ (release_messages-same r now).1

    take_over-Ends :
        (r : Runtime S B) (now : ℕ) (uuid : Str) (k : ℕ) (h : Handshake)
        → r.session ≡ none
        → Ends (take_over r now uuid k h) now uuid k h
    unfolding take_over
    take_over-Ends r now uuid k h free =
        enter-Ends (is_some ((release_if_passive r.paused r now).clients k))
          (release_if_passive r.paused r now) now uuid k h
          (release_if_passive-session r.paused r now ∙ free)

    resumed-Ends :
        (r : Runtime S B) (result : CaptureResult) (now : ℕ) (uuid : Str) (k : ℕ) (h : Handshake)
        → r.session ≡ none
        → r.paused ≡ true
        → Ends (resumed r result now uuid k h) now uuid k h
    unfolding resumed send_response
    resumed-Ends r done now uuid k h free off = take_over-Ends r now uuid k h free
    resumed-Ends r (failed e) now uuid k h free off =
        let (state, session, paused) = send_or_drop-same r k (
          handshake_response (
            rejected
              (record { protocol_version = protocol_version; reason = capture_unavailable }))) in
        inr (record { no_session = session ∙ free; off = paused ∙ off })

    acquire-Ends :
        (b : Bool) (r : Runtime S B) (now : ℕ) (uuid : Str) (k : ℕ) (h : Handshake)
        → r.paused ≡ b
        → r.session ≡ none
        → Ends (acquire b r now uuid k h) now uuid k h
    unfolding acquire
    acquire-Ends true r now uuid k h off free =
        resumed-Ends (record r { capture = (resume r.capture).0 }) (resume r.capture).1 now uuid k h
          free off
    acquire-Ends false r now uuid k h on free = take_over-Ends r now uuid k h free

    pub handshake-Ends :
        (r : Runtime S B) (now : ℕ) (uuid : Str) (k : ℕ) (h : Handshake)
        → rejection r h ≡ none
        → IsOpened (handshake r now uuid k h) now uuid k h ⊎ IsShut (handshake r now uuid k h)
    unfolding handshake answer
    handshake-Ends r now uuid k h e =
        subst (λ o. Ends (answer r o now uuid k h) now uuid k h) (sym e)
          (acquire-Ends r.paused r now uuid k h refl ((rejection_iff r h).0 e).1)
