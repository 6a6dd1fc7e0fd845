-- ===== src/Broker/Sessions.antt =====
-- `register`, `revoke`, `unregister` and `handshake` of crates/usahp-daemon/src/broker.rs.
use usahp_core.Base.{
  ℕ, Bool, true, false, not, ◌||◌, List, [], Option, none, some, ◌==◌, nat_eqb, is_some,
  is_some_and, if◌then◌else◌,
}
use usahp_core.Str.{Str, str_eq}
use usahp_core.Protocol.AppId.{valid_app_id}
use usahp_core.Protocol.{
  protocol_version, Acceptance, Handshake, HandshakeRejectionReason, RequestedMode, ServerMessage,
  SessionRevocationReason, hello, session_revoked, accepted, rejected, exclusive_foreground,
  unsupported, protocol_mismatch, invalid_app_id, unsupported_mode, session_busy,
  capture_unavailable, queue_overflow, explicit_revocation,
}
use usahp_core.State.{snapshots}
use usahp_core.Channel.{Channel}
use usahp_core.Capture.{Backend, CaptureResult, done, failed, pause, resume}
use usahp_core.Broker.Types.{
  Runtime, Session, put_client, next_u64, heartbeat_interval_ms, missed_heartbeat_limit,
}
use usahp_core.Broker.Send.{release_messages, send_response, broadcast_all, send_each}

abbrev pub is_exclusive : RequestedMode → Bool
is_exclusive exclusive_foreground = true
is_exclusive (unsupported _) = false

-- The session that an accepted handshake opens.
abbrev pub new_session : ℕ → Str → ℕ → Handshake → Session
new_session now uuid client_id h = record {
  client_id = client_id;
  session_id = uuid;
  pid = h.pid;
  last_heartbeat = now;
}

abbrev pub acceptance : Str → Acceptance
acceptance uuid = record {
  protocol_version = protocol_version;
  session_id = uuid;
  heartbeat_interval_ms = heartbeat_interval_ms;
  missed_heartbeat_limit = missed_heartbeat_limit;
}

-- The chain of tests of `handshake`.
unfoldable pub rejection :
    {S B : Type 0} → Runtime S B → Handshake → Option HandshakeRejectionReason
rejection r h =
    if not (h.protocol_version == protocol_version)
    then some protocol_mismatch
    else if not (valid_app_id h.app_id)
    then some invalid_app_id
    else if not (is_exclusive h.requested_mode)
    then some unsupported_mode
    else if is_some r.session
    then some session_busy
    else none

module _ {S B : Type 0} ⦃ch : Channel S⦄ where
  -- The second result is what the oneshot sender is given; `none` drops it.
  unfoldable pub register : Runtime S B → S → Runtime S B × Option ℕ
  register r sender =
      let client_id = r.next_client in
      let r' = record r { next_client = next_u64 r.next_client } in
      let (sender', sent) =
        ch.try_send sender
          (hello (record { protocol_version = protocol_version; switches = snapshots r.state })) in
      elim sent [
        | true ↦
            (record r' { clients = put_client client_id (some sender') r.clients }, some client_id)
        | false ↦ (r', none)
      ]

  -- The part of `revoke` after the releases are made: the session's client is told.
  unfoldable pub notify :
      Runtime S B → Session → List ServerMessage → SessionRevocationReason → Runtime S B
  unfolding send_each
  notify r session releases reason = elim (r.clients session.client_id) [
    | none ↦ r
    | some sender ↦
        let (sender', failed_releases) = send_each sender releases in
        let (sender'', sent) = ch.try_send sender' (
          session_revoked (record {
            protocol_version = protocol_version;
            session_id = session.session_id;
            reason = reason;
          })) in
        record r {
          clients =
              put_client session.client_id
                (if failed_releases || not sent then none else some sender'') r.clients;
        }
  ]

  module _ ⦃be : Backend B⦄ where
    -- The session is taken, the tracker cleared and the capture paused.
    unfoldable pub close_session : Runtime S B → Runtime S B
    close_session r = record r {
      session = none;
      escape_tracker = [];
      capture = (pause r.capture).0;
      paused = true;
    }

    -- `revoke` once the session is taken.
    unfoldable pub revoke_taken :
        Runtime S B → ℕ → SessionRevocationReason → Option Session → Runtime S B
    unfolding close_session notify
    revoke_taken r now reason none = r
    revoke_taken r now reason (some session) =
        let (r', releases) = release_messages (close_session r) now in
        notify r' session releases reason

    unfoldable pub revoke : Runtime S B → ℕ → SessionRevocationReason → Runtime S B
    unfolding revoke_taken
    revoke r now reason = revoke_taken r now reason r.session

    unfoldable pub unregister : Runtime S B → ℕ → ℕ → Runtime S B
    unregister r now client_id =
        let r' = record r { clients = put_client client_id none r.clients } in
        let revoked = revoke r' now explicit_revocation in
        if is_some_and (λ (s : Session). nat_eqb s.client_id client_id) r.session
        then revoked
        else r'

    abbrev pub reject : Runtime S B → ℕ → HandshakeRejectionReason → Runtime S B
    reject r client_id reason =
        (send_response r client_id
          (rejected (record { protocol_version = protocol_version; reason = reason }))).0

    -- `if !accepted`: a session whose client has no room for the answer is revoked again.
    unfoldable pub confirm : Runtime S B × Bool → ℕ → Runtime S B
    unfolding revoke
    confirm (r, true) now = r
    confirm (r, false) now = revoke r now queue_overflow

    -- From `self.paused = false` on.
    abbrev pub opened : Runtime S B → Session → Runtime S B
    opened r session = record r { paused = false; escape_tracker = []; session = some session }

    unfoldable pub open_session : Runtime S B → ℕ → Str → ℕ → Handshake → Runtime S B
    unfolding confirm
    open_session r now uuid client_id h =
        confirm
          (send_response (opened r (new_session now uuid client_id h)) client_id
            (accepted (acceptance uuid)))
          now

    -- `if !self.paused`: what is held is released to every client.
    unfoldable pub release_if_passive : Bool → Runtime S B → ℕ → Runtime S B
    release_if_passive true r now = r
    release_if_passive false r now =
        let (r', releases) = release_messages r now in broadcast_all r' releases

    -- `if !self.clients.contains_key(&client_id)`: the asking client must still be there.
    unfoldable pub enter : Bool → Runtime S B → ℕ → Str → ℕ → Handshake → Runtime S B
    unfolding open_session
    enter true r now uuid client_id h = open_session r now uuid client_id h
    enter false r now uuid client_id h = record r { capture = (pause r.capture).0; paused = true }

    -- From `if !self.paused` on.
    unfoldable pub take_over : Runtime S B → ℕ → Str → ℕ → Handshake → Runtime S B
    unfolding release_if_passive enter
    take_over r now uuid client_id h =
        let routed = release_if_passive r.paused r now in
        enter (is_some (routed.clients client_id)) routed now uuid client_id h

    -- What follows `self.capture.resume()`.
    unfoldable pub resumed : Runtime S B → CaptureResult → ℕ → Str → ℕ → Handshake → Runtime S B
    unfolding take_over
    resumed r done now uuid client_id h = take_over r now uuid client_id h
    resumed r (failed _) now uuid client_id h = reject r client_id capture_unavailable

    -- From `if self.paused` on: capture has to be had back first.
    unfoldable pub acquire : Bool → Runtime S B → ℕ → Str → ℕ → Handshake → Runtime S B
    unfolding resumed
    acquire true r now uuid client_id h =
        let (capture, result) = resume r.capture in
        resumed (record r { capture = capture }) result now uuid client_id h
    acquire false r now uuid client_id h = take_over r now uuid client_id h

    unfoldable pub answer :
        Runtime S B → Option HandshakeRejectionReason → ℕ → Str → ℕ → Handshake → Runtime S B
    unfolding acquire
    answer r (some reason) now uuid client_id h = reject r client_id reason
    answer r none now uuid client_id h = acquire r.paused r now uuid client_id h

    unfoldable pub handshake : Runtime S B → ℕ → Str → ℕ → Handshake → Runtime S B
    unfolding rejection answer
    handshake r now uuid client_id h = answer r (rejection r h) now uuid client_id h
