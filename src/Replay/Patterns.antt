-- ===== src/Replay/Patterns.antt =====
-- The patterns that the unit tests of crates/usahp-daemon/src/broker.rs match messages against.
use usahp_core.Base.{is_some, ℕ, Bool, true, false, Option, none, some, nat_eqb}
use usahp_core.Str.{Str, str_eq}
use usahp_core.Protocol.{
  Action, HandshakeRejectionReason, SessionRevocationReason, ServerMessage, hello, switch_event,
  handshake_response, session_revoked, accepted, rejected, protocol_mismatch, invalid_app_id,
  unsupported_mode, session_busy, capture_unavailable, heartbeat_timeout, queue_overflow,
  explicit_revocation, focus_lost, escape_hatch,
}
use usahp_core.Replay.Scripts.{Script, Received, got, empty, disconnected}

-- The patterns of the tests.
abbrev pub is_hello : ServerMessage → Bool
is_hello (hello h) = true
is_hello (switch_event e) = false
is_hello (handshake_response r) = false
is_hello (session_revoked s) = false

abbrev pub is_event : (Action → ℕ → Bool) → ServerMessage → Bool
is_event p (hello h) = false
is_event p (switch_event e) = p e.action e.sequence
is_event p (handshake_response r) = false
is_event p (session_revoked s) = false

abbrev pub is_released : Action → Bool
is_released Action.pressed = false
is_released Action.released = true

-- The session of an acceptance.
abbrev pub acceptance_of : ServerMessage → Option Str
acceptance_of (hello h) = none
acceptance_of (switch_event e) = none
acceptance_of (handshake_response (accepted a)) = some a.session_id
acceptance_of (handshake_response (rejected r)) = none
acceptance_of (session_revoked s) = none

abbrev pub is_accepted : ServerMessage → Bool
is_accepted m = is_some (acceptance_of m)

abbrev pub rejection_number : HandshakeRejectionReason → ℕ
rejection_number protocol_mismatch = 0
rejection_number invalid_app_id = 1
rejection_number unsupported_mode = 2
rejection_number session_busy = 3
rejection_number capture_unavailable = 4

abbrev pub is_rejected : HandshakeRejectionReason → ServerMessage → Bool
is_rejected reason (hello h) = false
is_rejected reason (switch_event e) = false
is_rejected reason (handshake_response (accepted a)) = false
is_rejected reason (handshake_response (rejected r)) =
    nat_eqb (rejection_number reason) (rejection_number r.reason)
is_rejected reason (session_revoked s) = false

abbrev pub revocation_number : SessionRevocationReason → ℕ
revocation_number heartbeat_timeout = 0
revocation_number queue_overflow = 1
revocation_number explicit_revocation = 2
revocation_number focus_lost = 3
revocation_number escape_hatch = 4

abbrev pub is_revoked : SessionRevocationReason → ServerMessage → Bool
is_revoked reason (hello h) = false
is_revoked reason (switch_event e) = false
is_revoked reason (handshake_response r) = false
is_revoked reason (session_revoked s) =
    nat_eqb (revocation_number reason) (revocation_number s.reason)

abbrev pub received_as : (ServerMessage → Bool) → Received → Bool
received_as p (got m) = p m
received_as p empty = false
received_as p disconnected = false

abbrev pub is_empty_queue : Received → Bool
is_empty_queue (got m) = false
is_empty_queue empty = true
is_empty_queue disconnected = false

abbrev pub is_disconnected : Received → Bool
is_disconnected (got m) = false
is_disconnected empty = false
is_disconnected disconnected = true

-- `unwrap`, or the `panic!` of a `match`.
abbrev pub unwrap : {A : Type 0} → Option A → Script A
unwrap none w = none
unwrap (some a) w = some (a, w)
