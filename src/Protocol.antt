-- ===== src/Protocol.antt =====
-- crates/usahp-core/src/protocol.rs: the messages on the wire and the checks at its boundary. What
-- serde derives (names of fields and tags, JSON) is not modelled.
pub mod Float
pub mod Confidence
pub mod AppId
pub mod Mode
use usahp_core.Base.{ℕ, Bool, true, false, List, Option, ◌==◌, if◌then◌else◌}
use usahp_core.Str.{Str, str, str_eq}
use Float.{F32}

abbrev pub protocol_version : Str
protocol_version = str "0.3.0"

pub data Action : Type 0 where
  pressed released : Action

pub data SwitchState : Type 0 where
  pressed released : SwitchState

pub record SwitchSnapshot : Type 0 where
  pub switch_id : Str
  pub state : SwitchState
  pub confidence : Option F32

pub record Hello : Type 0 where
  pub protocol_version : Str
  pub switches : List SwitchSnapshot

pub record SwitchEvent : Type 0 where
  pub protocol_version : Str
  pub sequence : ℕ  -- u64
  pub monotonic_us : ℕ  -- u64
  pub switch_id : Str
  pub action : Action
  pub confidence : Option F32

pub data RequestedMode : Type 0 where
  exclusive_foreground : RequestedMode
  unsupported : Str → RequestedMode

-- `From<String> for RequestedMode`
unfoldable pub mode_from_string : Str → RequestedMode
mode_from_string value =
    if value == str "exclusive_foreground" then exclusive_foreground else unsupported value

-- `From<RequestedMode> for String`
unfoldable pub mode_into_string : RequestedMode → Str
mode_into_string exclusive_foreground = str "exclusive_foreground"
mode_into_string (unsupported value) = value

pub record Handshake : Type 0 where
  pub protocol_version : Str
  pub app_id : Str
  pub requested_mode : RequestedMode
  pub pid : Option ℕ  -- u32

pub data HandshakeRejectionReason : Type 0 where
  protocol_mismatch invalid_app_id unsupported_mode session_busy : HandshakeRejectionReason
  capture_unavailable : HandshakeRejectionReason

pub record Acceptance : Type 0 where
  pub protocol_version : Str
  pub session_id : Str
  pub heartbeat_interval_ms : ℕ  -- u32
  pub missed_heartbeat_limit : ℕ  -- u32

pub record Rejection : Type 0 where
  pub protocol_version : Str
  pub reason : HandshakeRejectionReason

-- A variant with named fields holds a record of them.
pub data HandshakeResponse : Type 0 where
  accepted : Acceptance → HandshakeResponse
  rejected : Rejection → HandshakeResponse

pub data SessionRevocationReason : Type 0 where
  heartbeat_timeout queue_overflow explicit_revocation focus_lost : SessionRevocationReason
  escape_hatch : SessionRevocationReason

pub record SessionRevoked : Type 0 where
  pub protocol_version : Str
  pub session_id : Str
  pub reason : SessionRevocationReason

pub data ServerMessage : Type 0 where
  hello : Hello → ServerMessage
  switch_event : SwitchEvent → ServerMessage
  handshake_response : HandshakeResponse → ServerMessage
  session_revoked : SessionRevoked → ServerMessage

pub data ClientMessage : Type 0 where
  handshake : Handshake → ClientMessage
  heartbeat : Str → ClientMessage
