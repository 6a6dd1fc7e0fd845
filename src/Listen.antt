-- ===== src/Listen.antt =====
-- crates/usahp-listen/src/main.rs: the tool that prints what a daemon sends. What the socket gives is a
-- list of frames; serde's coder is a pair of arguments, and so are the formats of Rust that print a
-- float and the fields of a response.
pub mod Printing
use usahp_core.Base.{
  ℕ, zero, suc, ◌+◌, ◌-◌, ◌/◌, ◌%◌, Bool, true, false, List, [], ◌∷◌, ◌++◌, map, Option, none, some,
  ltb, length, if◌then◌else◌,
}
use usahp_core.Str.{Str, str}
use usahp_core.Protocol.Float.{F32}
use usahp_core.Protocol.{
  Action, SwitchState, SwitchSnapshot, Hello, SwitchEvent, HandshakeResponse, SessionRevoked,
  SessionRevocationReason, ServerMessage, hello, switch_event, handshake_response, session_revoked,
  heartbeat_timeout, queue_overflow, explicit_revocation, focus_lost, escape_hatch,
}

-- A text message, another message, or a failed receive.
pub data Frame : Type 0 where
  text : Str → Frame
  other : Frame
  receive_error : Frame

-- `{}` of a number; one unit of fuel for each digit.
unfoldable pub digits : ℕ → ℕ → Str → Str
digits zero n rest = rest
digits (suc fuel) n rest =
    let more = digits fuel (n / 10) ((48 + n % 10) ∷ rest) in
    if ltb n 10 then (48 + n) ∷ rest else more

-- A `u64` has at most 20 digits.
unfoldable pub decimal : ℕ → Str
unfolding digits
decimal n = digits 20 n []

-- As many spaces.
abbrev pub spaces : ℕ → Str
spaces zero = []
spaces (suc n) = 32 ∷ spaces n

-- `{:<6}` and `{:>10}`: a longer text is not cut.
abbrev pub pad_right : ℕ → Str → Str
pad_right width s = s ++ spaces (width - length s)

abbrev pub pad_left : ℕ → Str → Str
pad_left width s = spaces (width - length s) ++ s

-- `{:?}` of the enumerations without fields.
abbrev pub debug_action : Action → Str
debug_action Action.pressed = str "Pressed"
debug_action Action.released = str "Released"

abbrev pub debug_state : SwitchState → Str
debug_state SwitchState.pressed = str "Pressed"
debug_state SwitchState.released = str "Released"

abbrev pub debug_reason : SessionRevocationReason → Str
debug_reason heartbeat_timeout = str "HeartbeatTimeout"
debug_reason queue_overflow = str "QueueOverflow"
debug_reason explicit_revocation = str "ExplicitRevocation"
debug_reason focus_lost = str "FocusLost"
debug_reason escape_hatch = str "EscapeHatch"

module _ (fixed_1 : F32 → Str) (debug_response : HandshakeResponse → Str) where
  abbrev pub show_confidence : Option F32 → Str
  show_confidence none = str "—"
  show_confidence (some c) = fixed_1 c ++ str "%"

  abbrev pub show_switch : SwitchSnapshot → Str
  show_switch s = str "  " ++ s.switch_id ++ str ": " ++ debug_state s.state

  -- The lines of `match parsed`.
  unfoldable pub show_message : ServerMessage → List Str
  unfolding decimal
  show_message (hello h) = (str "protocol " ++ h.protocol_version) ∷ map show_switch h.switches
  show_message (switch_event e) =
      (str "#"
        ++ pad_right 6 (decimal e.sequence)
        ++ str " +"
        ++ pad_left 10 (decimal e.monotonic_us)
        ++ str "us  "
        ++ e.switch_id
        ++ str " "
        ++ debug_action e.action
        ++ str "  "
        ++ show_confidence e.confidence)
      ∷ []
  show_message (handshake_response r) = (str "handshake: " ++ debug_response r) ∷ []
  show_message (session_revoked s) =
      (str "session " ++ s.session_id ++ str " revoked: " ++ debug_reason s.reason) ∷ []

  module _ (to_string : ServerMessage → Option Str) (from_str : Str → Option ServerMessage) where
    -- The lines of one message; `none` is the error of `to_string`.
    unfoldable pub print_message : Bool → ServerMessage → Option (List Str)
    unfolding show_message
    print_message true m = elim (to_string m) [ none ↦ none | some json ↦ some (json ∷ []) ]
    print_message false m = some (show_message m)

    -- The loop: the lines that are printed, and whether it ends with `Ok(())`.
    unfoldable pub listen : Bool → List Frame → List Str × Bool
    unfolding print_message
    listen json [] = ([], true)
    listen json (receive_error ∷ frames) = ([], false)
    listen json (other ∷ frames) = listen json frames
    listen json (text t ∷ frames) =
        let (lines, good) = listen json frames in
        elim (from_str t) [
          | none ↦ ([], false)
          | some m ↦ elim (print_message json m) [
            | none ↦ ([], false)
            | some printed ↦ (printed ++ lines, good)
          ]
        ]

    -- `main` from a connection on; `none` is a failed connection.
    unfoldable pub main : Str → Bool → Option (List Frame) → List Str × Bool
    unfolding listen
    main url json none = ([], false)
    main url json (some frames) =
        let (lines, good) = listen json frames in ((str "connected to " ++ url) ∷ lines, good)
