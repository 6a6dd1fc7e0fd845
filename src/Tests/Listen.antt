-- ===== src/Tests/Listen.antt =====
-- Examples for the tool of crates/usahp-listen/src/main.rs.
use usahp_core.Base.{◌++◌, ◌≡◌, refl, true, false, List, [], ◌∷◌, Option, none, some}
use usahp_core.Str.{Str, str}
use usahp_core.Protocol.Float.{F32}
use usahp_core.Protocol.{
  HandshakeResponse, ServerMessage, hello, switch_event, handshake_response, session_revoked,
}
use usahp_core.Listen.{Frame, text, other, main}
use usahp_core.Listen.Printing.{IsBad, main-json_lem}

-- A coder for the greetings without switches: their version, if it has one.
abbrev encode : ServerMessage → Option Str
encode (hello h) = some h.protocol_version
encode (switch_event e) = none
encode (handshake_response r) = none
encode (session_revoked s) = none

abbrev decode : Str → Option ServerMessage
decode [] = none
decode (c ∷ t) = some (hello (record { protocol_version = c ∷ t; switches = [] }))

abbrev show_float : F32 → Str
show_float c = str "0.0"

abbrev show_response : HandshakeResponse → Str
show_response r = str "..."

abbrev greeting : ServerMessage
greeting = hello (record { protocol_version = str "0.3.0"; switches = [] })

-- A greeting, a ping, and then an empty text.
abbrev good_frames : List Frame
good_frames = text (str "0.3.0") ∷ other ∷ []

main-json_lem_example :
    (main show_float show_response encode decode (str "ws://x") true (some good_frames)
      ≡ (str "connected to ws://x" ∷ str "0.3.0" ∷ [], true))
    × (IsBad decode (text [] ∷ good_frames)
        → main show_float show_response encode decode
            (str "ws://x")
            true
            (some (good_frames ++ text [] ∷ good_frames))
          ≡ (str "connected to ws://x" ∷ str "0.3.0" ∷ [], false))
main-json_lem_example =
    main-json_lem show_float show_response encode decode (str "ws://x") good_frames
      (text [] ∷ good_frames) ((greeting, refl, refl), tt)
