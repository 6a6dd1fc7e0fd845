-- ===== src/Server.antt =====
-- crates/usahp-daemon/src/server.rs, as the commands that each connection gives to the broker. The JSON
-- coder is serde's, so `encode` and `decode` are parameters; what the loop's `select!` meets is a list, and its end is an open connection.
pub mod Commands
pub mod Connections
use usahp_core.Base.{
  ◌⊎◌, ◌≢◌, All-append, append_assoc, ℕ, ◌≡◌, inl, inr, refl, sym, ◌∙◌, ap, Bool, true, false, List,
  [], ◌∷◌, ◌++◌, Option, none, some, All, Option-cases, if◌then◌else◌,
}
use usahp_core.Str.{Str}
use usahp_core.Protocol.{ServerMessage, ClientMessage}
use usahp_core.Broker.Types.{BrokerCommand}

-- What the loop is woken by: a message of the broker, with whether the socket takes it; the end of
-- the broker's queue; a text; another frame; the end of the stream or an error of it.
pub data Wire : Type 0 where
  outgoing : ServerMessage → Bool → Wire
  queue_closed : Wire
  text : Str → Wire
  other_frame : Wire
  stream_end : Wire

-- How a connection stands: open, over, or given up with an error that `?` passes on.
pub data Ending : Type 0 where
  still_open finished aborted : Ending

module _ {S : Type 0} where
  -- The commands of `match client_msg`.
  abbrev pub command_of : ℕ → Option ClientMessage → List (BrokerCommand S)
  command_of client_id none = []
  command_of client_id (some (ClientMessage.handshake h)) = BrokerCommand.handshake client_id h ∷ []
  command_of client_id (some (ClientMessage.heartbeat session_id)) =
      BrokerCommand.heartbeat client_id session_id ∷ []

  module _ (encode : ServerMessage → Option Str) (decode : Str → Option ClientMessage) where
    -- The loop, up to and with the `Unregister` after it.
    unfoldable pub client_loop : ℕ → List Wire → List (BrokerCommand S) × Ending
    client_loop client_id [] = ([], still_open)
    client_loop client_id (outgoing m sent ∷ wires) =
        let rest = client_loop client_id wires in
        elim (encode m) [
          | none ↦ ([], aborted)
          | some json ↦ if sent then rest else (BrokerCommand.unregister client_id ∷ [], finished)
        ]
    client_loop client_id (queue_closed ∷ wires) =
        (BrokerCommand.unregister client_id ∷ [], finished)
    client_loop client_id (text t ∷ wires) =
        let (commands, ending) = client_loop client_id wires in
        (command_of client_id (decode t) ++ commands, ending)
    client_loop client_id (other_frame ∷ wires) = client_loop client_id wires
    client_loop client_id (stream_end ∷ wires) = (BrokerCommand.unregister client_id ∷ [], finished)

    -- `registered` is the broker's reply; without one the connection is given up.
    unfoldable pub handle_client : S → Option ℕ → List Wire → List (BrokerCommand S) × Ending
    unfolding client_loop
    handle_client sender none wires = (BrokerCommand.register sender ∷ [], aborted)
    handle_client sender (some client_id) wires =
        let (commands, ending) = client_loop client_id wires in
        (BrokerCommand.register sender ∷ commands, ending)

    -- `handle_client` from `accept_async` on, which may fail.
    unfoldable pub handle_stream : Bool → S → Option ℕ → List Wire → List (BrokerCommand S) × Ending
    unfolding handle_client
    handle_stream false sender registered wires = ([], aborted)
    handle_stream true sender registered wires = handle_client sender registered wires

    -- The loop of `serve`: a task for each accepted stream, until an `accept` fails. A stream is whether
    -- the WebSocket handshake succeeds, the client's channel, the broker's reply, and the wires.
    unfoldable pub serve :
        List (Option (Bool × S × Option ℕ × List Wire)) → List (List (BrokerCommand S) × Ending)
    unfolding handle_stream
    serve [] = []
    serve (none ∷ streams) = []
    serve (some (greeted, sender, registered, wires) ∷ streams) =
        handle_stream greeted sender registered wires ∷ serve streams
