-- ===== src/Tests/Daemon.antt =====
-- Examples for the simulator, the focus watcher and the server of crates/usahp-daemon.
use usahp_core.Base.{
  false, ◌==◌, eq_iff, arith, inl, inr, ◌≡◌, ◌++◌, refl, true, Option, some, List, [], ◌∷◌, All,
}
use usahp_core.Str.{str_eqb, Str, str, str_eq}
use usahp_core.Collections.HashMap
use usahp_core.Protocol.{ServerMessage, ClientMessage, hello, protocol_version}
use usahp_core.Config.{Config, Mapping, validate}
use usahp_core.State.{new}
use usahp_core.State.Edges.{switch_of}
use usahp_core.Simulator.{sim_id, broker_mappings}
use usahp_core.Simulator.Routes.{IsClear, validate_routes}
use usahp_core.Server.{Wire, outgoing, text, stream_end, handle_client}
use usahp_core.Server.Commands.{closing, IsOwn, Because, handle_client_lem}
use usahp_core.Broker.Types.{Runtime, BrokerCommand, start}
use usahp_core.Broker.Sessions.{register}
use usahp_core.Broker.Loop.{Round, run}
use usahp_core.Server.Connections.{Left, run-handle_client_lem}
use usahp_core.Tests.{
  Queue, Thread, queue_channel, thread_backend, good_thread, empty_queue, three_mappings,
  hello_handshake, round, press,
}
use usahp_core.Tests.Broker.{beginning}

abbrev pub simulated : Config
simulated = record {
  server = record { port = 7312; client_queue_capacity = 256 };
  simulator = record { stdin = true };
  mappings = three_mappings;
}

-- No mapping of these has an identifier of the simulator.
three-IsClear : IsClear three_mappings
unfolding str_eqb
three-IsClear = (
  (
    clear (str "k1") (str "left") refl,
    (clear (str "k1") (str "left") refl, (clear (str "k1") (str "right") refl, tt)),
  ),
  (
    (
      clear (str "k2") (str "left") refl,
      (clear (str "k2") (str "left") refl, (clear (str "k2") (str "right") refl, tt)),
    ),
    (
      (
        clear (str "k3") (str "left") refl,
        (clear (str "k3") (str "left") refl, (clear (str "k3") (str "right") refl, tt)),
      ),
      tt,
    ),
  ),
)
  where
    clear : (id k : Str) {x : Type 0} → id == sim_id k ≡ false → id ≡ sim_id k → x
    clear id k h e = absurd (cc (h, (eq_iff id (sim_id k)).1 e))

validate_routes_example :
    All
      (λ (m : Mapping). switch_of (new (broker_mappings simulated)) m.id ≡ some m.switch_id)
      three_mappings
unfolding validate str_eqb usahp_core.Str.str_ltb
validate_routes_example = validate_routes simulated refl (λ on. three-IsClear)

abbrev encode_hello : ServerMessage → Option Str
encode_hello m = some (str "{}")

abbrev decode_any : Str → Option ClientMessage
decode_any t = some (ClientMessage.handshake hello_handshake)

abbrev three_wires : List Wire
three_wires =
    outgoing (hello (record { protocol_version = protocol_version; switches = [] })) true
    ∷ text (str "{}")
    ∷ stream_end
    ∷ []

handle_client_lem_example :
    (body : List (BrokerCommand Queue)) × ((handle_client encode_hello decode_any empty_queue
        (some 4)
        three_wires).0
      ≡ BrokerCommand.register empty_queue ∷ body
        ++ closing 4 (handle_client encode_hello decode_any empty_queue (some 4) three_wires).1)
    × All (IsOwn 4) body
    × Because encode_hello three_wires
        (handle_client {S = Queue} encode_hello decode_any empty_queue (some 4) three_wires).1
handle_client_lem_example = handle_client_lem encode_hello decode_any empty_queue 4 three_wires

-- The connection's commands, and an edge between them.
abbrev first_round : Round Queue
first_round = round 1000 (BrokerCommand.register empty_queue)

abbrev later_rounds : List (Round Queue)
later_rounds =
    round 2000 (BrokerCommand.handshake 1 hello_handshake)
    ∷ round 3000 (BrokerCommand.input (press (str "k1")))
    ∷ round 4000 (BrokerCommand.unregister 1)
    ∷ []

run-handle_client_lem_example :
    (r' : Runtime Queue Thread) × (run beginning (first_round ∷ later_rounds) ≡ some r') × Left 1 r'
unfolding run start register handle_client usahp_core.Server.client_loop usahp_core.State.snapshots
    usahp_core.State.new
run-handle_client_lem_example =
    run-handle_client_lem encode_hello decode_any three_mappings (good_thread ∷ []) 0 []
      later_rounds beginning first_round empty_queue 1 three_wires (omega arith) refl refl refl refl
      (inl (refl, (inl (refl, (inr (inl (refl, tt)))))))
