-- ===== src/Tests/Clients.antt =====
-- Examples for what the clients of crates/usahp-daemon/src/broker.rs see and are sent.
use usahp_core.Base.{◌≡◌, refl, List, [], ◌∷◌, some, inl, arith}
use usahp_core.Str.{str}
use usahp_core.Protocol.{Action}
use usahp_core.Capture.{new_enabled}
use usahp_core.Broker.Types.{Runtime, BrokerCommand, start}
use usahp_core.Broker.Loop.{Round, Wake, command, ticked, step, run, on_command}
use usahp_core.Broker.Types.{PhysicalEvent}
use usahp_core.Broker.Bounds.{IsBounded}
use usahp_core.Broker.Bounds.Runs.{run-start-IsBounded}
use usahp_core.Broker.Sessions.{rejection, handshake}
use usahp_core.Str.{str_eqb}
use usahp_core.Broker.Picture.{IsSeen}
use usahp_core.Broker.Picture.Runs.{AreTimely, run-start-IsSeen}
use usahp_core.Tests.{
  hello_handshake, Queue, Thread, queue_channel, thread_backend, good_thread, three_mappings,
  empty_queue, round, press,
}

-- Two clients register, around the first press; the first gets a session, and another switch goes down.
abbrev six_rounds : List (Round Queue)
six_rounds =
    round 1000 (BrokerCommand.register empty_queue)
    ∷ round 2000 (BrokerCommand.input (press (str "k1")))
    ∷ round 3000 (BrokerCommand.register empty_queue)
    ∷ round 4000 (BrokerCommand.handshake 1 hello_handshake)
    ∷ round 5000 (BrokerCommand.input (press (str "k3")))
    ∷ record { now = 6000; uuid = str "u2"; wake = ticked }
    ∷ []

abbrev new_broker : Runtime Queue Thread
new_broker = start three_mappings (new_enabled (good_thread ∷ [])) 0

six_timely : AreTimely new_broker six_rounds
unfolding run step on_command usahp_core.Broker.Loop.input start new_enabled
    usahp_core.Broker.Loop.tick usahp_core.Broker.Loop.heartbeat usahp_core.Broker.Sessions.revoke
    usahp_core.Broker.Sessions.rejection usahp_core.Str.str_eqb usahp_core.Str.str_ltb
    usahp_core.Broker.Loop.after_apply usahp_core.Broker.Loop.emit usahp_core.Broker.Loop.route
    usahp_core.Broker.Send.broadcast usahp_core.Broker.Send.broadcast_all
    usahp_core.Broker.Send.event usahp_core.Broker.Send.events_of
    usahp_core.Broker.Send.release_messages usahp_core.Broker.Send.send_each
    usahp_core.Broker.Send.send_or_drop usahp_core.Broker.Send.send_response
    usahp_core.Broker.Sessions.handshake usahp_core.Broker.Sessions.register
    usahp_core.Broker.Sessions.acquire usahp_core.Broker.Sessions.answer
    usahp_core.Broker.Sessions.confirm usahp_core.Broker.Sessions.enter
    usahp_core.Broker.Sessions.open_session usahp_core.Broker.Sessions.release_if_passive
    usahp_core.Broker.Sessions.take_over usahp_core.Protocol.AppId.valid_app_id
    usahp_core.Protocol.AppId.bytes usahp_core.Protocol.AppId.utf8 usahp_core.State.new
    usahp_core.State.apply usahp_core.State.apply_edge usahp_core.State.release_all
    usahp_core.State.release_entries usahp_core.State.snapshots usahp_core.Collections.HashMap.get
    usahp_core.Collections.HashMap.insert usahp_core.Collections.HashMap.remove
    usahp_core.Collections.HashMap.collect_from usahp_core.Collections.BTreeMap.get
    usahp_core.Collections.BTreeMap.set usahp_core.Collections.BTreeMap.or_insert
    usahp_core.Collections.BTreeSet.contains usahp_core.Collections.BTreeSet.insert
    usahp_core.Collections.BTreeSet.remove usahp_core.Protocol.Confidence.validate_confidence
    usahp_core.Protocol.Float.is_finite usahp_core.Protocol.Float.f32_leb
six_timely = (inl refl, (tt, (inl refl, (tt, (tt, (tt, tt))))))

run-start-IsSeen_example :
    (r : Runtime Queue Thread) × (run new_broker six_rounds ≡ some r) × IsSeen r
run-start-IsSeen_example =
    run-start-IsSeen three_mappings (good_thread ∷ []) 0 six_rounds six_timely

-- A press whose confidence is not a number, and one of a mapping that is not configured.
abbrev nan_press : PhysicalEvent
nan_press = record { mapping_id = str "k1"; action = Action.pressed; confidence = some 0x7fc00000 }

abbrev nan_rounds : List (Round Queue)
nan_rounds =
    round 1000 (BrokerCommand.register empty_queue)
    ∷ round 2000 (BrokerCommand.input nan_press)
    ∷ round 3000 (BrokerCommand.input (press (str "k9")))
    ∷ round 4000 (BrokerCommand.handshake 1 hello_handshake)
    ∷ []

run-start-IsBounded_example :
    (r : Runtime Queue Thread) × (run new_broker nan_rounds ≡ some r) × IsBounded r.clients
run-start-IsBounded_example =
    run-start-IsBounded three_mappings (good_thread ∷ []) 0 nan_rounds
      (tt, (omega arith, (omega arith, (tt, tt))))

-- A broker with two clients, and no session yet.
abbrev with_clients : Runtime Queue Thread
with_clients = record new_broker { clients = λ k. some empty_queue }
