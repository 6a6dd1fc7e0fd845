-- ===== src/Tests/Runs.antt =====
-- Examples of whole runs, and of what they leave in a client's queue, for
-- crates/usahp-daemon/src/broker.rs.
use usahp_core.Base.{
  List, ◌++◌, map, some_inj, u64_mod, ◌*◌, ◌≡◌, ◌≢◌, ◌⊎◌, inl, ◌<◌, refl, sym, ◌∙◌, subst, Option,
  none, some, [], ◌∷◌, arith, length,
}
use usahp_core.Str.{str_eqb, Str, str, str_eq}
use usahp_core.Broker.Sessions.{handshake}
use usahp_core.Broker.Refusal.{Answered, refusal, handshake-Answered}
use usahp_core.Broker.Delivery.{revoke-sent, farewell, edges, let_up}
use usahp_core.State.Release.{down_switches}
use usahp_core.Protocol.{
  session_busy, ServerMessage, Action, exclusive_foreground, heartbeat_timeout, escape_hatch,
  explicit_revocation,
}
use usahp_core.Collections.HashMap
use usahp_core.Capture.{new_enabled}
use usahp_core.Broker.Types.{Runtime, BrokerCommand, Session, start}
use usahp_core.Broker.Sessions.{rejection, revoke}
use usahp_core.Broker.Loop.{
  input, on_command, Round, Wake, ticked, step, run, tick, heartbeat, held_too_long,
}
use usahp_core.Broker.Core.{core}
use usahp_core.Focus.{watch}
use usahp_core.Focus.Sessions.{watch-Ended}
use usahp_core.Broker.Lease.Runs.{Ended, run-lease}
use usahp_core.Broker.Gone.Runs.{unregister-run_lem}
use usahp_core.Broker.Run.{Sound, run-start-Sound}
use usahp_core.Broker.Escape.{IsClosed, IsHeld}
use usahp_core.Broker.Escape.Runs.{Freed, run-escape}
use usahp_core.Broker.Follows.{Follows}
use usahp_core.Broker.Logs.{events, IsRising}
use usahp_core.Broker.Order.Steps.{share}
use usahp_core.Broker.Order.Runs.{run-start-IsRising}
use usahp_core.Tests.{
  hello_handshake, Queue, Thread, queue_channel, thread_backend, good_thread, three_mappings,
  four_rounds, empty_queue, press, round,
}
use usahp_core.Tests.Broker.{beginning, after_four, in_session, its_session}

-- The queue of the client, after the rounds.
abbrev or_empty : Option Queue → Queue
or_empty none = empty_queue
or_empty (some q) = q

-- What evaluating the run shows: it does not panic, the switch is held and the client's queue is there,
-- and the counters have room.
evaluated :
    (run beginning four_rounds ≡ some after_four)
    × IsHeld (str "left") 3000 (core after_four)
    × (after_four.clients 1 ≡ some (or_empty (after_four.clients 1)))
    × (after_four.next_client ≡ 2)
    × (after_four.session ≡ some its_session)
    × (length four_rounds * share beginning < u64_mod)
unfolding run step on_command input start new_enabled tick heartbeat revoke rejection
    usahp_core.Str.str_eqb usahp_core.Str.str_ltb usahp_core.Broker.Loop.after_apply
    usahp_core.Broker.Loop.emit usahp_core.Broker.Loop.route usahp_core.Broker.Send.broadcast
    usahp_core.Broker.Send.broadcast_all usahp_core.Broker.Send.event
    usahp_core.Broker.Send.events_of usahp_core.Broker.Send.release_messages
    usahp_core.Broker.Send.send_each usahp_core.Broker.Send.send_or_drop
    usahp_core.Broker.Send.send_response usahp_core.Broker.Sessions.handshake
    usahp_core.Broker.Sessions.register usahp_core.Broker.Sessions.acquire
    usahp_core.Broker.Sessions.answer usahp_core.Broker.Sessions.confirm
    usahp_core.Broker.Sessions.enter usahp_core.Broker.Sessions.open_session
    usahp_core.Broker.Sessions.release_if_passive usahp_core.Broker.Sessions.take_over
    usahp_core.Protocol.AppId.valid_app_id usahp_core.Protocol.AppId.bytes
    usahp_core.Protocol.AppId.utf8 usahp_core.State.new usahp_core.State.apply
    usahp_core.State.apply_edge usahp_core.State.release_all usahp_core.State.release_entries
    usahp_core.State.snapshots HashMap.get HashMap.insert HashMap.remove HashMap.collect_from
    usahp_core.Collections.BTreeMap.get usahp_core.Collections.BTreeMap.set
    usahp_core.Collections.BTreeMap.or_insert usahp_core.Collections.BTreeSet.contains
    usahp_core.Collections.BTreeSet.insert usahp_core.Collections.BTreeSet.remove
    usahp_core.Protocol.Confidence.validate_confidence usahp_core.Protocol.Float.is_finite
    usahp_core.Protocol.Float.f32_leb
evaluated = (
  refl,
  record {
    session = record { client_id = 1; session_id = str "u1"; pid = some 7; last_heartbeat = 2000 };
    in_session = refl;
    since = refl;
  },
  refl,
  refl,
  refl,
  omega arith,
)

ran : run beginning four_rounds ≡ some after_four
ran = evaluated.0

after_four-Sound : Sound after_four
after_four-Sound =
    let (r', e, sound) = run-start-Sound three_mappings (good_thread ∷ []) 0 four_rounds in
    subst Sound (some_inj (sym e ∙ ran)) sound

-- The switch stays down: other edges, a heartbeat, and a tick before the time.
abbrev holding_rounds : List (Round Queue)
holding_rounds =
    round 6000 (BrokerCommand.input (press (str "k3")))
    ∷ round 7000 (BrokerCommand.heartbeat 1 (str "u1"))
    ∷ record { now = 8000; uuid = str "u2"; wake = ticked }
    ∷ []

run-escape_example :
    Freed (str "left") after_four holding_rounds
    ⊎ ((r' : Runtime Queue Thread) × (run after_four holding_rounds ≡ some r')
        × IsClosed (core (tick r' 5_000_000_000)))
run-escape_example =
    run-escape after_four holding_rounds (str "left") 3000 5_000_000_000 after_four-Sound
      evaluated.1 (omega arith)

run-start-IsRising_example :
    IsRising 0 after_four.sequence (events (or_empty (after_four.clients 1)).taken)
run-start-IsRising_example =
    run-start-IsRising three_mappings (new_enabled (good_thread ∷ [])) 0 four_rounds after_four
      (refl, (tt, (tt, (tt, tt)))) evaluated.5 (omega arith) ran 1 (or_empty (after_four.clients 1))
      evaluated.2

-- What a client that has left had still under way, and another client.
abbrev late_rounds : List (Round Queue)
late_rounds =
    round 6000 (BrokerCommand.heartbeat 1 (str "u1"))
    ∷ round 7000 (BrokerCommand.handshake 1 hello_handshake)
    ∷ round 8000 (BrokerCommand.register empty_queue)
    ∷ round 9000 (BrokerCommand.input (press (str "k3")))
    ∷ []

unregister-run_lem_example :
    (r' : Runtime Queue Thread) × (run after_four
        (round 5000 (BrokerCommand.unregister 1) ∷ late_rounds)
      ≡ some r')
    × (r'.clients 1 ≡ none)
    × (1 < r'.next_client)
    × ((s : Session) → r'.session ≡ some s → s.client_id ≢ 1)
unregister-run_lem_example =
    unregister-run_lem after_four 5000 1 (str "u1") late_rounds after_four-Sound
      (omega (arith, evaluated.3)) (omega (arith, evaluated.3))

-- Edges, a second client, and a heartbeat that is not the session's.
abbrev silent_rounds : List (Round Queue)
silent_rounds =
    round 6000 (BrokerCommand.input (press (str "k3")))
    ∷ round 7000 (BrokerCommand.register empty_queue)
    ∷ round 8000 (BrokerCommand.heartbeat 2 (str "u1"))
    ∷ round 9000 (BrokerCommand.handshake 2 hello_handshake)
    ∷ []

run-lease_example :
    Ended after_four silent_rounds
    ⊎ ((r' : Runtime Queue Thread) × (run after_four silent_rounds ≡ some r')
        × IsClosed (core (tick r' 1_500_002_000)))
run-lease_example =
    run-lease after_four silent_rounds its_session 1_500_002_000 after_four-Sound evaluated.4
      (tt, (tt, (inl (λ e. omega (arith, e)), (tt, tt)))) (omega arith)

-- The second poll finds another application in front.
abbrev focus_rounds : List (Round Queue)
focus_rounds =
    round 6000 (BrokerCommand.heartbeat 1 (str "u1"))
    ∷ round 7000 (BrokerCommand.focus_changed (some 9))
    ∷ round 8000 (BrokerCommand.input (press (str "k3")))
    ∷ []

watch-Ended_example : Ended after_four focus_rounds
unfolding watch
watch-Ended_example =
    watch-Ended after_four focus_rounds its_session 7 (some 7 ∷ some 9 ∷ []) after_four-Sound
      evaluated.4 refl refl refl

-- The session's client is there, and a switch is down.
abbrev down_now : Runtime Queue Thread
down_now = record in_session {
  state = record beginning.state {
    active_by_switch = (str "left", str "k1" ∷ []) ∷ (str "right", []) ∷ [];
  };
  clients = λ k. some empty_queue;
}

down_now-kept :
    (revoke down_now 5000 escape_hatch).clients 1
    ≡ some (or_empty ((revoke down_now 5000 escape_hatch).clients 1))
unfolding usahp_core.Broker.Sessions.revoke usahp_core.Broker.Sessions.revoke_taken
    usahp_core.Broker.Sessions.close_session usahp_core.Broker.Sessions.notify
    usahp_core.Broker.Send.release_messages usahp_core.Broker.Send.events_of
    usahp_core.Broker.Send.event usahp_core.Broker.Send.send_each usahp_core.State.release_all
    usahp_core.State.release_entries
down_now-kept = refl

revoke-sent_example :
    (ms : List ServerMessage) × ((or_empty ((revoke down_now 5000 escape_hatch).clients 1)).taken
      ≡ [] ++ ms ++ farewell its_session escape_hatch ∷ [])
    × (edges ms ≡ map let_up (down_switches down_now.state.active_by_switch))
revoke-sent_example =
    revoke-sent down_now 5000 escape_hatch its_session empty_queue
      (or_empty ((revoke down_now 5000 escape_hatch).clients 1)) refl refl down_now-kept

-- Another client asks for a session while one is open.
handshake-Answered_example :
    Answered down_now
      (handshake down_now 6000 (str "u2") 2 hello_handshake)
      2
      (refusal session_busy)
unfolding usahp_core.Broker.Sessions.rejection usahp_core.Protocol.AppId.valid_app_id
    usahp_core.Protocol.AppId.bytes usahp_core.Protocol.AppId.utf8 usahp_core.Str.str_eqb
handshake-Answered_example =
    handshake-Answered down_now 6000 (str "u2") 2 hello_handshake session_busy refl
