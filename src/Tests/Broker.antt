-- ===== src/Tests/Broker.antt =====
-- Examples for crates/usahp-daemon/src/broker.rs.
use usahp_core.Base.{ℕ, ◌≡◌, ◌≢◌, ◌↔◌, ◌≤◌, ◌<◌, ◌-◌, refl, Option, none, some, [], ◌∷◌}
use usahp_core.Str.{Str, str, str_eq}
use usahp_core.Protocol.{heartbeat_timeout, escape_hatch}
use usahp_core.Collections.HashMap
use usahp_core.Capture.{new_enabled}
use usahp_core.Broker.Types.{Runtime, BrokerCommand, Session, start, from_millis}
use usahp_core.Broker.Sessions.{rejection}
use usahp_core.Broker.Loop.{on_command, Wake, command, ticked, step, run, tick}
use usahp_core.Broker.Core.{core}
use usahp_core.Broker.Run.{Sound, run-start-Sound, start-IsSound}
use usahp_core.Broker.Phases.{phase, passive, ◌⟶*◌, step-phases}
use usahp_core.Broker.Lease.{AreYoung}
use usahp_core.Broker.Lease.Ticks.{EndedFor, tick_lem}
use usahp_core.Broker.Exclusive.{step-exclusive}
use usahp_core.Broker.Admission.{IsAdmissible, rejection_iff}
use usahp_core.Tests.{
  Queue, Thread, queue_channel, thread_backend, good_thread, three_mappings, four_rounds,
  empty_queue, hello_handshake,
}

abbrev pub beginning : Runtime Queue Thread
beginning = start three_mappings (new_enabled (good_thread ∷ [])) 0

run-start-Sound_example :
    (r' : Runtime Queue Thread) × (run beginning four_rounds ≡ some r') × Sound r'
run-start-Sound_example = run-start-Sound three_mappings (good_thread ∷ []) 0 four_rounds

-- A runtime where a broker that did not panic is.
abbrev pub or_beginning : Option (Runtime Queue Thread) → Runtime Queue Thread
or_beginning none = beginning
or_beginning (some r) = r

abbrev pub after_four : Runtime Queue Thread
after_four = or_beginning (run beginning four_rounds)

-- A session with a switch down since 3000.
abbrev pub in_session : Runtime Queue Thread
in_session = record beginning {
  session =
      some (record { client_id = 1; session_id = str "u1"; pid = some 7; last_heartbeat = 2000 });
  escape_tracker = (str "left", 3000) ∷ [];
}

abbrev pub its_session : Session
its_session = record { client_id = 1; session_id = str "u1"; pid = some 7; last_heartbeat = 2000 }

tick_lem_example :
    (from_millis 1500 ≤ 1_500_002_000 - 2000
      → EndedFor in_session (tick in_session 1_500_002_000) its_session heartbeat_timeout)
    × ((k : Str) (t : ℕ)
        → 1_500_002_000 - 2000 < from_millis 1500
        → HashMap.get k in_session.escape_tracker ≡ some t
        → from_millis 4000 ≤ 1_500_002_000 - t
        → EndedFor in_session (tick in_session 1_500_002_000) its_session escape_hatch)
    × (1_500_002_000 - 2000 < from_millis 1500
        → AreYoung 1_500_002_000 in_session.escape_tracker
        → tick in_session 1_500_002_000 ≡ in_session)
tick_lem_example = tick_lem in_session 1_500_002_000 its_session refl

rejection_iff_example :
    (rejection in_session hello_handshake ≡ none)
    ↔ (IsAdmissible hello_handshake × (in_session.session ≡ none))
rejection_iff_example = rejection_iff in_session hello_handshake

-- The client that asks for a session is not there.
abbrev nobody_asks : Wake Queue
nobody_asks = command (BrokerCommand.handshake 5 hello_handshake)

step-phases_example :
    ◌⟶*◌
      (phase (core beginning))
      (phase (core (or_beginning (step beginning 500 (str "u1") nobody_asks))))
    × (phase (core beginning) ≢ passive
        → phase (core (or_beginning (step beginning 500 (str "u1") nobody_asks))) ≢ passive)
unfolding step on_command
step-phases_example =
    step-phases beginning (or_beginning (step beginning 500 (str "u1") nobody_asks)) 500 (str "u1")
      nobody_asks (start-IsSound Queue three_mappings (good_thread ∷ []) 0) refl

-- Two clients, the first with the session.
abbrev two_clients : Runtime Queue Thread
two_clients = record in_session { clients = λ k. some empty_queue }

step-exclusive_example : (tick two_clients 5_000_000_000).clients 2 ≡ two_clients.clients 2
unfolding step
step-exclusive_example =
    step-exclusive two_clients (tick two_clients 5_000_000_000) 5_000_000_000 (str "u1") ticked
      its_session 2 tt refl (λ e. absurd (cc (e))) refl
