-- ===== src/Lib.antt =====
-- USAHP: the core of a local broker that takes physical switches (keys, gamepad buttons) from the
-- operating system and passes their edges to applications over WebSocket sessions.
--
-- The program's parts and their models. Paths are from the repository's root.
--   Protocol (Protocol.antt and Protocol/): crates/usahp-core/src/protocol.rs, the messages, the
--     check of a confidence (a 32-bit float as its bit pattern, Float.antt) and of an application's
--     name. The JSON encoding is serde's and is not modelled.
--   Config: crates/usahp-core/src/config.rs. `load`, `parse` and `validate`; the file system and the
--     TOML parser are arguments.
--   State: crates/usahp-core/src/state.rs. `new`, `apply`, `snapshots` and `release_all` keep their
--     names; the machine is passed along, and `none` as the result of `apply` is its `unwrap` panic.
--   Capture: `CaptureControl` of crates/usahp-daemon/src/input.rs, with the gamepad threads as an
--     interface `Backend`: what a thread answers to a command is up to the thread.
--   Input: the rest of crates/usahp-daemon/src/input.rs, and crates/usahp-daemon/src/macos_keyboard.rs:
--     `validate`, the tables of keys, and the callbacks as functions of an event and of the broker's
--     `Inbox`, an interface for the sending half of the broker's channel.
--   Input.Gamepad: the gamepad thread of crates/usahp-daemon/src/input.rs: its start, its commands, which
--     fill the interface `Backend`, and its loop over the events. The evdev device is an interface,
--     with a view of whether the program holds it. The source drains the device without a bound before
--     it answers a resume; the model follows as many fetches as the device's `patience` says, and one
--     that goes on is a resume that does not succeed. Input/Pads.antt has the tables by device.
--   Broker: crates/usahp-daemon/src/broker.rs. `Runtime` is the struct of that name; `register`,
--     `unregister`, `input`, `handshake`, `revoke`, `event`, `broadcast` are its methods, and `step`
--     and `run` the loop, one round for each command or tick. Broker/Core.antt has an abstract broker,
--     and Broker/Follows.antt what each round may do to it.
--   Simulator: crates/usahp-daemon/src/simulator.rs, and `broker_mappings` of
--     crates/usahp-daemon/src/main.rs. `parse_line` is the body of the loop over the lines.
--   Server: crates/usahp-daemon/src/server.rs, as the commands that each connection gives to the broker;
--     the JSON coder is a parameter. Server/Connections.antt joins a connection with the broker's loop.
--   Focus: crates/usahp-daemon/src/focus_watcher.rs, over the answers of the Objective-C runtime.
--     Focus/Sessions.antt joins the watcher with the broker's loop.
--   Daemon: `main` of crates/usahp-daemon/src/main.rs, and `spawn` of crates/usahp-daemon/src/input.rs.
--   Listen: crates/usahp-listen/src/main.rs, as the lines that are printed of the frames that come; the
--     JSON coder and two of Rust's formats are parameters. `decimal` is the standard
--     library's format of a `u64`, which has 20 digits at most.
--   Channel: the bounded queue of one client (tokio's `mpsc`), an interface: a send succeeds or not,
--     as the channel likes, and the messages taken are kept in order.
--   Base, Str and Collections: the numbers, strings, maps and sets that the parts share.
--   Replay: the repository's own unit tests, as scripts over the model that are evaluated.
--   Tests: concrete queues, threads and scenarios, on which the theorems are applied.
--
-- How the parts interact: a callback of Input puts `PhysicalEvent`s into the broker's channel; a round
-- of Broker hands one to State, numbers the transition that comes back, and puts it into the Channel
-- of the session's client, or of all clients; a session's start and end drive Capture. The commands of
-- Server and of Focus reach the loop in their order, among those of others. `main` of Daemon makes the
-- tables of Input and the mappings of Broker from one Config.
--
-- Modelling decisions. The broker is one task, so a round is a function of the state, of the instant
-- `now` in nanoseconds and of the identifier that the UUID generator would give. `u64` counters wrap.
-- The clients, a `HashMap` that is only looked up and changed key by key, are a function of their
-- identifiers; the other maps are association lists. Log lines are left out. But for the drain of a
-- gamepad and the digits of a number every function is structural; `run` takes the list of its rounds.
--
-- Not modelled: the sockets, the start of the threads, the command lines, the log, and the wait of `main`
-- for Ctrl+C, which are input and output around the parts above.
pub mod Base
pub mod Str
pub mod Collections
pub mod Protocol
pub mod Config
pub mod State
pub mod Channel
pub mod Capture
pub mod Broker
pub mod Input
pub mod Simulator
pub mod Focus
pub mod Server
pub mod Daemon
pub mod Listen
pub mod Replay
pub mod Tests
