-- ===== src/Replay.antt =====
-- The unit tests of crates/usahp-core and crates/usahp-daemon, replayed on the model: a script is a test
-- of the broker with its channels. `recv` fails where the test would wait for ever, and a client that
-- the broker drops keeps what was waiting for it before that round.
pub mod Mail
pub mod Scripts
pub mod Patterns
pub mod State
pub mod Checks
pub mod Broker
pub mod Sessions
pub mod Focus
pub mod Hatch
pub mod Server
