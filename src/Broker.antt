-- ===== src/Broker.antt =====
-- crates/usahp-daemon/src/broker.rs. Each handler runs to its end before the next command, at one
-- instant `now`, counted in nanoseconds; `Uuid::new_v4` is the argument `uuid`; log lines are left
-- out. The first four modules hold the state and the handlers, the others the proofs.
pub mod Types
pub mod Send
pub mod Sessions
pub mod Loop
pub mod Cases
pub mod Core
pub mod Refine
pub mod Invariant
pub mod Run
pub mod Phases
pub mod Lease
pub mod Escape
pub mod Admission
pub mod Logs
pub mod Numbers
pub mod Order
pub mod Exclusive
pub mod Delivery
pub mod Refusal
pub mod Picture
pub mod Bounds
pub mod Routes
pub mod Accepted
pub mod Gone
pub mod Reaches
pub mod Follows
