-- ===== src/Broker/Types.antt =====
-- crates/usahp-daemon/src/broker.rs: the state of the broker and its commands.
use usahp_core.Base.{
  ℕ, ◌+◌, ◌-◌, ◌*◌, ◌/◌, ◌%◌, min, Bool, false, List, [], Option, none, nat_eq, nat_eqb,
  if◌then◌else◌, u64_mod,
}
use usahp_core.Str.{Str, str_eq}
use usahp_core.Collections.HashMap.{HashMap}
use usahp_core.Protocol.Float.{F32}
use usahp_core.Protocol.{Action, Handshake, SessionRevocationReason}
use usahp_core.Config.{Mapping}
use usahp_core.State
use usahp_core.State.{LogicalTransition, SwitchStateMachine, Outcome, ok, err}
use usahp_core.Capture.{CaptureControl}

abbrev pub heartbeat_interval_ms : ℕ
heartbeat_interval_ms = 500

abbrev pub missed_heartbeat_limit : ℕ
missed_heartbeat_limit = 3

abbrev pub escape_hold_ms : ℕ
escape_hold_ms = 4000

-- `Duration::from_millis`, in nanoseconds.
abbrev pub from_millis : ℕ → ℕ
from_millis n = n * 1_000_000

-- `Instant::elapsed`, which stops at zero.
abbrev pub elapsed : ℕ → ℕ → ℕ
elapsed now since = now - since

pub record PhysicalEvent : Type 0 where
  pub mapping_id : Str
  pub action : Action
  pub confidence : Option F32

-- The oneshot sender of `Register` is the second result of `register`.
pub data BrokerCommand (S : Type 0) : Type 0 where
  input : PhysicalEvent → BrokerCommand S
  register : S → BrokerCommand S
  unregister : ℕ → BrokerCommand S
  handshake : ℕ → Handshake → BrokerCommand S
  heartbeat : ℕ → Str → BrokerCommand S
  revoke_session : SessionRevocationReason → BrokerCommand S
  focus_changed : Option ℕ → BrokerCommand S

pub record Session : Type 0 where
  pub client_id : ℕ
  pub session_id : Str
  pub pid : Option ℕ
  pub last_heartbeat : ℕ

-- `clients` is a `HashMap` that is only looked up and changed key by key: a function.
pub record Runtime (S B : Type 0) : Type 0 where
  pub state : SwitchStateMachine
  pub capture : CaptureControl B
  pub started : ℕ
  pub sequence : ℕ  -- u64
  pub next_client : ℕ  -- u64
  pub clients : ℕ → Option S
  pub session : Option Session
  pub paused : Bool
  pub escape_tracker : HashMap Str ℕ

-- `insert` and, with `none`, `remove` of `clients`.
abbrev pub put_client : {S : Type 0} → ℕ → Option S → (ℕ → Option S) → ℕ → Option S
put_client k o clients j = if nat_eqb k j then o else clients j

-- `+= 1` on a `u64`, as a release build has it.
abbrev pub next_u64 : ℕ → ℕ
next_u64 n = (n + 1) % u64_mod

-- `monotonic_us` of an event: microseconds since the start, at most `u64::MAX`.
abbrev pub monotonic_us : ℕ → ℕ → ℕ
monotonic_us started now = min (elapsed now started / 1000) (u64_mod - 1)

module _ {S B : Type 0} where
  -- The runtime that `run` starts with.
  unfoldable pub start : List Mapping → CaptureControl B → ℕ → Runtime S B
  start mappings capture now = record {
    state = State.new mappings;
    capture = capture;
    started = now;
    sequence = 0;
    next_client = 1;
    clients = λ k. none;
    session = none;
    paused = false;
    escape_tracker = [];
  }
