-- ===== src/Tests.antt =====
-- Concrete parts for the examples of the theorems: a queue whose receiver takes nothing out, threads
-- with fixed answers, an inbox with room for so many events, and a scenario of the broker.
pub mod State
pub mod Broker
pub mod Runs
pub mod Clients
pub mod Input
pub mod Gamepad
pub mod Daemon
pub mod Start
pub mod Listen
use usahp_core.Base.{
  ℕ, suc, ◌-◌, ◌≡◌, refl, Bool, true, false, List, [], ◌∷◌, ◌++◌, Option, none, some, arith, ltb,
  if◌then◌else◌, length,
}
use usahp_core.Str.{Str, str}
use usahp_core.Protocol.{Action, Handshake, ServerMessage, exclusive_foreground, protocol_version}
use usahp_core.Protocol.Float.{f32_hundred, f32_zero}
use usahp_core.Config.{Mapping, keyboard}
use usahp_core.Channel.{Channel}
use usahp_core.Capture.{Backend, Reply, acknowledged}
use usahp_core.Input.Grab.{Inbox}
use usahp_core.Broker.Types.{BrokerCommand, PhysicalEvent}
use usahp_core.Broker.Loop.{Round, command, ticked}

pub record Queue : Type 0 where
  pub capacity : ℕ
  pub taken : List ServerMessage

abbrev pub offer_queue : Queue → ServerMessage → Queue × Bool
offer_queue q m =
    if ltb (length q.taken) q.capacity
    then (record q { taken = q.taken ++ m ∷ [] }, true)
    else (q, false)

pub offer_queue-taken :
    (q : Queue) (m : ServerMessage)
    → (offer_queue q m).1 ≡ true
    → (offer_queue q m).0.taken ≡ q.taken ++ m ∷ []
offer_queue-taken q m h = ground arith

pub offer_queue-refused :
    (q : Queue) (m : ServerMessage)
    → (offer_queue q m).1 ≡ false
    → (offer_queue q m).0.taken ≡ q.taken
offer_queue-refused q m h = ground arith

instance abbrev pub queue_channel : Channel Queue
queue_channel = record {
  try_send = offer_queue;
  sent = λ q. q.taken;
  sent_ok = offer_queue-taken;
  sent_failed = offer_queue-refused;
}

pub record Thread : Type 0 where
  pub on_pause : Option Reply
  pub on_resume : Option Reply

abbrev pub thread_command : Bool → Thread → Thread × Option Reply
thread_command true t = (t, t.on_resume)
thread_command false t = (t, t.on_pause)

instance abbrev pub thread_backend : Backend Thread
thread_backend = record { command = thread_command }

abbrev pub good_thread : Thread
good_thread = record { on_pause = some acknowledged; on_resume = some acknowledged }

abbrev pub key_mapping : Str → Str → Str → Mapping
key_mapping id switch_id code = record {
  id = id;
  switch_id = switch_id;
  input = keyboard;
  code = code;
  device = none;
}

-- Two keys for one switch, one for another.
abbrev pub three_mappings : List Mapping
three_mappings =
    key_mapping (str "k1") (str "left") (str "Space")
    ∷ key_mapping (str "k2") (str "left") (str "enter")
    ∷ key_mapping (str "k3") (str "right") (str "a")
    ∷ []

abbrev pub empty_queue : Queue
empty_queue = record { capacity = 8; taken = [] }

abbrev pub hello_handshake : Handshake
hello_handshake = record {
  protocol_version = protocol_version;
  app_id = str "org.app";
  requested_mode = exclusive_foreground;
  pid = some 7;
}

abbrev pub press : Str → PhysicalEvent
press id = record { mapping_id = id; action = Action.pressed; confidence = some f32_hundred }

abbrev pub round : ℕ → BrokerCommand Queue → Round Queue
round now c = record { now = now; uuid = str "u1"; wake = command c }

-- A client registers and gets a session; two keys of a switch go down.
abbrev pub four_rounds : List (Round Queue)
four_rounds =
    round 1000 (BrokerCommand.register empty_queue)
    ∷ round 2000 (BrokerCommand.handshake 1 hello_handshake)
    ∷ round 3000 (BrokerCommand.input (press (str "k1")))
    ∷ round 4000 (BrokerCommand.input (press (str "k2")))
    ∷ []

pub record Box : Type 0 where
  pub room : ℕ
  pub events : List PhysicalEvent

abbrev pub box_send : Box → PhysicalEvent → Box × Bool
box_send b e =
    if ltb 0 b.room
    then (record { room = b.room - 1; events = b.events ++ e ∷ [] }, true)
    else (b, false)

pub box_send-taken :
    (b : Box) (e : PhysicalEvent)
    → (box_send b e).1 ≡ true
    → (box_send b e).0.events ≡ b.events ++ e ∷ []
box_send-taken b e h = ground arith

pub box_send-refused :
    (b : Box) (e : PhysicalEvent) → (box_send b e).1 ≡ false → (box_send b e).0.events ≡ b.events
box_send-refused b e h = ground arith

instance abbrev pub box_inbox : Inbox Box
box_inbox = record {
  blocking_send = box_send;
  taken = λ b. b.events;
  taken_ok = box_send-taken;
  taken_failed = box_send-refused;
}
