-- ===== src/Input/Gamepad.antt =====
-- The thread of one gamepad: `spawn_gamepads` of crates/usahp-daemon/src/input.rs, for Linux. The evdev
-- device is an interface. The thread fills the interface `Backend` of `CaptureControl`.
pub mod Thread
pub mod Events
use usahp_core.Base.{
  ℕ, zero, suc, ◌≡◌, Bool, true, false, not, List, [], ◌∷◌, Option, none, some, nat_eqb, nat_eq,
  if◌then◌else◌,
}
use usahp_core.Str.{Str}
use usahp_core.Collections.HashMap
use usahp_core.Collections.HashMap.{HashMap}
use usahp_core.Protocol.{Action}
use usahp_core.Capture.{Backend, Reply, acknowledged, reported}
use usahp_core.Input.Grab.{Inbox, send_ids}

pub record InputEvent : Type 0 where
  pub is_key : Bool
  pub code : ℕ  -- u16
  pub value : ℕ  -- i32, of which only 0 and 1 matter

pub data Fetched : Type 0 where
  fetched : List InputEvent → Fetched
  would_block : Fetched
  fetch_error : Str → Fetched

-- `open_device` says `none` for an error, the next three for `Ok(())`. `held` is whether this program
-- has the exclusive hold of the device, which EVIOCGRAB gives and takes: a call that fails, and any
-- other call, leaves it as it is. `patience` bounds how many fetches of a drain are followed.
pub record Device (D : Type 0) : Type 0 where
  pub open_device : Str → Option D
  pub set_nonblocking : D → D × Option Str
  pub grab : D → D × Option Str
  pub ungrab : D → D × Option Str
  pub fetch_events : D → D × Fetched
  pub patience : D → ℕ
  pub held : D → Bool
  pub grab_ok : (d : D) → (grab d).1 ≡ none → held (grab d).0 ≡ true
  pub grab_failed : (d : D) (e : Str) → (grab d).1 ≡ some e → held (grab d).0 ≡ held d
  pub ungrab_ok : (d : D) → (ungrab d).1 ≡ none → held (ungrab d).0 ≡ false
  pub ungrab_failed : (d : D) (e : Str) → (ungrab d).1 ≡ some e → held (ungrab d).0 ≡ held d
  pub nonblocking_held : (d : D) → held (set_nonblocking d).0 ≡ held d
  pub fetch_held : (d : D) → held (fetch_events d).0 ≡ held d

pub record Pad (D : Type 0) : Type 0 where
  pub device : D
  pub grabbed : Bool

-- How a drain of the device ends: blocked, or with an error; or it is `unfinished`, since events come
-- without end, as far as it is followed.
pub data Drained : Type 0 where
  dry unfinished : Drained
  broken : Str → Drained

module _ {D : Type 0} ⦃dev : Device D⦄ where
  -- The inner loop of `Resume`: events from before are thrown away.
  unfoldable pub drain : ℕ → D → D × Drained
  drain zero d = (d, unfinished)
  drain (suc fuel) d =
      let (d', result) = dev.fetch_events d in
      let rest = drain fuel d' in
      elim result [
        | fetched events ↦ rest
        | would_block ↦ (d', dry)
        | fetch_error e ↦ (d', broken e)
      ]

  -- What `ungrab().map(|()| grabbed = false)` leaves and answers.
  abbrev pub let_go : D × Option Str → Pad D × Reply
  let_go (d, none) = (record { device = d; grabbed = false }, acknowledged)
  let_go (d, some e) = (record { device = d; grabbed = true }, reported e)

  unfoldable pub on_pause : Pad D → Pad D × Reply
  on_pause p = if p.grabbed then let_go (dev.ungrab p.device) else (p, acknowledged)

  abbrev pub take_hold : D × Option Str → Pad D × Reply
  take_hold (d, none) = (record { device = d; grabbed = true }, acknowledged)
  take_hold (d, some e) = (record { device = d; grabbed = false }, reported e)

  -- After the drain. One without end is never answered: the model has it as a reply that is dropped, so
  -- the resume does not succeed.
  unfoldable pub after_drain : Bool → D × Drained → Pad D × Reply
  after_drain grabbed (d, broken e) = (record { device = d; grabbed = grabbed }, reported e)
  after_drain grabbed (d, unfinished) = (record { device = d; grabbed = grabbed }, Reply.dropped)
  after_drain true (d, dry) = (record { device = d; grabbed = true }, acknowledged)
  after_drain false (d, dry) = take_hold (dev.grab d)

  unfoldable pub on_resume : Pad D → Pad D × Reply
  unfolding drain after_drain
  on_resume p = after_drain p.grabbed (drain (dev.patience p.device) p.device)

  unfoldable pub pad_command : Bool → Pad D → Pad D × Option Reply
  unfolding on_pause on_resume
  pad_command true p = let (p', reply) = on_resume p in (p', some reply)
  pad_command false p = let (p', reply) = on_pause p in (p', some reply)

-- A thread: in its loop, or over, with the device as it left it, if it had opened it. Its command
-- channel closes with it, so a command to it fails.
pub data PadThread (D : Type 0) : Type 0 where
  running : Pad D → PadThread D
  stopped : Option D → PadThread D

module _ {D : Type 0} ⦃dev : Device D⦄ where
  abbrev pub start_nonblocking : D × Option Str → PadThread D
  start_nonblocking (d, none) = running (record { device = d; grabbed = true })
  start_nonblocking (d, some e) = stopped (some (dev.ungrab d).0)

  abbrev pub start_grabbed : D × Option Str → PadThread D
  start_grabbed (d, none) = start_nonblocking (dev.set_nonblocking d)
  start_grabbed (d, some e) = stopped (some d)

  -- The thread up to its loop.
  unfoldable pub start_thread : Str → PadThread D
  start_thread path = elim (dev.open_device path) [
    | none ↦ stopped none
    | some d ↦ start_grabbed (dev.grab d)
  ]

  unfoldable pub thread_command : Bool → PadThread D → PadThread D × Option Reply
  unfolding pad_command
  thread_command up (running p) = let (p', reply) = pad_command up p in (running p', reply)
  thread_command up (stopped d) = (stopped d, none)

  instance abbrev pub pad_backend : Backend (PadThread D)
  pad_backend = record { command = thread_command }

-- `match event.value()`
abbrev pub action_of : ℕ → Option Action
action_of value =
    if nat_eqb value 1
    then some Action.pressed
    else if nat_eqb value 0
    then some Action.released
    else none

-- The mappings of an event's code, with its action.
abbrev pub wanted_code : Option (List Str) → Option Action → Option (Action × List Str)
wanted_code none action = none
wanted_code (some ids) none = none
wanted_code (some ids) (some action) = some (action, ids)

-- The mappings of one event, with the flag's value when it is read; `none` is a `continue`.
unfoldable pub wanted_event : HashMap ℕ (List Str) → Bool × InputEvent → Option (Action × List Str)
unfolding HashMap.get
wanted_event codes (enabled, event) =
    if not enabled
    then none
    else if not event.is_key
    then none
    else wanted_code (HashMap.get event.code codes) (action_of event.value)

module _ {I : Type 0} ⦃inbox : Inbox I⦄ where
  -- The loop over the fetched events; `false` is the thread's `return`.
  unfoldable pub forward_events : HashMap ℕ (List Str) → I → List (Bool × InputEvent) → I × Bool
  unfolding wanted_event send_ids
  forward_events codes i [] = (i, true)
  forward_events codes i (e ∷ es) = elim (wanted_event codes e) [
    | none ↦ forward_events codes i es
    | some (action, ids) ↦
        let (i', sent) = send_ids i action ids in
        let rest = forward_events codes i' es in if sent then rest else (i', false)
  ]

-- One turn of the loop: the commands that `try_recv` finds, and what the capture flag says at each
-- event that is read.
pub record Turn : Type 0 where
  pub commands : List Bool
  pub flag : ℕ → Bool

abbrev pub with_flag : (ℕ → Bool) → ℕ → List InputEvent → List (Bool × InputEvent)
with_flag flag n [] = []
with_flag flag n (e ∷ es) = (flag n, e) ∷ with_flag flag (suc n) es

module _ {D : Type 0} ⦃dev : Device D⦄ where
  -- `while let Ok(command) = control_receiver.try_recv()`
  unfoldable pub serve_commands : List Bool → Pad D → Pad D × List (Option Reply)
  unfolding pad_command
  serve_commands [] p = (p, [])
  serve_commands (up ∷ commands) p =
      let (p', reply) = pad_command up p in
      let (p'', replies) = serve_commands commands p' in (p'', reply ∷ replies)

  module _ {I : Type 0} ⦃inbox : Inbox I⦄ where
    -- `match device.fetch_events()`, with the loop over the events.
    unfoldable pub after_fetch :
        HashMap ℕ (List Str) → (ℕ → Bool) → Bool → I → D × Fetched → PadThread D × I
    unfolding forward_events
    after_fetch codes flag grabbed i (d, fetched events) =
        let (i', sent) = forward_events codes i (with_flag flag 0 events) in
        (if sent then running (record { device = d; grabbed = grabbed }) else stopped (some d), i')
    after_fetch codes flag grabbed i (d, would_block) =
        (running (record { device = d; grabbed = grabbed }), i)
    after_fetch codes flag grabbed i (d, fetch_error e) = (stopped (some d), i)

    unfoldable pub pad_turn : HashMap ℕ (List Str) → Pad D → I → Turn → PadThread D × I
    unfolding serve_commands after_fetch
    pad_turn codes p i turn =
        let p' = (serve_commands turn.commands p).0 in
        after_fetch codes turn.flag p'.grabbed i (dev.fetch_events p'.device)

    -- The turns of the loop.
    unfoldable pub pad_loop : HashMap ℕ (List Str) → PadThread D → I → List Turn → PadThread D × I
    unfolding pad_turn
    pad_loop codes (stopped d) i turns = (stopped d, i)
    pad_loop codes (running p) i [] = (running p, i)
    pad_loop codes (running p) i (turn ∷ turns) =
        let (thread, i') = pad_turn codes p i turn in pad_loop codes thread i' turns
