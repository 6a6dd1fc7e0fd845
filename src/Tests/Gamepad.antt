-- ===== src/Tests/Gamepad.antt =====
-- Examples for the gamepad threads of crates/usahp-daemon/src/input.rs, on a device with a fixed queue.
use usahp_core.Base.{some, ℕ, ◌≡◌, refl, Bool, true, false, none, List, [], ◌∷◌, All, nat_eq}
use usahp_core.Str.{Str, str}
use usahp_core.Collections.HashMap.{HashMap}
use usahp_core.Capture.{CaptureControl, resume}
use usahp_core.Input.Gamepad.{
  running, thread_command, PadThread, InputEvent, Fetched, fetched, would_block, Device, Pad, drain,
  on_resume, pad_command, pad_backend, after_drain, forward_events,
}
use usahp_core.Input.Gamepad.{Turn}
use usahp_core.Input.Gamepad.Thread.{IsHolding, resume-held}
use usahp_core.Input.Gamepad.Events.{Wants, Sent, forward_events_lem}
use usahp_core.Broker.Types.{PhysicalEvent}
use usahp_core.Tests.{Box, box_inbox}

abbrev button : ℕ → ℕ → InputEvent
button code value = record { is_key = true; code = code; value = value }

-- The fetches that the device still fills, and whether it is held.
record Joystick : Type 0 where
  waiting : List (List InputEvent)
  grabbed : Bool

abbrev fetch_joystick : Joystick → List (List InputEvent) → Joystick × Fetched
fetch_joystick d [] = (d, would_block)
fetch_joystick d (es ∷ q) = (record d { waiting = q }, fetched es)

fetch_joystick-grabbed :
    (d : Joystick) (q : List (List InputEvent)) → (fetch_joystick d q).0.grabbed ≡ d.grabbed
fetch_joystick-grabbed d [] = refl
fetch_joystick-grabbed d (es ∷ q) = refl

instance joystick_device : Device Joystick
joystick_device = record {
  open_device = λ path. some (record { waiting = (button 304 1 ∷ []) ∷ []; grabbed = false });
  set_nonblocking = λ d. (d, none);
  grab = λ d. (record d { grabbed = true }, none);
  ungrab = λ d. (record d { grabbed = false }, none);
  fetch_events = λ d. fetch_joystick d d.waiting;
  patience = λ d. 9;
  held = λ d. d.grabbed;
  grab_ok = λ d h. refl;
  grab_failed = λ d e h. absurd (cc (h));
  ungrab_ok = λ d h. refl;
  ungrab_failed = λ d e h. absurd (cc (h));
  nonblocking_held = λ d. refl;
  fetch_held = λ d. fetch_joystick-grabbed d d.waiting;
}

abbrev released_pad : Pad Joystick
released_pad = record {
  device = record { waiting = (button 304 1 ∷ []) ∷ []; grabbed = false };
  grabbed = false;
}

abbrev one_pad : CaptureControl (PadThread Joystick)
one_pad = record { enabled = false; backends = running released_pad ∷ [] }

resume-held_example :
    ((resume one_pad).0.enabled ≡ true) × All IsHolding (resume one_pad).0.backends
unfolding joystick_device resume thread_command pad_command on_resume drain after_drain
resume-held_example = resume-held one_pad (refl, tt) refl

abbrev button_codes : HashMap ℕ (List Str)
button_codes = (304, str "g1" ∷ []) ∷ []

abbrev three_events : List (Bool × InputEvent)
three_events = (true, button 304 1) ∷ (true, button 304 2) ∷ (false, button 304 0) ∷ []

abbrev pad_box : Box
pad_box = record { room = 3; events = [] }

forward_events_lem_example :
    (out : List PhysicalEvent) × Wants button_codes three_events out
    × Sent pad_box out (forward_events button_codes pad_box three_events)
forward_events_lem_example = forward_events_lem button_codes pad_box three_events

-- A pause, an event, and a resume.
abbrev two_turns : List Turn
two_turns =
    record { commands = false ∷ []; flag = λ n. false }
    ∷ record { commands = true ∷ []; flag = λ n. true }
    ∷ []
