-- ===== src/Broker/Core.antt =====
-- An abstract view of the broker of crates/usahp-daemon/src/broker.rs, without the clients and the
-- numbers of the events, and the moves that it can make.
use usahp_core.Base.{ℕ, ◌≡◌, Bool, true, false, [], Option, none, some}
use usahp_core.Str.{Str}
use usahp_core.Collections.HashMap.{HashMap}
use usahp_core.Protocol.Float.{F32}
use usahp_core.Protocol.{Action}
use usahp_core.State.{SwitchStateMachine, Outcome, ok, err, apply, release_all}
use usahp_core.Broker.Types.{Runtime, Session}
use usahp_core.Broker.Loop.{track}

pub record Core : Type 0 where
  pub state : SwitchStateMachine
  pub enabled : Bool
  pub session : Option Session
  pub paused : Bool
  pub tracker : HashMap Str ℕ

abbrev pub core : {S B : Type 0} → Runtime S B → Core
core r = record {
  state = r.state;
  enabled = r.capture.enabled;
  session = r.session;
  paused = r.paused;
  tracker = r.escape_tracker;
}

abbrev pub session_on : Core → Session → Core
session_on c s = record c { session = some s; tracker = []; paused = false }

abbrev pub shut_off : Core → Core
shut_off c = record c { enabled = false; paused = true }

abbrev pub released : SwitchStateMachine → SwitchStateMachine
released m = (release_all m).1

abbrev pub closed : Core → Core
closed c = record c {
  state = released c.state;
  enabled = false;
  session = none;
  paused = true;
  tracker = [];
}

abbrev pub track_outcome : Outcome → ℕ → HashMap Str ℕ → HashMap Str ℕ
track_outcome (ok (some t)) now tracker = track t.switch_id t.action now tracker
track_outcome (ok none) now tracker = tracker
track_outcome (err _) now tracker = tracker

-- What can happen to the session, the capture and the switches.
pub data Move (c d : Core) : Type 0 where
  -- A physical edge, while capture is on.
  edge :
      (id : Str) (a : Action) (confidence : Option F32) (now : ℕ) (m : SwitchStateMachine)
      (o : Outcome)
      → c.paused ≡ false
      → apply c.state id a confidence ≡ some (m, o)
      → d ≡ record c { state = m; tracker = track_outcome o now c.tracker }
      → Move c d
  -- A session opens: the first one releases what is held, a later one has the capture back.
  open_first :
      (s : Session)
      → c.paused ≡ false
      → c.session ≡ none
      → d ≡ record c { state = released c.state; session = some s; tracker = [] }
      → Move c d
  open_again :
      (s : Session)
      → c.paused ≡ true
      → c.session ≡ none
      → d ≡ record c { enabled = true; session = some s; paused = false; tracker = [] }
      → Move c d
  -- The client that asks for a session is gone.
  abandon_first :
      c.paused ≡ false
      → c.session ≡ none
      → d ≡ record c { state = released c.state; enabled = false; paused = true }
      → Move c d
  abandon_again : c.paused ≡ true → d ≡ record c { enabled = false } → Move c d
  -- The session's client shows that it is alive.
  beats :
      (s : Session) (now : ℕ)
      → c.session ≡ some s
      → d ≡ record c { session = some (record s { last_heartbeat = now }) }
      → Move c d
  -- The session ends, for whatever reason.
  close : (s : Session) → c.session ≡ some s → d ≡ closed c → Move c d

pub data Moves (c : Core) : Core → Type 0 where
  stay : Moves c c
  next : {d e : Core} → Moves c d → Move d e → Moves c e

pub Moves-trans : {c d e : Core} → Moves c d → Moves d e → Moves c e
Moves-trans p stay = p
Moves-trans p (next q m) = next (Moves-trans p q) m

pub one : {c d : Core} → Move c d → Moves c d
one m = next stay m
