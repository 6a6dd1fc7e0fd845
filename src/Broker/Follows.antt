-- ===== src/Broker/Follows.antt =====
-- What each round of the loop of crates/usahp-daemon/src/broker.rs may do to the abstract broker: a
-- specification of the commands and of the tick with the conditions under which each acts.
use usahp_core.Base.{
  ℕ, ◌-◌, ◌≤◌, ◌<◌, ◌≡◌, ◌≢◌, ◌⊎◌, inl, inr, refl, sym, ap, ◌∙◌, subst, Bool, true, false, not,
  ◌||◌, ◌&&◌, ◌==◌, List, [], ◌∷◌, Option, none, some, some_inj, arith, eq_iff, nat_eqb, is_some,
  is_some_and, if◌then◌else◌, Bool-cases, Option-cases,
}
use mathlib.Core.Option
use usahp_core.Str.{Str, str_eq}
use usahp_core.Protocol.{
  Handshake, explicit_revocation, focus_lost, heartbeat_timeout, escape_hatch, Action,
  ServerMessage,
}
use usahp_core.State.{SwitchStateMachine, Outcome, LogicalTransition, ok, err, apply}
use usahp_core.State.Release.{IsAllReleased}
use usahp_core.Channel.{Channel}
use usahp_core.Capture.{Backend}
use usahp_core.Collections.HashMap.{HashMap}
use usahp_core.Broker.Types.{
  Runtime, Session, PhysicalEvent, BrokerCommand, from_millis, put_client,
}
use usahp_core.Broker.Loop.{Wake, command, ticked}
use usahp_core.Broker.Cases.{validated}
use usahp_core.Broker.Core.{Core, core, closed, track_outcome}
use usahp_core.Broker.Admission.{IsAdmissible}
use usahp_core.Broker.Lease.{AreYoung}
pub mod Rounds

-- The session ends on this condition, and nothing changes without it.
abbrev pub EndsIf : Type 0 → Core → Core → Type 0
EndsIf P c d = (P × (d ≡ closed c)) ⊎ ((P → ⊥) × (d ≡ c))

-- There is a session of this client.
abbrev pub IsOwner : ℕ → Core → Type 0
IsOwner k c = (s : Session) × (c.session ≡ some s) × (s.client_id ≡ k)

abbrev pub InSession : Core → Type 0
InSession c = (s : Session) × (c.session ≡ some s)

-- The session's client gave an identifier of a process, which is not the one in front.
abbrev pub IsBehind : Option ℕ → Core → Type 0
IsBehind front c =
    (s : Session) × (pid : ℕ) × (c.session ≡ some s) × (s.pid ≡ some pid) × (front ≢ some pid)

-- The last heartbeat is too old, or some switch is held for too long.
abbrev pub IsDue : ℕ → Core → Type 0
IsDue now c =
    (s : Session) × (c.session ≡ some s)
    × ((from_millis 1500 ≤ now - s.last_heartbeat) ⊎ (AreYoung now c.tracker → ⊥))

-- The session of this client under this name is renewed, and no other.
abbrev pub Renews : ℕ → ℕ → Str → Core → Core → Type 0
Renews now k id c d =
    ((s : Session) × (c.session ≡ some s)
      × (s.client_id ≡ k)
      × (s.session_id ≡ id)
      × (d ≡ record c { session = some (record s { last_heartbeat = now }) }))
    ⊎ (((s : Session) → c.session ≡ some s → s.client_id ≡ k → s.session_id ≡ id → ⊥) × (d ≡ c))

-- An edge is applied and timed; a transition that the session's client cannot be sent ends the session.
abbrev pub Applies : ℕ → PhysicalEvent → Core → Core → Type 0
Applies now e c d =
    (m : SwitchStateMachine) × (o : Outcome) × (apply c.state e.mapping_id e.action
        (validated e.confidence)
      ≡ some (m, o))
    × ((d ≡ record c { state = m; tracker = track_outcome o now c.tracker })
        ⊎ (InSession c
            × ((t : LogicalTransition) × (o ≡ ok (some t)))
            × (d ≡ closed (record c { state = m; tracker = track_outcome o now c.tracker }))))

-- A paused broker ignores edges.
abbrev pub Handles : ℕ → PhysicalEvent → Core → Core → Type 0
Handles now e c d = ((c.paused ≡ true) × (d ≡ c)) ⊎ ((c.paused ≡ false) × Applies now e c d)

-- A handshake that may have a session either opens it, with capture on, every switch up and nothing
-- timed, or leaves the broker without one, paused, with capture off and every switch up.
abbrev pub Opens : ℕ → Str → ℕ → Handshake → Core → Core → Type 0
Opens now uuid k h c d =
    ((d.session
        ≡ some (record { client_id = k; session_id = uuid; pid = h.pid; last_heartbeat = now }))
      × (d.paused ≡ false)
      × (d.enabled ≡ true)
      × (d.tracker ≡ [])
      × IsAllReleased d.state)
    ⊎ ((d.session ≡ none) × (d.paused ≡ true) × (d.enabled ≡ false) × IsAllReleased d.state)

-- It may have one if it is admissible and there is none; else nothing changes.
abbrev pub Asks : ℕ → Str → ℕ → Handshake → Core → Core → Type 0
Asks now uuid k h c d =
    (IsAdmissible h × (c.session ≡ none) × Opens now uuid k h c d)
    ⊎ ((IsAdmissible h × (c.session ≡ none) → ⊥) × (d ≡ c))

-- The rounds.
abbrev pub Follows : {S : Type 0} → ℕ → Str → Wake S → Core → Core → Type 0
Follows now uuid (command (BrokerCommand.input e)) c d = Handles now e c d
Follows now uuid (command (BrokerCommand.register s)) c d = d ≡ c
Follows now uuid (command (BrokerCommand.unregister k)) c d = EndsIf (IsOwner k c) c d
Follows now uuid (command (BrokerCommand.handshake k h)) c d = Asks now uuid k h c d
Follows now uuid (command (BrokerCommand.heartbeat k id)) c d = Renews now k id c d
Follows now uuid (command (BrokerCommand.revoke_session reason)) c d = EndsIf (InSession c) c d
Follows now uuid (command (BrokerCommand.focus_changed front)) c d = EndsIf (IsBehind front c) c d
Follows now uuid ticked c d = EndsIf (IsDue now c) c d
