-- ===== src/Broker/Escape.antt =====
-- The escape hatch of crates/usahp-daemon/src/broker.rs, through a tick (Escape/Runs.antt follows a run).
pub mod Runs
use usahp_core.Base.{
  ℕ, ◌-◌, ◌≤◌, ◌≡◌, ◌⊎◌, inl, inr, refl, sym, ap, subst, true, false, ◌&&◌, List, [], ◌∷◌, Option,
  none, some, arith, ◌==◌, eq_iff, is_some, is_some_and, Bool-cases,
}
use usahp_core.Str.{Str, str_eq}
use usahp_core.Collections.HashMap
use usahp_core.Collections.HashMap.{HashMap, get-insert, get-remove}
use usahp_core.Protocol.Float.{F32}
use usahp_core.Protocol.{Action, SessionRevocationReason, heartbeat_timeout, escape_hatch}
use usahp_core.State.{SwitchStateMachine, Outcome, ok, err}
use usahp_core.State.Edges.{Applied, is_down}
use usahp_core.State.Release.{IsAllReleased}
use usahp_core.Channel.{Channel}
use usahp_core.Capture.{Backend}
use usahp_core.Broker.Types.{Runtime, Session, from_millis}
use usahp_core.Broker.Sessions.{revoke}
use usahp_core.Broker.Loop.{tick, held_too_long, timed_out, Round, run, step}
use usahp_core.Broker.Core.{
  Core, core, track_outcome, Move, edge, open_first, open_again, abandon_first, abandon_again,
  beats, close, Moves, stay, next, Moves-trans,
}
use usahp_core.Broker.Invariant.{IsSound, Moves-IsSound, apply_result, released-quiet}
use usahp_core.Broker.Refine.{core-revoke}
use usahp_core.Broker.Refine.Rounds.{step-Moves}
use usahp_core.Broker.Run.{Sound}

-- An entry that is old enough opens the hatch.
pub get-held_too_long :
    (k : Str) (t now : ℕ) (m : HashMap Str ℕ)
    → HashMap.get k m ≡ some t
    → from_millis 4000 ≤ now - t
    → held_too_long now m ≡ true
unfolding HashMap.get
get-held_too_long k t now [] e h = absurd (cc (e))
get-held_too_long k t now ((j, u) ∷ m) e h = elim (Bool-cases (j == k)) [
  | inl hit ↦ ground (arith, rw hit at e)
  | inr miss ↦ ground (arith, get-held_too_long k t now m (rw miss at e) h)
]

-- A closed broker: no session, capture off, no switch down.
pub record IsClosed (c : Core) : Type 0 where
  pub no_session : c.session ≡ none
  pub capture_off : c.enabled ≡ false
  pub suspended : c.paused ≡ true
  pub all_up : IsAllReleased c.state

module _ {S B : Type 0} ⦃ch : Channel S⦄ ⦃be : Backend B⦄ where
  -- Whatever the reason, a revoked session leaves a closed broker.
  pub revoke-IsClosed :
      (r : Runtime S B) (now : ℕ) (reason : SessionRevocationReason) (s : Session)
      → r.session ≡ some s
      → IsClosed (core (revoke r now reason))
  revoke-IsClosed r now reason s e = subst IsClosed (sym (core-revoke r now reason s e)) (record {
    no_session = refl;
    capture_off = refl;
    suspended = refl;
    all_up = released-quiet r.state;
  })

  -- The user is never trapped: in a session, a tick that finds a switch whose entry is four seconds
  -- old or older closes the broker; no session, capture off, every switch up.
  tick-escape :
      (r : Runtime S B) (now : ℕ) (s : Session) (k : Str) (t : ℕ)
      → r.session ≡ some s
      → HashMap.get k r.escape_tracker ≡ some t
      → from_millis 4000 ≤ now - t
      → IsClosed (core (tick r now))
  unfolding tick
  tick-escape r now s k t e held h = elim (Bool-cases (is_some_and (timed_out now) r.session)) [
    | inl late ↦ rw late (revoke-IsClosed r now heartbeat_timeout s e)
    | inr alive ↦ rw (alive, hatch) (revoke-IsClosed r now escape_hatch s e)
  ]
    where
      hatch : (is_some r.session && held_too_long now r.escape_tracker) ≡ true
      hatch = ground (
        arith,
        ap (λ (o : Option Session). is_some o) e,
        get-held_too_long k t now r.escape_tracker held h,
      )

-- A switch is held since `t` in a session.
pub record IsHeld (k : Str) (t : ℕ) (c : Core) : Type 0 where
  pub session : Session
  pub in_session : c.session ≡ some session
  pub since : HashMap.get k c.tracker ≡ some t

-- The session is over, or the switch is up.
abbrev pub IsFree : Str → Core → Type 0
IsFree k c = (c.session ≡ none) ⊎ (is_down c.state k ≡ false)

-- An entry that an edge removes or renews is that of a switch that was let go.
pub edge-hold :
    (m m' : SwitchStateMachine) (id : Str) (a : Action) (v : Option F32) (now : ℕ) (o : Outcome)
    (tracker : HashMap Str ℕ) (k : Str) (t : ℕ)
    → Applied m id a v (some (m', o))
    → HashMap.contains_key k tracker ≡ is_down m k
    → HashMap.get k tracker ≡ some t
    → (is_down m' k ≡ false) ⊎ (HashMap.get k (track_outcome o now tracker) ≡ some t)
edge-hold m m' id a v now (err x) tracker k t h f e = inr e
edge-hold m m' id a v now (ok none) tracker k t h f e = inr e
edge-hold m m' id Action.pressed v now (ok (some x)) tracker k t h f e =
    inr (ground (arith, h.moved, f, eq_iff x.switch_id k, get-insert k x.switch_id now tracker))
edge-hold m m' id Action.released v now (ok (some x)) tracker k t h f e =
    ground (arith, h.moved, f, eq_iff x.switch_id k, get-remove k x.switch_id tracker)
