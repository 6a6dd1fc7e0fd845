-- ===== src/Broker/Lease.antt =====
-- The lease of a session in crates/usahp-daemon/src/broker.rs: heartbeats, and the ticker's timeout.
use mathlib.Core.Option.{none}
use mathlib.Core.Option
use usahp_core.Base.{
  refl, Bool, All, List, [], ◌∷◌, none, Bool, ℕ, ◌-◌, ◌≤◌, ◌<◌, ◌≡◌, ◌≢◌, ◌⊎◌, ap, ◌∙◌, true, false,
  Option, some, arith, eq_iff, is_some, is_some_and, if◌then◌else◌,
}
use usahp_core.Str.{Str, str_eq}
use usahp_core.Collections.HashMap.{HashMap}
use usahp_core.Protocol.{heartbeat_timeout, escape_hatch}
use usahp_core.Channel.{Channel}
use usahp_core.Capture.{Backend}
use usahp_core.Broker.Types.{Runtime, Session, from_millis}
use usahp_core.Broker.Sessions.{revoke}
use usahp_core.Broker.Loop.{beat, heartbeat, tick, timed_out, held_too_long}
pub mod Ticks
pub mod Steps
pub mod Runs

module _ {S B : Type 0} ⦃ch : Channel S⦄ ⦃be : Backend B⦄ where
  -- A heartbeat from the session's client under the session's id renews the lease; any other
  -- changes nothing at all.
  pub heartbeat_lem :
      (r : Runtime S B) (now k : ℕ) (id : Str) (s : Session)
      → r.session ≡ some s
      → ((s.client_id ≡ k)
          → (s.session_id ≡ id)
          → (heartbeat r now k id).session ≡ some (record s { last_heartbeat = now }))
        × ((s.client_id ≢ k) ⊎ (s.session_id ≢ id) → heartbeat r now k id ≡ r)
  unfolding heartbeat
  heartbeat_lem r now k id s e = (
    (λ p q. ground (arith, eq_iff s.session_id id)),
    (λ o. ap (λ x. record r { session = x }) (other o)),
  )
    where
      other :
          (s.client_id ≢ k) ⊎ (s.session_id ≢ id)
          → Option.map (λ x. beat x now k id) r.session ≡ r.session
      other o = rw e (ground (arith, eq_iff s.session_id id))

  -- In a session whose last heartbeat is late, a tick revokes it as timed out.
  pub tick_late :
      (r : Runtime S B) (now : ℕ) (s : Session)
      → r.session ≡ some s
      → from_millis 1500 ≤ now - s.last_heartbeat
      → tick r now ≡ revoke r now heartbeat_timeout
  unfolding tick
  tick_late r now s e late = rw lapsed
    where
      lapsed : is_some_and (timed_out now) r.session ≡ true
      lapsed = ap (is_some_and (timed_out now)) e ∙ ground arith

  pub tick_early :
      (r : Runtime S B) (now : ℕ) (s : Session) (b : Bool)
      → r.session ≡ some s
      → now - s.last_heartbeat < from_millis 1500
      → held_too_long now r.escape_tracker ≡ b
      → tick r now ≡ (if b then revoke r now escape_hatch else r)
  unfolding tick
  tick_early r now s b e early held = rw (alive, there, held)
    where
      there : is_some r.session ≡ true
      there = ap (λ (o : Option Session). is_some o) e

      alive : is_some_and (timed_out now) r.session ≡ false
      alive = ap (is_some_and (timed_out now)) e ∙ ground arith

-- Every entry of the tracker is younger than four seconds.
abbrev pub AreYoung : ℕ → HashMap Str ℕ → Type 0
AreYoung now tracker = All (λ (x : Str × ℕ). now - x.1 < from_millis 4000) tracker

pub young-held_too_long :
    (now : ℕ) (l : HashMap Str ℕ) → AreYoung now l → held_too_long now l ≡ false
young-held_too_long now [] h = refl
young-held_too_long now ((k, t) ∷ l) h = ground (arith, young-held_too_long now l h.1)
