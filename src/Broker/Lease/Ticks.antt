-- ===== src/Broker/Lease/Ticks.antt =====
-- What a tick of the loop of crates/usahp-daemon/src/broker.rs does to a session.
use usahp_core.Base.{ℕ, ◌-◌, ◌≤◌, ◌<◌, ◌≡◌, sym, subst, true, false, List, [], ◌∷◌, ◌++◌, map, some}
use usahp_core.Str.{Str, str_eq}
use usahp_core.Collections.HashMap
use usahp_core.Collections.HashMap.{HashMap}
use usahp_core.Protocol.{ServerMessage, SessionRevocationReason, heartbeat_timeout, escape_hatch}
use usahp_core.Channel.{Channel}
use usahp_core.Capture.{Backend}
use usahp_core.Broker.Types.{Runtime, Session, from_millis}
use usahp_core.Broker.Sessions.{revoke}
use usahp_core.Broker.Loop.{tick}
use usahp_core.Broker.Core.{core}
use usahp_core.Broker.Delivery.{farewell, edges, let_up, revoke-sent}
use usahp_core.State.Release.{down_switches}
use usahp_core.Broker.Escape.{IsClosed, get-held_too_long, revoke-IsClosed}
use usahp_core.Broker.Lease.{tick_late, tick_early, AreYoung, young-held_too_long}

module _ {S B : Type 0} ⦃ch : Channel S⦄ ⦃be : Backend B⦄ where
  -- The session is over and the broker closed; and its client, if it is kept, has been told one release
  -- for each switch that was down, and last the reason.
  pub record EndedFor (r r' : Runtime S B) (s : Session) (reason : SessionRevocationReason)
      : Type 0 where
    pub is_closed : IsClosed (core r')
    pub told :
        (q q' : S)
        → r.clients s.client_id ≡ some q
        → r'.clients s.client_id ≡ some q'
        → (ms : List ServerMessage) × (ch.sent q' ≡ ch.sent q ++ ms ++ farewell s reason ∷ [])
          × (edges ms ≡ map let_up (down_switches r.state.active_by_switch))

  revoke-EndedFor :
      (r : Runtime S B) (now : ℕ) (s : Session) (reason : SessionRevocationReason)
      → r.session ≡ some s
      → EndedFor r (revoke r now reason) s reason
  revoke-EndedFor r now s reason e = record {
    is_closed = revoke-IsClosed r now reason s e;
    told = λ q q' before after. revoke-sent r now reason s q q' e before after;
  }

  -- A tick during a session, every case. If the last heartbeat is 1500 ms old or older, the session ends
  -- for a missed heartbeat. If it is not, but the escape tracker times a switch since four seconds or
  -- more, the session ends by the escape hatch. If neither is so, nothing at all changes. A session that
  -- ends leaves a closed broker, and a client that is kept is told the releases and the reason.
  pub tick_lem :
      (r : Runtime S B) (now : ℕ) (s : Session)
      → r.session ≡ some s
      → (from_millis 1500 ≤ now - s.last_heartbeat → EndedFor r (tick r now) s heartbeat_timeout)
        × ((k : Str) (t : ℕ)
            → now - s.last_heartbeat < from_millis 1500
            → HashMap.get k r.escape_tracker ≡ some t
            → from_millis 4000 ≤ now - t
            → EndedFor r (tick r now) s escape_hatch)
        × (now - s.last_heartbeat < from_millis 1500
            → AreYoung now r.escape_tracker
            → tick r now ≡ r)
  tick_lem r now s e = (
    λ late.
        subst (λ x. EndedFor r x s heartbeat_timeout) (sym (tick_late r now s e late))
          (revoke-EndedFor r now s heartbeat_timeout e),
    λ k t early held old.
        subst (λ x. EndedFor r x s escape_hatch)
          (sym
            (tick_early r now s true e early (get-held_too_long k t now r.escape_tracker held old)))
          (revoke-EndedFor r now s escape_hatch e),
    λ early young.
        tick_early r now s false e early (young-held_too_long now r.escape_tracker young),
  )
