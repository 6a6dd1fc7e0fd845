-- ===== src/Broker/Order/Admitted.antt =====
-- The order of the events through `handshake` of crates/usahp-daemon/src/broker.rs.
use usahp_core.Base.{
  ℕ, u64_mod, ◌+◌, ◌*◌, ◌<◌, refl, subst, Bool, true, false, Option, none, some, arith,
}
use usahp_core.Str.{Str}
use usahp_core.Protocol.{Handshake, HandshakeRejectionReason}
use usahp_core.Channel.{Channel}
use usahp_core.Capture.{Backend, CaptureResult, done, failed}
use usahp_core.Broker.Types.{Runtime}
use usahp_core.Broker.Sessions.{
  rejection, handshake, answer, acquire, resumed, take_over, enter, release_if_passive, reject,
}
use usahp_core.Broker.Logs.{Logs-refl}
use usahp_core.Broker.Numbers.{width}
use usahp_core.Broker.Order.{Advances, Advances-from, Advances-trans, Advances-weaken}
use usahp_core.Broker.Order.Rounds.{
  response-Advances, release_if_passive-Advances, open_session-Advances,
}

module _ {S B : Type 0} ⦃ch : Channel S⦄ ⦃be : Backend B⦄ where
  reject-Advances :
      (r : Runtime S B) (k : ℕ) (reason : HandshakeRejectionReason)
      → Advances (1 + 2 * width r) r (reject r k reason)
  reject-Advances r k reason =
      Advances-weaken 1 (1 + 2 * width r) (omega arith)
        (response-Advances r r k _ refl refl refl refl)

  enter-Advances :
      (b : Bool) (r : Runtime S B) (now : ℕ) (uuid : Str) (k : ℕ) (h : Handshake)
      → r.sequence + 1 + width r < u64_mod
      → Advances (1 + width r) r (enter b r now uuid k h)
  unfolding enter
  enter-Advances true r now uuid k h fits = open_session-Advances r now uuid k h fits
  enter-Advances false r now uuid k h fits = record {
    logs = Logs-refl r.sequence r.sequence r.clients (omega arith);
    most = omega arith;
    same_width = refl;
    same_next = refl;
  }

  take_over-Advances :
      (r : Runtime S B) (now : ℕ) (uuid : Str) (k : ℕ) (h : Handshake)
      → r.sequence + 1 + 2 * width r < u64_mod
      → Advances (1 + 2 * width r) r (take_over r now uuid k h)
  unfolding take_over
  take_over-Advances r now uuid k h fits =
      let first = release_if_passive-Advances r.paused r now (omega arith) in
      Advances-weaken (width r + (1 + width r)) (1 + 2 * width r) (omega arith) (
        Advances-trans (width r) (1 + width r) first (
          subst
            (λ w. Advances (1 + w) (release_if_passive r.paused r now) (take_over r now uuid k h))
            first.same_width
            (enter-Advances _ (release_if_passive r.paused r now) now uuid k h
              (omega (arith, first.most, first.same_width)))))

  resumed-Advances :
      (r : Runtime S B) (o : CaptureResult) (now : ℕ) (uuid : Str) (k : ℕ) (h : Handshake)
      → r.sequence + 1 + 2 * width r < u64_mod
      → Advances (1 + 2 * width r) r (resumed r o now uuid k h)
  unfolding resumed
  resumed-Advances r done now uuid k h fits = take_over-Advances r now uuid k h fits
  resumed-Advances r (failed e) now uuid k h fits = reject-Advances r k _

  acquire-Advances :
      (b : Bool) (r : Runtime S B) (now : ℕ) (uuid : Str) (k : ℕ) (h : Handshake)
      → r.sequence + 1 + 2 * width r < u64_mod
      → Advances (1 + 2 * width r) r (acquire b r now uuid k h)
  unfolding acquire
  acquire-Advances true r now uuid k h fits =
      Advances-from (1 + 2 * width r) _ r refl refl refl refl
        (resumed-Advances _ _ now uuid k h fits)
  acquire-Advances false r now uuid k h fits = take_over-Advances r now uuid k h fits

  answer-Advances :
      (r : Runtime S B) (o : Option HandshakeRejectionReason) (now : ℕ) (uuid : Str) (k : ℕ)
      (h : Handshake)
      → r.sequence + 1 + 2 * width r < u64_mod
      → Advances (1 + 2 * width r) r (answer r o now uuid k h)
  unfolding answer
  answer-Advances r (some reason) now uuid k h fits = reject-Advances r k reason
  answer-Advances r none now uuid k h fits = acquire-Advances r.paused r now uuid k h fits

  pub handshake-Advances :
      (r : Runtime S B) (now : ℕ) (uuid : Str) (k : ℕ) (h : Handshake)
      → r.sequence + 1 + 2 * width r < u64_mod
      → Advances (1 + 2 * width r) r (handshake r now uuid k h)
  unfolding handshake
  handshake-Advances r now uuid k h fits = answer-Advances r (rejection r h) now uuid k h fits
