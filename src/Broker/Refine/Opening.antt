-- ===== src/Broker/Refine/Opening.antt =====
-- The rounds of the loop of crates/usahp-daemon/src/broker.rs as moves of the abstract broker: the
-- handshake.
use usahp_core.Base.{
  ℕ, ◌≡◌, refl, sym, ap, subst, ◌∙◌, Bool, true, false, [], Option, none, some, arith,
  if◌then◌else◌, is_some,
}
use usahp_core.Str.{Str, str_eq}
use usahp_core.Protocol.{handshake_response, accepted, HandshakeRejectionReason, Handshake}
use usahp_core.Channel.{Channel}
use usahp_core.Capture.{Backend, CaptureResult, done, failed, resume}
use usahp_core.Capture.Laws.{pause-resume_lem}
use usahp_core.Broker.Types.{Runtime}
use usahp_core.Broker.Send.{release_messages, send_response}
use usahp_core.Broker.Sessions.{
  acceptance, opened, new_session, release_if_passive, enter, resumed, acquire, answer, rejection,
  open_session, take_over, handshake,
}
use usahp_core.Broker.Core.{
  shut_off, session_on, Core, core, released, Move, open_first, open_again, abandon_first,
  abandon_again, Moves, stay, one,
}
use usahp_core.Broker.Refine.{core-release_messages, core-broadcast_all, confirm-Moves, send-Moves}

module _ {S B : Type 0} ⦃ch : Channel S⦄ ⦃be : Backend B⦄ where
  open_session-Moves :
      (c : Core) (r : Runtime S B) (now : ℕ) (uuid : Str) (k : ℕ) (h : Handshake)
      → Move c (record (core r) {
        paused = false;
        tracker = [];
        session = some (new_session now uuid k h);
      })
      → Moves c (core (open_session r now uuid k h))
  unfolding open_session send_response
  open_session-Moves c r now uuid k h m =
      confirm-Moves c (send_response r' k (accepted (acceptance uuid))) now
        (send-Moves c r' k (handshake_response (accepted (acceptance uuid))) (one m))
    where
      r' : Runtime S B
      r' = opened r (new_session now uuid k h)

  core-release_if_passive :
      (b : Bool) (r : Runtime S B) (now : ℕ)
      → core (release_if_passive b r now)
        ≡ record (core r) { state = if b then r.state else released r.state }
  unfolding release_if_passive
  core-release_if_passive true r now = refl
  core-release_if_passive false r now =
      core-broadcast_all (release_messages r now).0 (release_messages r now).1
      ∙ core-release_messages r now

  -- The end of an accepted handshake, in both ways: the asking client is there, or is gone.
  enter-Moves :
      (c : Core) (there : Bool) (r : Runtime S B) (now : ℕ) (uuid : Str) (k : ℕ) (h : Handshake)
      → Move c (record (core r) {
        paused = false;
        tracker = [];
        session = some (new_session now uuid k h);
      })
      → Move c (record (core r) { enabled = false; paused = true })
      → Moves c (core (enter there r now uuid k h))
  unfolding enter
  enter-Moves c true r now uuid k h opens gone = open_session-Moves c r now uuid k h opens
  enter-Moves c false r now uuid k h opens gone =
      subst (λ e. Moves c (record (core r) { enabled = e; paused = true }))
        (sym (pause-resume_lem r.capture).0) (one gone)

  take_over_first :
      (r : Runtime S B) (now : ℕ) (uuid : Str) (k : ℕ) (h : Handshake)
      → r.paused ≡ false
      → r.session ≡ none
      → Moves (core r) (core (take_over r now uuid k h))
  unfolding take_over
  take_over_first r now uuid k h e idle =
      enter-Moves (core r) (is_some (routed.clients k)) routed now uuid k h
        (open_first (new_session now uuid k h) e idle (
          ap (λ (x : Core). session_on x (new_session now uuid k h)) same
          ∙ ap (λ p. record (session_on cleared (new_session now uuid k h)) { paused = p })
              (sym e)))
        (abandon_first e idle (ap shut_off same))
    where
      routed : Runtime S B
      routed = release_if_passive r.paused r now

      cleared : Core
      cleared = record (core r) { state = released r.state }

      same : core routed ≡ cleared
      same =
          core-release_if_passive r.paused r now
          ∙ ap (λ (p : Bool). record (core r) { state = if p then r.state else released r.state }) e

  -- After a pause: `c` is the broker before `resume`.
  take_over_again :
      (c : Core) (r : Runtime S B) (now : ℕ) (uuid : Str) (k : ℕ) (h : Handshake)
      → r.paused ≡ true
      → c.session ≡ none
      → core r ≡ record c { enabled = true }
      → Moves c (core (take_over r now uuid k h))
  unfolding take_over
  take_over_again c r now uuid k h e idle before =
      enter-Moves c (is_some (routed.clients k)) routed now uuid k h
        (open_again (new_session now uuid k h) paused idle
          (ap (λ (x : Core). session_on x (new_session now uuid k h)) same))
        (abandon_again paused
          (ap shut_off same ∙ ap (λ p. record c { enabled = false; paused = p }) (sym paused)))
    where
      routed : Runtime S B
      routed = release_if_passive r.paused r now

      paused : c.paused ≡ true
      paused = sym (ap (λ (x : Core). x.paused) before) ∙ e

      same : core routed ≡ record c { enabled = true }
      same =
          core-release_if_passive r.paused r now
          ∙ ap (λ (p : Bool). record (core r) { state = if p then r.state else released r.state }) e
          ∙ before

  resumed-Moves :
      (r : Runtime S B) (res : CaptureResult) (now : ℕ) (uuid : Str) (k : ℕ) (h : Handshake)
      → (resume r.capture).1 ≡ res
      → r.paused ≡ true
      → r.session ≡ none
      → Moves
          (core r)
          (core (resumed (record r { capture = (resume r.capture).0 }) res now uuid k h))
  unfolding resumed send_response
  resumed-Moves r done now uuid k h e p idle =
      take_over_again (core r) (record r { capture = (resume r.capture).0 }) now uuid k h p idle
        (ap (λ b. record (core r) { enabled = b }) ((pause-resume_lem r.capture).2 e))
  resumed-Moves r (failed x) now uuid k h e p idle =
      send-Moves (core r) (record r { capture = (resume r.capture).0 }) k _
        (subst (λ b. Moves (core r) (record (core r) { enabled = b }))
          (sym ((pause-resume_lem r.capture).3 x e)) stay)

  acquire-Moves :
      (r : Runtime S B) (b : Bool) (now : ℕ) (uuid : Str) (k : ℕ) (h : Handshake)
      → r.paused ≡ b
      → r.session ≡ none
      → Moves (core r) (core (acquire b r now uuid k h))
  unfolding acquire
  acquire-Moves r true now uuid k h p idle =
      resumed-Moves r (resume r.capture).1 now uuid k h refl p idle
  acquire-Moves r false now uuid k h p idle = take_over_first r now uuid k h p idle

  -- Only without a session is a handshake accepted.
  pub rejection-idle : (r : Runtime S B) (h : Handshake) → rejection r h ≡ none → r.session ≡ none
  unfolding rejection
  rejection-idle r h e = ground arith

  answer-Moves :
      (r : Runtime S B) (o : Option HandshakeRejectionReason) (now : ℕ) (uuid : Str) (k : ℕ)
      (h : Handshake)
      → rejection r h ≡ o
      → Moves (core r) (core (answer r o now uuid k h))
  unfolding answer send_response
  answer-Moves r (some reason) now uuid k h e = send-Moves (core r) r k _ stay
  answer-Moves r none now uuid k h e =
      acquire-Moves r r.paused now uuid k h refl (rejection-idle r h e)

  pub handshake-Moves :
      (r : Runtime S B) (now : ℕ) (uuid : Str) (k : ℕ) (h : Handshake)
      → Moves (core r) (core (handshake r now uuid k h))
  unfolding handshake
  handshake-Moves r now uuid k h = answer-Moves r (rejection r h) now uuid k h refl
