-- ===== src/Broker/Picture.antt =====
-- The picture that a client has of the switches from the messages of crates/usahp-daemon/src/broker.rs:
-- it takes the snapshots of a `Hello` and writes each event over them.
pub mod Sends
pub mod Sessions
pub mod Opened
pub mod Rounds
pub mod Runs
use usahp_core.Base.{
  ℕ, ◌≡◌, ◌⊎◌, refl, sym, ◌∙◌, ap, Bool, true, false, List, [], ◌∷◌, ◌++◌, Option, none, some,
  nat_eqb, if◌then◌else◌,
}
use usahp_core.Protocol.{
  SwitchSnapshot, ServerMessage, hello, switch_event, handshake_response, session_revoked,
}
use usahp_core.State.{SwitchStateMachine, snapshots}
use usahp_core.State.Mirror.{observe}
use usahp_core.State.Idle.{idle_snapshots}
use usahp_core.Channel.{Channel}
use usahp_core.Broker.Types.{Runtime, Session}

-- What a client does with a message.
abbrev pub see : List SwitchSnapshot → ServerMessage → List SwitchSnapshot
see xs (hello h) = h.switches
see xs (switch_event e) = observe e.switch_id e.action xs
see xs (handshake_response _) = xs
see xs (session_revoked _) = xs

abbrev pub see_all : List ServerMessage → List SwitchSnapshot → List SwitchSnapshot
see_all [] xs = xs
see_all (m ∷ ms) xs = see_all ms (see xs m)

pub see_all-append :
    (ms ns : List ServerMessage) (xs : List SwitchSnapshot)
    → see_all (ms ++ ns) xs ≡ see_all ns (see_all ms xs)
see_all-append [] ns xs = refl
see_all-append (m ∷ ms) ns xs = see_all-append ms ns (see xs m)

-- The picture that a client should have: outside a session that of the switches, as it is for the
-- session's own client; for another client, that of the switches with all of them up.
abbrev pub expected : SwitchStateMachine → Option Session → ℕ → List SwitchSnapshot
expected m none k = snapshots m
expected m (some s) k = if nat_eqb s.client_id k then snapshots m else idle_snapshots m

module _ {S : Type 0} ⦃ch : Channel S⦄ where
  abbrev pub picture : S → List SwitchSnapshot
  picture s = see_all (ch.sent s) []

  pub record Pictured (f : ℕ → List SwitchSnapshot) (clients : ℕ → Option S) : Type 0 where
    pub at : (k : ℕ) (s : S) → clients k ≡ some s → picture s ≡ f k

  -- Every client has the picture it should have; and while the broker is paused, no switch is down.
  pub record IsSeen {B : Type 0} (r : Runtime S B) : Type 0 where
    pub pictured : Pictured (expected r.state r.session) r.clients
    pub rests : r.paused ≡ true → snapshots r.state ≡ idle_snapshots r.state

  pub Pictured-same :
      {f g : ℕ → List SwitchSnapshot} {clients : ℕ → Option S}
      → ((k : ℕ) → f k ≡ g k)
      → Pictured f clients
      → Pictured g clients
  Pictured-same e h = record { at = λ k s q. h.at k s q ∙ e k }
