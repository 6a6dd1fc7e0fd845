-- ===== src/Channel.antt =====
-- The bounded channel of one client (`tokio::sync::mpsc`), which the broker only sends to. It is not
-- code of this repository, so it is an interface: `S` is the sending half as the broker holds it.
use usahp_core.Base.{◌≡◌, Bool, true, false, List, [], ◌∷◌, ◌++◌}
use usahp_core.Protocol.{ServerMessage}

pub record Channel (S : Type 0) : Type 0 where
  -- The sender after `try_send`, and `is_ok()`. Whether there is room is up to the channel.
  pub try_send : S → ServerMessage → S × Bool
  -- The messages that the channel has taken so far, oldest first.
  pub sent : S → List ServerMessage
  pub sent_ok :
      (s : S) (m : ServerMessage)
      → (try_send s m).1 ≡ true
      → sent (try_send s m).0 ≡ sent s ++ m ∷ []
  pub sent_failed :
      (s : S) (m : ServerMessage) → (try_send s m).1 ≡ false → sent (try_send s m).0 ≡ sent s
