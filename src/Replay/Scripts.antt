-- ===== src/Replay/Scripts.antt =====
-- A unit test of crates/usahp-daemon/src/broker.rs as a script: what it does with the broker, the clock
-- and the channels.
use usahp_core.Base.{
  is_some, ℕ, zero, suc, ◌+◌, Bool, true, false, List, [], ◌∷◌, ◌++◌, Option, none, some,
  if◌then◌else◌, nat_eqb,
}
use usahp_core.Str.{str, str_eq}
use usahp_core.Protocol.{ServerMessage}
use usahp_core.Config.{Mapping}
use usahp_core.Capture.{new_enabled}
use usahp_core.Broker.Types.{Runtime, BrokerCommand, start, put_client, from_millis}
use usahp_core.Broker.Loop.{Wake, command, ticked, step}
use usahp_core.Replay.Mail.{Mail, mail_channel, FailingThread, failing_backend, failing_thread}

-- The broker, the clock in milliseconds, and what is left for the clients that were dropped.
pub record World : Type 0 where
  pub broker : Runtime Mail FailingThread
  pub clock : ℕ
  pub left : ℕ → List ServerMessage

abbrev pub Script : Type 0 → Type 0
Script A = World → Option (A × World)

infixl 5 ◌>>=◌ ◌>>◌
abbrev pub ◌>>=◌ : {A B : Type 0} → Script A → (A → Script B) → Script B
(m >>= f) w = elim (m w) [ none ↦ none | some (a, w') ↦ f a w' ]

abbrev pub ◌>>◌ : {A B : Type 0} → Script A → Script B → Script B
m >> n = m >>= λ a. n

abbrev pub pure : {A : Type 0} → A → Script A
pure a w = some (a, w)

-- `assert!`
abbrev pub assert : Bool → Script (Unit {0})
assert true w = some (tt, w)
assert false w = none

abbrev pub clients_left : Option Mail → Option Mail → List ServerMessage → List ServerMessage
clients_left none after old = old
clients_left (some q) none old = q.waiting
clients_left (some q) (some q') old = old

abbrev pub woken : World → Option (Runtime Mail FailingThread) → Option (Unit {0} × World)
woken w none = none
woken w (some r) = some (
  tt,
  record w { broker = r; left = λ k. clients_left (w.broker.clients k) (r.clients k) (w.left k) },
)

abbrev pub wake : Wake Mail → Script (Unit {0})
wake x w = woken w (step w.broker (from_millis w.clock) (str "session") x)

-- `broker.send(…)`
abbrev pub send : BrokerCommand Mail → Script (Unit {0})
send c = wake (command c)

-- `tokio::time::advance`, after which the missed ticks are one.
abbrev pub pass : ℕ → Script (Unit {0})
pass ms w = some (tt, record w { clock = w.clock + ms })

abbrev pub advance : ℕ → Script (Unit {0})
advance ms = do pass ms; wake ticked

-- So many times a tenth of a second, with its tick.
abbrev pub sleep : ℕ → Script (Unit {0})
sleep zero = pure tt
sleep (suc n) = do advance 100; sleep n

-- `CaptureControl::default()`, and `spawn`.
abbrev pub spawn : List Mapping → Script (Unit {0})
spawn mappings w =
    some (tt, record { broker = start mappings (new_enabled []) 0; clock = 0; left = λ k. [] })

-- `capture.enabled()` and `capture.fail_resume_for_test(true)`.
abbrev pub enabled : Script Bool
enabled w = some (w.broker.capture.enabled, w)

abbrev pub fail_resume : Script (Unit {0})
fail_resume w = some (
  tt,
  record w {
    broker = record w.broker {
      capture = record w.broker.capture { backends = failing_thread ∷ [] };
    };
  },
)

-- The identifiers are given out in order.
abbrev pub register_client : ℕ → Script ℕ
register_client capacity = do
  id ← λ w. some (w.broker.next_client, w)
  send (BrokerCommand.register (record { capacity = capacity; read = []; waiting = [] }))
  pure id

pub data Received : Type 0 where
  got : ServerMessage → Received
  empty disconnected : Received

abbrev pub receive : ℕ → World → Option Mail → List ServerMessage → Received × World
receive k w none [] = (disconnected, w)
receive k w none (m ∷ ms) = (got m, record w { left = λ j. if nat_eqb k j then ms else w.left j })
receive k w (some q) old = received q q.waiting
  where
    received : Mail → List ServerMessage → Received × World
    received q [] = (empty, w)
    received q (m ∷ ms) = (
      got m,
      record w {
        broker = record w.broker {
          clients =
              put_client k (some (record q { read = q.read ++ m ∷ []; waiting = ms }))
                w.broker.clients;
        };
      },
    )

abbrev pub try_recv : ℕ → Script Received
try_recv k w = some (receive k w (w.broker.clients k) (w.left k))

abbrev pub message : Received → Script ServerMessage
message (got m) w = some (m, w)
message empty w = none
message disconnected w = none

-- `recv().await.unwrap()`
abbrev pub recv : ℕ → Script ServerMessage
recv k = do r ← try_recv k; message r

abbrev pub passes : Script (Unit {0}) → Bool
passes script =
    is_some (script (record { broker = start [] (new_enabled []) 0; clock = 0; left = λ k. [] }))
