-- ===== src/Replay/Mail.antt =====
-- The channel of a client with its receiver, and the capture threads, in the unit tests of
-- crates/usahp-daemon/src/broker.rs.
use usahp_core.Base.{
  inr, inl, Bool-cases, ℕ, ◌≡◌, refl, sym, Bool, true, false, List, [], ◌∷◌, ◌++◌, append_assoc,
  Option, some, ltb, length, if◌then◌else◌,
}
use usahp_core.Str.{str, str_eq}
use usahp_core.Protocol.{ServerMessage}
use usahp_core.Channel.{Channel}
use usahp_core.Capture.{Backend, Reply, reported, acknowledged}

-- A bounded channel with its receiver: what was received, and what is waiting.
pub record Mail : Type 0 where
  pub capacity : ℕ
  pub read : List ServerMessage
  pub waiting : List ServerMessage

abbrev pub post : Mail → ServerMessage → Mail × Bool
post q m =
    if ltb (length q.waiting) q.capacity
    then (record q { waiting = q.waiting ++ m ∷ [] }, true)
    else (q, false)

pub post-taken :
    (q : Mail) (m : ServerMessage)
    → (post q m).1 ≡ true
    → (post q m).0.read ++ (post q m).0.waiting ≡ (q.read ++ q.waiting) ++ m ∷ []
post-taken q m h = elim (Bool-cases (ltb (length q.waiting) q.capacity)) [
  | inl room ↦ rw room (sym (append_assoc q.read q.waiting (m ∷ [])))
  | inr full ↦ absurd (cc (rw full at h))
]

pub post-refused :
    (q : Mail) (m : ServerMessage)
    → (post q m).1 ≡ false
    → (post q m).0.read ++ (post q m).0.waiting ≡ q.read ++ q.waiting
post-refused q m h = elim (Bool-cases (ltb (length q.waiting) q.capacity)) [
  | inl room ↦ absurd (cc (rw room at h))
  | inr full ↦ rw full refl
]

instance abbrev pub mail_channel : Channel Mail
mail_channel = record {
  try_send = post;
  sent = λ q. q.read ++ q.waiting;
  sent_ok = post-taken;
  sent_failed = post-refused;
}

-- Gamepad threads: none, but for one that fails to resume when a test says so.
pub data FailingThread : Type 0 where
  failing_thread : FailingThread

abbrev pub failing_command : Bool → FailingThread → FailingThread × Option Reply
failing_command true t = (t, some (reported (str "test capture reacquisition failure")))
failing_command false t = (t, some acknowledged)

instance abbrev pub failing_backend : Backend FailingThread
failing_backend = record { command = failing_command }
