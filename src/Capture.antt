-- ===== src/Capture.antt =====
-- `CaptureControl` of crates/usahp-daemon/src/input.rs: the flag that the capture callbacks read,
-- and the commands to the gamepad threads. Off Linux there are no such threads: the list is empty.
pub mod Laws
use usahp_core.Base.{Bool, true, false, List, [], ◌∷◌, Option, none, some, if◌then◌else◌}
use usahp_core.Str.{Str}

-- What a thread answers to a command: it took it, it reports an error, or its reply was dropped.
pub data Reply : Type 0 where
  acknowledged : Reply
  reported : Str → Reply
  dropped : Reply

-- A thread as seen from its command channel: `true` is `Resume`, `false` is `Pause`. `none` is a
-- failed send: the thread has stopped.
pub record Backend (B : Type 0) : Type 0 where
  pub command : Bool → B → B × Option Reply

pub data CaptureError : Type 0 where
  backend_stopped no_acknowledgement : CaptureError
  backend_error : Str → CaptureError

pub data CaptureResult : Type 0 where
  done : CaptureResult
  failed : CaptureError → CaptureResult

pub record CaptureControl (B : Type 0) : Type 0 where
  pub enabled : Bool
  pub backends : List B

pub record Sending (B : Type 0) : Type 0 where
  pub threads : List B
  pub replies : List Reply
  pub first_error : Option CaptureError

abbrev pub or_first : Option CaptureError → CaptureError → Option CaptureError
or_first none e = some e
or_first (some x) e = some x

-- `if sender.send(command).is_ok()`, its `else` and its `then`.
abbrev pub noted : Option CaptureError → Option Reply → Option CaptureError
noted first none = or_first first backend_stopped
noted first (some _) = first

abbrev pub pending : Option Reply → List Reply → List Reply
pending none rs = rs
pending (some reply) rs = reply ∷ rs

-- The second loop: wait for the replies in order, and keep the first error.
unfoldable pub await_replies : List Reply → Option CaptureError → Option CaptureError
await_replies [] first = first
await_replies (acknowledged ∷ rs) first = await_replies rs first
await_replies (reported e ∷ rs) first = await_replies rs (or_first first (backend_error e))
await_replies (dropped ∷ rs) first = await_replies rs (or_first first no_acknowledgement)

module _ {B : Type 0} where
  unfoldable pub new_enabled : List B → CaptureControl B
  new_enabled backends = record { enabled = true; backends = backends }

  module _ ⦃be : Backend B⦄ where
    -- The first loop of `command_backends`: send to every thread, keep the replies to wait for.
    unfoldable pub send_commands : Bool → List B → Option CaptureError → Sending B
    send_commands resume [] first = record { threads = []; replies = []; first_error = first }
    send_commands resume (b ∷ bs) first =
        let (b', answer) = be.command resume b in
        let rest = send_commands resume bs (noted first answer) in
        record {
          threads = b' ∷ rest.threads;
          replies = pending answer rest.replies;
          first_error = rest.first_error;
        }

    unfoldable pub command_backends : Bool → List B → List B × CaptureResult
    unfolding send_commands await_replies
    command_backends resume backends =
        let sending = send_commands resume backends none in
        (
          sending.threads,
          elim (await_replies sending.replies sending.first_error) [
            | none ↦ done
            | some e ↦ failed e
          ],
        )

    unfoldable pub pause : CaptureControl B → CaptureControl B × CaptureResult
    unfolding command_backends
    pause c =
        let (backends, result) = command_backends false c.backends in
        (record { enabled = false; backends = backends }, result)

    -- A failed resume pauses every thread again.
    unfoldable pub resume : CaptureControl B → CaptureControl B × CaptureResult
    unfolding command_backends
    resume c =
        let (backends, result) = command_backends true c.backends in
        elim result [
          | done ↦ (record { enabled = true; backends = backends }, done)
          | failed e ↦ (
            record { enabled = c.enabled; backends = (command_backends false backends).0 },
            failed e,
          )
        ]
