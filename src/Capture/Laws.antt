-- ===== src/Capture/Laws.antt =====
-- `pause` and `resume` of crates/usahp-daemon/src/input.rs, by what the gamepad threads answer.
use usahp_core.Base.{
  ◌≡◌, ◌↔◌, inl, inr, refl, Bool, true, false, List, [], ◌∷◌, Option, none, some, arith, All,
  Option-cases,
}
use usahp_core.Capture.{
  Reply, acknowledged, reported, dropped, Backend, CaptureError, backend_stopped,
  no_acknowledgement, backend_error, done, failed, CaptureControl, Sending, or_first, send_commands,
  await_replies, command_backends, pause, resume,
}

-- A command that reaches every thread and is acknowledged by every thread.
abbrev pub AllAcknowledge : {B : Type 0} ⦃be : Backend B⦄ → Bool → List B → Type 0
AllAcknowledge ⦃be⦄ up = All (λ b. (be.command up b).1 ≡ some acknowledged)

await_replies-some : (rs : List Reply) (e : CaptureError) → await_replies rs (some e) ≡ some e
unfolding await_replies
await_replies-some [] e = refl
await_replies-some (acknowledged ∷ rs) e = await_replies-some rs e
await_replies-some (reported x ∷ rs) e = await_replies-some rs e
await_replies-some (dropped ∷ rs) e = await_replies-some rs e

await_replies-or_first :
    (rs : List Reply) (o : Option CaptureError) (e : CaptureError)
    → await_replies rs (or_first o e) ≡ none
    → ⊥
await_replies-or_first rs none e h = cc (await_replies-some rs e, h)
await_replies-or_first rs (some x) e h = cc (await_replies-some rs x, h)

-- The first error of the two loops.
abbrev outcome : {B : Type 0} → Sending B → Option CaptureError
outcome s = await_replies s.replies s.first_error

module _ {B : Type 0} ⦃be : Backend B⦄ where
  send_commands-first :
      (up : Bool) (bs : List B) (e : CaptureError)
      → (send_commands up bs (some e)).first_error ≡ some e
  unfolding send_commands
  send_commands-first up [] e = refl
  send_commands-first up (b ∷ bs) e = ground (arith, send_commands-first up bs e)

  send_commands-failed :
      (up : Bool) (bs : List B) (e : CaptureError) → outcome (send_commands up bs (some e)) ≡ some e
  send_commands-failed up bs e =
      rw (send_commands-first up bs e) (await_replies-some (send_commands up bs (some e)).replies e)

  await-AllAcknowledge :
      (up : Bool) (bs : List B) → (outcome (send_commands up bs none) ≡ none) ↔ AllAcknowledge up bs
  unfolding send_commands await_replies
  await-AllAcknowledge up [] = ((λ e. tt), (λ h. refl))
  await-AllAcknowledge up (b ∷ bs) = go (be.command up b).1 refl (await-AllAcknowledge up bs)
    where
      rest : Sending B
      rest = send_commands up bs none

      go :
          (r : Option Reply)
          → (be.command up b).1 ≡ r
          → (outcome (send_commands up bs none) ≡ none) ↔ AllAcknowledge up bs
          → (outcome (send_commands up (b ∷ bs) none) ≡ none) ↔ AllAcknowledge up (b ∷ bs)
      go none e ih = rw e (
        (λ h. absurd (cc (send_commands-failed up bs backend_stopped, h))),
        (λ h. absurd (cc (h.0))),
      )
      go (some acknowledged) e ih = rw e ((λ h. (refl, ih.0 h)), (λ h. ih.1 h.1))
      go (some (reported x)) e ih = rw e (
        (λ h. absurd (await_replies-or_first rest.replies rest.first_error (backend_error x) h)),
        (λ h. absurd (cc (h.0))),
      )
      go (some dropped) e ih = rw e (
        (λ h. absurd (await_replies-or_first rest.replies rest.first_error no_acknowledgement h)),
        (λ h. absurd (cc (h.0))),
      )

  -- A command to the threads is reported done exactly if every thread acknowledged it.
  pub command_backends-AllAcknowledge :
      (up : Bool) (bs : List B) → ((command_backends up bs).1 ≡ done) ↔ AllAcknowledge up bs
  unfolding command_backends
  command_backends-AllAcknowledge up bs = elim (Option-cases (outcome (send_commands up bs none))) [
    | inl e ↦ ((λ h. (await-AllAcknowledge up bs).0 e), (λ h. rw (e, command_backends)))
    | inr (x, e) ↦ (
      (λ h. absurd (cc (rw (e, command_backends) at h))),
      (λ h. absurd (cc ((await-AllAcknowledge up bs).1 h, e))),
    )
  ]

  -- `pause` closes the flag, whatever the threads answer; `resume` opens it exactly if every thread
  -- acknowledged, and a failed one leaves the flag as it was.
  pub pause-resume_lem :
      (c : CaptureControl B)
      → ((pause c).0.enabled ≡ false)
        × (((resume c).1 ≡ done) ↔ AllAcknowledge true c.backends)
        × ((resume c).1 ≡ done → (resume c).0.enabled ≡ true)
        × ((e : CaptureError) → (resume c).1 ≡ failed e → (resume c).0.enabled ≡ c.enabled)
  unfolding pause resume
  pause-resume_lem c = (
    refl,
    (
      (λ h. (command_backends-AllAcknowledge true c.backends).0 (ground arith)),
      (λ h. ground (arith, (command_backends-AllAcknowledge true c.backends).1 h)),
    ),
    (λ h. ground arith),
    (λ e h. ground arith),
  )
