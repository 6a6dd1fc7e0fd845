-- ===== src/Input/Gamepad/Thread.antt =====
-- The thread of a gamepad in crates/usahp-daemon/src/input.rs: its commands and its events.
use usahp_core.Base.{
  ℕ, zero, suc, ◌≡◌, ◌⊎◌, inl, inr, refl, sym, ◌∙◌, Bool, true, false, List, [], ◌∷◌, Option, none,
  some, some_inj, Bool-cases, Option-cases, All,
}
use usahp_core.Str.{Str}
use usahp_core.Collections.HashMap.{HashMap}
use usahp_core.Capture.{
  CaptureError, CaptureResult, failed, send_commands, command_backends, noted, Reply, acknowledged,
  CaptureControl, done, resume,
}
use usahp_core.Capture.Laws.{pause-resume_lem, AllAcknowledge}
use usahp_core.Input.Gamepad.{
  running, stopped, thread_command, PadThread, pad_backend, pad_command, InputEvent, Fetched,
  fetched, would_block, fetch_error, Device, Pad, Drained, dry, unfinished, broken, drain, let_go,
  on_pause, take_hold, after_drain, on_resume,
}

Fetched-cases :
    (f : Fetched)
    → ((es : List InputEvent) × (f ≡ fetched es))
      ⊎ ((f ≡ would_block) ⊎ ((e : Str) × (f ≡ fetch_error e)))
Fetched-cases (fetched es) = inl (es, refl)
Fetched-cases would_block = inr (inl refl)
Fetched-cases (fetch_error e) = inr (inr (e, refl))

result-cases : (r : CaptureResult) → (r ≡ done) ⊎ ((e : CaptureError) × (r ≡ failed e))
result-cases done = inl refl
result-cases (failed e) = inr (e, refl)

-- The flag of the thread is whether the program holds the device.
abbrev pub IsTrue : {D : Type 0} ⦃dev : Device D⦄ → Pad D → Type 0
IsTrue ⦃dev⦄ p = p.grabbed ≡ dev.held p.device

module _ {D : Type 0} ⦃dev : Device D⦄ where
  drain-held : (fuel : ℕ) (d : D) → dev.held (drain fuel d).0 ≡ dev.held d
  unfolding drain
  drain-held zero d = refl
  drain-held (suc fuel) d = elim (Fetched-cases (dev.fetch_events d).1) [
    | inl (es, e) ↦ rw (e, drain) (drain-held fuel (dev.fetch_events d).0 ∙ dev.fetch_held d)
    | inr (inl e) ↦ rw (e, drain) (dev.fetch_held d)
    | inr (inr (x, e)) ↦ rw (e, drain) (dev.fetch_held d)
  ]

  -- What a command leaves: a true flag, and, if it is acknowledged, the hold that it asks for.
  abbrev pub Obeyed : Bool → Pad D × Reply → Type 0
  Obeyed up x = IsTrue x.0 × (x.1 ≡ acknowledged → dev.held x.0.device ≡ up)

  let_go-Obeyed : (d : D) → dev.held d ≡ true → Obeyed false (let_go (dev.ungrab d))
  let_go-Obeyed d h = elim (Option-cases (dev.ungrab d).1) [
    | inl ok ↦ rw ok (sym (dev.ungrab_ok d ok), λ q. dev.ungrab_ok d ok)
    | inr (e, bad) ↦ rw bad (sym (dev.ungrab_failed d e bad ∙ h), λ q. absurd (cc (q)))
  ]

  take_hold-Obeyed : (d : D) → dev.held d ≡ false → Obeyed true (take_hold (dev.grab d))
  take_hold-Obeyed d h = elim (Option-cases (dev.grab d).1) [
    | inl ok ↦ rw ok (sym (dev.grab_ok d ok), λ q. dev.grab_ok d ok)
    | inr (e, bad) ↦ rw bad (sym (dev.grab_failed d e bad ∙ h), λ q. absurd (cc (q)))
  ]

  on_pause-Obeyed : (p : Pad D) → IsTrue p → Obeyed false (on_pause p)
  unfolding on_pause
  on_pause-Obeyed p h = elim (Bool-cases p.grabbed) [
    | inl held ↦ rw held (let_go-Obeyed p.device (sym h ∙ held))
    | inr free ↦ rw free (sym free ∙ h, λ q. sym h ∙ free)
  ]

  after_drain-Obeyed :
      (b : Bool) (x : D × Drained)
      → b ≡ dev.held x.0
      → Obeyed true (after_drain b x) × ((after_drain b x).1 ≡ acknowledged → x.1 ≡ dry)
  unfolding after_drain
  after_drain-Obeyed b (d, broken e) h = ((h, λ q. absurd (cc (q))), λ q. absurd (cc (q)))
  after_drain-Obeyed b (d, unfinished) h = ((h, λ q. absurd (cc (q))), λ q. absurd (cc (q)))
  after_drain-Obeyed true (d, dry) h = ((h, λ q. sym h), λ q. refl)
  after_drain-Obeyed false (d, dry) h = (take_hold-Obeyed d (sym h), λ q. refl)

  pub pad_command_lem :
      (p : Pad D)
      → IsTrue p
      → (IsTrue (on_pause p).0
          × ((on_pause p).1 ≡ acknowledged → dev.held (on_pause p).0.device ≡ false))
        × (IsTrue (on_resume p).0
            × ((on_resume p).1 ≡ acknowledged → dev.held (on_resume p).0.device ≡ true))
        × ((on_resume p).1 ≡ acknowledged → (drain (dev.patience p.device) p.device).1 ≡ dry)
  unfolding on_resume
  pad_command_lem p h =
      let (obeyed, emptied) =
        after_drain-Obeyed p.grabbed (drain (dev.patience p.device) p.device)
          (h ∙ sym (drain-held (dev.patience p.device) p.device)) in
      (on_pause-Obeyed p h, obeyed, emptied)

  -- A thread whose flag is true, if it is in its loop.
  abbrev pub IsTrueThread : PadThread D → Type 0
  IsTrueThread (running p) = IsTrue p
  IsTrueThread (stopped d) = Unit {0}

  -- A thread in its loop while the program holds its device.
  abbrev pub IsHolding : PadThread D → Type 0
  IsHolding (running p) = dev.held p.device ≡ true
  IsHolding (stopped d) = ⊥

  -- Every thread that took the command and acknowledged it has its device held.
  threads-held :
      (ps : List (PadThread D)) (first : Option CaptureError)
      → All IsTrueThread ps
      → AllAcknowledge true ps
      → All IsHolding (send_commands true ps first).threads
  unfolding send_commands thread_command pad_command
  threads-held [] first t h = tt
  threads-held (stopped d ∷ ps) first t h = absurd (cc (h.0))
  threads-held (running p ∷ ps) first t h =
      let (paused, resumed, emptied) = pad_command_lem p t.0 in
      (resumed.1 (some_inj h.0), threads-held ps (noted first (some (on_resume p).1)) t.1 h.1)

  -- When `resume` succeeds, the capture flag is on, and every gamepad's thread is in its loop and the
  -- program holds its device, if before that the flag of each thread in its loop was whether it holds
  -- its device: so while some thread is over, for whatever reason, `resume` fails.
  pub resume-held :
      (c : CaptureControl (PadThread D))
      → All IsTrueThread c.backends
      → (resume c).1 ≡ done
      → ((resume c).0.enabled ≡ true) × All IsHolding (resume c).0.backends
  unfolding resume command_backends
  resume-held c t h = elim (result-cases (command_backends true c.backends).1) [
    | inl ok ↦ rw (ok, resume) (refl, threads-held c.backends none t ((pause-resume_lem c).1.0 h))
    | inr (e, bad) ↦ absurd (cc (rw (bad, resume) at h))
  ]
