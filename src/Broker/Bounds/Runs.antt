-- ===== src/Broker/Bounds/Runs.antt =====
-- The ranges of all messages in a run of crates/usahp-daemon/src/broker.rs.
use usahp_core.Base.{
  ℕ, ◌<◌, ◌^◌, ◌≡◌, inl, inr, refl, sym, ◌∙◌, ap, subst, ◌&&◌, List, [], ◌∷◌, Option, none, some,
  some_inj, if◌then◌else◌, All, is_some, is_some_and,
}
use usahp_core.Str.{Str}
use usahp_core.Config.{Mapping}
use usahp_core.Protocol.Float.{F32}
use usahp_core.Protocol.Confidence.{validate_confidence, validate_confidence_iff}
use usahp_core.Protocol.{Action, focus_lost, heartbeat_timeout, escape_hatch}
use usahp_core.State.{LogicalTransition, SwitchStateMachine, Outcome, ok, err}
use usahp_core.State.Invariant.{IsWellFormed}
use usahp_core.State.Edges.{Applied, apply-Applied}
use usahp_core.Channel.{Channel}
use usahp_core.Capture.{Backend, new_enabled}
use usahp_core.Broker.Types.{Runtime, PhysicalEvent, BrokerCommand, start}
use usahp_core.Broker.Sessions.{revoke}
use usahp_core.Broker.Cases.{input_cases, validated}
use usahp_core.Broker.Loop.{
  timed_out, held_too_long, lost_focus, input, tick, focus_changed, heartbeat, step, on_command,
  Wake, command, ticked, Round, run,
}
use usahp_core.Broker.Bounds.{IsLegal, AreInBounds, IsBounded}
use usahp_core.Broker.Run.{Sound, start-IsSound, step-Sound}
use usahp_core.Broker.Bounds.Handlers.{
  register-IsBounded, revoke-IsBounded, if-IsBounded, unregister-IsBounded, handshake-IsBounded,
  IsLegalOutcome, after_apply-IsBounded,
}

validate_confidence-IsLegal : (x : F32) → x < 2 ^ 32 → IsLegal (validate_confidence x)
validate_confidence-IsLegal x h =
    let (passes, either) = validate_confidence_iff x h in
    elim either [
      | inl refused ↦ subst IsLegal (sym refused) tt
      | inr same ↦ subst IsLegal (sym same) (passes.0 same)
    ]

-- 32 bits, if there is a confidence.
abbrev pub IsWord : Option F32 → Type 0
IsWord none = Unit
IsWord (some v) = v < 2 ^ 32

validated-IsLegal : (c : Option F32) → IsWord c → IsLegal (validated c)
validated-IsLegal none h = tt
validated-IsLegal (some v) h = validate_confidence-IsLegal v h

legal_outcome :
    (m m' : SwitchStateMachine) (id : Str) (a : Action) (c : Option F32) (o : Outcome)
    → Applied m id a c (some (m', o))
    → IsLegal c
    → IsLegalOutcome o
legal_outcome m m' id a c (ok none) h legal = tt
legal_outcome m m' id a c (err x) h legal = tt
legal_outcome m m' id a c (ok (some t)) h legal = elim (h.moved) [
  | inl (was, now, none_reported) ↦ absurd (cc (none_reported))
  | inr (was, now, reported) ↦
      subst (λ (x : LogicalTransition). IsLegal x.confidence) (sym (some_inj reported)) legal
]

-- What the types of a command say: a confidence has 32 bits; and a sender that registers has been
-- sent nothing out of range before.
abbrev pub IsTyped : {S : Type 0} ⦃ch : Channel S⦄ → Wake S → Type 0
IsTyped (command (BrokerCommand.register s)) = AreInBounds s
IsTyped (command (BrokerCommand.input e)) = IsWord e.confidence
IsTyped (command (BrokerCommand.unregister _)) = Unit {0}
IsTyped (command (BrokerCommand.handshake _ _)) = Unit {0}
IsTyped (command (BrokerCommand.heartbeat _ _)) = Unit {0}
IsTyped (command (BrokerCommand.revoke_session _)) = Unit {0}
IsTyped (command (BrokerCommand.focus_changed _)) = Unit {0}
IsTyped ticked = Unit {0}

module _ {S B : Type 0} ⦃ch : Channel S⦄ ⦃be : Backend B⦄ where
  input-IsBounded :
      (r r' : Runtime S B) (now : ℕ) (e : PhysicalEvent)
      → IsTyped {S = S} (command (BrokerCommand.input e))
      → IsWellFormed r.state
      → IsBounded r.clients
      → input r now e ≡ some r'
      → IsBounded r'.clients
  input-IsBounded r r' now e typed well h q =
      input_cases (λ x. IsBounded x.clients) r r' now e h
        (λ o on applies.
          after_apply-IsBounded r now o.0 o.1
            (legal_outcome r.state o.0 e.mapping_id e.action (validated e.confidence) o.1
              (subst (Applied r.state e.mapping_id e.action (validated e.confidence)) applies
                (apply-Applied r.state e.mapping_id e.action (validated e.confidence) well))
              (validated-IsLegal e.confidence typed))
            h)
        q

  tick-IsBounded :
      (r : Runtime S B) (now : ℕ) → IsBounded r.clients → IsBounded (tick r now).clients
  unfolding tick
  tick-IsBounded r now h =
      let held = is_some r.session && held_too_long now r.escape_tracker in
      let escaped = revoke r now escape_hatch in
      if-IsBounded (is_some_and (timed_out now) r.session) (revoke r now heartbeat_timeout)
        (if held then escaped else r) (revoke-IsBounded r now heartbeat_timeout h)
        (if-IsBounded held escaped r (revoke-IsBounded r now escape_hatch h) h)

  focus_changed-IsBounded :
      (r : Runtime S B) (now : ℕ) (pid : Option ℕ)
      → IsBounded r.clients
      → IsBounded (focus_changed r now pid).clients
  unfolding focus_changed
  focus_changed-IsBounded r now pid h =
      if-IsBounded (is_some_and (lost_focus pid) r.session) (revoke r now focus_lost) r
        (revoke-IsBounded r now focus_lost h) h

  heartbeat-IsBounded :
      (r : Runtime S B) (now k : ℕ) (id : Str)
      → IsBounded r.clients
      → IsBounded (heartbeat r now k id).clients
  unfolding heartbeat
  heartbeat-IsBounded r now k id h = h

  step-IsBounded :
      (r r' : Runtime S B) (now : ℕ) (uuid : Str) (w : Wake S)
      → IsTyped w
      → IsWellFormed r.state
      → IsBounded r.clients
      → step r now uuid w ≡ some r'
      → IsBounded r'.clients
  unfolding step on_command
  step-IsBounded r r' now uuid (command (BrokerCommand.input x)) t well h q =
      input-IsBounded r r' now x t well h q
  step-IsBounded r r' now uuid (command (BrokerCommand.register s)) t well h q =
      subst (λ (x : Runtime S B). IsBounded x.clients) (some_inj q) (register-IsBounded r s t h)
  step-IsBounded r r' now uuid (command (BrokerCommand.unregister k)) t well h q =
      subst (λ (x : Runtime S B). IsBounded x.clients) (some_inj q) (unregister-IsBounded r now k h)
  step-IsBounded r r' now uuid (command (BrokerCommand.handshake k x)) t well h q =
      subst (λ (x : Runtime S B). IsBounded x.clients) (some_inj q)
        (handshake-IsBounded r now uuid k x h)
  step-IsBounded r r' now uuid (command (BrokerCommand.heartbeat k id)) t well h q =
      subst (λ (x : Runtime S B). IsBounded x.clients) (some_inj q)
        (heartbeat-IsBounded r now k id h)
  step-IsBounded r r' now uuid (command (BrokerCommand.revoke_session reason)) t well h q =
      subst (λ (x : Runtime S B). IsBounded x.clients) (some_inj q)
        (revoke-IsBounded r now reason h)
  step-IsBounded r r' now uuid (command (BrokerCommand.focus_changed pid)) t well h q =
      subst (λ (x : Runtime S B). IsBounded x.clients) (some_inj q)
        (focus_changed-IsBounded r now pid h)
  step-IsBounded r r' now uuid ticked t well h q =
      subst (λ (x : Runtime S B). IsBounded x.clients) (some_inj q) (tick-IsBounded r now h)

  run-IsBounded :
      (r : Runtime S B) (rounds : List (Round S))
      → All (λ x. IsTyped x.wake) rounds
      → Sound r
      → IsBounded r.clients
      → (r' : Runtime S B) × (run r rounds ≡ some r') × IsBounded r'.clients
  unfolding run
  run-IsBounded r [] t sound h = (r, refl, h)
  run-IsBounded r (x ∷ xs) t sound h =
      let (r', e, sound') = step-Sound r x.now x.uuid x.wake sound in
      let (r'', e', h'') =
        run-IsBounded r' xs t.1 sound'
          (step-IsBounded r r' x.now x.uuid x.wake t.0 sound.well_formed h e) in
      (r'', ap (λ o. elim o [ none ↦ none | some q ↦ run q xs ]) e ∙ e', h'')

  -- The loop, from its start and through any rounds, does not panic, and whatever it has put into the
  -- queue of a client that is still there is in range: a sequence number and a timestamp below 2 ^ 64,
  -- and a confidence, in an event or a snapshot, that is absent or a number from 0 to 100, whatever
  -- confidence the inputs have; and every message has the protocol's version. A confidence of an input
  -- is any 32 bits, and a sender that registers has had nothing out of range before.
  pub run-start-IsBounded :
      (mappings : List Mapping) (backends : List B) (now : ℕ) (rounds : List (Round S))
      → All (λ x. IsTyped x.wake) rounds
      → (r' : Runtime S B) × (run (start mappings (new_enabled backends) now) rounds ≡ some r')
        × IsBounded r'.clients
  unfolding start
  run-start-IsBounded mappings backends now rounds typed =
      run-IsBounded (start mappings (new_enabled backends) now) rounds typed
        (start-IsSound S mappings backends now) (record { at = λ k s e. absurd (cc (e)) })
