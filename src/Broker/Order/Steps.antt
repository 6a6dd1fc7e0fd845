-- ===== src/Broker/Order/Steps.antt =====
-- The events of every client through a round of the loop of crates/usahp-daemon/src/broker.rs.
use usahp_core.Base.{
  some_inj, ℕ, [], ◌∷◌, length, u64_mod, List, if◌then◌else◌, Option-cases, Bool-cases, ◌+◌, ◌*◌,
  ◌<◌, ◌≡◌, inl, inr, refl, subst, Bool, true, false, Option, none, some, arith,
}
use usahp_core.Str.{Str, str_eq}
use usahp_core.Collections.BTreeMap
use usahp_core.Collections.BTreeMap.{BTreeMap}
use usahp_core.Collections.HashMap
use usahp_core.Collections.BTreeSet
use usahp_core.Protocol.{focus_lost, explicit_revocation, escape_hatch, heartbeat_timeout, Action}
use usahp_core.Protocol.Float.{F32}
use usahp_core.State.{err, unknown_mapping, SwitchStateMachine, Outcome, apply, apply_edge}
use usahp_core.Channel.{Channel}
use usahp_core.Capture.{Backend}
use usahp_core.Broker.Types.{put_client, Runtime, BrokerCommand, PhysicalEvent}
use usahp_core.Broker.Sessions.{revoke, unregister}
use usahp_core.Broker.Cases.{input_cases, validated}
use usahp_core.Broker.Loop.{
  Wake, command, ticked, input, focus_changed, tick, step, on_command, heartbeat,
}
use usahp_core.Broker.Logs.{Logs-refl, Logs-drop}
use usahp_core.Broker.Numbers.{width}
use usahp_core.Broker.Order.{
  SessionRevocationReason, Advances, Advances-refl, Advances-trans, Advances-weaken,
  revoke-Advances,
}
use usahp_core.Broker.Order.Rounds.{after_apply-Advances}
use usahp_core.Broker.Order.Admitted.{handshake-Advances}

length-set :
    {V : Type 0} (k : Str) (v : V) (m : BTreeMap V) → length (BTreeMap.set k v m) ≡ length m
unfolding BTreeMap.set
length-set k v [] = refl
length-set k v ((j, w) ∷ m) = omega (arith, length-set k v m)

length-apply_edge :
    (m : SwitchStateMachine) (id k : Str) (s : List Str) (a : Action) (c : Option F32)
    → length (apply_edge m id k s a c).0.active_by_switch ≡ length m.active_by_switch
unfolding apply_edge
length-apply_edge m id k s Action.pressed c = elim (Bool-cases (BTreeSet.contains id s)) [
  | inl e ↦ rw e refl
  | inr e ↦ rw e (length-set k (BTreeSet.insert id s) m.active_by_switch)
]
length-apply_edge m id k s Action.released c = elim (Bool-cases (BTreeSet.contains id s)) [
  | inl e ↦ rw e (length-set k (BTreeSet.remove id s) m.active_by_switch)
  | inr e ↦ rw e refl
]

length-apply :
    (m : SwitchStateMachine) (id : Str) (a : Action) (c : Option F32)
    (o : SwitchStateMachine × Outcome)
    → apply m id a c ≡ some o
    → length o.0.active_by_switch ≡ length m.active_by_switch
unfolding apply
length-apply m id a c o e = elim (Option-cases (HashMap.get id m.mapping_to_switch)) [
  | inl none_here ↦
      let same : (m, err (unknown_mapping id)) ≡ o = some_inj (rw (none_here, apply) at e) in
      subst (λ x. length x.0.active_by_switch ≡ length m.active_by_switch) same refl
  | inr (k, found) ↦ elim (Option-cases (BTreeMap.get k m.active_by_switch)) [
    | inl gone ↦ absurd (cc (rw (found, apply, gone) at e))
    | inr (s, there) ↦
        let same : apply_edge m id k s a c ≡ o = some_inj (rw (found, apply, there) at e) in
        subst (λ x. length x.0.active_by_switch ≡ length m.active_by_switch) same
          (length-apply_edge m id k s a c)
  ]
]

-- A round that registers nobody.
abbrev pub IsNoRegister : {S : Type 0} → Wake S → Type 0
IsNoRegister (command (BrokerCommand.register _)) = ⊥
IsNoRegister (command (BrokerCommand.input _)) = Unit {0}
IsNoRegister (command (BrokerCommand.unregister _)) = Unit {0}
IsNoRegister (command (BrokerCommand.handshake _ _)) = Unit {0}
IsNoRegister (command (BrokerCommand.heartbeat _ _)) = Unit {0}
IsNoRegister (command (BrokerCommand.revoke_session _)) = Unit {0}
IsNoRegister (command (BrokerCommand.focus_changed _)) = Unit {0}
IsNoRegister ticked = Unit {0}

module _ {S B : Type 0} where
  -- The number of numbers that one round may use.
  abbrev pub share : Runtime S B → ℕ
  share r = 1 + 2 * width r

module _ {S B : Type 0} ⦃ch : Channel S⦄ ⦃be : Backend B⦄ where
  revoke-share :
      (r : Runtime S B) (now : ℕ) (reason : SessionRevocationReason)
      → r.sequence + share r < u64_mod
      → Advances (share r) r (revoke r now reason)
  revoke-share r now reason fits =
      Advances-weaken (width r) (share r) (omega arith) (revoke-Advances r now reason (omega arith))

  if-Advances :
      (b : Bool) (n : ℕ) (r x y : Runtime S B)
      → Advances n r x
      → Advances n r y
      → Advances n r (if b then x else y)
  if-Advances true n r x y f g = f
  if-Advances false n r x y f g = g

  unregister-Advances :
      (r : Runtime S B) (now k : ℕ)
      → r.sequence + share r < u64_mod
      → Advances (share r) r (unregister r now k)
  unfolding unregister
  unregister-Advances r now k fits =
      let gone = record r { clients = put_client k none r.clients } in
      let dropped : Advances 0 r gone = record {
        logs = Logs-drop r.sequence r.sequence r.clients k (omega arith);
        most = omega arith;
        same_width = refl;
        same_next = refl;
      } in
      if-Advances _ (share r) r _ _
        (Advances-weaken (0 + share r) (share r) (omega arith)
          (Advances-trans 0 (share r) dropped (revoke-share gone now explicit_revocation fits)))
        (Advances-weaken 0 (share r) (omega arith) dropped)

  tick-Advances :
      (r : Runtime S B) (now : ℕ)
      → r.sequence + share r < u64_mod
      → Advances (share r) r (tick r now)
  unfolding tick
  tick-Advances r now fits =
      if-Advances _ (share r) r _ _ (revoke-share r now heartbeat_timeout fits) (
        if-Advances _ (share r) r _ _ (revoke-share r now escape_hatch fits)
          (Advances-refl (share r) r))

  input-Advances :
      (r r' : Runtime S B) (now : ℕ) (e : PhysicalEvent)
      → r.sequence + share r < u64_mod
      → input r now e ≡ some r'
      → Advances (share r) r r'
  input-Advances r r' now e fits q =
      input_cases (Advances (share r) r) r r' now e (Advances-refl (share r) r)
        (λ o on applies.
          let width_kept =
            length-apply r.state e.mapping_id e.action (validated e.confidence) o applies in
          Advances-weaken (1 + width r) (share r) (omega arith)
            (after_apply-Advances r now o width_kept (omega arith)))
        q

  focus_changed-Advances :
      (r : Runtime S B) (now : ℕ) (pid : Option ℕ)
      → r.sequence + share r < u64_mod
      → Advances (share r) r (focus_changed r now pid)
  unfolding focus_changed
  focus_changed-Advances r now pid fits =
      if-Advances _ (share r) r _ _ (revoke-share r now focus_lost fits) (Advances-refl (share r) r)

  heartbeat-Advances :
      (r : Runtime S B) (now k : ℕ) (id : Str) → Advances (share r) r (heartbeat r now k id)
  unfolding heartbeat
  heartbeat-Advances r now k id = record {
    logs = Logs-refl r.sequence r.sequence r.clients (omega arith);
    most = omega arith;
    same_width = refl;
    same_next = refl;
  }

  -- Every other round only extends the logs of the clients that stay.
  pub step-Advances :
      (r r' : Runtime S B) (now : ℕ) (uuid : Str) (w : Wake S)
      → IsNoRegister w
      → r.sequence + share r < u64_mod
      → step r now uuid w ≡ some r'
      → Advances (share r) r r'
  unfolding step on_command
  step-Advances r r' now uuid (command (BrokerCommand.input e)) h fits q =
      input-Advances r r' now e fits q
  step-Advances r r' now uuid (command (BrokerCommand.register s)) h fits q = absurd h
  step-Advances r r' now uuid (command (BrokerCommand.unregister k)) h fits q =
      subst (Advances (share r) r) (some_inj q) (unregister-Advances r now k fits)
  step-Advances r r' now uuid (command (BrokerCommand.handshake k x)) h fits q =
      subst (Advances (share r) r) (some_inj q) (handshake-Advances r now uuid k x (omega arith))
  step-Advances r r' now uuid (command (BrokerCommand.heartbeat k id)) h fits q =
      subst (Advances (share r) r) (some_inj q) (heartbeat-Advances r now k id)
  step-Advances r r' now uuid (command (BrokerCommand.revoke_session reason)) h fits q =
      subst (Advances (share r) r) (some_inj q) (revoke-share r now reason fits)
  step-Advances r r' now uuid (command (BrokerCommand.focus_changed pid)) h fits q =
      subst (Advances (share r) r) (some_inj q) (focus_changed-Advances r now pid fits)
  step-Advances r r' now uuid ticked h fits q =
      subst (Advances (share r) r) (some_inj q) (tick-Advances r now fits)
