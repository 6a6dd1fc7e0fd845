-- ===== src/Broker/Order/Runs.antt =====
-- The events of every client of the loop of crates/usahp-daemon/src/broker.rs, over a whole run.
use native.Mathlib.Nat.{suc-mul}
use usahp_core.Base.{
  some_inj, suc, ℕ, All, append-nil, [], ◌∷◌, ◌∙◌, length, u64_mod, List, ap, if◌then◌else◌,
  Option-cases, Bool-cases, ◌+◌, ◌*◌, ◌≤◌, ◌<◌, ◌≡◌, inl, inr, refl, sym, subst, Bool, true, false,
  some, arith, nat_eqb,
}
use usahp_core.Str.{Str}
use usahp_core.Protocol.{protocol_version, SwitchEvent, hello}
use usahp_core.State.{snapshots}
use usahp_core.Channel.{Channel}
use usahp_core.Config.{Mapping}
use usahp_core.Capture.{CaptureControl, Backend}
use usahp_core.Broker.Types.{start, Runtime, BrokerCommand, put_client, next_u64}
use usahp_core.Broker.Sessions.{register}
use usahp_core.Broker.Loop.{on_command, Wake, Round, command, ticked, step, run}
use usahp_core.Broker.Logs.{events, events-append, IsRising, IsRising-append}
use usahp_core.Broker.Numbers.{width}
use usahp_core.Broker.Order.{Advances}
use usahp_core.Broker.Order.Steps.{share, IsNoRegister, step-Advances}

IsRising-weaken : (n m p : ℕ) (es : List SwitchEvent) → m ≤ p → IsRising n m es → IsRising n p es
IsRising-weaken n m p [] h r = omega arith
IsRising-weaken n m p (e ∷ es) h r = (r.0, IsRising-weaken e.sequence m p es h r.1)

module _ {S B : Type 0} ⦃ch : Channel S⦄ where
  -- Every client has its events in strictly ascending order of their numbers, and the identifiers
  -- that are in use were given out before.
  pub record IsOrdered (r : Runtime S B) : Type 0 where
    pub rising : (k : ℕ) (s : S) → r.clients k ≡ some s → IsRising 0 r.sequence (events (ch.sent s))
    pub below : (k : ℕ) (s : S) → r.clients k ≡ some s → k < r.next_client

  Advances-IsOrdered : (b : ℕ) (r r' : Runtime S B) → Advances b r r' → IsOrdered r → IsOrdered r'
  Advances-IsOrdered b r r' x h = record {
    rising = λ k s' e'.
        let (s, e, ext) = x.logs.at k s' e' in
        subst (IsRising 0 r'.sequence) (sym ext.grows) (
          IsRising-append 0 r.sequence r'.sequence (events (ch.sent s)) ext.new (h.rising k s e)
            ext.rising);
    below =
        λ k s' e'. let (s, e, ext) = x.logs.at k s' e' in omega (arith, h.below k s e, x.same_next);
  }

  put-IsOrdered :
      (r : Runtime S B) (s : S)
      → events (ch.sent s) ≡ []
      → r.next_client + 1 < u64_mod
      → IsOrdered r
      → IsOrdered (record r {
        next_client = next_u64 r.next_client;
        clients = put_client r.next_client (some s) r.clients;
      })
  put-IsOrdered r s fresh fits h = record {
    rising = λ k x e. rising_at k x (nat_eqb r.next_client k) refl e;
    below = λ k x e. below_at k x (nat_eqb r.next_client k) refl e;
  }
    where
      rising_at :
          (k : ℕ) (x : S) (b : Bool)
          → nat_eqb r.next_client k ≡ b
          → (if b then some s else r.clients k) ≡ some x
          → IsRising 0 r.sequence (events (ch.sent x))
      rising_at k x true hit e =
          let same : s ≡ x = cc (e) in
          subst (IsRising 0 r.sequence) (sym fresh ∙ ap (λ y. events (ch.sent y)) same)
            (omega arith)
      rising_at k x false miss e = h.rising k x e

      below_at :
          (k : ℕ) (x : S) (b : Bool)
          → nat_eqb r.next_client k ≡ b
          → (if b then some s else r.clients k) ≡ some x
          → k < next_u64 r.next_client
      below_at k x true hit e = ground arith
      below_at k x false miss e = omega (arith, h.below k x e)

  -- What a round does for the order: how far the two counters may go with it.
  record Proceeds (r r' : Runtime S B) : Type 0 where
    ordered : IsOrdered r'
    most : r'.sequence ≤ r.sequence + share r
    next : r'.next_client ≤ r.next_client + 1
    same_width : width r' ≡ width r

  -- A registration by a sender whose queue has had no event.
  register-Proceeds :
      (r : Runtime S B) (sender : S)
      → events (ch.sent sender) ≡ []
      → r.next_client + 1 < u64_mod
      → IsOrdered r
      → Proceeds r (register r sender).0
  unfolding register
  register-Proceeds r sender fresh fits h =
      elim (Bool-cases
        (ch.try_send sender (
          hello
            (record { protocol_version = protocol_version; switches = snapshots r.state }))).1) [
              | inl taken ↦
                  rw (taken, register)
                    (record {
                      ordered =
                          put-IsOrdered r _
                            (ap events (ch.sent_ok sender _ taken)
                              ∙ events-append (ch.sent sender) _
                              ∙ append-nil (events (ch.sent sender))
                              ∙ fresh)
                            fits h;
                      most = omega arith;
                      next = omega arith;
                      same_width = refl;
                    })
              | inr full ↦
                  rw (full, register)
                    (record {
                      ordered = record {
                        rising = h.rising;
                        below = λ k s e. omega (arith, h.below k s e);
                      };
                      most = omega arith;
                      next = omega arith;
                      same_width = refl;
                    })
            ]

spent :
    (l w q : ℕ)
    → q + suc l * w < u64_mod
    → (q + w < u64_mod) × ((q' w' : ℕ) → q' ≤ q + w → w' ≡ w → q' + l * w' < u64_mod)
spent l w q fits =
    let shared : q + (l * w + w) < u64_mod = rw (suc-mul) at fits in
    (
      omega (arith, shared),
      λ q' w' most same. subst (λ x. q' + l * x < u64_mod) (sym same) (omega (arith, shared, most)),
    )

-- The queue of a client that registers has had no event.
abbrev pub IsFresh : {S : Type 0} ⦃ch : Channel S⦄ → Wake S → Type 0
IsFresh ⦃ch⦄ (command (BrokerCommand.register s)) = events (ch.sent s) ≡ []
IsFresh (command (BrokerCommand.input _)) = Unit {0}
IsFresh (command (BrokerCommand.unregister _)) = Unit {0}
IsFresh (command (BrokerCommand.handshake _ _)) = Unit {0}
IsFresh (command (BrokerCommand.heartbeat _ _)) = Unit {0}
IsFresh (command (BrokerCommand.revoke_session _)) = Unit {0}
IsFresh (command (BrokerCommand.focus_changed _)) = Unit {0}
IsFresh ticked = Unit {0}

module _ {S B : Type 0} ⦃ch : Channel S⦄ ⦃be : Backend B⦄ where
  other-Proceeds :
      (r r' : Runtime S B) (now : ℕ) (uuid : Str) (w : Wake S)
      → IsNoRegister w
      → IsOrdered r
      → r.sequence + share r < u64_mod
      → step r now uuid w ≡ some r'
      → Proceeds r r'
  other-Proceeds r r' now uuid w none_new h fits q =
      let a = step-Advances r r' now uuid w none_new fits q in
      record {
        ordered = Advances-IsOrdered (share r) r r' a h;
        most = a.most;
        next = omega (arith, a.same_next);
        same_width = a.same_width;
      }

  step-Proceeds :
      (r r' : Runtime S B) (now : ℕ) (uuid : Str) (w : Wake S)
      → IsFresh w
      → IsOrdered r
      → r.sequence + share r < u64_mod
      → r.next_client + 1 < u64_mod
      → step r now uuid w ≡ some r'
      → Proceeds r r'
  unfolding step on_command
  step-Proceeds r r' x y (command (BrokerCommand.register s)) fresh h fits few q =
      subst (Proceeds r) (some_inj q) (register-Proceeds r s fresh few h)
  step-Proceeds r r' x y (command (BrokerCommand.input e)) fresh h fits few q =
      other-Proceeds r r' x y (command (BrokerCommand.input e)) tt h fits q
  step-Proceeds r r' x y (command (BrokerCommand.unregister k)) fresh h fits few q =
      other-Proceeds r r' x y (command (BrokerCommand.unregister k)) tt h fits q
  step-Proceeds r r' x y (command (BrokerCommand.handshake k m)) fresh h fits few q =
      other-Proceeds r r' x y (command (BrokerCommand.handshake k m)) tt h fits q
  step-Proceeds r r' x y (command (BrokerCommand.heartbeat k id)) fresh h fits few q =
      other-Proceeds r r' x y (command (BrokerCommand.heartbeat k id)) tt h fits q
  step-Proceeds r r' x y (command (BrokerCommand.revoke_session reason)) fresh h fits few q =
      other-Proceeds r r' x y (command (BrokerCommand.revoke_session reason)) tt h fits q
  step-Proceeds r r' x y (command (BrokerCommand.focus_changed pid)) fresh h fits few q =
      other-Proceeds r r' x y (command (BrokerCommand.focus_changed pid)) tt h fits q
  step-Proceeds r r' x y ticked fresh h fits few q = other-Proceeds r r' x y ticked tt h fits q

  run-IsOrdered :
      (r r' : Runtime S B) (xs : List (Round S))
      → All (λ x. IsFresh x.wake) xs
      → IsOrdered r
      → r.sequence + length xs * share r < u64_mod
      → r.next_client + length xs < u64_mod
      → run r xs ≡ some r'
      → IsOrdered r'
  unfolding run
  run-IsOrdered r r' [] fresh h fits few q = subst IsOrdered (some_inj q) h
  run-IsOrdered r r' (x ∷ xs) fresh h fits few q =
      elim (Option-cases (step r x.now x.uuid x.wake)) [
        | inl panics ↦ absurd (cc (rw (panics, run) at q))
        | inr (s, e) ↦
            let p =
              step-Proceeds r s x.now x.uuid x.wake fresh.0 h
                (spent (length xs) (share r) r.sequence fits).0 (omega arith) e in
            run-IsOrdered s r' xs fresh.1 p.ordered
              ((spent (length xs) (share r) r.sequence fits).1 s.sequence (share s) p.most
                (ap (λ w. 1 + 2 * w) p.same_width))
              (omega (arith, p.next)) (rw (e, run) at q)
      ]

  -- In every run of the loop of at most as many rounds as the two counters have room for, with
  -- senders whose queues have had no event, the events of every client that is there at the end
  -- have strictly ascending numbers: none is doubled and none is out of order.
  pub run-start-IsRising :
      (mappings : List Mapping) (capture : CaptureControl B) (now : ℕ) (xs : List (Round S))
      (r : Runtime S B)
      → All (λ x. IsFresh x.wake) xs
      → length xs * share (start {S = S} {B = B} mappings capture now) < u64_mod
      → 1 + length xs < u64_mod
      → run (start mappings capture now) xs ≡ some r
      → (k : ℕ) (s : S) → r.clients k ≡ some s
      → IsRising 0 r.sequence (events (ch.sent s))
  unfolding start
  run-start-IsRising mappings capture now xs r fresh fits few q =
      (run-IsOrdered (start mappings capture now) r xs fresh
        (record { rising = λ k s e. absurd (cc (e)); below = λ k s e. absurd (cc (e)) })
        (omega (arith, fits)) few q).rising
