-- ===== src/Broker/Numbers.antt =====
-- The numbers that crates/usahp-daemon/src/broker.rs gives to its events, while the counter does not
-- wrap.
use usahp_core.Base.{
  ℕ, ◌+◌, ◌≤◌, ◌<◌, ◌≡◌, refl, sym, ap, subst, ◌∙◌, List, [], ◌∷◌, arith, u64_mod, length,
}
use usahp_core.Protocol.{ServerMessage}
use usahp_core.State.{LogicalTransition, SwitchStateMachine, release_all, release_entries}
use usahp_core.Collections.BTreeMap.{BTreeMap}
use usahp_core.Collections.BTreeSet.{BTreeSet}
use usahp_core.Broker.Types.{Runtime, next_u64}
use usahp_core.Broker.Send.{event, events_of, release_messages}
use usahp_core.Broker.Logs.{AreInOrder}

release_entries-length : (l : BTreeMap BTreeSet) → length (release_entries l).0 ≤ length l
unfolding release_entries
release_entries-length [] = omega arith
release_entries-length ((k, []) ∷ l) = omega (arith, release_entries-length l)
release_entries-length ((k, x ∷ s) ∷ l) = omega (arith, release_entries-length l)

release_entries-width : (l : BTreeMap BTreeSet) → length (release_entries l).1 ≡ length l
unfolding release_entries
release_entries-width [] = refl
release_entries-width ((k, []) ∷ l) = omega (arith, release_entries-width l)
release_entries-width ((k, x ∷ s) ∷ l) = omega (arith, release_entries-width l)

module _ {S B : Type 0} where
  pub sequence-events_of :
      (r : Runtime S B) (now : ℕ) (ts : List LogicalTransition)
      → r.sequence + length ts < u64_mod
      → (events_of r now ts).0.sequence ≡ r.sequence + length ts
  unfolding events_of
  sequence-events_of r now [] h = omega arith
  sequence-events_of r now (t ∷ ts) h = omega (
    arith,
    sequence-events_of (event r now t.switch_id t.action t.confidence).0 now ts (omega arith),
  )

  events_of-InOrder :
      (r : Runtime S B) (now : ℕ) (ts : List LogicalTransition)
      → r.sequence + length ts < u64_mod
      → AreInOrder r.sequence (r.sequence + length ts) (events_of r now ts).1
  unfolding events_of
  events_of-InOrder r now [] h = omega arith
  events_of-InOrder r now (t ∷ ts) h = (
    next_u64 r.sequence,
    (omega arith, omega arith),
    subst
        (λ q.
          AreInOrder (next_u64 r.sequence) q
            (events_of (event r now t.switch_id t.action t.confidence).0 now ts).1)
        (omega arith)
        (events_of-InOrder (event r now t.switch_id t.action t.confidence).0 now ts (omega arith)),
  )

  -- How many switches there are.
  abbrev pub width : Runtime S B → ℕ
  width r = length r.state.active_by_switch

  events_of-clients :
      (r : Runtime S B) (now : ℕ) (ts : List LogicalTransition)
      → (events_of r now ts).0.clients ≡ r.clients
  unfolding events_of
  events_of-clients r now [] = refl
  events_of-clients r now (t ∷ ts) =
      events_of-clients (event r now t.switch_id t.action t.confidence).0 now ts

  events_of-next_client :
      (r : Runtime S B) (now : ℕ) (ts : List LogicalTransition)
      → (events_of r now ts).0.next_client ≡ r.next_client
  unfolding events_of
  events_of-next_client r now [] = refl
  events_of-next_client r now (t ∷ ts) =
      events_of-next_client (event r now t.switch_id t.action t.confidence).0 now ts

  events_of-state :
      (r : Runtime S B) (now : ℕ) (ts : List LogicalTransition)
      → (events_of r now ts).0.state ≡ r.state
  unfolding events_of
  events_of-state r now [] = refl
  events_of-state r now (t ∷ ts) =
      events_of-state (event r now t.switch_id t.action t.confidence).0 now ts

  pub release_messages-clients :
      (r : Runtime S B) (now : ℕ) → (release_messages r now).0.clients ≡ r.clients
  unfolding release_messages
  release_messages-clients r now = events_of-clients _ now (release_all r.state).0

  -- The releases have the next numbers, one for each switch that is down.
  pub record Releases (r : Runtime S B) (r' : Runtime S B) (ms : List ServerMessage) : Type 0 where
    pub clients : r'.clients ≡ r.clients
    pub same_width : width r' ≡ width r
    pub same_next : r'.next_client ≡ r.next_client
    pub most : r'.sequence ≤ r.sequence + width r
    pub in_order : AreInOrder r.sequence r'.sequence ms

  pub release_messages-Releases :
      (r : Runtime S B) (now : ℕ)
      → r.sequence + width r < u64_mod
      → Releases r (release_messages r now).0 (release_messages r now).1
  unfolding release_messages release_all
  release_messages-Releases r now h =
      let few = release_entries-length r.state.active_by_switch in
      let fits : r.sequence + length (release_all r.state).0 < u64_mod = omega arith in
      let numbered =
        sequence-events_of (record r { state = (release_all r.state).1 }) now
          (release_all r.state).0 fits in
      record {
        clients = events_of-clients _ now (release_all r.state).0;
        same_width =
            ap (λ (m : SwitchStateMachine). length m.active_by_switch)
              (events_of-state (record r { state = (release_all r.state).1 }) now
                (release_all r.state).0)
            ∙ release_entries-width r.state.active_by_switch;
        same_next = events_of-next_client _ now (release_all r.state).0;
        most = omega (arith, numbered);
        in_order =
            subst
              (λ q.
                AreInOrder r.sequence q
                  (events_of (record r { state = (release_all r.state).1 }) now
                    (release_all r.state).0).1)
              (sym numbered)
              (events_of-InOrder (record r { state = (release_all r.state).1 }) now
                (release_all r.state).0 fits);
      }
