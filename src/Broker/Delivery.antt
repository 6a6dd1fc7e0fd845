-- ===== src/Broker/Delivery.antt =====
-- What the session's client of crates/usahp-daemon/src/broker.rs is sent when its session is revoked.
use usahp_core.Base.{
  ℕ, ◌≡◌, refl, sym, ◌∙◌, ap, subst, true, false, not, ◌||◌, List, [], ◌∷◌, ◌++◌, map, append_assoc,
  append-nil, Option, none, some, arith, if◌then◌else◌,
}
use usahp_core.Str.{Str}
use usahp_core.State.{LogicalTransition, release_all}
use usahp_core.State.Release.{down_switches, release_of, release_all_lem}
use usahp_core.Broker.Logs.{events}
use usahp_core.Protocol.{
  Action, SwitchEvent, ServerMessage, SessionRevocationReason, session_revoked, protocol_version,
}
use usahp_core.Channel.{Channel}
use usahp_core.Capture.{Backend}
use usahp_core.Broker.Types.{Runtime, Session, put_client}
use usahp_core.Broker.Send.{event, events_of, send_each, release_messages}
use usahp_core.Broker.Sessions.{notify, close_session, revoke, revoke_taken}
use usahp_core.Broker.Numbers.{release_messages-clients}

-- The message that ends a session.
abbrev pub farewell : Session → SessionRevocationReason → ServerMessage
farewell s reason =
    session_revoked
      (record { protocol_version = protocol_version; session_id = s.session_id; reason = reason })

-- The switches and actions of the events among messages.
abbrev pub edges : List ServerMessage → List (Str × Action)
edges ms = map (λ (e : SwitchEvent). (e.switch_id, e.action)) (events ms)

abbrev pub let_up : Str → Str × Action
let_up k = (k, Action.released)

abbrev edge_of : LogicalTransition → Str × Action
edge_of t = (t.switch_id, t.action)

edges_of_releases : (ks : List Str) → map edge_of (map release_of ks) ≡ map let_up ks
edges_of_releases [] = refl
edges_of_releases (k ∷ ks) = ap (λ l. let_up k ∷ l) (edges_of_releases ks)

module _ {S B : Type 0} where
  edges-events_of :
      (r : Runtime S B) (now : ℕ) (ts : List LogicalTransition)
      → edges (events_of r now ts).1 ≡ map edge_of ts
  unfolding events_of event
  edges-events_of r now [] = refl
  edges-events_of r now (t ∷ ts) =
      ap (λ l. edge_of t ∷ l)
        (edges-events_of (event r now t.switch_id t.action t.confidence).0 now ts)

  release_messages-edges :
      (r : Runtime S B) (now : ℕ)
      → edges (release_messages r now).1 ≡ map let_up (down_switches r.state.active_by_switch)
  unfolding release_messages
  release_messages-edges r now =
      edges-events_of (record r { state = (release_all r.state).1 }) now (release_all r.state).0
      ∙ ap (λ ts. map edge_of ts) (release_all_lem r.state).0
      ∙ edges_of_releases (down_switches r.state.active_by_switch)

module _ {S : Type 0} ⦃ch : Channel S⦄ where
  send_each-sent :
      (s : S) (ms : List ServerMessage)
      → (send_each s ms).1 ≡ false
      → ch.sent (send_each s ms).0 ≡ ch.sent s ++ ms
  unfolding send_each
  send_each-sent s [] h = sym (append-nil (ch.sent s))
  send_each-sent s (m ∷ ms) h =
      let ok : (ch.try_send s m).1 ≡ true = ground arith in
      let rest : (send_each (ch.try_send s m).0 ms).1 ≡ false = ground arith in
      send_each-sent (ch.try_send s m).0 ms rest
      ∙ ap (λ l. l ++ ms) (ch.sent_ok s m ok)
      ∙ append_assoc (ch.sent s) (m ∷ []) ms

  -- The messages and then the farewell, if the client is kept.
  kept-sent :
      (k : ℕ) (f : ℕ → Option S) (q q' : S) (ms : List ServerMessage) (m : ServerMessage)
      → put_client k
          (if (send_each q ms).1 || not (ch.try_send (send_each q ms).0 m).1
            then none
            else some (ch.try_send (send_each q ms).0 m).0)
          f
          k
        ≡ some q'
      → ch.sent q' ≡ ch.sent q ++ ms ++ m ∷ []
  kept-sent k f q q' ms m h =
      let all : (send_each q ms).1 ≡ false = ground arith in
      let last : (ch.try_send (send_each q ms).0 m).1 ≡ true = ground arith in
      let same : (ch.try_send (send_each q ms).0 m).0 ≡ q' = ground arith in
      ap ch.sent (sym same)
      ∙ ch.sent_ok (send_each q ms).0 m last
      ∙ ap (λ l. l ++ m ∷ []) (send_each-sent q ms all)

module _ {S B : Type 0} ⦃ch : Channel S⦄ where
  pub notify-sent :
      (r : Runtime S B) (s : Session) (ms : List ServerMessage) (reason : SessionRevocationReason)
      (q q' : S)
      → r.clients s.client_id ≡ some q
      → (notify r s ms reason).clients s.client_id ≡ some q'
      → ch.sent q' ≡ ch.sent q ++ ms ++ farewell s reason ∷ []
  unfolding notify
  notify-sent r s ms reason q q' e h =
      kept-sent s.client_id r.clients q q' ms (farewell s reason) (rw (e, notify) at h)

  module _ ⦃be : Backend B⦄ where
    revoke_taken-sent :
        (r : Runtime S B) (now : ℕ) (reason : SessionRevocationReason) (s : Session) (q q' : S)
        → r.clients s.client_id ≡ some q
        → (revoke_taken r now reason (some s)).clients s.client_id ≡ some q'
        → ch.sent q'
          ≡ ch.sent q ++ (release_messages (close_session r) now).1 ++ farewell s reason ∷ []
    unfolding revoke_taken close_session
    revoke_taken-sent r now reason s q q' e h =
        notify-sent (release_messages (close_session r) now).0 s
          (release_messages (close_session r) now).1 reason q q'
          (ap (λ f. f s.client_id) (release_messages-clients (close_session r) now) ∙ e) h

    -- A client whose session is revoked, for whatever reason, and that is kept, has been sent one
    -- release for each switch that was down, in the order of the machine's map, and then, last, why its
    -- session is over. So a client that has no room for all of it is not kept.
    pub revoke-sent :
        (r : Runtime S B) (now : ℕ) (reason : SessionRevocationReason) (s : Session) (q q' : S)
        → r.session ≡ some s
        → r.clients s.client_id ≡ some q
        → (revoke r now reason).clients s.client_id ≡ some q'
        → (ms : List ServerMessage) × (ch.sent q' ≡ ch.sent q ++ ms ++ farewell s reason ∷ [])
          × (edges ms ≡ map let_up (down_switches r.state.active_by_switch))
    unfolding revoke close_session
    revoke-sent r now reason s q q' inside e h = (
      (release_messages (close_session r) now).1,
      revoke_taken-sent r now reason s q q' e
          (subst (λ o. (revoke_taken r now reason o).clients s.client_id ≡ some q') inside h),
      release_messages-edges (close_session r) now,
    )
