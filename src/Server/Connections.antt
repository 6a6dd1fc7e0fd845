-- ===== src/Server/Connections.antt =====
-- A connection of crates/usahp-daemon/src/server.rs and the broker of
-- crates/usahp-daemon/src/broker.rs together: what a connection that is over leaves behind.
use usahp_core.Base.{
  ℕ, ◌+◌, ◌<◌, ◌≤◌, ◌≡◌, ◌≢◌, ◌⊎◌, inl, inr, refl, sym, ap, ◌∙◌, subst, List, [], ◌∷◌, ◌++◌, Option,
  none, some, some_inj, arith, length, u64_mod, Bool-cases,
}
use usahp_core.Str.{Str}
use usahp_core.Protocol.{ServerMessage, ClientMessage, hello, protocol_version}
use usahp_core.State.{snapshots}
use usahp_core.Config.{Mapping}
use usahp_core.Channel.{Channel}
use usahp_core.Capture.{Backend, new_enabled}
use usahp_core.Broker.Types.{Runtime, Session, BrokerCommand, start, next_u64}
use usahp_core.Broker.Sessions.{register}
use usahp_core.Broker.Loop.{command, Round, on_command, step, run}
use usahp_core.Broker.Run.{Sound, start-IsSound, step-Sound, run-start-Sound}
use usahp_core.Broker.Gone.{IsGone}
use usahp_core.Broker.Gone.Runs.{step-IsGone, run-IsGone, unregister-run_lem}
use usahp_core.Server.{Wire, finished, handle_client}
use usahp_core.Server.Commands.{handle_client_lem, closing}

-- The rounds bring the commands in their order, among whatever else.
abbrev pub IsAmong : {S : Type 0} → List (BrokerCommand S) → List (Round S) → Type 0
IsAmong [] xs = Unit {0}
IsAmong (c ∷ cs) [] = ⊥
IsAmong (c ∷ cs) (x ∷ xs) = ((x.wake ≡ command c) × IsAmong cs xs) ⊎ IsAmong (c ∷ cs) xs

-- Nothing of the client is left: no queue, and no session.
pub record Left {S B : Type 0} (k : ℕ) (r : Runtime S B) : Type 0 where
  pub no_queue : r.clients k ≡ none
  pub no_session : (s : Session) → r.session ≡ some s → s.client_id ≢ k

module _ {S B : Type 0} ⦃ch : Channel S⦄ where
  register-given :
      (r : Runtime S B) (s : S) (k : ℕ)
      → (register r s).1 ≡ some k
      → (k ≡ r.next_client) × ((register r s).0.next_client ≡ next_u64 r.next_client)
  unfolding register
  register-given r s k e =
      elim (Bool-cases
        (ch.try_send s (
          hello
            (record { protocol_version = protocol_version; switches = snapshots r.state }))).1) [
              | inl taken ↦ rw (taken, register) (sym (some_inj (rw (taken, register) at e)), refl)
              | inr full ↦ absurd (cc (rw (full, register) at e))
            ]

  module _ ⦃be : Backend B⦄ where
    leave :
        (r : Runtime S B) (x : Round S) (xs : List (Round S)) (k : ℕ)
        → Sound r
        → k < r.next_client
        → r.next_client + length xs < u64_mod
        → x.wake ≡ command (BrokerCommand.unregister k)
        → (r' : Runtime S B) × (run r (x ∷ xs) ≡ some r') × Left k r'
    leave r x xs k h given room e =
        let (r', f, absent, _, foreign) = unregister-run_lem r x.now k x.uuid xs h given room in
        (
          r',
          ap (λ w. run r (record { now = x.now; uuid = x.uuid; wake = w } ∷ xs)) e ∙ f,
          record { no_queue = absent; no_session = foreign },
        )

    -- One round, and what the rest leaves.
    onward :
        (r : Runtime S B) (x : Round S) (xs : List (Round S)) (k n : ℕ)
        → Sound r
        → IsGone 0 n r
        → n + length (x ∷ xs) < u64_mod
        → ((q : Runtime S B) (m : ℕ)
            → step r x.now x.uuid x.wake ≡ some q
            → Sound q
            → IsGone 0 m q
            → n ≤ m
            → m + length xs < u64_mod
            → (r' : Runtime S B) × (run q xs ≡ some r') × Left k r')
        → (r' : Runtime S B) × (run r (x ∷ xs) ≡ some r') × Left k r'
    unfolding run
    onward r x xs k n h gone room rest =
        let (q, e, sound) = step-Sound r x.now x.uuid x.wake h in
        let (m, more, few, still) =
          step-IsGone r q 0 n x.now x.uuid x.wake (omega (arith, room)) e gone in
        let (r', f, left) = rest q m e sound still more (omega (arith, room, few)) in
        (r', ap (λ o. elim o [ none ↦ none | some y ↦ run y xs ]) e ∙ f, left)

    run-IsAmong :
        (r : Runtime S B) (rounds : List (Round S)) (cs : List (BrokerCommand S)) (k n : ℕ)
        → Sound r
        → IsGone 0 n r
        → k < n
        → n + length rounds < u64_mod
        → IsAmong (cs ++ BrokerCommand.unregister k ∷ []) rounds
        → (r' : Runtime S B) × (run r rounds ≡ some r') × Left k r'
    run-IsAmong r [] [] k n h gone given room among = absurd among
    run-IsAmong r [] (c ∷ cs) k n h gone given room among = absurd among
    run-IsAmong r (x ∷ xs) [] k n h gone given room (inl (here, rest)) =
        leave r x xs k h (omega (arith, gone.next, given)) (omega (arith, gone.next, room)) here
    run-IsAmong r (x ∷ xs) [] k n h gone given room (inr later) =
        onward r x xs k n h gone room (λ q m e sound still more fits.
          run-IsAmong q xs [] k m sound still (omega (arith, given, more)) fits later)
    run-IsAmong r (x ∷ xs) (c ∷ cs) k n h gone given room (inl (here, rest)) =
        onward r x xs k n h gone room (λ q m e sound still more fits.
          run-IsAmong q xs cs k m sound still (omega (arith, given, more)) fits rest)
    run-IsAmong r (x ∷ xs) (c ∷ cs) k n h gone given room (inr later) =
        onward r x xs k n h gone room (λ q m e sound still more fits.
          run-IsAmong q xs (c ∷ cs) k m sound still (omega (arith, given, more)) fits later)

    start-IsGone :
        (mappings : List Mapping) (backends : List B) (now : ℕ)
        → IsGone {S = S} 0 1 (start mappings (new_enabled backends) now)
    unfolding start
    start-IsGone mappings backends now = record {
      given = omega arith;
      next = refl;
      absent = refl;
      foreign = λ s e. absurd (cc (e));
    }

    -- The state that a run from the start leads to.
    reached :
        (mappings : List Mapping) (backends : List B) (now : ℕ) (rounds : List (Round S))
        (r : Runtime S B)
        → length rounds + 1 < u64_mod
        → run (start mappings (new_enabled backends) now) rounds ≡ some r
        → Sound r × (n : ℕ) × (n ≤ 1 + length rounds) × IsGone 0 n r
    reached mappings backends now rounds r room ran =
        let first = start mappings (new_enabled backends) now in
        let (p, e, sound) = run-start-Sound mappings backends now rounds in
        let (q, f, n, most, gone) =
          run-IsGone first 0 1 rounds (start-IsSound S mappings backends now) (omega (arith, room))
            (start-IsGone mappings backends now) in
        (
          subst Sound (some_inj (sym e ∙ ran)) sound,
          n,
          most,
          subst (IsGone 0 n) (some_inj (sym f ∙ ran)) gone,
        )

    -- After the round that registers, the identifier is a used one.
    registered :
        (r q : Runtime S B) (x : Round S) (sender : S) (k n m : ℕ)
        → n + 1 < u64_mod
        → x.wake ≡ command (BrokerCommand.register sender)
        → (register r sender).1 ≡ some k
        → step r x.now x.uuid x.wake ≡ some q
        → IsGone 0 n r
        → IsGone 0 m q
        → k < m
    unfolding step on_command
    registered r q x sender k n m room here reply e gone still =
        let (mine, next) = register-given r sender k reply in
        let q_is : (register r sender).0 ≡ q =
          some_inj (ap (λ w. step r x.now x.uuid w) (sym here) ∙ e) in
        let grown : q.next_client ≡ next_u64 r.next_client =
          ap (λ (y : Runtime S B). y.next_client) (sym q_is) ∙ next in
        omega (arith, mine, grown, gone.next, still.next, room)

    module _ (encode : ServerMessage → Option Str) (decode : Str → Option ClientMessage) where
      -- A connection that is over leaves nothing behind: in any run of the loop from its start, of fewer
      -- rounds than the counter of the identifiers has room for, if a round registers the connection's
      -- queue and is answered with an identifier, and that round and later ones bring the connection's
      -- commands in their order, among whatever else, then the loop does not panic, and in the end there
      -- is no queue under that identifier, and no session of it.
      pub run-handle_client_lem :
          (mappings : List Mapping) (backends : List B) (now : ℕ) (before after : List (Round S))
          (r : Runtime S B) (x : Round S) (sender : S) (k : ℕ) (wires : List Wire)
          → length before + length after + 3 < u64_mod
          → run (start mappings (new_enabled backends) now) before ≡ some r
          → x.wake ≡ command (BrokerCommand.register sender)
          → (register r sender).1 ≡ some k
          → (handle_client encode decode sender (some k) wires).1 ≡ finished
          → IsAmong (handle_client encode decode sender (some k) wires).0 (x ∷ after)
          → (r' : Runtime S B) × (run r (x ∷ after) ≡ some r') × Left k r'
      run-handle_client_lem mappings backends now before after r x sender k wires room ran here
            reply over among =
          let (sound, n, most, gone) =
            reached mappings backends now before r (omega (arith, room)) ran in
          let (body, split, own, because) = handle_client_lem encode decode sender k wires in
          let whole = split ∙ ap (λ e. BrokerCommand.register sender ∷ body ++ closing k e) over in
          let fits : n + length (x ∷ after) < u64_mod = omega (arith, room, most) in
          onward r x after k n sound gone fits (λ q m e sound' still more fits'.
            let given =
              registered r q x sender k n m (omega (arith, fits)) here reply e gone still in
            elim (subst (λ l. IsAmong l (x ∷ after)) whole among) [
              | inl (_, rest) ↦ run-IsAmong q after body k m sound' still given fits' rest
              | inr later ↦
                  run-IsAmong q after (BrokerCommand.register sender ∷ body) k m sound' still given
                    fits' later
            ])
