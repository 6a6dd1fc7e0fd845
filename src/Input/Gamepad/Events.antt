-- ===== src/Input/Gamepad/Events.antt =====
-- The events that the thread of a gamepad in crates/usahp-daemon/src/input.rs reads and sends.
use usahp_core.Base.{
  nat_eq, nat_eqb, nat_eqb, ℕ, ◌≡◌, ◌≢◌, ◌⊎◌, inl, inr, refl, sym, ◌∙◌, ap, Bool, true, false, List,
  [], ◌∷◌, ◌++◌, append_assoc, append-nil, map, none, some, Bool-cases, Option-cases, arith,
}
use usahp_core.Str.{Str}
use usahp_core.Collections.HashMap
use usahp_core.Collections.HashMap.{HashMap}
use usahp_core.Protocol.{Action}
use usahp_core.Broker.Types.{PhysicalEvent}
use usahp_core.Input.Grab.{Inbox, send_ids, physical}
use usahp_core.Input.Grabbed.{send_ids-taken, FailsIn, send_ids-FailsIn}
use usahp_core.Input.Gamepad.{action_of, pad_backend, InputEvent, wanted_event, forward_events}

-- An event that was read with capture on, of a key that has mappings, going down or up: not an
-- auto-repeat, whose value is 2.
pub record IsEdge (codes : HashMap ℕ (List Str)) (read : Bool × InputEvent) (a : Action)
    (ids : List Str) : Type 0 where
  pub on : read.0 ≡ true
  pub key : read.1.is_key ≡ true
  pub mapped : HashMap.get read.1.code codes ≡ some ids
  pub value :
      ((read.1.value ≡ 1) × (a ≡ Action.pressed)) ⊎ ((read.1.value ≡ 0) × (a ≡ Action.released))

-- What is to be sent for what was read: for each edge one event for each mapping, and else nothing.
abbrev pub Wants : HashMap ℕ (List Str) → List (Bool × InputEvent) → List PhysicalEvent → Type 0
Wants codes [] out = out ≡ []
Wants codes (e ∷ es) out =
    ((a : Action) × (ids : List Str) × (rest : List PhysicalEvent) × IsEdge codes e a ids
      × (out ≡ map (physical a) ids ++ rest)
      × Wants codes es rest)
    ⊎ (((a : Action) (ids : List Str) → IsEdge codes e a ids → ⊥) × Wants codes es out)

action_of-cases :
    (v : ℕ)
    → ((a : Action) × (action_of v ≡ some a)
        × (((v ≡ 1) × (a ≡ Action.pressed)) ⊎ ((v ≡ 0) × (a ≡ Action.released))))
      ⊎ ((action_of v ≡ none) × (v ≢ 1) × (v ≢ 0))
action_of-cases v = elim (Bool-cases (nat_eqb v 1)) [
  | inl one ↦ inl (Action.pressed, rw one refl, inl (ground arith, refl))
  | inr more ↦ elim (Bool-cases (nat_eqb v 0)) [
    | inl none_left ↦ inl (Action.released, rw (more, none_left) refl, inr (ground arith, refl))
    | inr two ↦ inr (rw (more, two) refl, ground arith, ground arith)
  ]
]

-- `wanted_event` finds exactly the edges.
wanted_event-cases :
    (codes : HashMap ℕ (List Str)) (e : Bool × InputEvent)
    → ((a : Action) × (ids : List Str) × (wanted_event codes e ≡ some (a, ids))
        × IsEdge codes e a ids)
      ⊎ ((wanted_event codes e ≡ none) × ((a : Action) (ids : List Str) → IsEdge codes e a ids → ⊥))
unfolding wanted_event
wanted_event-cases codes (false, e) = inr (refl, λ a ids h. cc (h.on))
wanted_event-cases codes (true, e) = elim (Bool-cases e.is_key) [
  | inr other ↦ inr (rw other refl, λ a ids h. cc (h.key, other))
  | inl key ↦ elim (Option-cases (HashMap.get e.code codes)) [
    | inl gone ↦ inr (rw (key, gone) refl, λ a ids h. cc (h.mapped, gone))
    | inr (ids, there) ↦ elim (action_of-cases e.value) [
      | inl (a, is, value) ↦ inl (
        a,
        ids,
        rw (key, there, is) refl,
        record { on = refl; key = key; mapped = there; value = value },
      )
      | inr (is, not_one, not_zero) ↦ inr (
        rw (key, there, is) refl,
        λ a ids h. elim (h.value) [ inl (v, p) ↦ not_one v | inr (v, p) ↦ not_zero v ],
      )
    ]
  ]
]

module _ {I : Type 0} ⦃inbox : Inbox I⦄ where
  -- A failure among the later events is one among all, if the first ones are taken.
  FailsIn-later :
      (i : I) (a : Action) (ids : List Str) (es : List PhysicalEvent)
      → (send_ids i a ids).1 ≡ true
      → FailsIn (send_ids i a ids).0 es
      → FailsIn i (map (physical a) ids ++ es)
  unfolding send_ids
  FailsIn-later i a [] es h f = f
  FailsIn-later i a (id ∷ ids) es h f =
      elim (Bool-cases (inbox.blocking_send i (physical a id)).1) [
        | inl ok ↦ inr (
          ok,
          FailsIn-later (inbox.blocking_send i (physical a id)).0 a ids es (rw (ok, send_ids) at h)
              (rw (ok, send_ids) at f),
        )
        | inr gone ↦ inl gone
      ]

  FailsIn-first : (i : I) (xs ys : List PhysicalEvent) → FailsIn i xs → FailsIn i (xs ++ ys)
  FailsIn-first i [] ys h = absurd h
  FailsIn-first i (x ∷ xs) ys (inl gone) = inl gone
  FailsIn-first i (x ∷ xs) ys (inr (ok, h)) =
      inr (ok, FailsIn-first (inbox.blocking_send i x).0 xs ys h)

  -- How the loop over the events ends: it goes on with all that is wanted taken, or a send fails.
  abbrev pub Sent : I → List PhysicalEvent → I × Bool → Type 0
  Sent i out x =
      ((x.1 ≡ true) × (inbox.taken x.0 ≡ inbox.taken i ++ out)) ⊎ ((x.1 ≡ false) × FailsIn i out)

  -- What a thread sends for the events that it reads: for each one that it reads with capture on, of a
  -- mapped key that goes down or up, one event for each mapping, in order; nothing for an auto-repeat,
  -- for another event, or for what is read with capture off. Either the broker has taken all of it and
  -- the thread goes on, or one of these sends, in order, fails, and only then the thread returns.
  pub forward_events_lem :
      (codes : HashMap ℕ (List Str)) (i : I) (es : List (Bool × InputEvent))
      → (out : List PhysicalEvent) × Wants codes es out × Sent i out (forward_events codes i es)
  unfolding forward_events
  forward_events_lem codes i [] = ([], refl, inl (refl, sym (append-nil (inbox.taken i))))
  forward_events_lem codes i (e ∷ es) = elim (wanted_event-cases codes e) [
    | inr (skipped, nothing) ↦
        let (out, wants, sent) = forward_events_lem codes i es in
        (out, inr (nothing, wants), rw (skipped, forward_events) sent)
    | inl (a, ids, wanted, is) ↦ elim (Bool-cases (send_ids i a ids).1) [
      | inl ok ↦
          let (out, wants, sent) = forward_events_lem codes (send_ids i a ids).0 es in
          (
            map (physical a) ids ++ out,
            inl (a, ids, out, is, refl, wants),
            rw (wanted, forward_events, ok) (more a ids out _ ok sent),
          )
      | inr gone ↦
          let (out, wants, sent) = forward_events_lem codes (send_ids i a ids).0 es in
          (
            map (physical a) ids ++ out,
            inl (a, ids, out, is, refl, wants),
            rw (wanted, forward_events, gone)
                (inr (
                  refl,
                  FailsIn-first i (map (physical a) ids) out (send_ids-FailsIn i a ids gone),
                )),
          )
    ]
  ]
    where
      more :
          (a : Action) (ids : List Str) (out : List PhysicalEvent) (x : I × Bool)
          → (send_ids i a ids).1 ≡ true
          → Sent (send_ids i a ids).0 out x
          → Sent i (map (physical a) ids ++ out) x
      more a ids out x ok (inl (on, taken)) = inl (
        on,
        taken
            ∙ ap (λ l. l ++ out) (send_ids-taken i a ids ok)
            ∙ append_assoc (inbox.taken i) (map (physical a) ids) out,
      )
      more a ids out x ok (inr (over, fails)) = inr (over, FailsIn-later i a ids out ok fails)
