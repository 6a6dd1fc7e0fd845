-- ===== src/Input/Grabbed.antt =====
-- What the keyboard callbacks forward and what they keep from the operating system.
use usahp_core.Base.{
  ◌⊎◌, ◌≡◌, inl, inr, refl, sym, ◌∙◌, ap, Bool, true, false, List, [], ◌∷◌, ◌++◌, append_assoc,
  append-nil, map, Option, none, some, Eq, Bool-cases, is_some, arith,
}
use usahp_core.Str.{Str}
use usahp_core.Collections.HashMap
use usahp_core.Collections.HashMap.{HashMap}
use usahp_core.Protocol.{Action}
use usahp_core.Broker.Types.{PhysicalEvent}
use usahp_core.Input.Grab.{
  tap_entry, grab_edge, tap_edge, grab_entry, Inbox, EventType, edge, physical, send_ids,
  grab_callback, tap_callback,
}

-- The mappings that an edge is for.
abbrev pub wanted : Action → Option (List Str) → Option (Action × List Str)
wanted a none = none
wanted a (some ids) = some (a, ids)

module _ {K : Type 0} ⦃e : Eq K⦄ where
  abbrev pub wanted_edge : HashMap K (List Str) → Option (K × Action) → Option (Action × List Str)
  wanted_edge by_key none = none
  wanted_edge by_key (some (key, action)) = wanted action (HashMap.get key by_key)

  -- The mappings that an event is for, while capture is on.
  abbrev pub forwards : Bool → HashMap K (List Str) → EventType K → Option (Action × List Str)
  forwards false by_key event = none
  forwards true by_key event = wanted_edge by_key (edge event)

module _ {I : Type 0} ⦃inbox : Inbox I⦄ where
  pub send_ids-taken :
      (i : I) (a : Action) (ids : List Str)
      → (send_ids i a ids).1 ≡ true
      → inbox.taken (send_ids i a ids).0 ≡ inbox.taken i ++ map (physical a) ids
  unfolding send_ids
  send_ids-taken i a [] h = sym (append-nil (inbox.taken i))
  send_ids-taken i a (id ∷ ids) h = elim (Bool-cases (inbox.blocking_send i (physical a id)).1) [
    | inl ok ↦
        rw (ok, send_ids)
          (send_ids-taken (inbox.blocking_send i (physical a id)).0 a ids (rw (ok, send_ids) at h)
            ∙ ap (λ l. l ++ map (physical a) ids) (inbox.taken_ok i (physical a id) ok)
            ∙ append_assoc (inbox.taken i) (physical a id ∷ []) (map (physical a) ids))
    | inr gone ↦ absurd (cc (rw (gone, send_ids) at h))
  ]

  -- Sent one after the other, some event of these is not taken, since the broker has gone.
  abbrev pub FailsIn : I → List PhysicalEvent → Type 0
  FailsIn i [] = ⊥
  FailsIn i (e ∷ es) =
      ((inbox.blocking_send i e).1 ≡ false)
      ⊎ ((inbox.blocking_send i e).1 ≡ true) × FailsIn (inbox.blocking_send i e).0 es

  pub send_ids-FailsIn :
      (i : I) (a : Action) (ids : List Str)
      → (send_ids i a ids).1 ≡ false
      → FailsIn i (map (physical a) ids)
  unfolding send_ids
  send_ids-FailsIn i a [] h = absurd (cc (h))
  send_ids-FailsIn i a (id ∷ ids) h = elim (Bool-cases (inbox.blocking_send i (physical a id)).1) [
    | inl ok ↦ inr (
      ok,
      send_ids-FailsIn (inbox.blocking_send i (physical a id)).0 a ids (rw (ok, send_ids) at h),
    )
    | inr gone ↦ inl gone
  ]

  -- What a callback did: the broker took the edge once for each mapping, in order.
  abbrev pub Forwarded : I → I → Action × List Str → Type 0
  Forwarded i i' (a, ids) = inbox.taken i' ≡ inbox.taken i ++ map (physical a) ids

  -- How the two callbacks compare: they agree, or the edge is for mappings and not every one was taken.
  abbrev pub Agree : I → Option (Action × List Str) → I × Bool → I × Bool → Type 0
  Agree i o t g =
      (t ≡ g)
      ⊎ ((x : Action × List Str) × (o ≡ some x)
          × FailsIn i (map (physical x.0) x.1)
          × (t.1 ≡ true)
          × (g.1 ≡ false))

  tap_grab_entry :
      (i : I) (a : Action) (o : Option (List Str))
      → ((tap_entry i a o).0 ≡ (grab_entry i a o).0)
        × ((tap_entry i a o).1 ≡ is_some (wanted a o))
        × Agree i (wanted a o) (tap_entry i a o) (grab_entry i a o)
  unfolding tap_entry grab_entry
  tap_grab_entry i a none = (refl, refl, inl refl)
  tap_grab_entry i a (some ids) = (
    refl,
    refl,
    elim (Bool-cases (send_ids i a ids).1) [
      | inl ok ↦ inl (ground arith)
      | inr gone ↦ inr ((a, ids), refl, send_ids-FailsIn i a ids gone, refl, gone)
    ],
  )

  module _ {K : Type 0} ⦃e : Eq K⦄ where
    -- The macOS tap tells the broker what `rdev::grab` would, and keeps a key exactly if the key is for
    -- a mapping and capture is on. The two callbacks agree on an event in all they do, unless the event
    -- is for mappings and one of their sends, in order, fails: then the tap alone keeps the key.
    pub tap_callback_lem :
        (enabled : Bool) (by_key : HashMap K (List Str)) (i : I) (event : EventType K)
        → ((tap_callback enabled by_key i event).0 ≡ (grab_callback enabled by_key i event).0)
          × ((tap_callback enabled by_key i event).1 ≡ is_some (forwards enabled by_key event))
          × Agree i
              (forwards enabled by_key event)
              (tap_callback enabled by_key i event)
              (grab_callback enabled by_key i event)
    unfolding tap_callback grab_callback tap_edge grab_edge
    tap_callback_lem false by_key i event = (refl, refl, inl refl)
    tap_callback_lem true by_key i event = on_edge (edge event)
      where
        on_edge :
            (o : Option (K × Action))
            → ((tap_edge by_key i o).0 ≡ (grab_edge by_key i o).0)
              × ((tap_edge by_key i o).1 ≡ is_some (wanted_edge by_key o))
              × Agree i (wanted_edge by_key o) (tap_edge by_key i o) (grab_edge by_key i o)
        on_edge none = (refl, refl, inl refl)
        on_edge (some (key, a)) = tap_grab_entry i a (HashMap.get key by_key)
