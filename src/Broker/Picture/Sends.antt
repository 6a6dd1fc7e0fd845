-- ===== src/Broker/Picture/Sends.antt =====
-- What a send of crates/usahp-daemon/src/broker.rs does to the pictures of the clients.
use usahp_core.Base.{
  ℕ, ◌≡◌, ◌≢◌, inl, inr, refl, sym, ◌∙◌, ap, Bool, true, false, List, [], ◌∷◌, ◌++◌, Option, none,
  some, arith, nat_eqb, if◌then◌else◌, Bool-cases, Option-cases,
}
use usahp_core.Protocol.{SwitchSnapshot, ServerMessage, SessionRevocationReason}
use usahp_core.Channel.{Channel}
use usahp_core.Broker.Types.{Runtime, Session, put_client}
use usahp_core.Broker.Send.{send_or_drop, send_or_drop_cases, offer, broadcast, broadcast_all}
use usahp_core.Broker.Sessions.{notify}
use usahp_core.Broker.Delivery.{farewell, notify-sent}
use usahp_core.Broker.Exclusive.{notify-other}
use usahp_core.Broker.Picture.{see, see_all, see_all-append, picture, Pictured}

module _ {S : Type 0} ⦃ch : Channel S⦄ where
  pub Pictured-drop :
      {f : ℕ → List SwitchSnapshot} {clients : ℕ → Option S} (k : ℕ)
      → Pictured f clients
      → Pictured f (put_client k none clients)
  Pictured-drop k h = record { at = λ j s e. h.at j s (ground arith) }

  pub Pictured-put :
      {f g : ℕ → List SwitchSnapshot} {clients : ℕ → Option S} (k : ℕ) (s : S)
      → picture s ≡ g k
      → ((j : ℕ) → j ≢ k → f j ≡ g j)
      → Pictured f clients
      → Pictured g (put_client k (some s) clients)
  Pictured-put {f} {g} {clients} k s here there h = record {
    at = λ j x e. at_key j x (nat_eqb k j) refl e;
  }
    where
      at_key :
          (j : ℕ) (x : S) (b : Bool)
          → nat_eqb k j ≡ b
          → (if b then some s else clients j) ≡ some x
          → picture x ≡ g j
      at_key j x true hit e =
          let same : k ≡ j = ground arith in
          let new : s ≡ x = cc (e) in ap picture (sym new) ∙ here ∙ ap g same
      at_key j x false miss e =
          let other : j ≢ k = λ q. absurd (ground arith) in h.at j x e ∙ there j other

  picture-try_send :
      (s : S) (m : ServerMessage) (xs : List SwitchSnapshot)
      → (ch.try_send s m).1 ≡ true
      → picture s ≡ xs
      → picture (ch.try_send s m).0 ≡ see xs m
  picture-try_send s m xs ok e =
      ap (λ l. see_all l []) (ch.sent_ok s m ok)
      ∙ see_all-append (ch.sent s) (m ∷ []) []
      ∙ ap (λ l. see l m) e

  Pictured-offer :
      {f : ℕ → List SwitchSnapshot} {clients : ℕ → Option S} (m : ServerMessage)
      → Pictured f clients
      → Pictured (λ k. see (f k) m) (λ k. offer m (clients k))
  Pictured-offer {f} {clients} m h = record { at = λ k s e. of_client k (clients k) refl s e }
    where
      of_client :
          (k : ℕ) (o : Option S)
          → clients k ≡ o
          → (s : S) → offer m o ≡ some s
          → picture s ≡ see (f k) m
      of_client k none q s e = absurd (cc (e))
      of_client k (some x) q s e =
          let ok : (ch.try_send x m).1 ≡ true = ground arith in
          let new : (ch.try_send x m).0 ≡ s = ground arith in
          ap picture (sym new) ∙ picture-try_send x m (f k) ok (h.at k x q)

  module _ {B : Type 0} where
    pub Pictured-broadcast :
        {f : ℕ → List SwitchSnapshot} (r : Runtime S B) (m : ServerMessage)
        → Pictured f r.clients
        → Pictured (λ k. see (f k) m) (broadcast r m).clients
    unfolding broadcast
    Pictured-broadcast r m h = Pictured-offer m h

    pub Pictured-broadcast_all :
        (f : ℕ → List SwitchSnapshot) (r : Runtime S B) (ms : List ServerMessage)
        → Pictured f r.clients
        → Pictured (λ k. see_all ms (f k)) (broadcast_all r ms).clients
    unfolding broadcast_all
    Pictured-broadcast_all f r [] h = h
    Pictured-broadcast_all f r (m ∷ ms) h =
        Pictured-broadcast_all (λ k. see (f k) m) (broadcast r m) ms (Pictured-broadcast r m h)

    pub Pictured-send_or_drop :
        {f g : ℕ → List SwitchSnapshot} (r : Runtime S B) (k : ℕ) (m : ServerMessage)
        → see (f k) m ≡ g k
        → ((j : ℕ) → j ≢ k → f j ≡ g j)
        → Pictured f r.clients
        → Pictured g (send_or_drop r k m).0.clients
    Pictured-send_or_drop {f} {g} r k m here there h =
        send_or_drop_cases (λ o. Pictured g o.0.clients) r k m (λ e. dropped) (λ s e full. dropped)
          (λ s e ok.
            Pictured-put k (ch.try_send s m).0 (picture-try_send s m (f k) ok (h.at k s e) ∙ here)
              there h)
      where
        dropped : Pictured g (put_client k none r.clients)
        dropped = record {
          at = λ j s e.
              let kept : r.clients j ≡ some s = ground arith in
              let other : j ≢ k = λ q. absurd (ground arith) in h.at j s kept ∙ there j other;
        }

    notify-gone :
        (r : Runtime S B) (s : Session) (ms : List ServerMessage) (reason : SessionRevocationReason)
        → r.clients s.client_id ≡ none
        → (notify r s ms reason).clients s.client_id ≡ none
    unfolding notify
    notify-gone r s ms reason e = rw (e, notify) e

    pub Pictured-notify :
        {f g : ℕ → List SwitchSnapshot} (r : Runtime S B) (s : Session) (ms : List ServerMessage)
        (reason : SessionRevocationReason)
        → see_all ms (f s.client_id) ≡ g s.client_id
        → ((j : ℕ) → j ≢ s.client_id → f j ≡ g j)
        → Pictured f r.clients
        → Pictured g (notify r s ms reason).clients
    unfolding notify
    Pictured-notify {f} {g} r s ms reason here there h = record { at = λ j q e. at_key j q e }
      where
        told :
            (x q : S)
            → r.clients s.client_id ≡ some x
            → (notify r s ms reason).clients s.client_id ≡ some q
            → picture q ≡ g s.client_id
        told x q e e' =
            ap (λ l. see_all l []) (notify-sent r s ms reason x q e e')
            ∙ see_all-append (ch.sent x ++ ms) (farewell s reason ∷ []) []
            ∙ see_all-append (ch.sent x) ms []
            ∙ ap (λ l. see_all ms l) (h.at s.client_id x e)
            ∙ here

        at_key : (j : ℕ) (q : S) → (notify r s ms reason).clients j ≡ some q → picture q ≡ g j
        at_key j q e = elim (Bool-cases (nat_eqb s.client_id j)) [
          | inl hit ↦ own (ground arith)
          | inr miss ↦
              let other : j ≢ s.client_id = λ p. absurd (ground arith) in
              h.at j q (sym (notify-other r s ms reason j other) ∙ e) ∙ there j other
        ]
          where
            own : s.client_id ≡ j → picture q ≡ g j
            own same =
                let e' = ap (λ i. (notify r s ms reason).clients i) same ∙ e in
                elim (Option-cases (r.clients s.client_id)) [
                  | inl gone ↦ absurd (cc (e', notify-gone r s ms reason gone))
                  | inr (x, there) ↦ told x q there e' ∙ ap g same
                ]
