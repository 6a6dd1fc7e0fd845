-- ===== src/Broker/Logs.antt =====
-- The switch events that crates/usahp-daemon/src/broker.rs has put into the queue of each client:
-- how a piece of the broker's code extends them.
use usahp_core.Base.{
  ℕ, ◌≤◌, ◌<◌, ◌≡◌, inl, inr, refl, sym, ap, subst, ◌∙◌, Bool, true, false, List, [], ◌∷◌, ◌++◌,
  append-nil, append_assoc, Option, none, some, arith, nat_eqb, if◌then◌else◌, Bool-cases,
}
use usahp_core.Protocol.{
  SwitchEvent, ServerMessage, hello, switch_event, handshake_response, session_revoked,
}
use usahp_core.Channel.{Channel}
use usahp_core.Broker.Types.{Runtime, put_client}
use usahp_core.Broker.Send.{
  send_or_drop, send_or_drop_cases, offer, broadcast, broadcast_all, send_each,
}

abbrev pub events : List ServerMessage → List SwitchEvent
events [] = []
events (switch_event e ∷ ms) = e ∷ events ms
events (hello _ ∷ ms) = events ms
events (handshake_response _ ∷ ms) = events ms
events (session_revoked _ ∷ ms) = events ms

pub events-append : (xs ys : List ServerMessage) → events (xs ++ ys) ≡ events xs ++ events ys
events-append [] ys = refl
events-append (switch_event e ∷ xs) ys = ap (λ l. e ∷ l) (events-append xs ys)
events-append (hello _ ∷ xs) ys = events-append xs ys
events-append (handshake_response _ ∷ xs) ys = events-append xs ys
events-append (session_revoked _ ∷ xs) ys = events-append xs ys

-- Numbers above `n`, strictly ascending, up to `m`.
abbrev pub IsRising : ℕ → ℕ → List SwitchEvent → Type 0
IsRising n m [] = n ≤ m
IsRising n m (e ∷ es) = (n < e.sequence) × IsRising e.sequence m es

pub IsRising-le : (n m : ℕ) (es : List SwitchEvent) → IsRising n m es → n ≤ m
IsRising-le n m [] h = h
IsRising-le n m (e ∷ es) h = omega (arith, IsRising-le e.sequence m es h.1)

pub IsRising-append :
    (n m p : ℕ) (xs ys : List SwitchEvent)
    → IsRising n m xs
    → IsRising m p ys
    → IsRising n p (xs ++ ys)
IsRising-append n m p [] [] h k = omega arith
IsRising-append n m p [] (e ∷ ys) h k = (omega arith, k.1)
IsRising-append n m p (x ∷ xs) ys h k = (h.0, IsRising-append x.sequence m p xs ys h.1 k)

-- The events of the longer log are those of the shorter and then some numbered from `n` to `m`.
pub record Extends (n m : ℕ) (xs ys : List ServerMessage) : Type 0 where
  pub new : List SwitchEvent
  pub grows : events ys ≡ events xs ++ new
  pub rising : IsRising n m new

pub Extends-refl : (n m : ℕ) (xs : List ServerMessage) → n ≤ m → Extends n m xs xs
Extends-refl n m xs h = record { new = []; grows = sym (append-nil (events xs)); rising = h }

pub Extends-trans :
    {n m p : ℕ} {xs ys zs : List ServerMessage}
    → Extends n m xs ys
    → Extends m p ys zs
    → Extends n p xs zs
Extends-trans {n} {m} {p} {xs} f g = record {
  new = f.new ++ g.new;
  grows = g.grows ∙ ap (λ l. l ++ g.new) f.grows ∙ append_assoc (events xs) f.new g.new;
  rising = IsRising-append n m p f.new g.new f.rising g.rising;
}

-- A message that, if it is an event, has a number above `n`, and at most `m`.
abbrev pub InOrder : ℕ → ℕ → ServerMessage → Type 0
InOrder n m (switch_event e) = (n < e.sequence) × (e.sequence ≤ m)
InOrder n m (hello _) = n ≤ m
InOrder n m (handshake_response _) = n ≤ m
InOrder n m (session_revoked _) = n ≤ m

one_message :
    (n m : ℕ) (x : ServerMessage) (xs : List ServerMessage)
    → InOrder n m x
    → Extends n m xs (xs ++ x ∷ [])
one_message n m (switch_event e) xs h = record {
  new = e ∷ [];
  grows = events-append xs (switch_event e ∷ []);
  rising = h;
}
one_message n m (hello x) xs h = record {
  new = [];
  grows = events-append xs (hello x ∷ []);
  rising = h;
}
one_message n m (handshake_response x) xs h = record {
  new = [];
  grows = events-append xs (handshake_response x ∷ []);
  rising = h;
}
one_message n m (session_revoked x) xs h = record {
  new = [];
  grows = events-append xs (session_revoked x ∷ []);
  rising = h;
}

pub InOrder-le : (n m : ℕ) (x : ServerMessage) → InOrder n m x → n ≤ m
InOrder-le n m (switch_event e) h = omega arith
InOrder-le n m (hello x) h = h
InOrder-le n m (handshake_response x) h = h
InOrder-le n m (session_revoked x) h = h

-- A row of events with ascending numbers.
abbrev pub AreInOrder : ℕ → ℕ → List ServerMessage → Type 0
AreInOrder n m [] = n ≤ m
AreInOrder n m (x ∷ xs) = (q : ℕ) × InOrder n q x × AreInOrder q m xs

module _ {S : Type 0} ⦃ch : Channel S⦄ where
  pub try_send-Extends :
      (n m : ℕ) (s : S) (x : ServerMessage)
      → InOrder n m x
      → Extends n m (ch.sent s) (ch.sent (ch.try_send s x).0)
  try_send-Extends n m s x h = elim (Bool-cases (ch.try_send s x).1) [
    | inl ok ↦
        subst (Extends n m (ch.sent s)) (sym (ch.sent_ok s x ok)) (one_message n m x (ch.sent s) h)
    | inr no_room ↦
        subst (Extends n m (ch.sent s)) (sym (ch.sent_failed s x no_room))
          (Extends-refl n m (ch.sent s) (InOrder-le n m x h))
  ]

  pub send_each-Extends :
      (n m : ℕ) (s : S) (xs : List ServerMessage)
      → AreInOrder n m xs
      → Extends n m (ch.sent s) (ch.sent (send_each s xs).0)
  unfolding send_each
  send_each-Extends n m s [] h = Extends-refl n m (ch.sent s) h
  send_each-Extends n m s (x ∷ xs) h =
      Extends-trans (try_send-Extends n h.0 s x h.1)
        (send_each-Extends h.0 m (ch.try_send s x).0 xs h.2)

  -- Every client that is there after a piece of code was there before, and its log extends.
  pub record Logs (n m : ℕ) (f g : ℕ → Option S) : Type 0 where
    pub at :
        (k : ℕ) (s' : S)
        → g k ≡ some s'
        → (s : S) × (f k ≡ some s) × Extends n m (ch.sent s) (ch.sent s')

  pub Logs-refl : (n m : ℕ) (f : ℕ → Option S) → n ≤ m → Logs n m f f
  Logs-refl n m f h = record { at = λ k s e. (s, e, Extends-refl n m (ch.sent s) h) }

  pub Logs-trans : {n m p : ℕ} {f g h : ℕ → Option S} → Logs n m f g → Logs m p g h → Logs n p f h
  Logs-trans x y = record {
    at = λ k s'' e''.
        let (s', e', ext') = y.at k s'' e'' in
        let (s, e, ext) = x.at k s' e' in (s, e, Extends-trans ext ext');
  }

  pub Logs-drop : (n m : ℕ) (f : ℕ → Option S) (k : ℕ) → n ≤ m → Logs n m f (put_client k none f)
  Logs-drop n m f k h = record {
    at = λ j s' e. (s', ground arith, Extends-refl n m (ch.sent s') h);
  }

  pub Logs-put :
      (n m : ℕ) (f : ℕ → Option S) (k : ℕ) (s s' : S)
      → f k ≡ some s
      → Extends n m (ch.sent s) (ch.sent s')
      → n ≤ m
      → Logs n m f (put_client k (some s') f)
  Logs-put n m f k s s' e ext h = record { at = λ j x q. at_key j x (nat_eqb k j) refl q }
    where
      at_key :
          (j : ℕ) (x : S) (b : Bool)
          → nat_eqb k j ≡ b
          → (if b then some s' else f j) ≡ some x
          → (y : S) × (f j ≡ some y) × Extends n m (ch.sent y) (ch.sent x)
      at_key j x true hit q =
          let same : k ≡ j = ground arith in
          let new : s' ≡ x = cc (q) in
          (s, ap f (sym same) ∙ e, subst (λ z. Extends n m (ch.sent s) (ch.sent z)) new ext)
      at_key j x false miss q = (x, q, Extends-refl n m (ch.sent x) h)

  -- `retain` with one message: a client that refuses it is gone, the others have it.
  Logs-offer :
      (n m : ℕ) (f : ℕ → Option S) (x : ServerMessage)
      → InOrder n m x
      → Logs n m f (λ k. offer x (f k))
  Logs-offer n m f x h = record { at = λ k s' e. of_client (f k) s' e }
    where
      of_client :
          (o : Option S) (s' : S)
          → offer x o ≡ some s'
          → (s : S) × (o ≡ some s) × Extends n m (ch.sent s) (ch.sent s')
      of_client none s' e = absurd (cc (e))
      of_client (some s) s' e =
          let same : (ch.try_send s x).0 ≡ s' = ground arith in
          (
            s,
            refl,
            subst (λ z. Extends n m (ch.sent s) (ch.sent z)) same (try_send-Extends n m s x h),
          )

  module _ {B : Type 0} where
    pub Logs-send_or_drop :
        (n m : ℕ) (r : Runtime S B) (k : ℕ) (x : ServerMessage)
        → InOrder n m x
        → Logs n m r.clients (send_or_drop r k x).0.clients
    Logs-send_or_drop n m r k x h =
        send_or_drop_cases (λ o. Logs n m r.clients o.0.clients) r k x
          (λ e. Logs-drop n m r.clients k (InOrder-le n m x h))
          (λ s e f. Logs-drop n m r.clients k (InOrder-le n m x h))
          (λ s e f.
            Logs-put n m r.clients k s (ch.try_send s x).0 e (try_send-Extends n m s x h)
              (InOrder-le n m x h))

    pub Logs-broadcast :
        (n m : ℕ) (r : Runtime S B) (x : ServerMessage)
        → InOrder n m x
        → Logs n m r.clients (broadcast r x).clients
    unfolding broadcast
    Logs-broadcast n m r x h = Logs-offer n m r.clients x h

    pub Logs-broadcast_all :
        (n m : ℕ) (r : Runtime S B) (xs : List ServerMessage)
        → AreInOrder n m xs
        → Logs n m r.clients (broadcast_all r xs).clients
    unfolding broadcast_all
    Logs-broadcast_all n m r [] h = Logs-refl n m r.clients h
    Logs-broadcast_all n m r (x ∷ xs) h =
        Logs-trans (Logs-broadcast n h.0 r x h.1) (Logs-broadcast_all h.0 m (broadcast r x) xs h.2)
