-- ===== src/Broker/Order.antt =====
-- The order of the events that the clients of crates/usahp-daemon/src/broker.rs are sent.
pub mod Rounds
pub mod Admitted
pub mod Steps
pub mod Runs
use mathlib.Core.Option
use usahp_core.Base.{
  ℕ, suc, ◌+◌, ◌*◌, ◌%◌, ◌≤◌, ◌<◌, ◌≡◌, ◌≢◌, ◌⊎◌, inl, inr, refl, sym, ap, subst, ◌∙◌, Bool, true,
  false, not, ◌||◌, List, [], ◌∷◌, ◌++◌, Option, none, some, arith, nat_eqb, if◌then◌else◌,
  Bool-cases, Option-cases, u64_mod, length, is_some_and, is_some, ◌&&◌,
}
use usahp_core.Str.{Str}
use usahp_core.Protocol.{
  ServerMessage, Handshake, SessionRevocationReason, queue_overflow, session_revoked,
  protocol_version,
}
use usahp_core.Channel.{Channel}
use usahp_core.Capture.{Backend}
use usahp_core.Broker.Types.{Runtime, Session, put_client}
use usahp_core.Broker.Send.{
  send_or_drop, send_response, broadcast, broadcast_all, send_each, release_messages,
}
use usahp_core.Broker.Sessions.{notify, close_session, revoke, revoke_taken, confirm}
use usahp_core.Broker.Logs.{
  InOrder-le, AreInOrder, InOrder, Extends, Extends-refl, Extends-trans, Logs, Logs-refl,
  Logs-trans, Logs-drop, Logs-put, Logs-send_or_drop, Logs-broadcast, Logs-broadcast_all,
  send_each-Extends, try_send-Extends,
}
use usahp_core.Broker.Numbers.{width, Releases, release_messages-Releases}

AreInOrder-le : (n m : ℕ) (xs : List ServerMessage) → AreInOrder n m xs → n ≤ m
AreInOrder-le n m [] h = h
AreInOrder-le n m (x ∷ xs) h = omega (arith, InOrder-le n h.0 x h.1, AreInOrder-le h.0 m xs h.2)

module _ {S : Type 0} ⦃ch : Channel S⦄ where
  Logs-put_if :
      (n m : ℕ) (f : ℕ → Option S) (k : ℕ) (s s' : S) (b : Bool)
      → f k ≡ some s
      → Extends n m (ch.sent s) (ch.sent s')
      → n ≤ m
      → Logs n m f (put_client k (if b then none else some s') f)
  Logs-put_if n m f k s s' true e ext h = Logs-drop n m f k h
  Logs-put_if n m f k s s' false e ext h = Logs-put n m f k s s' e ext h

module _ {S B : Type 0} ⦃ch : Channel S⦄ where
  -- A piece of code extends every client's log, with at most `b` new numbers.
  pub record Advances (b : ℕ) (r r' : Runtime S B) : Type 0 where
    pub logs : Logs r.sequence r'.sequence r.clients r'.clients
    pub most : r'.sequence ≤ r.sequence + b
    pub same_width : width r' ≡ width r
    pub same_next : r'.next_client ≡ r.next_client

  pub Advances-refl : (b : ℕ) (r : Runtime S B) → Advances b r r
  Advances-refl b r = record {
    logs = Logs-refl r.sequence r.sequence r.clients (omega arith);
    most = omega arith;
    same_width = refl;
    same_next = refl;
  }

  -- The capture control, the session, the tracker and the pause do not matter.
  pub Advances-from :
      (b : ℕ) (q r : Runtime S B) {r' : Runtime S B}
      → q.clients ≡ r.clients
      → q.sequence ≡ r.sequence
      → width q ≡ width r
      → q.next_client ≡ r.next_client
      → Advances b q r'
      → Advances b r r'
  Advances-from b q r {r'} same number wide next x = record {
    logs =
        subst (λ f. Logs r.sequence r'.sequence f r'.clients) same
          (subst (λ n. Logs n r'.sequence q.clients r'.clients) number x.logs);
    most = omega (arith, x.most, number);
    same_width = x.same_width ∙ wide;
    same_next = x.same_next ∙ next;
  }

  pub Advances-trans :
      (a b : ℕ) {q r s : Runtime S B} → Advances a q r → Advances b r s → Advances (a + b) q s
  Advances-trans a b x y = record {
    logs = Logs-trans x.logs y.logs;
    most = omega (arith, x.most, y.most);
    same_width = y.same_width ∙ x.same_width;
    same_next = y.same_next ∙ x.same_next;
  }

  pub Advances-weaken : (a b : ℕ) {q r : Runtime S B} → a ≤ b → Advances a q r → Advances b q r
  Advances-weaken a b h x = record {
    logs = x.logs;
    most = omega (arith, x.most);
    same_width = x.same_width;
    same_next = x.same_next;
  }

  Logs-notify :
      (n : ℕ) (r : Runtime S B) (s : Session) (ms : List ServerMessage)
      (reason : SessionRevocationReason)
      → AreInOrder n r.sequence ms
      → n ≤ r.sequence
      → Logs n r.sequence r.clients (notify r s ms reason).clients
  unfolding notify
  Logs-notify n r s ms reason h le = elim (Option-cases (r.clients s.client_id)) [
    | inl e ↦ rw (e, notify) (Logs-refl n r.sequence r.clients le)
    | inr (x, e) ↦
        rw (e, notify)
          (Logs-put_if n r.sequence r.clients s.client_id x _ _ e
            (Extends-trans (send_each-Extends n r.sequence x ms h) (
              try_send-Extends r.sequence r.sequence (send_each x ms).0
                (session_revoked (record {
                  protocol_version = protocol_version;
                  session_id = s.session_id;
                  reason = reason;
                }))
                (omega arith)))
            le)
  ]

  notify-same :
      (r : Runtime S B) (s : Session) (ms : List ServerMessage) (reason : SessionRevocationReason)
      → ((notify r s ms reason).sequence ≡ r.sequence)
        × (width (notify r s ms reason) ≡ width r)
        × ((notify r s ms reason).next_client ≡ r.next_client)
  unfolding notify
  notify-same r s ms reason = elim (Option-cases (r.clients s.client_id)) [
    | inl e ↦ rw (e, notify) (refl, refl, refl)
    | inr (x, e) ↦ rw (e, notify) (refl, refl, refl)
  ]

  notify-Advances :
      (b : ℕ) (r q : Runtime S B) (s : Session) (ms : List ServerMessage)
      (reason : SessionRevocationReason)
      → q.clients ≡ r.clients
      → q.sequence ≤ r.sequence + b
      → width q ≡ width r
      → q.next_client ≡ r.next_client
      → AreInOrder r.sequence q.sequence ms
      → Advances b r (notify q s ms reason)
  notify-Advances b r q s ms reason same most wide next h =
      let (number, w, x) = notify-same q s ms reason in
      record {
        logs =
            subst
              (λ f.
                Logs r.sequence (notify q s ms reason).sequence f (notify q s ms reason).clients)
              same
              (subst (λ p. Logs r.sequence p q.clients (notify q s ms reason).clients) (sym number)
                (Logs-notify r.sequence q s ms reason h
                  (AreInOrder-le r.sequence q.sequence ms h)));
        most = omega (arith, number, most);
        same_width = w ∙ wide;
        same_next = x ∙ next;
      }

  module _ ⦃be : Backend B⦄ where
    revoke_taken-Advances :
        (r : Runtime S B) (now : ℕ) (reason : SessionRevocationReason) (o : Option Session)
        → r.sequence + width r < u64_mod
        → Advances (width r) r (revoke_taken r now reason o)
    unfolding revoke_taken close_session
    revoke_taken-Advances r now reason none h = Advances-refl (width r) r
    revoke_taken-Advances r now reason (some s) h =
        let made = release_messages-Releases (close_session r) now h in
        notify-Advances (width r) r (release_messages (close_session r) now).0 s
          (release_messages (close_session r) now).1 reason made.clients made.most made.same_width
          made.same_next made.in_order

    pub revoke-Advances :
        (r : Runtime S B) (now : ℕ) (reason : SessionRevocationReason)
        → r.sequence + width r < u64_mod
        → Advances (width r) r (revoke r now reason)
    unfolding revoke
    revoke-Advances r now reason h = revoke_taken-Advances r now reason r.session h

    pub confirm-Advances :
        (b : ℕ) (q : Runtime S B) (r : Runtime S B × Bool) (now : ℕ)
        → Advances b q r.0
        → q.sequence + b + width q < u64_mod
        → Advances (b + width q) q (confirm r now)
    unfolding confirm
    confirm-Advances b q (r, true) now x h = Advances-weaken b (b + width q) (omega arith) x
    confirm-Advances b q (r, false) now x h = Advances-trans b (width q) x (
        subst (λ w. Advances w r (revoke r now queue_overflow)) x.same_width
          (revoke-Advances r now queue_overflow (omega (arith, x.most, x.same_width))))
