-- ===== src/Broker/Refusal.antt =====
-- A refused handshake of crates/usahp-daemon/src/broker.rs.
use usahp_core.Base.{
  ℕ, ◌≡◌, ◌≢◌, refl, sym, ◌∙◌, ap, subst, [], ◌∷◌, ◌++◌, ◌⊎◌, inl, inr, true, false, none, some,
  some_inj, arith,
}
use usahp_core.Str.{Str}
use usahp_core.Protocol.{
  Handshake, HandshakeRejectionReason, ServerMessage, handshake_response, rejected,
  protocol_version,
}
use usahp_core.Channel.{Channel}
use usahp_core.Capture.{Backend}
use usahp_core.Broker.Types.{Runtime, put_client}
use usahp_core.Broker.Send.{send_response, send_or_drop, send_or_drop_cases}
use usahp_core.Broker.Sessions.{rejection, handshake, answer}
use usahp_core.Broker.Core.{core}

-- The answer to a refused handshake.
abbrev pub refusal : HandshakeRejectionReason → ServerMessage
refusal reason =
    handshake_response (rejected (record { protocol_version = protocol_version; reason = reason }))

-- What an answer to a client changes: its own queue, or that it is there.
pub record Answered {S B : Type 0} ⦃ch : Channel S⦄ (r r' : Runtime S B) (k : ℕ) (m : ServerMessage)
    : Type 0 where
  pub same_core : core r' ≡ core r
  pub same_sequence : r'.sequence ≡ r.sequence
  pub others : (j : ℕ) → j ≢ k → r'.clients j ≡ r.clients j
  -- The queue takes the answer, and nothing else; or it refuses it, and the client is dropped.
  pub told :
      (q : S)
      → r.clients k ≡ some q
      → ((q' : S) × (r'.clients k ≡ some q') × (ch.sent q' ≡ ch.sent q ++ m ∷ []))
        ⊎ (((ch.try_send q m).1 ≡ false) × (r'.clients k ≡ none))
  pub unknown : r.clients k ≡ none → r'.clients k ≡ none

module _ {S B : Type 0} ⦃ch : Channel S⦄ where
  dropped-Answered :
      (r : Runtime S B) (k : ℕ) (m : ServerMessage)
      → ((q : S) → r.clients k ≡ some q → (ch.try_send q m).1 ≡ false)
      → Answered r (record r { clients = put_client k none r.clients }) k m
  dropped-Answered r k m full = record {
    same_core = refl;
    same_sequence = refl;
    others = λ j h. ground arith;
    told = λ q e. inr (full q e, ground arith);
    unknown = λ e. ground arith;
  }

  taken-Answered :
      (r : Runtime S B) (k : ℕ) (m : ServerMessage) (s : S)
      → r.clients k ≡ some s
      → (ch.try_send s m).1 ≡ true
      → Answered r (record r { clients = put_client k (some (ch.try_send s m).0) r.clients }) k m
  taken-Answered r k m s e ok = record {
    same_core = refl;
    same_sequence = refl;
    others = λ j h. ground arith;
    told = λ q e'.
        let old : s ≡ q = some_inj (sym e ∙ e') in
        inl (
          (ch.try_send s m).0,
          ground arith,
          ch.sent_ok s m ok ∙ ap (λ x. ch.sent x ++ m ∷ []) old,
        );
    unknown = λ e'. absurd (cc (e, e'));
  }

  send_or_drop-Answered :
      (r : Runtime S B) (k : ℕ) (m : ServerMessage) → Answered r (send_or_drop r k m).0 k m
  send_or_drop-Answered r k m =
      send_or_drop_cases (λ o. Answered r o.0 k m) r k m
        (λ gone. dropped-Answered r k m (λ q e. absurd (cc (gone, e))))
        (λ s e full.
          dropped-Answered r k m
            (λ q e'. subst (λ x. (ch.try_send x m).1 ≡ false) (some_inj (sym e ∙ e')) full))
        (λ s e ok. taken-Answered r k m s e ok)

  module _ ⦃be : Backend B⦄ where
    -- A handshake that the tests refuse changes nothing of the session, the capture, the switches, the
    -- escape tracker or the numbers, and touches no other client. If the asking client is there, its
    -- queue takes the answer with the reason and nothing else, or refuses it, and then the client is
    -- dropped; if it is not there, it stays away.
    pub handshake-Answered :
        (r : Runtime S B) (now : ℕ) (uuid : Str) (k : ℕ) (h : Handshake)
        (reason : HandshakeRejectionReason)
        → rejection r h ≡ some reason
        → Answered r (handshake r now uuid k h) k (refusal reason)
    unfolding handshake answer send_response
    handshake-Answered r now uuid k h reason e =
        subst (λ o. Answered r (answer r o now uuid k h) k (refusal reason)) (sym e)
          (send_or_drop-Answered r k (refusal reason))
