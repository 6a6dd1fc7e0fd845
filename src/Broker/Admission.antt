-- ===== src/Broker/Admission.antt =====
-- Who gets a session from crates/usahp-daemon/src/broker.rs.
use usahp_core.Base.{◌≤◌, ◌≡◌, ◌↔◌, refl, true, none, arith, eq_iff, length, All}
use usahp_core.Str.{str_eq}
use usahp_core.Protocol.{
  protocol_version, Handshake, exclusive_foreground, unsupported, RequestedMode,
}
use usahp_core.Protocol.AppId.{valid_app_id_iff, IsNameChar}
use usahp_core.Broker.Types.{Runtime}
use usahp_core.Broker.Sessions.{rejection, is_exclusive}

-- What a handshake must say to be accepted.
pub record IsAdmissible (h : Handshake) : Type 0 where
  pub version : h.protocol_version ≡ protocol_version
  pub named : (1 ≤ length h.app_id) × (length h.app_id ≤ 128) × All IsNameChar h.app_id
  pub mode : h.requested_mode ≡ exclusive_foreground

mode_exclusive : (m : RequestedMode) → is_exclusive m ≡ true → m ≡ exclusive_foreground
mode_exclusive exclusive_foreground e = refl
mode_exclusive (unsupported x) e = absurd (cc (e))

-- A handshake passes the tests exactly if it has the protocol's version, a well-formed name and the
-- one supported mode, and there is no session.
pub rejection_iff :
    {S B : Type 0} (r : Runtime S B) (h : Handshake)
    → (rejection r h ≡ none) ↔ (IsAdmissible h × (r.session ≡ none))
unfolding rejection
rejection_iff r h = (sound, complete)
  where
    sound : rejection r h ≡ none → IsAdmissible h × (r.session ≡ none)
    sound e = (
      record {
        version = ground (arith, eq_iff h.protocol_version protocol_version);
        named = (valid_app_id_iff h.app_id).0 (ground arith);
        mode = mode_exclusive h.requested_mode (ground arith);
      },
      ground arith,
    )

    complete : IsAdmissible h × (r.session ≡ none) → rejection r h ≡ none
    complete (a, idle) = ground (
      arith,
      a.version,
      a.mode,
      eq_iff h.protocol_version protocol_version,
      (valid_app_id_iff h.app_id).1 a.named,
    )
