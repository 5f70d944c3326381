-- ===== src/Session/Examples.antt =====
-- A subscription to IPv4 alone, and a request for IPv4v6.
use smf_nwdaf_ext.Common.{◌≡◌, refl, true, some, [], ◌∷◌}
use smf_nwdaf_ext.Session.{
  ipv4, ipv4_v6, ethernet, supports_ipv4v6, no_cause, ipv4_only_allowed, SmContext,
  is_allowed_pdu_session_type,
}
use smf_nwdaf_ext.Session.Choice.{Judged, is_allowed_pdu_session_type_lem}

abbrev session : SmContext
session = record {
  allowed_session_types = some (ethernet ∷ ipv4 ∷ []);
  selected = ethernet;
  est_accept_cause = no_cause;
}

halved :
    is_allowed_pdu_session_type session supports_ipv4v6 ipv4_v6
    ≡ (record session { selected = ipv4; est_accept_cause = ipv4_only_allowed }, true)
unfolding is_allowed_pdu_session_type
halved = refl

is_allowed_pdu_session_type_lem_example :
    Judged session
      (ethernet ∷ ipv4 ∷ [])
      ipv4_v6
      true
      (is_allowed_pdu_session_type session supports_ipv4v6 ipv4_v6)
is_allowed_pdu_session_type_lem_example =
    is_allowed_pdu_session_type_lem session (ethernet ∷ ipv4 ∷ []) supports_ipv4v6 ipv4_v6 refl
