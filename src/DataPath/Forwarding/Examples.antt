-- ===== src/DataPath/Forwarding/Examples.antt =====
-- A path over two UPFs.
use Prim.Native.String.{String}
use smf_nwdaf_ext.Common.{ℕ, ◌≡◌, refl, false, Option, none, some, List, [], ◌∷◌, length}
use smf_nwdaf_ext.Net.{Ip}
use smf_nwdaf_ext.UrrTable.{rule_initial}
use smf_nwdaf_ext.Pfcp.Conversion.{no_action}
use smf_nwdaf_ext.DataPath.Forwarding.{
  UpfInterfaceInfo, ipv4, PfcpType, SessionInfo, TunnelRules, PathNode, going, activate_pdrs,
  activate_dc_pdrs, get_interface, interface_ip,
}
use smf_nwdaf_ext.DataPath.Forwarding.Ends.{Ready, Joined, access_end}
use smf_nwdaf_ext.DataPath.Forwarding.Meeting.{activate_pdrs-Joined}

abbrev nothing_resolved : String → Option Ip
nothing_resolved name = none

abbrev constants : PfcpType
constants = record {
  source_interface_access = 0;
  source_interface_core = 1;
  destination_interface_access = 0;
  destination_interface_core = 1;
  outer_header_removal_gtp_u_udp_ipv4 = 0;
  outer_header_creation_gtp_u_udp_ipv4 = 256;
}

abbrev session : SessionInfo
session = record {
  dnn = "internet";
  nw_inst_fqdn_encoding = false;
  selected_pdu_session_type = ipv4;
  pdu_address = some (10 ∷ 60 ∷ 0 ∷ 1 ∷ []);
  an_ip = some (192 ∷ 168 ∷ 0 ∷ 1 ∷ []);
  an_teid = 77;
  precedence = 255;
  gbr_flow = false;
}

abbrev interface_at : Ip → UpfInterfaceInfo
interface_at ip = record {
  network_instances = "internet" ∷ [];
  ipv4_end_point_addresses = ip ∷ [];
  ipv6_end_point_addresses = [];
  endpoint_fqdn = "";
}

abbrev rules_of : ℕ → ℕ → TunnelRules
rules_of id teid = record {
  teid = teid;
  rules = some (
    record {
      pdr_id = id;
      precedence = 0;
      pdi = record {
        source_interface = 0;
        local_fteid = none;
        network_instance = none;
        ue_ip_address = none;
        sdf_filter = none;
        application_id = "";
      };
      outer_header_removal = none;
      far = id;
      qers = [];
      urrs = [];
      state = rule_initial;
    },
    record {
      far_id = id;
      apply_action = no_action;
      forwarding_parameters = none;
      bar = none;
      state = rule_initial;
    },
  );
}

abbrev node_at : ℕ → PathNode
node_at n = record {
  interfaces = record {
    n3_interfaces = interface_at (10 ∷ 3 ∷ 0 ∷ n ∷ []) ∷ [];
    n9_interfaces = interface_at (10 ∷ 9 ∷ 0 ∷ n ∷ []) ∷ [];
  };
  up = rules_of n 100;
  down = rules_of n 200;
  default_qer = some 1;
  ambr_qer = some 2;
}

abbrev two_nodes : List PathNode
two_nodes = node_at 1 ∷ node_at 2 ∷ []

two_nodes-Ready : Ready nothing_resolved constants session none two_nodes
unfolding get_interface interface_ip
two_nodes-Ready =
    ((_, refl), (_, refl), (_, refl), (_, refl), ((_, refl), (_, refl), (_, refl), refl, refl))

activate_pdrs-Joined_example :
    (((activate_pdrs nothing_resolved constants session two_nodes).1 ≡ going)
      × (length (activate_pdrs nothing_resolved constants session two_nodes).0 ≡ 2)
      × Joined
          (access_end 77 (some (192 ∷ 168 ∷ 0 ∷ 1 ∷ [])))
          none
          (activate_pdrs nothing_resolved constants session two_nodes).0)
    × (((activate_dc_pdrs nothing_resolved constants session two_nodes).1 ≡ going)
        × (length (activate_dc_pdrs nothing_resolved constants session two_nodes).0 ≡ 2)
        × Joined
            (access_end 77 (some (192 ∷ 168 ∷ 0 ∷ 1 ∷ [])))
            none
            (activate_dc_pdrs nothing_resolved constants session two_nodes).0)
activate_pdrs-Joined_example =
    activate_pdrs-Joined nothing_resolved constants session two_nodes two_nodes-Ready
