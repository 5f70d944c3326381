-- ===== src/DataPath/Forwarding.antt =====
-- What the PDRs and FARs of a path's tunnels say, behind their activation: the second half of the
-- loops of `ActivateTunnelAndPDR` and `ActivateDcTunnelAndPDR` of internal/context/datapath.go, with
-- the interfaces of internal/context/upf.go. The nodes of the path are a list, and a node is handed
-- the one before and the one behind it. The QERs that the first half of the loop finds or adds are
-- handed over. `net.ResolveIPAddr` and the constants of the pfcp library are parameters.
pub mod Ends
pub mod Rounds
pub mod Meeting
mod Examples
use Prim.Native.String.{String}
use text.Mathlib.Text.{◌==◌ as str_eq}
use smf_nwdaf_ext.Common.{
  ℕ, Bool, true, false, Option, none, some, List, [], ◌∷◌, ◌++◌, ◌==◌, length, if◌then◌else◌,
}
use smf_nwdaf_ext.Net.{Ip, to_4}
use smf_nwdaf_ext.Pfcp.{
  FTeid, NetworkInstance, UeIpAddress, OuterHeaderCreation, Pdi, ApplyAction, ForwardingParameters,
  Pdr, Far,
}

pub record UpfInterfaceInfo : Type 0 where
  pub network_instances : List String
  pub ipv4_end_point_addresses : List Ip
  pub ipv6_end_point_addresses : List Ip
  pub endpoint_fqdn : String

pub record Interfaces : Type 0 where
  pub n3_interfaces : List UpfInterfaceInfo
  pub n9_interfaces : List UpfInterfaceInfo

pub data UpInterfaceType : Type 0 where
  n3 n9 : UpInterfaceType

abbrev pub names : List String → String → Bool
names [] dnn = false
names (instance_name ∷ rest) dnn = if str_eq instance_name dnn then true else names rest dnn

abbrev pub interface_in : List UpfInterfaceInfo → String → Option UpfInterfaceInfo
interface_in [] dnn = none
interface_in (iface ∷ ifaces) dnn =
    if names iface.network_instances dnn then some iface else interface_in ifaces dnn

pub get_interface : Interfaces → UpInterfaceType → String → Option UpfInterfaceInfo
get_interface upf n3 dnn = interface_in upf.n3_interfaces dnn
get_interface upf n9 dnn = interface_in upf.n9_interfaces dnn

-- The selected type of the session; `other` is any other number.
pub data SelectedType : Type 0 where
  ipv4 ipv6 ipv4_ipv6 other_type : SelectedType

-- `none` is a nil address.
pub data IpResult : Type 0 where
  found : Option Ip → IpResult
  not_matched : IpResult

-- `IP.To16`
abbrev pub to_16 : Ip → Option Ip
to_16 (a ∷ b ∷ c ∷ d ∷ []) =
    some (0 ∷ 0 ∷ 0 ∷ 0 ∷ 0 ∷ 0 ∷ 0 ∷ 0 ∷ 0 ∷ 0 ∷ 255 ∷ 255 ∷ a ∷ b ∷ c ∷ d ∷ [])
to_16 ip = if length ip == 16 then some ip else none

abbrev pub or_sixteen : Ip → Option Ip → Option Ip
or_sixteen ip none = to_16 ip
or_sixteen ip (some v4) = some v4

abbrev pub resolved : SelectedType → Option Ip → IpResult
resolved selected none = not_matched
resolved ipv4 (some ip) = found (to_4 ip)
resolved ipv6 (some ip) = found (to_16 ip)
resolved ipv4_ipv6 (some ip) = found (or_sixteen ip (to_4 ip))
resolved other_type (some ip) = found (or_sixteen ip (to_4 ip))

abbrev pub by_name : (String → Option Ip) → SelectedType → UpfInterfaceInfo → IpResult
by_name resolve selected i =
    if str_eq i.endpoint_fqdn "" then not_matched else resolved selected (resolve i.endpoint_fqdn)

abbrev pub first_or : List Ip → IpResult → IpResult
first_or [] other = other
first_or (ip ∷ ips) other = found (some ip)

-- `UPFInterfaceInfo.IP`
pub interface_ip : (String → Option Ip) → SelectedType → UpfInterfaceInfo → IpResult
interface_ip resolve ipv4 i = first_or i.ipv4_end_point_addresses (by_name resolve ipv4 i)
interface_ip resolve ipv6 i = first_or i.ipv6_end_point_addresses (by_name resolve ipv6 i)
interface_ip resolve ipv4_ipv6 i =
    first_or i.ipv4_end_point_addresses
      (first_or i.ipv6_end_point_addresses (by_name resolve ipv4_ipv6 i))
interface_ip resolve other_type i = by_name resolve other_type i

-- The constants of pfcpType.
pub record PfcpType : Type 0 where
  pub source_interface_access : ℕ
  pub source_interface_core : ℕ
  pub destination_interface_access : ℕ
  pub destination_interface_core : ℕ
  pub outer_header_removal_gtp_u_udp_ipv4 : ℕ
  pub outer_header_creation_gtp_u_udp_ipv4 : ℕ

-- What the loop reads of the session. `an_ip` is nil or the address of the access node's tunnel, and
-- `an_ip4` its `To4`.
pub record SessionInfo : Type 0 where
  pub dnn : String
  pub nw_inst_fqdn_encoding : Bool
  pub selected_pdu_session_type : SelectedType
  pub pdu_address : Option Ip
  pub an_ip : Option Ip
  pub an_teid : ℕ
  pub precedence : ℕ
  pub gbr_flow : Bool

-- A tunnel of a node: its identifier, and its PDR with the FAR, or nil.
pub record TunnelRules : Type 0 where
  pub teid : ℕ
  pub rules : Option (Pdr × Far)

pub record PathNode : Type 0 where
  pub interfaces : Interfaces
  pub up : TunnelRules
  pub down : TunnelRules
  pub default_qer : Option ℕ
  pub ambr_qer : Option ℕ

-- The loop goes on, has returned, or has panicked at a nil pointer.
pub data Status : Type 0 where
  going returned crashed : Status

abbrev pub Rules : Type 0
Rules = Pdr × Far

-- What the PDI of a downlink PDR before the anchor has of the session.
pub record InnerPdi : Type 0 where
  pub network_instance : Option NetworkInstance
  pub ue_ip_address : Option UeIpAddress

abbrev pub append_some : List (Option ℕ) → Option ℕ → List (Option ℕ)
append_some ids none = ids
append_some ids (some id) = ids ++ (some id ∷ [])

module _ (resolve : String → Option Ip) (T : PfcpType) (S : SessionInfo) where
  -- The address of an interface: no interface, an error, or the address.
  pub data Address : Type 0 where
    no_interface no_address : Address
    address : Option Ip → Address

  abbrev pub address_of : IpResult → Address
  address_of not_matched = no_address
  address_of (found ip) = address ip

  abbrev pub address_on : Option UpfInterfaceInfo → Address
  address_on none = no_interface
  address_on (some i) = address_of (interface_ip resolve S.selected_pdu_session_type i)

  abbrev pub address_at : Interfaces → UpInterfaceType → Address
  address_at upf t = address_on (get_interface upf t S.dnn)

  abbrev pub dnn_instance : NetworkInstance
  dnn_instance = record { network_instance = S.dnn; fqdn_encoding = S.nw_inst_fqdn_encoding }

  abbrev pub ue_address : Bool → UeIpAddress
  ue_address sd = record { v4 = true; sd = sd; ipv4_address = S.pdu_address }

  abbrev pub local_fteid_at : ℕ → Option Ip → FTeid
  local_fteid_at teid ip = record { v4 = true; ipv4_address = ip; teid = teid }

  abbrev pub header_to : ℕ → Option Ip → OuterHeaderCreation
  header_to teid ip = record {
    description = T.outer_header_creation_gtp_u_udp_ipv4;
    teid = teid;
    ipv4_address = ip;
  }

  abbrev pub forward_only : ApplyAction
  forward_only = record { drop = false; forw = true; buff = false; nocp = false; dupl = false }

  -- The QERs and the precedence, which come before the first error.
  abbrev pub with_qers : PathNode → Pdr → Pdr
  with_qers node pdr =
      let qers = append_some pdr.qers node.default_qer in
      record pdr {
        qers = if S.gbr_flow then qers else append_some qers node.ambr_qer;
        precedence = S.precedence;
      }

  abbrev pub up_pdr : ℕ → Option Ip → Pdr → Pdr
  up_pdr teid ip pdr = record pdr {
    pdi = record {
      source_interface = T.source_interface_access;
      local_fteid = some (local_fteid_at teid ip);
      network_instance = some dnn_instance;
      ue_ip_address = some (ue_address false);
      sdf_filter = none;
      application_id = "";
    };
    outer_header_removal = some T.outer_header_removal_gtp_u_udp_ipv4;
  }

  abbrev pub up_far : Option OuterHeaderCreation → Far → Far
  up_far header far = record far {
    apply_action = forward_only;
    forwarding_parameters = some (record {
      destination_interface = T.destination_interface_core;
      network_instance = some dnn_instance;
      outer_header_creation = header;
      forwarding_policy_id = "";
      send_end_marker = false;
    });
  }

  -- The tunnel to the node behind. Its interface is not compared with nil.
  abbrev pub up_onward : ℕ → Address → Rules → Rules × Status
  up_onward teid no_interface (pdr, far) = ((pdr, up_far none far), crashed)
  up_onward teid no_address (pdr, far) = ((pdr, up_far none far), returned)
  up_onward teid (address ip) (pdr, far) = ((pdr, up_far (some (header_to teid ip)) far), going)

  abbrev pub up_next : Option PathNode → Rules → Rules × Status
  up_next none (pdr, far) = ((pdr, up_far none far), going)
  up_next (some next) r = up_onward next.up.teid (address_at next.interfaces n9) r

  abbrev pub up_at : Option PathNode → ℕ → Address → Rules → Rules × Status
  up_at next teid no_interface r = (r, returned)
  up_at next teid no_address r = (r, returned)
  up_at next teid (address ip) (pdr, far) = up_next next (up_pdr teid ip pdr, far)

  abbrev pub up_interface : Option PathNode → UpInterfaceType
  up_interface none = n3
  up_interface (some prev) = n9

  abbrev pub set_up :
      PathNode → Option PathNode → Option PathNode → Option Rules → Option Rules × Status
  set_up node prev next none = (none, crashed)
  set_up node prev next (some (pdr, far)) =
      let r =
        up_at next node.up.teid (address_at node.interfaces (up_interface prev))
          (with_qers node pdr, far) in
      (some r.0, r.1)

  pub set_up_link : PathNode → Option PathNode → Option PathNode → PathNode × Status
  set_up_link node prev next =
      let r = set_up node prev next node.up.rules in
      (record node { up = record (node.up) { rules = r.0 } }, r.1)

  abbrev pub core_pdi : Option FTeid → InnerPdi → Pdi
  core_pdi fteid inner = record {
    source_interface = T.source_interface_core;
    local_fteid = fteid;
    network_instance = inner.network_instance;
    ue_ip_address = inner.ue_ip_address;
    sdf_filter = none;
    application_id = "";
  }

  abbrev pub with_pdi : Pdr → Pdi → Pdr
  with_pdi pdr pdi = record pdr { pdi = pdi }

  abbrev pub without_header : Pdr → Pdr
  without_header pdr = record pdr {
    outer_header_removal = some T.outer_header_removal_gtp_u_udp_ipv4;
  }

  abbrev pub access_parameters :
      Option NetworkInstance → Option OuterHeaderCreation → ForwardingParameters
  access_parameters name header = record {
    destination_interface = T.destination_interface_access;
    network_instance = name;
    outer_header_creation = header;
    forwarding_policy_id = "";
    send_end_marker = false;
  }

  -- The tunnel to the node before.
  abbrev pub down_onward : ℕ → Address → Rules → Rules × Status
  down_onward teid no_interface (pdr, far) =
      ((pdr, record far { apply_action = forward_only }), crashed)
  down_onward teid no_address (pdr, far) =
      ((pdr, record far { apply_action = forward_only }), returned)
  down_onward teid (address ip) (pdr, far) = (
    (
      pdr,
      record far {
        apply_action = forward_only;
        forwarding_parameters = some (access_parameters none (some (header_to teid ip)));
      },
    ),
    going,
  )

  -- The tunnel to the access node, where its address is known.
  abbrev pub to_access : Option Ip → ForwardingParameters
  to_access none = access_parameters none none
  to_access (some ip) = access_parameters (some dnn_instance) (some (header_to S.an_teid (to_4 ip)))

  abbrev pub down_next : Option PathNode → Rules → Rules × Status
  down_next none (pdr, far) =
      ((pdr, record far { forwarding_parameters = some (to_access S.an_ip) }), going)
  down_next (some prev) r = down_onward prev.down.teid (address_at prev.interfaces n9) r

  -- The session's data network and the UE's address, which the anchor's PDI has.
  abbrev pub full_pdi : InnerPdi
  full_pdi = record { network_instance = some dnn_instance; ue_ip_address = some (ue_address true) }

  abbrev pub empty_pdi : InnerPdi
  empty_pdi = record { network_instance = none; ue_ip_address = none }

  abbrev pub down_inner : InnerPdi → Option PathNode → ℕ → Address → Rules → Rules × Status
  down_inner inner prev teid no_interface r = (r, crashed)
  down_inner inner prev teid no_address r = (r, returned)
  down_inner inner prev teid (address ip) (pdr, far) =
      down_next prev (with_pdi pdr (core_pdi (some (local_fteid_at teid ip)) inner), far)

  abbrev pub down_at :
      InnerPdi → PathNode → Option PathNode → Option PathNode → Rules → Rules × Status
  down_at inner node prev none (pdr, far) =
      down_next prev (with_pdi pdr (core_pdi none full_pdi), far)
  down_at inner node prev (some next) (pdr, far) =
      down_inner inner prev node.down.teid (address_at node.interfaces n9) (without_header pdr, far)

  abbrev pub set_down :
      InnerPdi → PathNode → Option PathNode → Option PathNode → Option Rules → Option Rules × Status
  set_down inner node prev next none = (none, crashed)
  set_down inner node prev next (some (pdr, far)) =
      let r = down_at inner node prev next (with_qers node pdr, far) in (some r.0, r.1)

  pub set_down_link : InnerPdi → PathNode → Option PathNode → Option PathNode → PathNode × Status
  set_down_link inner node prev next =
      let r = set_down inner node prev next node.down.rules in
      (record node { down = record (node.down) { rules = r.0 } }, r.1)

  abbrev pub head_of : List PathNode → Option PathNode
  head_of [] = none
  head_of (node ∷ nodes) = some node

  abbrev pub next_step :
      PathNode → List PathNode → Status → List PathNode × Status → List PathNode × Status
  next_step node nodes going (more, s) = (node ∷ more, s)
  next_step node nodes returned more = (node ∷ nodes, returned)
  next_step node nodes crashed more = (node ∷ nodes, crashed)

  abbrev pub down_step :
      InnerPdi → Option PathNode → Option PathNode → PathNode × Status → PathNode × Status
  unfolding set_down_link
  down_step inner prev next (node, going) = set_down_link inner node prev next
  down_step inner prev next (node, returned) = (node, returned)
  down_step inner prev next (node, crashed) = (node, crashed)

  -- One round of the loop, at a node with its neighbours.
  pub set_up_node : InnerPdi → PathNode → Option PathNode → Option PathNode → PathNode × Status
  unfolding set_up_link down_step
  set_up_node inner node prev next = down_step inner prev next (set_up_link node prev next)

  pub set_up_path : InnerPdi → Option PathNode → List PathNode → List PathNode × Status
  unfolding set_up_node
  set_up_path inner prev [] = ([], going)
  set_up_path inner prev (node ∷ nodes) =
      let r = set_up_node inner node prev (head_of nodes) in
      let more = set_up_path inner (some r.0) nodes in next_step r.0 nodes r.1 more

  -- The loops of `ActivateTunnelAndPDR` and `ActivateDcTunnelAndPDR`, which differ in the PDI of the
  -- downlink at a node before the anchor: the second one gives it neither the data network nor the
  -- UE's address.
  pub activate_pdrs : List PathNode → List PathNode × Status
  unfolding set_up_path
  activate_pdrs nodes = set_up_path full_pdi none nodes

  pub activate_dc_pdrs : List PathNode → List PathNode × Status
  unfolding set_up_path
  activate_dc_pdrs nodes = set_up_path empty_pdi none nodes
