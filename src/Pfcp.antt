-- ===== src/Pfcp.antt =====
-- The rules of a session and what a PFCP message says of them: internal/context/pfcp_rules.go and
-- internal/pfcp/message/build.go. The types of the pfcp library are records of the fields that the
-- program sets. A rule refers to another by its identifier; `none` is a nil pointer.
pub mod Conversion
pub mod Requests
use Prim.Native.String.{String}
use smf_nwdaf_ext.Common.{ℕ, Bool, Option, List}
use smf_nwdaf_ext.Net.{Ip}
use smf_nwdaf_ext.Rules.{MeasureMethod, MeasurementInformation, ReportingTriggers}
use smf_nwdaf_ext.UrrTable.{RuleState}

pub record FTeid : Type 0 where
  pub v4 : Bool
  pub ipv4_address : Option Ip
  pub teid : ℕ

pub record NetworkInstance : Type 0 where
  pub network_instance : String
  pub fqdn_encoding : Bool

pub record UeIpAddress : Type 0 where
  pub v4 : Bool
  pub sd : Bool
  pub ipv4_address : Option Ip

pub record SdfFilter : Type 0 where
  pub fd : Bool
  pub length_of_flow_description : ℕ
  pub flow_description : List ℕ

pub record OuterHeaderCreation : Type 0 where
  pub description : ℕ
  pub teid : ℕ
  pub ipv4_address : Option Ip

pub record Pdi : Type 0 where
  pub source_interface : ℕ
  pub local_fteid : Option FTeid
  pub network_instance : Option NetworkInstance
  pub ue_ip_address : Option UeIpAddress
  pub sdf_filter : Option SdfFilter
  pub application_id : String

pub record ApplyAction : Type 0 where
  pub drop : Bool
  pub forw : Bool
  pub buff : Bool
  pub nocp : Bool
  pub dupl : Bool

pub record ForwardingParameters : Type 0 where
  pub destination_interface : ℕ
  pub network_instance : Option NetworkInstance
  pub outer_header_creation : Option OuterHeaderCreation
  pub forwarding_policy_id : String
  pub send_end_marker : Bool

-- `qers` and `urrs` are lists of pointers, which may be nil.
pub record Pdr : Type 0 where
  pub pdr_id : ℕ
  pub precedence : ℕ
  pub pdi : Pdi
  pub outer_header_removal : Option ℕ
  pub far : ℕ
  pub qers : List (Option ℕ)
  pub urrs : List (Option ℕ)
  pub state : RuleState

pub record Far : Type 0 where
  pub far_id : ℕ
  pub apply_action : ApplyAction
  pub forwarding_parameters : Option ForwardingParameters
  pub bar : Option ℕ
  pub state : RuleState

pub record Bar : Type 0 where
  pub bar_id : ℕ
  pub state : RuleState

-- Gates and bit rates, uplink and downlink.
pub record Duplex : Type 0 where
  pub ul : ℕ
  pub dl : ℕ

pub record Qer : Type 0 where
  pub qer_id : ℕ
  pub qfi : ℕ
  pub gate_status : Option Duplex
  pub mbr : Option Duplex
  pub gbr : Option Duplex
  pub state : RuleState

-- A period in nanoseconds. A validity time is in whole seconds since 1900, and `none` is Go's zero
-- time.
pub record Urr : Type 0 where
  pub urr_id : ℕ
  pub measure_method : MeasureMethod
  pub reporting_trigger : ReportingTriggers
  pub measurement_period : ℕ
  pub quota_validity_time : Option ℕ
  pub measurement_information : MeasurementInformation
  pub volume_threshold : ℕ
  pub volume_quota : ℕ
