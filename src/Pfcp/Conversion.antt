-- ===== src/Pfcp/Conversion.antt =====
-- Each rule as the information element that creates or updates it. `CreatePDR` and `UpdatePDR` have
-- the same fields, and so have `CreateURR` and `UpdateURR`.
pub mod Identifiers
use Prim.Native.String.{String}
use text.Mathlib.Text.{◌==◌ as str_eq}
use smf_nwdaf_ext.Common.{
  ℕ, suc, ◌-◌, ◌*◌, ◌^◌, ◌/◌, ◌%◌, Bool, true, false, Option, none, some, List, [], ◌∷◌, ◌==◌, ltb,
  if◌then◌else◌,
}
use smf_nwdaf_ext.Net.{Ip}
use smf_nwdaf_ext.Rules.{
  MeasureMethod, method_vol, method_time, MeasurementInformation, ReportingTriggers,
}
use smf_nwdaf_ext.UrrTable.{RuleState, ℤ, pos, negsuc}
use smf_nwdaf_ext.Pfcp.{
  FTeid, NetworkInstance, UeIpAddress, SdfFilter, OuterHeaderCreation, Pdi, ApplyAction,
  ForwardingParameters, Pdr, Far, Bar, Duplex, Qer, Urr,
}

pub record PdiIe : Type 0 where
  pub source_interface : ℕ
  pub local_fteid : Option FTeid
  pub network_instance : Option NetworkInstance
  pub ue_ip_address : Option UeIpAddress
  pub application_id : Option String
  pub sdf_filter : Option SdfFilter

pub record PdrIe : Type 0 where
  pub pdr_id : ℕ
  pub precedence : ℕ
  pub pdi : PdiIe
  pub outer_header_removal : Option ℕ
  pub far_id : ℕ
  pub qer_ids : List ℕ
  pub urr_ids : List ℕ

-- An empty text is left out.
abbrev pub given_text : String → Option String
given_text s = if str_eq s "" then none else some s

-- The loops that leave nil pointers out.
abbrev pub not_nil : List (Option ℕ) → List ℕ
not_nil [] = []
not_nil (none ∷ ids) = not_nil ids
not_nil (some id ∷ ids) = id ∷ not_nil ids

abbrev pub pdi_ie : Pdi → PdiIe
pdi_ie pdi = record {
  source_interface = pdi.source_interface;
  local_fteid = pdi.local_fteid;
  network_instance = pdi.network_instance;
  ue_ip_address = pdi.ue_ip_address;
  application_id = given_text pdi.application_id;
  sdf_filter = pdi.sdf_filter;
}

pub pdr_to_create_pdr : Pdr → PdrIe
pdr_to_create_pdr pdr = record {
  pdr_id = pdr.pdr_id;
  precedence = pdr.precedence;
  pdi = pdi_ie pdr.pdi;
  outer_header_removal = pdr.outer_header_removal;
  far_id = pdr.far;
  qer_ids = not_nil pdr.qers;
  urr_ids = not_nil pdr.urrs;
}

pub pdr_to_update_pdr : Pdr → PdrIe
pdr_to_update_pdr pdr = record {
  pdr_id = pdr.pdr_id;
  precedence = pdr.precedence;
  pdi = pdi_ie pdr.pdi;
  outer_header_removal = pdr.outer_header_removal;
  far_id = pdr.far;
  qer_ids = not_nil pdr.qers;
  urr_ids = not_nil pdr.urrs;
}

-- The policy as its length, a byte, and its text. `send_end_marker` is set by an update only.
pub record ForwardingIe : Type 0 where
  pub destination_interface : ℕ
  pub network_instance : Option NetworkInstance
  pub outer_header_creation : Option OuterHeaderCreation
  pub forwarding_policy : Option (ℕ × String)
  pub send_end_marker : Option Bool

pub record FarIe : Type 0 where
  pub far_id : ℕ
  pub apply_action : ApplyAction
  pub bar_id : Option ℕ
  pub forwarding_parameters : Option ForwardingIe

abbrev pub bytes_of : String → ℕ
bytes_of String.[] = 0
bytes_of (String.◌∷◌ c s) = suc (bytes_of s)

abbrev pub policy_of : String → Option (ℕ × String)
policy_of s = if str_eq s "" then none else some (bytes_of s % 256, s)

abbrev pub forwarding_ie : Option Bool → ForwardingParameters → ForwardingIe
forwarding_ie marker p = record {
  destination_interface = p.destination_interface;
  network_instance = p.network_instance;
  outer_header_creation = p.outer_header_creation;
  forwarding_policy = policy_of p.forwarding_policy_id;
  send_end_marker = marker;
}

abbrev pub no_action : ApplyAction
no_action = record { drop = false; forw = false; buff = false; nocp = false; dupl = false }

-- Without forwarding parameters the action is to drop; the FAR's own action is not looked at.
abbrev pub create_action : Option ForwardingParameters → ApplyAction
create_action none = record no_action { drop = true }
create_action (some _) = record no_action { forw = true }

abbrev pub create_forwarding : Option ForwardingParameters → Option ForwardingIe
create_forwarding none = none
create_forwarding (some p) = some (forwarding_ie none p)

pub far_to_create_far : Far → FarIe
far_to_create_far far = record {
  far_id = far.far_id;
  apply_action = create_action far.forwarding_parameters;
  bar_id = far.bar;
  forwarding_parameters = create_forwarding far.forwarding_parameters;
}

abbrev pub update_forwarding : Option ForwardingParameters → Option ForwardingIe
update_forwarding none = none
update_forwarding (some p) = some (forwarding_ie (some p.send_end_marker) p)

pub far_to_update_far : Far → FarIe
far_to_update_far far = record {
  far_id = far.far_id;
  apply_action = far.apply_action;
  bar_id = far.bar;
  forwarding_parameters = update_forwarding far.forwarding_parameters;
}

pub bar_to_create_bar : Bar → ℕ
bar_to_create_bar bar = bar.bar_id

pub record QerIe : Type 0 where
  pub qer_id : ℕ
  pub gate_status : Option Duplex
  pub qos_flow_identifier : ℕ
  pub maximum_bitrate : Option Duplex
  pub guaranteed_bitrate : Option Duplex

pub qer_to_create_qer : Qer → QerIe
qer_to_create_qer qer = record {
  qer_id = qer.qer_id;
  gate_status = qer.gate_status;
  qos_flow_identifier = qer.qfi;
  maximum_bitrate = qer.mbr;
  guaranteed_bitrate = qer.gbr;
}

pub record VolumeIe : Type 0 where
  pub tovol : Bool
  pub dlvol : Bool
  pub ulvol : Bool
  pub total_volume : ℕ
  pub downlink_volume : ℕ
  pub uplink_volume : ℕ

pub record UrrIe : Type 0 where
  pub urr_id : ℕ
  pub volum : Bool
  pub durat : Bool
  pub reporting_triggers : ReportingTriggers
  pub measurement_period : Option ℕ
  pub quota_validity_time : Option ℕ
  pub volume_threshold : Option VolumeIe
  pub volume_quota : Option VolumeIe
  pub measurement_information : MeasurementInformation

abbrev pub is_vol : MeasureMethod → Bool
is_vol method_vol = true
is_vol method_time = false

abbrev pub is_time : MeasureMethod → Bool
is_time method_vol = false
is_time method_time = true

-- Whole seconds, as a uint32.
abbrev pub period_of : ℕ → Option ℕ
period_of ns = if ns == 0 then none else some (ns / 1000000000 % 4294967296)

-- Both directions, with the total where `total` says so.
abbrev pub volume_ie : Bool → ℕ → Option VolumeIe
volume_ie total v =
    if v == 0
    then none
    else some (record {
      tovol = total;
      dlvol = true;
      ulvol = true;
      total_volume = if total then v else 0;
      downlink_volume = v;
      uplink_volume = v;
    })

-- The seconds from the start of 1900 to a time. Go's zero time is the start of year 1, 693595 days
-- earlier.
abbrev pub since_1900 : Option ℕ → ℤ
since_1900 none = negsuc (693595 * 86400 - 1)
since_1900 (some s) = pos s

-- `Time.Sub` stops at the longest and the shortest duration, of 2^63 nanoseconds, and the division by
-- 1000000000 leaves whole seconds.
abbrev pub longest : ℕ
longest = 2 ^ 63 / 1000000000

abbrev pub as_duration : ℤ → ℤ
as_duration (pos n) = if ltb n longest then pos n else pos longest
as_duration (negsuc n) = if ltb n longest then negsuc n else negsuc (longest - 1)

abbrev pub to_uint32 : ℤ → ℕ
to_uint32 (pos n) = n % 2 ^ 32
to_uint32 (negsuc n) = 2 ^ 32 - 1 - n % 2 ^ 32

abbrev pub quota_ie : Option ℕ → Option ℕ
quota_ie time = some (to_uint32 (as_duration (since_1900 time)))

-- A creation has the time that is set.
abbrev pub quota_of_set : Option ℕ → Option ℕ
quota_of_set none = none
quota_of_set (some s) = quota_ie (some s)

-- The condition of the update is the opposite one: the zero time is sent, and one that is set is not.
abbrev pub quota_of_zero : Option ℕ → Option ℕ
quota_of_zero none = quota_ie none
quota_of_zero (some s) = none

pub urr_to_create_urr : Urr → UrrIe
urr_to_create_urr urr = record {
  urr_id = urr.urr_id;
  volum = is_vol urr.measure_method;
  durat = is_time urr.measure_method;
  reporting_triggers = urr.reporting_trigger;
  measurement_period = period_of urr.measurement_period;
  quota_validity_time = quota_of_set urr.quota_validity_time;
  volume_threshold = volume_ie false urr.volume_threshold;
  volume_quota = volume_ie true urr.volume_quota;
  measurement_information = urr.measurement_information;
}

pub urr_to_update_urr : Urr → UrrIe
urr_to_update_urr urr = record {
  urr_id = urr.urr_id;
  volum = is_vol urr.measure_method;
  durat = is_time urr.measure_method;
  reporting_triggers = urr.reporting_trigger;
  measurement_period = period_of urr.measurement_period;
  quota_validity_time = quota_of_zero urr.quota_validity_time;
  volume_threshold = volume_ie true urr.volume_threshold;
  volume_quota = volume_ie true urr.volume_quota;
  measurement_information = urr.measurement_information;
}
