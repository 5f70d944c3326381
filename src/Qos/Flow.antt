-- ===== src/Qos/Flow.antt =====
-- A QoS flow and what NAS and NGAP messages say of it: internal/context/qos_flow.go, with the
-- standard 5QIs of internal/context/datapath.go. A text of a rate is its bytes. The numbers of
-- NGAP's enumerations are constants of the ngap library, which are a parameter here, and the types
-- of both libraries are records of the fields that the program sets.
pub mod Messages
use smf_nwdaf_ext.Common.{
  ℕ, ◌%◌, Bool, true, false, Option, none, some, List, [], ◌∷◌, has, if◌then◌else◌,
}
use smf_nwdaf_ext.UrrTable.{ℤ}
use smf_nwdaf_ext.Qos.BitRate.{Text, Outcome, value, panic, bit_rate_to_mbps, string_to_bit_rate}

abbrev pub standard_gbr_5qis : List ℕ
standard_gbr_5qis = 1 ∷ 2 ∷ 3 ∷ 4 ∷ 65 ∷ 66 ∷ 67 ∷ 75 ∷ 71 ∷ 72 ∷ 73 ∷ 74 ∷ 76 ∷ []

-- `other` is any other text.
pub data PreemptionCapability : Type 0 where
  not_preempt may_preempt other_capability : PreemptionCapability

pub data PreemptionVulnerability : Type 0 where
  not_preemptable preemptable other_vulnerability : PreemptionVulnerability

pub record Arp : Type 0 where
  pub priority_level : ℕ
  pub preempt_cap : PreemptionCapability
  pub preempt_vuln : PreemptionVulnerability

pub record QosData : Type 0 where
  pub var5qi : ℕ
  pub maxbr_ul : Text
  pub maxbr_dl : Text
  pub gbr_ul : Text
  pub gbr_dl : Text
  pub arp : Option Arp

pub data QosFlowState : Type 0 where
  qos_flow_unset qos_flow_set qos_flow_to_be_modify : QosFlowState

pub record QosFlow : Type 0 where
  pub qfi : ℕ
  pub qos_profile : QosData
  pub state : QosFlowState

unfoldable pub is_gbr_flow : Option QosData → Bool
is_gbr_flow none = false
is_gbr_flow (some qos) = has qos.var5qi standard_gbr_5qis

-- `none` is nil.
pub new_qos_flow : ℕ → Option QosData → Option QosFlow
new_qos_flow qfi none = none
new_qos_flow qfi (some qos) = some (record { qfi = qfi; qos_profile = qos; state = qos_flow_unset })

abbrev pub get_5qi : QosFlow → ℕ
get_5qi q = q.qos_profile.var5qi % 256

abbrev pub outcome_then : {A B : Type 0} → Outcome A → (A → Outcome B) → Outcome B
outcome_then panic f = panic
outcome_then (value a) f = f a

-- The parameters of a NAS description, the rates in units of 1 Mbps.
pub data NasParameter : Type 0 where
  five_qi gfbr_downlink gfbr_uplink mfbr_downlink mfbr_uplink : ℕ → NasParameter

pub record QosFlowDesc : Type 0 where
  pub qfi : ℕ
  pub operation_code : ℕ
  pub parameters : List NasParameter

abbrev pub nas_rates : QosData → Outcome (List NasParameter)
nas_rates qos = outcome_then (bit_rate_to_mbps qos.gbr_dl) (λ gbr_dl.
    outcome_then (bit_rate_to_mbps qos.gbr_ul) (λ gbr_ul.
      outcome_then (bit_rate_to_mbps qos.maxbr_dl) (λ maxbr_dl.
        outcome_then (bit_rate_to_mbps qos.maxbr_ul) (λ maxbr_ul. value (
          gfbr_downlink gbr_dl
          ∷ gfbr_uplink gbr_ul
          ∷ mfbr_downlink maxbr_dl
          ∷ mfbr_uplink maxbr_ul
          ∷ [])))))

pub build_nas_qos_desc : QosFlow → ℕ → Outcome QosFlowDesc
build_nas_qos_desc q op_code =
    outcome_then (if is_gbr_flow (some q.qos_profile) then nas_rates q.qos_profile else value [])
      (λ rates. value (record {
        qfi = q.qfi;
        operation_code = op_code;
        parameters = five_qi (get_5qi q) ∷ rates;
      }))

pub record GbrQosInformation : Type 0 where
  pub maximum_flow_bit_rate_dl : ℤ
  pub maximum_flow_bit_rate_ul : ℤ
  pub guaranteed_flow_bit_rate_dl : ℤ
  pub guaranteed_flow_bit_rate_ul : ℤ

pub build_gbr_qos_information_from_model : Option QosData → Outcome (Option GbrQosInformation)
build_gbr_qos_information_from_model none = value none
build_gbr_qos_information_from_model (some qos) =
    outcome_then (string_to_bit_rate qos.maxbr_dl) (λ maxbr_dl.
      outcome_then (string_to_bit_rate qos.maxbr_ul) (λ maxbr_ul.
        outcome_then (string_to_bit_rate qos.gbr_dl) (λ gbr_dl.
          outcome_then (string_to_bit_rate qos.gbr_ul) (λ gbr_ul. value (
            some (record {
              maximum_flow_bit_rate_dl = maxbr_dl;
              maximum_flow_bit_rate_ul = maxbr_ul;
              guaranteed_flow_bit_rate_dl = gbr_dl;
              guaranteed_flow_bit_rate_ul = gbr_ul;
            }))))))

-- The enumerations of ngapType.
pub record NgapType : Type 0 where
  pub shall_not_trigger_pre_emption : ℕ
  pub may_trigger_pre_emption : ℕ
  pub not_pre_emptable : ℕ
  pub pre_emptable : ℕ

pub record Retention : Type 0 where
  pub priority_level_arp : ℕ
  pub pre_emption_capability : ℕ
  pub pre_emption_vulnerability : ℕ

pub record QosFlowItem : Type 0 where
  pub qos_flow_identifier : ℕ
  pub five_qi_value : ℕ
  pub gbr_qos_information : Option GbrQosInformation
  pub allocation_and_retention_priority : Retention

module _ (N : NgapType) where
  abbrev pub capability_of : PreemptionCapability → ℕ
  capability_of not_preempt = N.shall_not_trigger_pre_emption
  capability_of may_preempt = N.may_trigger_pre_emption
  capability_of other_capability = N.shall_not_trigger_pre_emption

  abbrev pub vulnerability_of : PreemptionVulnerability → ℕ
  vulnerability_of not_preemptable = N.not_pre_emptable
  vulnerability_of preemptable = N.pre_emptable
  vulnerability_of other_vulnerability = N.not_pre_emptable

  pub build_arp_from_models : Option Arp → Retention
  build_arp_from_models none = record {
    priority_level_arp = 0;
    pre_emption_capability = 0;
    pre_emption_vulnerability = 0;
  }
  build_arp_from_models (some arp) = record {
    priority_level_arp = arp.priority_level;
    pre_emption_capability = capability_of arp.preempt_cap;
    pre_emption_vulnerability = vulnerability_of arp.preempt_vuln;
  }

  -- The priority where the policy gives none.
  abbrev pub retention_of : Option Arp → Retention
  unfolding build_arp_from_models
  retention_of none = record {
    priority_level_arp = 8;
    pre_emption_capability = N.shall_not_trigger_pre_emption;
    pre_emption_vulnerability = N.not_pre_emptable;
  }
  retention_of (some arp) = build_arp_from_models (some arp)

  pub build_ngap_qos_flow_setup_request_item : QosFlow → Outcome QosFlowItem
  unfolding retention_of
  build_ngap_qos_flow_setup_request_item q =
      outcome_then
        (if is_gbr_flow (some q.qos_profile)
          then build_gbr_qos_information_from_model (some q.qos_profile)
          else value none)
        (λ gbr. value (record {
          qos_flow_identifier = q.qfi;
          five_qi_value = get_5qi q;
          gbr_qos_information = gbr;
          allocation_and_retention_priority = retention_of q.qos_profile.arp;
        }))

  pub build_ngap_qos_flow_add_or_modify_request_item : QosFlow → Outcome QosFlowItem
  unfolding retention_of
  build_ngap_qos_flow_add_or_modify_request_item q =
      outcome_then
        (if is_gbr_flow (some q.qos_profile)
          then build_gbr_qos_information_from_model (some q.qos_profile)
          else value none)
        (λ gbr. value (record {
          qos_flow_identifier = q.qfi;
          five_qi_value = get_5qi q;
          gbr_qos_information = gbr;
          allocation_and_retention_priority = retention_of q.qos_profile.arp;
        }))
