-- ===== src/Qos/Examples.antt =====
-- Rates and flows at concrete texts.
use smf_nwdaf_ext.Common.{true, false, ◌≡◌, refl, some, none, [], ◌∷◌, ◌⊎◌, arith}
use smf_nwdaf_ext.UrrTable.{ℤ, pos}
use smf_nwdaf_ext.Qos.BitRate.{
  Text, codes, atoi, value, panic, mbps, gbps, bit_rate_to_mbps, string_to_bit_rate,
  bit_rate_to_kbps,
}
use smf_nwdaf_ext.Qos.BitRate.Units.{bit_rates_agree, no_unit_panics}
use smf_nwdaf_ext.Qos.Flow.{
  NgapType, QosFlow, qos_flow_unset, is_gbr_flow, five_qi, gfbr_downlink, gfbr_uplink,
  mfbr_downlink, mfbr_uplink, retention_of, build_nas_qos_desc,
  build_ngap_qos_flow_setup_request_item, build_ngap_qos_flow_add_or_modify_request_item,
}
use smf_nwdaf_ext.Qos.Flow.Messages.{IsRate, nas-ngap_rates}

atoi-100 : atoi (codes "100") ≡ some (pos 100)
unfolding atoi
atoi-100 = refl

atoi-66 : atoi (codes "66") ≡ some (pos 66)
unfolding atoi
atoi-66 = refl

abbrev hundred_mbps : Text
hundred_mbps = codes "100 Mbps"

hundred_mbps-IsRate : IsRate hundred_mbps 100000000
hundred_mbps-IsRate = (codes "100", 100, mbps, refl, refl, atoi-100, refl, omega arith)

-- 66 Gbps are 66000 Mbps, of which a `uint16` holds 464.
bit_rates_agree_example :
    (string_to_bit_rate (codes "66 Gbps") ≡ value (pos 66000000000))
    × (bit_rate_to_kbps (λ _. some 66) (codes "66 Gbps") ≡ some 66000000)
    × (bit_rate_to_mbps (codes "66 Gbps") ≡ value 464)
bit_rates_agree_example =
    bit_rates_agree (λ _. some 66) (codes "66") 66 gbps refl atoi-66 refl (omega arith)

no_unit_panics_example :
    (bit_rate_to_kbps (λ _. none) (codes "100") ≡ none)
    × (((atoi (codes "100") ≡ none)
          × (bit_rate_to_mbps (codes "100") ≡ value 0)
          × (string_to_bit_rate (codes "100") ≡ value (pos 0)))
        ⊎ ((n : ℤ) × (atoi (codes "100") ≡ some n)
            × (bit_rate_to_mbps (codes "100") ≡ panic)
            × (string_to_bit_rate (codes "100") ≡ panic)))
no_unit_panics_example = no_unit_panics (λ _. none) 49 (codes "00") refl

-- A flow of the standard GBR 5QI 1, of 100 Mbps each way.
abbrev voice : QosFlow
voice = record {
  qfi = 2;
  qos_profile = record {
    var5qi = 1;
    maxbr_ul = hundred_mbps;
    maxbr_dl = hundred_mbps;
    gbr_ul = hundred_mbps;
    gbr_dl = hundred_mbps;
    arp = none;
  };
  state = qos_flow_unset;
}

abbrev enumerations : NgapType
enumerations = record {
  shall_not_trigger_pre_emption = 0;
  may_trigger_pre_emption = 1;
  not_pre_emptable = 0;
  pre_emptable = 1;
}

nas-ngap_rates_example :
    (build_ngap_qos_flow_add_or_modify_request_item enumerations voice
      ≡ build_ngap_qos_flow_setup_request_item enumerations voice)
    × (((is_gbr_flow (some voice.qos_profile) ≡ true)
          × (build_nas_qos_desc voice 1
              ≡ value (record {
                qfi = 2;
                operation_code = 1;
                parameters =
                    five_qi 1
                    ∷ gfbr_downlink 100
                    ∷ gfbr_uplink 100
                    ∷ mfbr_downlink 100
                    ∷ mfbr_uplink 100
                    ∷ [];
              }))
          × (build_ngap_qos_flow_setup_request_item enumerations voice
              ≡ value (record {
                qos_flow_identifier = 2;
                five_qi_value = 1;
                gbr_qos_information = some (record {
                  maximum_flow_bit_rate_dl = pos 100000000;
                  maximum_flow_bit_rate_ul = pos 100000000;
                  guaranteed_flow_bit_rate_dl = pos 100000000;
                  guaranteed_flow_bit_rate_ul = pos 100000000;
                });
                allocation_and_retention_priority = retention_of enumerations none;
              })))
        ⊎ ((is_gbr_flow (some voice.qos_profile) ≡ false)
            × (build_nas_qos_desc voice 1
                ≡ value (record { qfi = 2; operation_code = 1; parameters = five_qi 1 ∷ [] }))
            × (build_ngap_qos_flow_setup_request_item enumerations voice
                ≡ value (record {
                  qos_flow_identifier = 2;
                  five_qi_value = 1;
                  gbr_qos_information = none;
                  allocation_and_retention_priority = retention_of enumerations none;
                }))))
nas-ngap_rates_example =
    nas-ngap_rates enumerations voice 1 100000000 100000000 100000000 100000000 hundred_mbps-IsRate
      hundred_mbps-IsRate hundred_mbps-IsRate hundred_mbps-IsRate
