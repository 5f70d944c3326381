-- ===== src/Qos/Flow/Messages.antt =====
-- What NAS and NGAP are told of one flow.
use smf_nwdaf_ext.Common.{
  ℕ, ◌*◌, ◌/◌, ◌%◌, ◌<◌, ◌≡◌, refl, true, false, none, some, [], ◌∷◌, has, Bool-cases, ◌⊎◌, inl,
  inr, subst,
}
use smf_nwdaf_ext.UrrTable.{pos}
use smf_nwdaf_ext.Qos.BitRate.{
  Text, atoi, RateUnit, value, two_63, bit_rate_to_mbps, string_to_bit_rate,
}
use smf_nwdaf_ext.Qos.BitRate.Units.{per_second, with_unit, bit_rates_agree}
use smf_nwdaf_ext.Qos.Flow.{
  QosFlow, is_gbr_flow, get_5qi, five_qi, gfbr_downlink, gfbr_uplink, mfbr_downlink, mfbr_uplink,
  build_nas_qos_desc, NgapType, retention_of, build_gbr_qos_information_from_model,
  build_ngap_qos_flow_setup_request_item, build_ngap_qos_flow_add_or_modify_request_item,
}

-- A text that is a number with a unit, of so many bits in a second.
abbrev pub IsRate : Text → ℕ → Type 0
IsRate t rate =
    (number : Text) × (n : ℕ) × (unit : RateUnit) × (t ≡ with_unit number unit)
    × (has 32 number ≡ false)
    × (atoi number ≡ some (pos n))
    × (rate ≡ n * per_second unit)
    × (rate < two_63)

to_mbps :
    (t : Text) (rate : ℕ) → IsRate t rate → bit_rate_to_mbps t ≡ value (rate / 1000000 % 65536)
to_mbps t rate (number, n, unit, text, plain, read, same, small) =
    let agree =
      bit_rates_agree (λ _. some n) number n unit plain read refl
        (subst (λ r. r < two_63) same small) in
    rw (text, same) agree.2

to_bps : (t : Text) (rate : ℕ) → IsRate t rate → string_to_bit_rate t ≡ value (pos rate)
to_bps t rate (number, n, unit, text, plain, read, same, small) =
    let agree =
      bit_rates_agree (λ _. some n) number n unit plain read refl
        (subst (λ r. r < two_63) same small) in
    rw (text, same) agree.0

abbrev pub whole_mbps : ℕ → ℕ
whole_mbps rate = rate / 1000000 % 65536

-- The messages about one flow, where its four rates are numbers with units, of fewer than 2^63 bits in
-- a second. None of them panics, and NGAP's two items are the same. A flow of a standard GBR 5QI has
-- its four rates in both: NGAP has the bits in a second, and NAS the whole millions of them cut to 16
-- bits, which is another rate from 65536000000 on. Any other flow has its identifier and its 5QI only,
-- and its priority in NGAP.
pub nas-ngap_rates :
    (N : NgapType) (q : QosFlow) (op_code max_ul max_dl gbr_ul gbr_dl : ℕ)
    → IsRate q.qos_profile.maxbr_ul max_ul
    → IsRate q.qos_profile.maxbr_dl max_dl
    → IsRate q.qos_profile.gbr_ul gbr_ul
    → IsRate q.qos_profile.gbr_dl gbr_dl
    → (build_ngap_qos_flow_add_or_modify_request_item N q
        ≡ build_ngap_qos_flow_setup_request_item N q)
      × (((is_gbr_flow (some q.qos_profile) ≡ true)
            × (build_nas_qos_desc q op_code
                ≡ value (record {
                  qfi = q.qfi;
                  operation_code = op_code;
                  parameters =
                      five_qi (get_5qi q)
                      ∷ gfbr_downlink (whole_mbps gbr_dl)
                      ∷ gfbr_uplink (whole_mbps gbr_ul)
                      ∷ mfbr_downlink (whole_mbps max_dl)
                      ∷ mfbr_uplink (whole_mbps max_ul)
                      ∷ [];
                }))
            × (build_ngap_qos_flow_setup_request_item N q
                ≡ value (record {
                  qos_flow_identifier = q.qfi;
                  five_qi_value = get_5qi q;
                  gbr_qos_information = some (record {
                    maximum_flow_bit_rate_dl = pos max_dl;
                    maximum_flow_bit_rate_ul = pos max_ul;
                    guaranteed_flow_bit_rate_dl = pos gbr_dl;
                    guaranteed_flow_bit_rate_ul = pos gbr_ul;
                  });
                  allocation_and_retention_priority = retention_of N q.qos_profile.arp;
                })))
          ⊎ ((is_gbr_flow (some q.qos_profile) ≡ false)
              × (build_nas_qos_desc q op_code
                  ≡ value (record {
                    qfi = q.qfi;
                    operation_code = op_code;
                    parameters = five_qi (get_5qi q) ∷ [];
                  }))
              × (build_ngap_qos_flow_setup_request_item N q
                  ≡ value (record {
                    qos_flow_identifier = q.qfi;
                    five_qi_value = get_5qi q;
                    gbr_qos_information = none;
                    allocation_and_retention_priority = retention_of N q.qos_profile.arp;
                  }))))
unfolding build_ngap_qos_flow_setup_request_item build_ngap_qos_flow_add_or_modify_request_item
    build_nas_qos_desc build_gbr_qos_information_from_model
nas-ngap_rates N q op_code max_ul max_dl gbr_ul gbr_dl mu md gu gd = (
  refl,
  elim (Bool-cases (is_gbr_flow (some q.qos_profile))) [
    | inl gbr ↦ inl (
      gbr,
      rw
          (
            gbr,
            to_mbps q.qos_profile.gbr_dl gbr_dl gd,
            to_mbps q.qos_profile.gbr_ul gbr_ul gu,
            to_mbps q.qos_profile.maxbr_dl max_dl md,
            to_mbps q.qos_profile.maxbr_ul max_ul mu,
          )
          refl,
      rw
          (
            gbr,
            to_bps q.qos_profile.maxbr_dl max_dl md,
            to_bps q.qos_profile.maxbr_ul max_ul mu,
            to_bps q.qos_profile.gbr_dl gbr_dl gd,
            to_bps q.qos_profile.gbr_ul gbr_ul gu,
          )
          refl,
    )
    | inr other ↦ inr (other, rw other refl, rw other refl)
  ],
)
