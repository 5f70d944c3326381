-- ===== src/Pfcp/Requests/Examples.antt =====
-- A modification at concrete rules: two PDRs, the first of them new and the second to be removed, and
-- a FAR to be updated.
use smf_nwdaf_ext.Common.{
  ℕ, true, none, some, [], ◌∷◌, ◌==◌, if◌then◌else◌, has, ◌≡◌, ◌≢◌, zero, suc, subst, inl, inr,
  Bool-cases, refl, arith,
}
use smf_nwdaf_ext.UrrTable.{
  RuleState, rule_initial, rule_create, rule_update, rule_remove, UrrTable,
}
use smf_nwdaf_ext.Pfcp.{Pdi, Pdr, Far}
use smf_nwdaf_ext.Pfcp.Conversion.{
  PdrIe, FarIe, far_to_create_far, pdr_to_create_pdr, pdr_to_update_pdr, far_to_update_far,
  no_action, quota_of_set, quota_of_zero,
}
use smf_nwdaf_ext.Pfcp.Requests.{
  Memory, RuleLists, Request, build_pfcp_session_modification_request,
}
use smf_nwdaf_ext.Pfcp.Requests.Orders.{Held, Fits, Distinct, Delivers}
use smf_nwdaf_ext.Pfcp.Requests.Delivery.{build_pfcp_session_modification_request-Delivers}
use smf_nwdaf_ext.Pfcp.Requests.Repeats.{build_pfcp_session_modification_request-again}

abbrev any_pdi : Pdi
any_pdi = record {
  source_interface = 0;
  local_fteid = none;
  network_instance = none;
  ue_ip_address = none;
  sdf_filter = none;
  application_id = "";
}

abbrev pdr_of : ℕ → RuleState → Pdr
pdr_of id state = record {
  pdr_id = id;
  precedence = 255;
  pdi = any_pdi;
  outer_header_removal = some 0;
  far = id;
  qers = none ∷ some 1 ∷ [];
  urrs = [];
  state = state;
}

abbrev pdrs_in : ℕ → Pdr
pdrs_in k = if k == 0 then pdr_of 7 rule_initial else pdr_of 8 rule_remove

abbrev fars_in : ℕ → Far
fars_in k = record {
  far_id = 5;
  apply_action = no_action;
  forwarding_parameters = none;
  bar = none;
  state = rule_update;
}

abbrev no_urrs : UrrTable
no_urrs upf = none

abbrev memory : Memory
memory = record {
  pdrs = pdrs_in;
  fars = fars_in;
  bars = λ k. record { bar_id = k; state = rule_initial };
  qers = λ k. record {
    qer_id = k;
    qfi = 1;
    gate_status = none;
    mbr = none;
    gbr = none;
    state = rule_initial;
  };
  urr_table = no_urrs;
}

abbrev lists : RuleLists
lists = record {
  pdr_list = 0 ∷ 1 ∷ [];
  far_list = 2 ∷ [];
  bar_list = 3 ∷ [];
  qer_list = 4 ∷ [];
  urr_list = [];
}

abbrev held_pdrs : Held PdrIe
held_pdrs id = if id == 8 then some (pdr_to_create_pdr (pdr_of 8 rule_create)) else none

abbrev held_fars : Held FarIe
held_fars id = some (far_to_create_far (fars_in 2))

abbrev first : Memory × Request
first = build_pfcp_session_modification_request (λ ks. ks) (λ urrs. urrs) none 1 0 lists memory

abbrev again : Memory × Request
again = build_pfcp_session_modification_request (λ ks. ks) (λ urrs. urrs) none 1 0 lists first.0

pdrs-Distinct : Distinct (λ pdr. pdr.pdr_id) memory.pdrs lists.pdr_list
pdrs-Distinct = (
  refl,
  λ j. λ member. elim (Bool-cases (1 == j)) [
    | inl here ↦
        let same : 1 ≡ j = ground arith in subst (λ i. 7 ≢ (pdrs_in i).pdr_id) same (ground arith)
    | inr there ↦ ground arith
  ],
  (refl, λ j. λ no. ground arith, refl),
)

pdrs-Fits :
    (k : ℕ)
    → has k lists.pdr_list ≡ true
    → Fits (memory.pdrs k).state (held_pdrs (memory.pdrs k).pdr_id)
pdrs-Fits zero member = refl
pdrs-Fits (suc zero) member = ground arith
pdrs-Fits (suc (suc k)) member = ground arith

fars-Distinct : Distinct (λ far. far.far_id) memory.fars lists.far_list
fars-Distinct = (refl, λ j. λ no. ground arith, refl)

build_pfcp_session_modification_request-Delivers_example :
    Delivers
      (λ pdr. pdr.state)
      (λ pdr. pdr.pdr_id)
      pdr_to_create_pdr
      pdr_to_update_pdr
      (λ ie. ie.pdr_id)
      memory.pdrs
      lists.pdr_list
      first.1.pdrs
      held_pdrs
    × Delivers
        (λ far. far.state)
        (λ far. far.far_id)
        far_to_create_far
        far_to_update_far
        (λ ie. ie.far_id)
        memory.fars
        lists.far_list
        first.1.fars
        held_fars
build_pfcp_session_modification_request-Delivers_example =
    build_pfcp_session_modification_request-Delivers (λ ks. ks) (λ urrs. urrs) none 1 0 lists memory
      held_pdrs held_fars pdrs-Distinct pdrs-Fits fars-Distinct (λ k. λ member. ground arith)

build_pfcp_session_modification_request-again_example :
    (again.1.pdrs ≡ []) × (again.1.fars ≡ []) × (again.1.qers ≡ []) × (again.1.bars ≡ first.1.bars)
build_pfcp_session_modification_request-again_example =
    build_pfcp_session_modification_request-again (λ ks. ks) (λ urrs. urrs) none 1 0 lists memory

-- No validity time is set: a creation has none, and an update sends one.
not_created : quota_of_set none ≡ none
not_created = refl

updated : quota_of_zero none ≡ some 3661529852
updated = refl
