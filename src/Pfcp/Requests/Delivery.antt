-- ===== src/Pfcp/Requests/Delivery.antt =====
-- The rules that a UPF holds after it has been sent a modification.
use smf_nwdaf_ext.Common.{ℕ, Option, true, List, ◌≡◌, has}
use smf_nwdaf_ext.Net.{Ip}
use smf_nwdaf_ext.Pfcp.{Urr}
use smf_nwdaf_ext.Pfcp.Conversion.{
  PdrIe, FarIe, pdr_to_create_pdr, pdr_to_update_pdr, far_to_create_far, far_to_update_far,
}
use smf_nwdaf_ext.Pfcp.Conversion.Identifiers.{create_id, update_id, create_far_id, update_far_id}
use smf_nwdaf_ext.Pfcp.Requests.{
  Memory, RuleLists, pdr_sent, far_sent, build_pfcp_session_modification_request,
}
use smf_nwdaf_ext.Pfcp.Requests.Orders.{Held, Fits, Distinct, Delivers, send_each-Delivers}

-- A modification brings a UPF up to date. The UPF is a table by identifier that creates only what it
-- does not hold, and updates and removes only what it holds. Where the PDRs of the list have
-- identifiers of their own, the UPF holds none of the initial ones and all that are to be updated or
-- removed, and likewise the FARs, every order is accepted. Then each initial rule stands there as
-- created, each one to update as updated, none to remove, and the others are as they were.
pub build_pfcp_session_modification_request-Delivers :
    (qer_range : List ℕ → List ℕ) (urr_range : List Urr → List Urr) (self_ip : Option Ip)
    (seid upf : ℕ) (l : RuleLists) (m : Memory) (held_pdrs : Held PdrIe) (held_fars : Held FarIe)
    → Distinct (λ pdr. pdr.pdr_id) m.pdrs l.pdr_list
    → ((k : ℕ) → has k l.pdr_list ≡ true → Fits (m.pdrs k).state (held_pdrs (m.pdrs k).pdr_id))
    → Distinct (λ far. far.far_id) m.fars l.far_list
    → ((k : ℕ) → has k l.far_list ≡ true → Fits (m.fars k).state (held_fars (m.fars k).far_id))
    → Delivers
        (λ pdr. pdr.state)
        (λ pdr. pdr.pdr_id)
        pdr_to_create_pdr
        pdr_to_update_pdr
        (λ ie. ie.pdr_id)
        m.pdrs
        l.pdr_list
        (build_pfcp_session_modification_request qer_range urr_range self_ip seid upf l m).1.pdrs
        held_pdrs
      × Delivers
          (λ far. far.state)
          (λ far. far.far_id)
          far_to_create_far
          far_to_update_far
          (λ ie. ie.far_id)
          m.fars
          l.far_list
          (build_pfcp_session_modification_request qer_range urr_range self_ip seid upf l m).1.fars
          held_fars
unfolding build_pfcp_session_modification_request
build_pfcp_session_modification_request-Delivers qer_range urr_range self_ip seid upf l m held_pdrs
      held_fars dp fp df ff =
    (
      send_each-Delivers (λ pdr. pdr.state) (λ pdr. pdr.pdr_id) pdr_to_create_pdr pdr_to_update_pdr
          (λ ie. ie.pdr_id) pdr_sent create_id update_id m.pdrs l.pdr_list held_pdrs dp fp,
      send_each-Delivers (λ far. far.state) (λ far. far.far_id) far_to_create_far far_to_update_far
          (λ ie. ie.far_id) far_sent create_far_id update_far_id m.fars l.far_list held_fars df ff,
    )
