-- ===== src/Pfcp/Conversion/Identifiers.antt =====
-- The identifier of each element.
use smf_nwdaf_ext.Common.{◌≡◌, refl}
use smf_nwdaf_ext.Pfcp.{Pdr, Far}
use smf_nwdaf_ext.Pfcp.Conversion.{
  pdr_to_create_pdr, pdr_to_update_pdr, far_to_create_far, far_to_update_far,
}

pub create_id : (pdr : Pdr) → (pdr_to_create_pdr pdr).pdr_id ≡ pdr.pdr_id
unfolding pdr_to_create_pdr
create_id pdr = refl

pub update_id : (pdr : Pdr) → (pdr_to_update_pdr pdr).pdr_id ≡ pdr.pdr_id
unfolding pdr_to_update_pdr
update_id pdr = refl

pub create_far_id : (far : Far) → (far_to_create_far far).far_id ≡ far.far_id
unfolding far_to_create_far
create_far_id far = refl

pub update_far_id : (far : Far) → (far_to_update_far far).far_id ≡ far.far_id
unfolding far_to_update_far
update_far_id far = refl
