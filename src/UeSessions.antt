-- ===== src/UeSessions.antt =====
-- internal/context/sm_ue.go: how many PDU sessions each UE has, and its SDM subscription. A SUPI is a
-- number here; `none` is a missing key of the map.
pub mod Counts
pub mod Examples
use Prim.Native.String.{String}
use smf_nwdaf_ext.Common.{
  ℕ, suc, ◌+◌, ◌-◌, Bool, true, false, Option, none, some, ltb, ◌==◌, if◌then◌else◌,
}

-- The count is never negative: it falls only where it is positive.
pub record UeData : Type 0 where
  pub pdu_session_count : ℕ
  pub sdm_subscription_id : String

abbrev pub Ues : Type 0
Ues = ℕ → Option UeData

abbrev pub init_smf_ue_data : Ues
init_smf_ue_data ue = none

-- What Go reads at a missing key.
abbrev pub or_zero : Option UeData → UeData
or_zero none = record { pdu_session_count = 0; sdm_subscription_id = "" }
or_zero (some data_of_ue) = data_of_ue

abbrev pub set : Ues → ℕ → Option UeData → Ues
set ues ue d v = if ue == v then d else ues v

pub increment_pdu_session_count : Ues → ℕ → Ues
increment_pdu_session_count ues ue =
    let d = or_zero (ues ue) in
    set ues ue (some (record d { pdu_session_count = suc d.pdu_session_count }))

pub decrement_pdu_session_count : Ues → ℕ → Ues
decrement_pdu_session_count ues ue =
    let d = or_zero (ues ue) in
    if ltb 0 d.pdu_session_count
    then set ues ue (some (record d { pdu_session_count = d.pdu_session_count - 1 }))
    else ues

pub set_subscription_id : Ues → ℕ → String → Ues
set_subscription_id ues ue id =
    set ues ue (some (record (or_zero (ues ue)) { sdm_subscription_id = id }))

pub get_subscription_id : Ues → ℕ → String
get_subscription_id ues ue = (or_zero (ues ue)).sdm_subscription_id

pub get_ue_data : Ues → ℕ → UeData
get_ue_data ues ue = or_zero (ues ue)

pub delete_ue : Ues → ℕ → Ues
delete_ue ues ue = set ues ue none

pub ue_exists : Ues → ℕ → Bool
ue_exists ues ue = elim (ues ue) [ none ↦ false | some _ ↦ true ]

pub is_last_pdu_session : Ues → ℕ → Bool
is_last_pdu_session ues ue = (or_zero (ues ue)).pdu_session_count == 1

pub get_pdu_session_count : Ues → ℕ → ℕ
get_pdu_session_count ues ue = (or_zero (ues ue)).pdu_session_count
