-- ===== src/Session.antt =====
-- The choice of a PDU session's type, of internal/context/sm_context.go.
pub mod Choice
pub mod Examples
use smf_nwdaf_ext.Common.{
  ℕ, Bool, true, false, not, ◌&&◌, ◌||◌, Option, none, some, List, [], ◌∷◌, ◌==◌, if◌then◌else◌,
}

-- `models.PduSessionType`, with any other text of it.
pub data PduSessionType : Type 0 where
  ipv4 ipv6 ipv4_v6 unstructured ethernet other_type : PduSessionType

-- `SupportedPDUSessionType` of the SMF: a text, of which four are tested.
pub data Supported : Type 0 where
  supports_ipv4 supports_ipv6 supports_ipv4v6 supports_ethernet supports_other : Supported

pub record Allowed : Type 0 where
  pub allow_ipv4 : Bool
  pub allow_ipv6 : Bool
  pub allow_ethernet : Bool

-- The loop over the subscribed types.
pub allow : List PduSessionType → Allowed → Allowed
allow [] a = a
allow (ipv4 ∷ types) a = allow types (record a { allow_ipv4 = true })
allow (ipv6 ∷ types) a = allow types (record a { allow_ipv6 = true })
allow (ipv4_v6 ∷ types) a = allow types (record a { allow_ipv4 = true; allow_ipv6 = true })
allow (ethernet ∷ types) a = allow types (record a { allow_ethernet = true })
allow (unstructured ∷ types) a = allow types a
allow (other_type ∷ types) a = allow types a

-- The first switch: `false` is its error.
pub serves : Supported → Allowed → Bool
serves supports_ipv4 a = a.allow_ipv4
serves supports_ipv6 a = a.allow_ipv6
serves supports_ipv4v6 a = not (not a.allow_ipv4 && not a.allow_ipv6)
serves supports_ethernet a = a.allow_ethernet
serves supports_other a = true

pub data Cause : Type 0 where
  no_cause ipv4_only_allowed ipv6_only_allowed : Cause

-- `DnnConfiguration.PduSessionTypes` (`none` for nil) and the two fields that are set.
pub record SmContext : Type 0 where
  pub allowed_session_types : Option (List PduSessionType)
  pub selected : PduSessionType
  pub est_accept_cause : Cause

abbrev pub choose : SmContext → Bool → PduSessionType → SmContext × Bool
choose c b type = if b then (record c { selected = type }, true) else (c, false)

-- The second switch, once the cause is reset.
pub select : SmContext → Allowed → PduSessionType → SmContext × Bool
select c a ipv4 = choose c a.allow_ipv4 ipv4
select c a ipv6 = choose c a.allow_ipv6 ipv6
select c a ipv4_v6 =
    if a.allow_ipv4 && a.allow_ipv6
    then (record c { selected = ipv4_v6 }, true)
    else if a.allow_ipv4
    then (record c { selected = ipv4; est_accept_cause = ipv4_only_allowed }, true)
    else if a.allow_ipv6
    then (record c { selected = ipv6; est_accept_cause = ipv6_only_allowed }, true)
    else (c, false)
select c a ethernet = choose c a.allow_ethernet ethernet
select c a unstructured = (c, false)
select c a other_type = (c, false)

abbrev pub nothing_allowed : Allowed
nothing_allowed = record { allow_ipv4 = false; allow_ipv6 = false; allow_ethernet = false }

-- Behind the test for nil.
pub allowed_by :
    SmContext → Supported → PduSessionType → Option (List PduSessionType) → SmContext × Bool
unfolding allow serves select
allowed_by c supported requested none = (c, false)
allowed_by c supported requested (some types) =
    let a = allow types nothing_allowed in
    if serves supported a
    then select (record c { est_accept_cause = no_cause }) a requested
    else (c, false)

-- `false` is an error. `requested` is what `nasConvert.PDUSessionTypeToModels` makes of the number.
pub is_allowed_pdu_session_type : SmContext → Supported → PduSessionType → SmContext × Bool
unfolding allowed_by
is_allowed_pdu_session_type c supported requested =
    allowed_by c supported requested c.allowed_session_types
