-- ===== src/Session/Choice.antt =====
-- When a session's type is accepted, and which type it is then given.
use smf_nwdaf_ext.Common.{
  ◌≡◌, refl, sym, subst, inl, inr, Bool, true, false, ◌&&◌, ◌||◌, some, List, [], ◌∷◌, arith,
  Bool-cases,
}
use smf_nwdaf_ext.Session.{
  PduSessionType, ipv4, ipv6, ipv4_v6, unstructured, ethernet, other_type, Supported, supports_ipv4,
  supports_ipv6, supports_ipv4v6, supports_ethernet, supports_other, Allowed, allow, serves, Cause,
  no_cause, ipv4_only_allowed, ipv6_only_allowed, SmContext, choose, select, nothing_allowed,
  allowed_by, is_allowed_pdu_session_type,
}

-- A subscribed type grants itself, and IPv4v6 grants both its halves.
abbrev pub grants : PduSessionType → PduSessionType → Bool
grants ipv4 ipv4 = true
grants ipv6 ipv6 = true
grants ipv4_v6 ipv4 = true
grants ipv4_v6 ipv6 = true
grants ethernet ethernet = true
grants _ _ = false

abbrev pub permitted : PduSessionType → List PduSessionType → Bool
permitted t [] = false
permitted t (s ∷ types) = grants s t || permitted t types

-- The types that the SMF and the subscription together can serve.
abbrev pub acceptable : List PduSessionType → Supported → Bool
acceptable types supports_ipv4 = permitted ipv4 types
acceptable types supports_ipv6 = permitted ipv6 types
acceptable types supports_ipv4v6 = permitted ipv4 types || permitted ipv6 types
acceptable types supports_ethernet = permitted ethernet types
acceptable types supports_other = true

-- IPv4v6 is served by either half; the SMF serves no type but these four.
abbrev pub servable : List PduSessionType → PduSessionType → Bool
servable types ipv4_v6 = permitted ipv4 types || permitted ipv6 types
servable types ipv4 = permitted ipv4 types
servable types ipv6 = permitted ipv6 types
servable types ethernet = permitted ethernet types
servable types unstructured = false
servable types other_type = false

-- What an accepted request is given: itself, or the half of IPv4v6 that is permitted, with its cause.
pub data Given (types : List PduSessionType)
    : PduSessionType → PduSessionType → Cause → Type 0 where
  itself : (t : PduSessionType) → permitted t types ≡ true → Given types t t no_cause
  both :
      permitted ipv4 types ≡ true
      → permitted ipv6 types ≡ true
      → Given types ipv4_v6 ipv4_v6 no_cause
  only_ipv4 :
      permitted ipv4 types ≡ true
      → permitted ipv6 types ≡ false
      → Given types ipv4_v6 ipv4 ipv4_only_allowed
  only_ipv6 :
      permitted ipv4 types ≡ false
      → permitted ipv6 types ≡ true
      → Given types ipv4_v6 ipv6 ipv6_only_allowed

allow-fields :
    (types : List PduSessionType) (a : Allowed)
    → ((allow types a).allow_ipv4 ≡ (a.allow_ipv4 || permitted ipv4 types))
      × ((allow types a).allow_ipv6 ≡ (a.allow_ipv6 || permitted ipv6 types))
      × ((allow types a).allow_ethernet ≡ (a.allow_ethernet || permitted ethernet types))
unfolding allow
allow-fields [] a = ground arith
allow-fields (ipv4 ∷ types) a = ground (arith, allow-fields types (record a { allow_ipv4 = true }))
allow-fields (ipv6 ∷ types) a = ground (arith, allow-fields types (record a { allow_ipv6 = true }))
allow-fields (ipv4_v6 ∷ types) a =
    ground (arith, allow-fields types (record a { allow_ipv4 = true; allow_ipv6 = true }))
allow-fields (ethernet ∷ types) a =
    ground (arith, allow-fields types (record a { allow_ethernet = true }))
allow-fields (unstructured ∷ types) a = ground (arith, allow-fields types a)
allow-fields (other_type ∷ types) a = ground (arith, allow-fields types a)

abbrev pub Judged :
    SmContext → List PduSessionType → PduSessionType → Bool → SmContext × Bool → Type 0
Judged c types requested accepted (after, ok) =
    (ok ≡ accepted)
    × (ok ≡ true → Given types requested after.selected after.est_accept_cause)
    × (ok ≡ false → after.selected ≡ c.selected)

serves-acceptable :
    (types : List PduSessionType) (a : Allowed) (s : Supported)
    → a.allow_ipv4 ≡ permitted ipv4 types
    → a.allow_ipv6 ≡ permitted ipv6 types
    → a.allow_ethernet ≡ permitted ethernet types
    → serves s a ≡ acceptable types s
unfolding serves
serves-acceptable types a supports_ipv4 e f g = e
serves-acceptable types a supports_ipv6 e f g = f
serves-acceptable types a supports_ipv4v6 e f g = ground arith
serves-acceptable types a supports_ethernet e f g = g
serves-acceptable types a supports_other e f g = refl

single :
    (c : SmContext) (types : List PduSessionType) (t : PduSessionType) (b : Bool)
    → c.est_accept_cause ≡ no_cause
    → b ≡ permitted t types
    → Judged c types t (permitted t types) (choose c b t)
single c types t true k e = (e, λ _. rw k (itself t (sym e)), λ h. absurd (ground arith))
single c types t false k e = (e, λ h. absurd (ground arith), λ _. refl)

double :
    (c : SmContext) (types : List PduSessionType) (b4 b6 z : Bool)
    → c.est_accept_cause ≡ no_cause
    → b4 ≡ permitted ipv4 types
    → b6 ≡ permitted ipv6 types
    → Judged c types ipv4_v6
        (permitted ipv4 types || permitted ipv6 types)
        (select c (record { allow_ipv4 = b4; allow_ipv6 = b6; allow_ethernet = z }) ipv4_v6)
unfolding select
double c types true true z k e f =
    (ground arith, λ _. rw k (both (sym e) (sym f)), λ h. absurd (ground arith))
double c types true false z k e f =
    (ground arith, λ _. only_ipv4 (sym e) (sym f), λ h. absurd (ground arith))
double c types false true z k e f =
    (ground arith, λ _. only_ipv6 (sym e) (sym f), λ h. absurd (ground arith))
double c types false false z k e f = (ground arith, λ h. absurd (ground arith), λ _. refl)

select-Judged :
    (c : SmContext) (types : List PduSessionType) (a : Allowed) (requested : PduSessionType)
    → c.est_accept_cause ≡ no_cause
    → a.allow_ipv4 ≡ permitted ipv4 types
    → a.allow_ipv6 ≡ permitted ipv6 types
    → a.allow_ethernet ≡ permitted ethernet types
    → Judged c types requested (servable types requested) (select c a requested)
unfolding select
select-Judged c types a ipv4 k e f g = single c types ipv4 a.allow_ipv4 k e
select-Judged c types a ipv6 k e f g = single c types ipv6 a.allow_ipv6 k f
select-Judged c types a ipv4_v6 k e f g =
    double c types a.allow_ipv4 a.allow_ipv6 a.allow_ethernet k e f
select-Judged c types a ethernet k e f g = single c types ethernet a.allow_ethernet k g
select-Judged c types a unstructured k e f g = (refl, λ h. absurd (ground arith), λ _. refl)
select-Judged c types a other_type k e f g = (refl, λ h. absurd (ground arith), λ _. refl)

allowed_by-Judged :
    (c : SmContext) (types : List PduSessionType) (supported : Supported)
    (requested : PduSessionType)
    → Judged c types requested
        (acceptable types supported && servable types requested)
        (allowed_by c supported requested (some types))
unfolding allowed_by
allowed_by-Judged c types supported requested =
    let (e, f, g) = allow-fields types nothing_allowed in
    let ok = serves-acceptable types (allow types nothing_allowed) supported e f g in
    elim (Bool-cases (acceptable types supported)) [
      | inl good ↦
          rw (ok, good)
            (select-Judged (record c { est_accept_cause = no_cause }) types
              (allow types nothing_allowed) requested refl e f g)
      | inr bad ↦ rw (ok, bad) (refl, λ h. absurd (ground arith), λ _. refl)
    ]

-- A session with a subscription is accepted just where the SMF's own setting and the requested type are
-- both served by the subscribed types. An accepted session is given a permitted type: the requested
-- one, or the permitted half of a requested IPv4v6, with the cause that says so. A refused request
-- leaves the selected type as it was.
pub is_allowed_pdu_session_type_lem :
    (c : SmContext) (types : List PduSessionType) (supported : Supported)
    (requested : PduSessionType)
    → c.allowed_session_types ≡ some types
    → Judged c types requested
        (acceptable types supported && servable types requested)
        (is_allowed_pdu_session_type c supported requested)
unfolding is_allowed_pdu_session_type
is_allowed_pdu_session_type_lem c types supported requested given =
    subst
      (λ o.
        Judged c types requested (acceptable types supported && servable types requested)
          (allowed_by c supported requested o))
      (sym given) (allowed_by-Judged c types supported requested)
