-- ===== src/UeIpPool/Overlap.antt =====
-- `isOverlap` decides whether some address belongs to two pools.
use smf_nwdaf_ext.Common.{
  ℕ, ◌+◌, ◌≤◌, ◌<◌, ◌≡◌, ◌↔◌, refl, inl, inr, true, false, List, [], ◌∷◌, arith, leb, ◌&&◌,
  if◌then◌else◌, Bool-cases, length,
}
use smf_nwdaf_ext.Pool.{is_joint}
use smf_nwdaf_ext.UeIpPool.{UeIpPool, joint_with, overlap_from, is_overlap}

-- How many of the pools have a value in their range.
abbrev pub owners : ℕ → List UeIpPool → ℕ
owners v [] = 0
owners v (p ∷ pools) = (if leb p.pool.first v && leb v p.pool.last then 1 else 0) + owners v pools

abbrev pub Ranged : List UeIpPool → Type 0
Ranged [] = Unit {0}
Ranged (p ∷ pools) = (p.pool.first ≤ p.pool.last) × Ranged pools

apart :
    (p : UeIpPool) (pools : List UeIpPool) (v : ℕ)
    → joint_with p pools ≡ false
    → p.pool.first ≤ v
    → v ≤ p.pool.last
    → owners v pools ≡ 0
unfolding joint_with is_joint
apart p [] v e l h = refl
apart p (q ∷ pools) v e l h = ground (arith, apart p pools v)

overlap_from-false :
    (pools : List UeIpPool) (v : ℕ) → overlap_from pools ≡ false → owners v pools ≤ 1
unfolding overlap_from
overlap_from-false [] v e = omega arith
overlap_from-false (p ∷ pools) v e = ground (arith, apart p pools v, overlap_from-false pools v)

-- A value that two pools share.
abbrev pub Shared : List UeIpPool → Type 0
Shared pools = (v : ℕ) × (2 ≤ owners v pools)

meet :
    (p : UeIpPool) (pools : List UeIpPool)
    → p.pool.first ≤ p.pool.last
    → Ranged pools
    → joint_with p pools ≡ true
    → (v : ℕ) × (p.pool.first ≤ v) × (v ≤ p.pool.last) × (1 ≤ owners v pools)
unfolding joint_with is_joint
meet p [] o r e = cc
meet p (q ∷ pools) o r e = elim (Bool-cases (is_joint p.pool q.pool)) [
  | inl joint ↦ elim (Bool-cases (leb p.pool.first q.pool.first)) [
    | inl low ↦ (q.pool.first, ground arith, ground arith, ground arith)
    | inr high ↦ (p.pool.first, ground arith, ground arith, ground arith)
  ]
  | inr far ↦ let (v, l, h, n) = meet p pools o r.1 (ground arith) in (v, l, h, omega arith)
]

overlap_from-true :
    (pools : List UeIpPool) → Ranged pools → overlap_from pools ≡ true → Shared pools
unfolding overlap_from
overlap_from-true [] r e = cc
overlap_from-true (p ∷ pools) r e = elim (Bool-cases (joint_with p pools)) [
  | inl joint ↦ let (v, l, h, n) = meet p pools r.0 r.1 joint in (v, ground arith)
  | inr far ↦ let (v, n) = overlap_from-true pools r.1 (ground arith) in (v, omega arith)
]

few : (pools : List UeIpPool) (v : ℕ) → length pools < 2 → owners v pools ≤ 1
few [] v h = omega arith
few (p ∷ []) v h = ground arith
few (p ∷ q ∷ pools) v h = absurd (omega arith)

no_overlap_from :
    (pools : List UeIpPool)
    → Ranged pools
    → ((v : ℕ) → owners v pools ≤ 1)
    → overlap_from pools ≡ false
no_overlap_from pools r single = elim (Bool-cases (overlap_from pools)) [
  | inl joint ↦ let (v, n) = overlap_from-true pools r joint in absurd (omega (arith, single v))
  | inr e ↦ e
]

-- `isOverlap` answers false exactly when no address lies in the ranges of two pools of the list,
-- for pools whose range is not empty.
pub is_overlap-false_iff :
    (pools : List UeIpPool)
    → Ranged pools
    → (is_overlap pools ≡ false) ↔ ((v : ℕ) → owners v pools ≤ 1)
unfolding is_overlap
is_overlap-false_iff pools r = (
  λ e v. ground (arith, overlap_from-false pools v, few pools v),
  λ single. ground (arith, no_overlap_from pools r single),
)
