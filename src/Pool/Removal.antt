-- ===== src/Pool/Removal.antt =====
-- The chain edits of `Allocate`, `Use` and `Reserve`: what each takes away.
use smf_nwdaf_ext.Common.{
  ℕ, ◌≤◌, ◌≡◌, refl, subst, inl, inr, List, [], ◌∷◌, arith, ◌==◌, if◌then◌else◌, none, some,
  Option-cases, some_eq,
}
use smf_nwdaf_ext.Pool.{Segment, RelativePos, within, relative_position_of, split, use_from}
use smf_nwdaf_ext.Pool.Contents.{covers, copies, count_free, Proper, Inside, Drops}

within_bounds :
    (s : Segment) (value : ℕ)
    → relative_position_of s value ≡ within
    → (s.first ≤ value) × (value ≤ s.last)
unfolding relative_position_of
within_bounds s value e = ground arith

module _ (lo hi : ℕ) where
  split-Drops :
      (value : ℕ) (s : Segment) (next : List Segment)
      → s.first ≤ value
      → value ≤ s.last
      → Proper (s ∷ next)
      → Inside lo hi (s ∷ next)
      → Drops lo hi value (s ∷ next) (if s.first == s.last then next else (split value s next).0)
  unfolding split copies covers count_free
  split-Drops value s next l h p i = (λ v. ground arith, ground arith, ground arith, ground arith)

  cons-Drops :
      (value : ℕ) (s : Segment) (old new : List Segment)
      → Proper (s ∷ old)
      → Inside lo hi (s ∷ old)
      → Drops lo hi value old new
      → Drops lo hi value (s ∷ old) (s ∷ new)
  unfolding copies count_free
  cons-Drops value s old new p i d =
      (λ v. omega (arith, d.0 v), (p.0, d.1), (i.0, i.1, d.2), omega (arith, d.3))

  use_from-Drops :
      (value : ℕ) (cur : Segment) (next new : List Segment) (pos : RelativePos)
      → relative_position_of cur value ≡ pos
      → Proper (cur ∷ next)
      → Inside lo hi (cur ∷ next)
      → use_from value (cur ∷ next) ≡ some new
      → Drops lo hi value (cur ∷ next) new
  unfolding use_from
  use_from-Drops value cur next new within pe p i e =
      subst (Drops lo hi value (cur ∷ next)) (some_eq (rw (pe, use_from) at e)) (
        split-Drops value cur next (within_bounds cur value pe).0 (within_bounds cur value pe).1 p
          i)
  use_from-Drops value cur [] new _ pe p i e = absurd (ground arith)
  use_from-Drops value cur (n ∷ next) new _ pe p i e =
      elim (Option-cases (use_from value (n ∷ next))) [
        | inl stuck ↦ ground arith
        | inr (rest, found) ↦ subst (Drops lo hi value (cur ∷ n ∷ next)) (ground arith) (
            cons-Drops value cur (n ∷ next) rest p i
              (use_from-Drops value n next rest (relative_position_of n value) refl p.1 i.2 found))
      ]

  -- `Use` of a value that some segment holds takes it out of the chain, once.
  pub use_from-some :
      (value : ℕ) (segments new : List Segment)
      → Proper segments
      → Inside lo hi segments
      → use_from value segments ≡ some new
      → Drops lo hi value segments new
  unfolding use_from
  use_from-some value [] new p i e = cc
  use_from-some value (s ∷ next) new p i e =
      use_from-Drops value s next new (relative_position_of s value) refl p i e

-- `Use` fails only when no segment holds the value.
pub use_from_refused :
    (value : ℕ) (segments : List Segment)
    → use_from value segments ≡ none
    → copies segments value ≡ 0
unfolding use_from copies covers relative_position_of
use_from_refused value [] e = refl
use_from_refused value (s ∷ next) e = ground (arith, use_from_refused value next)
