-- ===== src/Pool/Insertion.antt =====
-- The chain edits of `Free`: each adds the value, once, wherever it puts it.
use smf_nwdaf_ext.Common.{
  ℕ, ◌+◌, ◌≤◌, ◌<◌, ◌≡◌, refl, subst, inl, inr, List, [], ◌∷◌, arith, none, some, Option-cases,
  some_eq,
}
use smf_nwdaf_ext.Pool.{
  Segment, RelativePos, within, adjacent_front, adjacent_back, before, after, relative_position_of,
  extend_last, free_loop, free_behind, free_from, new_single_segment,
}
use smf_nwdaf_ext.Pool.Contents.{covers, copies, count_free, Proper, Inside, Adds}

module _ (lo hi : ℕ) where
  extend_last-Adds :
      (s : Segment) (next : List Segment)
      → Proper (s ∷ next)
      → Inside lo hi (s ∷ next)
      → s.last + 1 ≤ hi
      → Adds lo hi (s.last + 1) (s ∷ next) (extend_last s next)
  unfolding extend_last copies covers count_free
  extend_last-Adds s [] p i h = record {
    held = λ v. ground arith;
    proper = ground arith;
    inside = ground arith;
    counted = ground arith;
  }
  extend_last-Adds s (n ∷ next) p i h = record {
    held = λ v. ground arith;
    proper = ground arith;
    inside = ground arith;
    counted = ground arith;
  }

  single-Adds :
      (value : ℕ) (segments : List Segment)
      → lo ≤ value
      → value ≤ hi
      → Proper segments
      → Inside lo hi segments
      → Adds lo hi value segments (new_single_segment value ∷ segments)
  unfolding copies covers count_free
  single-Adds value segments l h p i = record {
    held = λ v. ground arith;
    proper = (omega arith, p);
    inside = (l, h, i);
    counted = omega arith;
  }

  cons-Adds :
      (value : ℕ) (s : Segment) (old new : List Segment)
      → Proper (s ∷ old)
      → Inside lo hi (s ∷ old)
      → Adds lo hi value old new
      → Adds lo hi value (s ∷ old) (s ∷ new)
  unfolding copies count_free
  cons-Adds value s old new p i a = record {
    held = λ v. omega (arith, a.held v);
    proper = (p.0, a.proper);
    inside = (i.0, i.1, a.inside);
    counted = omega (arith, a.counted);
  }

  -- Where each answer of `relativePosisionOf` puts the value.
  abbrev Placed : Segment → ℕ → RelativePos → Type 0
  Placed s value within = (s.first ≤ value) × (value ≤ s.last)
  Placed s value adjacent_front = value + 1 ≡ s.first
  Placed s value adjacent_back = value ≡ s.last + 1
  Placed s value before = value + 1 < s.first
  Placed s value after = s.last + 1 < value

  position-Placed :
      (s : Segment) (value : ℕ) (pos : RelativePos)
      → relative_position_of s value ≡ pos
      → Placed s value pos
  unfolding relative_position_of
  position-Placed s value within e = ground arith
  position-Placed s value _ e = ground arith

  grow_front-Adds :
      (s : Segment) (value : ℕ) (next : List Segment)
      → value + 1 ≡ s.first
      → lo ≤ value
      → Proper (s ∷ next)
      → Inside lo hi (s ∷ next)
      → Adds lo hi value (s ∷ next) (record s { first = value } ∷ next)
  unfolding copies covers count_free
  grow_front-Adds s value next e l p i = record {
    held = λ v. ground arith;
    proper = ground arith;
    inside = ground arith;
    counted = ground arith;
  }

  grow_back-Adds :
      (s : Segment) (value : ℕ) (next : List Segment)
      → value ≡ s.last + 1
      → value ≤ hi
      → Proper (s ∷ next)
      → Inside lo hi (s ∷ next)
      → Adds lo hi value (s ∷ next) (extend_last s next)
  grow_back-Adds s value next e h p i = rw e (extend_last-Adds s next p i (omega arith))

  free_loop-Adds :
      (value : ℕ) (cur : Segment) (next new : List Segment) (pos : RelativePos)
      → relative_position_of cur value ≡ pos
      → lo ≤ value
      → value ≤ hi
      → Proper (cur ∷ next)
      → Inside lo hi (cur ∷ next)
      → free_loop value (cur ∷ next) ≡ some new
      → Adds lo hi value (cur ∷ next) new
  unfolding free_loop
  free_loop-Adds value cur next new before pe l h p i e =
      subst (Adds lo hi value (cur ∷ next)) (some_eq (rw (pe, free_loop) at e))
        (single-Adds value (cur ∷ next) l h p i)
  free_loop-Adds value cur next new adjacent_front pe l h p i e =
      subst (Adds lo hi value (cur ∷ next)) (some_eq (rw (pe, free_loop) at e))
        (grow_front-Adds cur value next (position-Placed cur value adjacent_front pe) l p i)
  free_loop-Adds value cur next new within pe l h p i e = cc
  free_loop-Adds value cur next new adjacent_back pe l h p i e =
      subst (Adds lo hi value (cur ∷ next)) (some_eq (rw (pe, free_loop) at e))
        (grow_back-Adds cur value next (position-Placed cur value adjacent_back pe) h p i)
  free_loop-Adds value cur [] new after pe l h p i e =
      subst (Adds lo hi value (cur ∷ [])) (some_eq (rw (pe, free_loop) at e)) (
        cons-Adds value cur [] (new_single_segment value ∷ []) p i (single-Adds value [] l h tt tt))
  free_loop-Adds value cur (n ∷ next) new after pe l h p i e =
      elim (Option-cases (free_loop value (n ∷ next))) [
        | inl stuck ↦ ground arith
        | inr (rest, found) ↦ subst (Adds lo hi value (cur ∷ n ∷ next)) (ground arith) (
            cons-Adds value cur (n ∷ next) rest p i (
              free_loop-Adds value n next rest (relative_position_of n value) refl l h p.1 i.2
                found))
      ]

  free_behind-Adds :
      (value : ℕ) (head : Segment) (next new : List Segment)
      → lo ≤ value
      → value ≤ hi
      → Proper (head ∷ next)
      → Inside lo hi (head ∷ next)
      → free_behind value head next ≡ some new
      → Adds lo hi value (head ∷ next) new
  unfolding free_behind
  free_behind-Adds value head [] new l h p i e =
      subst (Adds lo hi value (head ∷ [])) (some_eq e) (
        cons-Adds value head [] (new_single_segment value ∷ []) p i
          (single-Adds value [] l h tt tt))
  free_behind-Adds value head (n ∷ next) new l h p i e =
      elim (Option-cases (free_loop value (n ∷ next))) [
        | inl stuck ↦ ground arith
        | inr (rest, found) ↦ subst (Adds lo hi value (head ∷ n ∷ next)) (ground arith) (
            cons-Adds value head (n ∷ next) rest p i (
              free_loop-Adds value n next rest (relative_position_of n value) refl l h p.1 i.2
                found))
      ]

  free_head-Adds :
      (value : ℕ) (head : Segment) (next new : List Segment) (pos : RelativePos)
      → relative_position_of head value ≡ pos
      → lo ≤ value
      → value ≤ hi
      → Proper (head ∷ next)
      → Inside lo hi (head ∷ next)
      → free_from value (head ∷ next) ≡ some new
      → Adds lo hi value (head ∷ next) new
  unfolding free_from
  free_head-Adds value head next new within pe l h p i e = cc
  free_head-Adds value head next new adjacent_back pe l h p i e =
      subst (Adds lo hi value (head ∷ next)) (some_eq (rw (pe, free_from) at e))
        (grow_back-Adds head value next (position-Placed head value adjacent_back pe) h p i)
  free_head-Adds value head next new _ pe l h p i e =
      free_behind-Adds value head next new l h p i (rw (pe, free_from) at e)

  -- `Free` inside the pool's range adds the value to the chain, wherever it puts it.
  pub free_from-Adds :
      (value : ℕ) (segments new : List Segment)
      → lo ≤ value
      → value ≤ hi
      → Proper segments
      → Inside lo hi segments
      → free_from value segments ≡ some new
      → Adds lo hi value segments new
  unfolding free_from
  free_from-Adds value [] new l h p i e =
      subst (Adds lo hi value []) (some_eq e) (single-Adds value [] l h tt tt)
  free_from-Adds value (s ∷ next) new l h p i e =
      free_head-Adds value s next new (relative_position_of s value) refl l h p i e

-- `Free` refuses a value only if some segment holds it.
free_loop_refused :
    (value : ℕ) (segments : List Segment)
    → free_loop value segments ≡ none
    → 1 ≤ copies segments value
unfolding free_loop copies covers relative_position_of
free_loop_refused value [] e = cc
free_loop_refused value (cur ∷ []) e = ground arith
free_loop_refused value (cur ∷ n ∷ next) e = ground (arith, free_loop_refused value (n ∷ next))

free_behind_refused :
    (value : ℕ) (head : Segment) (next : List Segment)
    → free_behind value head next ≡ none
    → 1 ≤ copies (head ∷ next) value
unfolding free_behind copies
free_behind_refused value head [] e = cc
free_behind_refused value head (n ∷ next) e = ground (arith, free_loop_refused value (n ∷ next))

pub free_from_refused :
    (value : ℕ) (segments : List Segment)
    → free_from value segments ≡ none
    → 1 ≤ copies segments value
unfolding free_from copies covers relative_position_of
free_from_refused value [] e = cc
free_from_refused value (s ∷ next) e = ground (arith, free_behind_refused value s next)
