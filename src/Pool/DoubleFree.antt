-- ===== src/Pool/DoubleFree.antt =====
-- A second `Free` of one value: when the pool refuses it, and when it does not.
use smf_nwdaf_ext.Common.{
  ℕ, ◌+◌, ◌≤◌, ◌<◌, ◌≡◌, subst, inl, inr, true, false, List, [], ◌∷◌, arith, none, some,
}
use smf_nwdaf_ext.Pool.{
  Segment, LazyReusePool, relative_position_of, extend_last, free_loop, free_behind, free_from,
  free,
}
use smf_nwdaf_ext.Pool.Contents.{covers, copies, Proper, Inside, IsValid}
use smf_nwdaf_ext.Pool.Accounting.{free_lem}

-- Segments in rising order, with a gap between any two.
abbrev pub IsAscending : List Segment → Type 0
IsAscending [] = Unit {0}
IsAscending (s ∷ []) = s.first ≤ s.last
IsAscending (s ∷ n ∷ next) = (s.first ≤ s.last) × (s.last + 1 < n.first) × IsAscending (n ∷ next)

below_ascending :
    (v : ℕ) (s : Segment) (next : List Segment)
    → IsAscending (s ∷ next)
    → v < s.first
    → copies (s ∷ next) v ≡ 0
unfolding copies covers
below_ascending v s [] a h = ground arith
below_ascending v s (n ∷ next) a h = ground (arith, below_ascending v n next a.2)

free_loop_twice :
    (value : ℕ) (s : Segment) (next : List Segment)
    → IsAscending (s ∷ next)
    → 1 ≤ copies (s ∷ next) value
    → free_loop value (s ∷ next) ≡ none
unfolding free_loop copies covers relative_position_of
free_loop_twice value s [] a h = ground arith
free_loop_twice value s (n ∷ next) a h =
    ground (arith, free_loop_twice value n next a.2, below_ascending value n next a.2)

free_from_twice :
    (value : ℕ) (segments : List Segment)
    → IsAscending segments
    → 1 ≤ copies segments value
    → free_from value segments ≡ none
unfolding free_from free_behind copies covers relative_position_of
free_from_twice value [] a h = absurd (omega arith)
free_from_twice value (s ∷ []) a h = ground arith
free_from_twice value (s ∷ n ∷ next) a h =
    ground (arith, free_loop_twice value n next a.2, below_ascending value n next a.2)

-- While the chain is in rising order, head included, with a gap between any two segments, `Free`
-- refuses every value that is free already, and leaves the pool as it was.
pub free_twice_refused :
    (p : LazyReusePool) (value : ℕ)
    → IsAscending p.segments
    → 1 ≤ copies p.segments value
    → free p value ≡ (p, false)
unfolding free
free_twice_refused p value a h = ground (arith, free_from_twice value p.segments a h)

free_from_back :
    (head : Segment) (next : List Segment)
    → head.first ≤ head.last
    → free_from (head.last + 1) (head ∷ next) ≡ some (extend_last head next)
unfolding free_from relative_position_of
free_from_back head next h = ground arith

accepts_back :
    (p : LazyReusePool) (head : Segment) (next : List Segment)
    → IsValid p
    → p.segments ≡ head ∷ next
    → head.last + 1 ≤ p.last
    → (free p (head.last + 1)).1 ≡ true
unfolding free
accepts_back p head next v e h =
    let proper : Proper (head ∷ next) = subst Proper e v.proper in
    let inside : Inside p.first p.last (head ∷ next) = subst (Inside p.first p.last) e v.inside in
    let found : free_from (head.last + 1) p.segments ≡ some (extend_last head next) =
      rw e (free_from_back head next proper.0) in
    ground arith

-- `Free` looks for a duplicate in the head only, before it extends the head: a value that follows
-- the head and is free in a later segment is accepted again, and then stands in the pool twice.
pub free_twice_accepted :
    (p : LazyReusePool) (head : Segment) (next : List Segment)
    → IsValid p
    → p.segments ≡ head ∷ next
    → head.last + 1 ≤ p.last
    → 1 ≤ copies next (head.last + 1)
    → ((free p (head.last + 1)).1 ≡ true)
      × (2 ≤ copies (free p (head.last + 1)).0.segments (head.last + 1))
unfolding copies
free_twice_accepted p head next v e h c =
    let accepted = accepts_back p head next v e h in
    let free_before : 1 ≤ copies p.segments (head.last + 1) = rw e (omega arith) in
    elim (free_lem p (head.last + 1) v) [
      | inl (_, refused) ↦ absurd (ground arith)
      | inr (q, done, _, _, g) ↦ (accepted, ground (arith, g.held (head.last + 1)))
    ]
