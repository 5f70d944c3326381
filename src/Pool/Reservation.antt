-- ===== src/Pool/Reservation.antt =====
-- The loop of `Reserve`: it ends within its fuel, and takes exactly the reserved range away.
use smf_nwdaf_ext.Common.{
  ℕ, zero, suc, ◌+◌, ◌-◌, ◌*◌, ◌≤◌, ◌≡◌, refl, subst, ◌&&◌, List, [], ◌∷◌, arith, ltb, leb,
  if◌then◌else◌, Option, some, length,
}
use smf_nwdaf_ext.Pool.{Segment, Overlap, front, back, inside, whole, apart, overlap, reserve_loop}
use smf_nwdaf_ext.Pool.Contents.{covers, copies, count_free, Proper, Inside}

-- A segment that the range cuts in two is visited again as its second half.
abbrev visits : ℕ → ℕ → Segment → ℕ
visits first last s = if ltb s.first first && ltb last s.last then 2 else 1

abbrev rounds : ℕ → ℕ → List Segment → ℕ
rounds first last [] = 0
rounds first last (s ∷ next) = visits first last s + rounds first last next

pub rounds-le :
    (first last : ℕ) (segments : List Segment) → rounds first last segments ≤ 2 * length segments
rounds-le first last [] = omega arith
rounds-le first last (s ∷ next) = ground (arith, rounds-le first last next)

abbrev pub outside : ℕ → ℕ → ℕ → ℕ → ℕ
outside first last v n = if leb first v && leb v last then 0 else n

-- What a run of the loop from `remain` over `old` has as its result.
pub record Clears (lo hi first last remain : ℕ) (old new : List Segment) (left : ℕ) : Type 0 where
  pub held : (v : ℕ) → copies new v ≡ outside first last v (copies old v)
  pub proper : Proper new
  pub inside : Inside lo hi new
  pub counted : remain + count_free new ≡ left + count_free old

abbrev pub Cleared : ℕ → ℕ → ℕ → ℕ → ℕ → List Segment → Option (List Segment × ℕ) → Type 0
Cleared lo hi first last remain old result =
    (new : List Segment) × (left : ℕ) × (result ≡ some (new, left))
    × Clears lo hi first last remain old new left

module _ (lo hi first last : ℕ) (ordered : first ≤ last) where
  -- What is left of a segment stands in front of what is left of the others.
  trim-Clears :
      (remain cut left : ℕ) (cur piece : Segment) (next new : List Segment)
      → ((v : ℕ) → covers piece v ≡ outside first last v (covers cur v))
      → piece.first ≤ piece.last
      → lo ≤ piece.first
      → piece.last ≤ hi
      → piece.last + 1 - piece.first + cut ≡ cur.last + 1 - cur.first
      → count_free (cur ∷ next) ≤ remain
      → Clears lo hi first last (remain - cut) next new left
      → Clears lo hi first last remain (cur ∷ next) (piece ∷ new) left
  unfolding copies count_free
  trim-Clears remain cut left cur piece next new h p l u s c d = record {
    held = λ v. ground (arith, h v, d.held v);
    proper = (p, d.proper);
    inside = (l, u, d.inside);
    counted = omega (arith, d.counted);
  }

  trim_front :
      (remain left : ℕ) (cur : Segment) (next new : List Segment)
      → overlap first last cur ≡ front
      → Inside lo hi (cur ∷ next)
      → count_free (cur ∷ next) ≤ remain
      → Clears lo hi first last (remain - (last - cur.first + 1)) next new left
      → Clears lo hi first last remain (cur ∷ next) (record cur { first = last + 1 } ∷ new) left
  unfolding overlap covers
  trim_front remain left cur next new oe i c d =
      trim-Clears remain (last - cur.first + 1) left cur (record cur { first = last + 1 }) next new
        (λ v. ground arith) (ground arith) (ground arith) (ground arith) (ground arith) c d

  trim_back :
      (remain left : ℕ) (cur : Segment) (next new : List Segment)
      → overlap first last cur ≡ back
      → Inside lo hi (cur ∷ next)
      → count_free (cur ∷ next) ≤ remain
      → Clears lo hi first last (remain - (cur.last - first + 1)) next new left
      → Clears lo hi first last remain (cur ∷ next) (record cur { last = first - 1 } ∷ new) left
  unfolding overlap covers
  trim_back remain left cur next new oe i c d =
      trim-Clears remain (cur.last - first + 1) left cur (record cur { last = first - 1 }) next new
        (λ v. ground arith) (ground arith) (ground arith) (ground arith) (ground arith) c d

  trim_none :
      (remain left : ℕ) (cur : Segment) (next new : List Segment)
      → overlap first last cur ≡ apart
      → Proper (cur ∷ next)
      → Inside lo hi (cur ∷ next)
      → count_free (cur ∷ next) ≤ remain
      → Clears lo hi first last remain next new left
      → Clears lo hi first last remain (cur ∷ next) (cur ∷ new) left
  unfolding overlap covers
  trim_none remain left cur next new oe p i c d =
      trim-Clears remain 0 left cur cur next new (λ v. ground arith) p.0 i.0 i.1 (omega arith) c
        (subst (λ r. Clears lo hi first last r next new left) (omega arith) d)

  drop_whole :
      (remain left : ℕ) (cur : Segment) (next new : List Segment)
      → overlap first last cur ≡ whole
      → Proper (cur ∷ next)
      → count_free (cur ∷ next) ≤ remain
      → Clears lo hi first last (remain - (cur.last - cur.first + 1)) next new left
      → Clears lo hi first last remain (cur ∷ next) new left
  unfolding overlap covers copies count_free
  drop_whole remain left cur next new oe p c d = record {
    held = λ v. ground (arith, d.held v);
    proper = d.proper;
    inside = d.inside;
    counted = ground (arith, d.counted);
  }

  cut_inside :
      (remain left : ℕ) (cur : Segment) (next new : List Segment)
      → overlap first last cur ≡ inside
      → Inside lo hi (cur ∷ next)
      → count_free (cur ∷ next) ≤ remain
      → Clears lo hi first last
          (remain - (last - first + 1))
          (record { first = last + 1; last = cur.last } ∷ next)
          new
          left
      → Clears lo hi first last remain (cur ∷ next) (record cur { last = first - 1 } ∷ new) left
  unfolding overlap covers copies count_free
  cut_inside remain left cur next new oe i c d = record {
    held = λ v. ground (arith, d.held v);
    proper = ground (arith, d.proper);
    inside = ground (arith, d.inside);
    counted = ground (arith, d.counted);
  }

  -- What one round needs of the rest of the loop.
  abbrev Ends : ℕ → Type 0
  Ends fuel =
      (remain : ℕ) (segments : List Segment)
      → rounds first last segments ≤ fuel
      → Proper segments
      → Inside lo hi segments
      → count_free segments ≤ remain
      → Cleared lo hi first last remain segments (reserve_loop fuel first last remain segments)

  abbrev second_half : Segment → Segment
  second_half cur = record { first = last + 1; last = cur.last }

  -- After a round the rest has its fuel, and `remain` still covers it.
  abbrev Room : ℕ → ℕ → Segment → List Segment → Overlap → Type 0
  Room fuel remain cur next front =
      (rounds first last next ≤ fuel) × (count_free next ≤ remain - (last - cur.first + 1))
  Room fuel remain cur next back =
      (rounds first last next ≤ fuel) × (count_free next ≤ remain - (cur.last - first + 1))
  Room fuel remain cur next inside =
      (rounds first last (second_half cur ∷ next) ≤ fuel)
      × (count_free (second_half cur ∷ next) ≤ remain - (last - first + 1))
      × (last + 1 ≤ cur.last)
      × (first ≤ last + 1)
      × (cur.first ≤ last + 1)
  Room fuel remain cur next whole =
      (rounds first last next ≤ fuel) × (count_free next ≤ remain - (cur.last - cur.first + 1))
  Room fuel remain cur next apart = (rounds first last next ≤ fuel) × (count_free next ≤ remain)

  round-Room :
      (fuel remain : ℕ) (cur : Segment) (next : List Segment) (o : Overlap)
      → overlap first last cur ≡ o
      → rounds first last (cur ∷ next) ≤ suc fuel
      → cur.first ≤ cur.last
      → count_free (cur ∷ next) ≤ remain
      → Room fuel remain cur next o
  unfolding overlap count_free
  round-Room fuel remain cur next front oe k p c = ground arith
  round-Room fuel remain cur next _ oe k p c = ground arith

  round-Cleared :
      (fuel remain : ℕ) (cur : Segment) (next : List Segment) (o : Overlap)
      → overlap first last cur ≡ o
      → Room fuel remain cur next o
      → Proper (cur ∷ next)
      → Inside lo hi (cur ∷ next)
      → count_free (cur ∷ next) ≤ remain
      → Ends fuel
      → Cleared lo hi first last remain
          (cur ∷ next)
          (reserve_loop (suc fuel) first last remain (cur ∷ next))
  unfolding reserve_loop
  round-Cleared fuel remain cur next front oe k p i c rec =
      let (new, left, e, d) = rec (remain - (last - cur.first + 1)) next k.0 p.1 i.2 k.1 in
      (_, left, rw (oe, reserve_loop, e), trim_front remain left cur next new oe i c d)
  round-Cleared fuel remain cur next back oe k p i c rec =
      let (new, left, e, d) = rec (remain - (cur.last - first + 1)) next k.0 p.1 i.2 k.1 in
      (_, left, rw (oe, reserve_loop, e), trim_back remain left cur next new oe i c d)
  round-Cleared fuel remain cur next inside oe k p i c rec =
      let (new, left, e, d) =
        rec (remain - (last - first + 1)) (second_half cur ∷ next) k.0 (k.2, p.1)
          (omega arith, i.1, i.2) k.1 in
      (_, left, rw (oe, reserve_loop, e), cut_inside remain left cur next new oe i c d)
  round-Cleared fuel remain cur next whole oe k p i c rec =
      let (new, left, e, d) = rec (remain - (cur.last - cur.first + 1)) next k.0 p.1 i.2 k.1 in
      (new, left, rw (oe, reserve_loop, e), drop_whole remain left cur next new oe p c d)
  round-Cleared fuel remain cur next apart oe k p i c rec =
      let (new, left, e, d) = rec remain next k.0 p.1 i.2 k.1 in
      (_, left, rw (oe, reserve_loop, e), trim_none remain left cur next new oe p i c d)

  -- With fuel for one round per segment and one more per cut, the loop ends and clears the range.
  pub loop-Cleared : (fuel : ℕ) → Ends fuel
  unfolding reserve_loop copies count_free
  loop-Cleared fuel remain [] k p i c = (
    [],
    remain,
    refl,
    record { held = λ v. ground arith; proper = tt; inside = tt; counted = refl },
  )
  loop-Cleared zero remain (cur ∷ next) k p i c = absurd (ground arith)
  loop-Cleared (suc fuel) remain (cur ∷ next) k p i c =
      round-Cleared fuel remain cur next (overlap first last cur) refl
        (round-Room fuel remain cur next (overlap first last cur) refl k p.0 c) p i c
        (loop-Cleared fuel)
