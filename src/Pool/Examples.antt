-- ===== src/Pool/Examples.antt =====
-- The pool on concrete inputs.
use smf_nwdaf_ext.Common.{ℕ, ◌≤◌, ◌≡◌, refl, true, false, [], ◌∷◌, arith, some}
use smf_nwdaf_ext.Pool.{
  Segment, LazyReusePool, relative_position_of, split, new_pool, allocate, use_from, use_value,
  free_loop, free_behind, free_from, free, overlap, reserve, reserved,
}
use smf_nwdaf_ext.Pool.Contents.{covers, copies, count_free, IsValid}
use smf_nwdaf_ext.Pool.Accounting.{
  Allocated, Used, Freed, Reserves, allocate_lem, use_value_lem, free_lem, reserve_lem,
}
use smf_nwdaf_ext.Pool.Ownership.{
  World, Reach, here, next, uses, start, places, Reach-conserves, Reach-frees,
}
use smf_nwdaf_ext.Pool.DoubleFree.{free_twice_refused, free_twice_accepted}

abbrev seg : ℕ → ℕ → Segment
seg a b = record { first = a; last = b }

abbrev ten : LazyReusePool
ten = record { segments = seg 1 10 ∷ []; first = 1; last = 10; remain = 10 }

abbrev scattered : LazyReusePool
scattered = record { segments = seg 4 6 ∷ seg 1 1 ∷ seg 7 7 ∷ []; first = 1; last = 10; remain = 5 }

scattered-IsValid : IsValid scattered
unfolding count_free
scattered-IsValid = omega arith

new_pool-ten : new_pool 1 10 ≡ some ten
unfolding new_pool
new_pool-ten = refl

allocate_lem_example : Allocated scattered (allocate scattered)
allocate_lem_example = allocate_lem scattered scattered-IsValid

use_value_lem_example : Used scattered 5 (use_value scattered 5)
use_value_lem_example = use_value_lem scattered 5 scattered-IsValid

free_lem_example : Freed scattered 9 (free scattered 9)
free_lem_example = free_lem scattered 9 scattered-IsValid

reserve_lem_example : Reserves scattered 5 9 (reserve scattered 5 9)
reserve_lem_example = reserve_lem scattered 5 9 scattered-IsValid

-- The head is cut in two, and the rest of the range is dropped.
reserve-scattered :
    reserve scattered 5 5
    ≡ reserved (record {
      segments = seg 4 4 ∷ seg 6 6 ∷ seg 1 1 ∷ seg 7 7 ∷ [];
      first = 1;
      last = 10;
      remain = 4;
    })
unfolding reserve overlap
reserve-scattered = refl

-- Every address is taken; 4, 7, 1, 5 and 6 come back in that order.
drained : LazyReusePool
drained = record { segments = []; first = 1; last = 10; remain = 0 }

scattered_reached : (free (free (free (free (free drained 4).0 7).0 1).0 5).0 6).0 ≡ scattered
unfolding drained free free_from free_behind free_loop relative_position_of
scattered_reached = refl

free_twice_accepted_example :
    ((free scattered 7).1 ≡ true) × (2 ≤ copies (free scattered 7).0.segments 7)
unfolding copies covers
free_twice_accepted_example =
    free_twice_accepted scattered (seg 4 6) (seg 1 1 ∷ seg 7 7 ∷ []) scattered-IsValid refl
      (omega arith) (omega arith)

abbrev rising : LazyReusePool
rising = record { segments = seg 3 4 ∷ seg 6 6 ∷ seg 8 10 ∷ []; first = 1; last = 10; remain = 6 }

free_twice_refused_example : free rising 9 ≡ (rising, false)
unfolding copies covers
free_twice_refused_example = free_twice_refused rising 9 (omega arith) (omega arith)

abbrev used_five : LazyReusePool
used_five = record { segments = seg 1 4 ∷ seg 6 10 ∷ []; first = 1; last = 10; remain = 9 }

abbrev holder : World
holder = record { pool = used_five; held = 5 ∷ [] }

holder_reached : Reach (start ten) holder
unfolding use_value use_from split relative_position_of
holder_reached = next here (uses 5 used_five refl)

Reach-conserves_example : places holder 5 ≡ 1
Reach-conserves_example = Reach-conserves 1 10 ten holder new_pool-ten holder_reached 5

Reach-frees_example :
    (q : LazyReusePool) × (free used_five 5 ≡ (q, true)) × (copies q.segments 5 ≡ 1)
Reach-frees_example = Reach-frees 1 10 ten holder 5 new_pool-ten holder_reached (omega arith)
