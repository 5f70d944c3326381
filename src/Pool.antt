-- ===== src/Pool.antt =====
-- internal/context/pool/lazyReusePool.go: the pool of addresses that reuses a freed value late.
-- The linked list of segments is a list, its head first. The Go ints are the addresses of a UE
-- subnet, none negative, so `value < s.first-1` is written `value + 1 < s.first`; each subtraction
-- stands behind a test, or behind the invariant of Pool/Contents, that keeps it above 0.
-- A method runs under the pool's mutex, so it is one step; it returns the new pool and its result.
pub mod Contents
pub mod Insertion
pub mod Removal
pub mod Reservation
pub mod Accounting
pub mod Ownership
pub mod DoubleFree
pub mod Examples
use smf_nwdaf_ext.Common.{
  ℕ, zero, suc, ◌+◌, ◌-◌, ◌*◌, Bool, true, false, ◌&&◌, ◌||◌, Option, none, some, List, [], ◌∷◌,
  ltb, leb, ◌==◌, if◌then◌else◌, length,
}
use mathlib.Core.Option

pub record Segment : Type 0 where
  pub first : ℕ
  pub last : ℕ

pub record LazyReusePool : Type 0 where
  pub segments : List Segment
  pub first : ℕ
  pub last : ℕ
  pub remain : ℕ

pub data RelativePos : Type 0 where
  within adjacent_front adjacent_back before after : RelativePos

pub relative_position_of : Segment → ℕ → RelativePos
relative_position_of s value =
    if ltb (value + 1) s.first
    then before
    else if value + 1 == s.first
    then adjacent_front
    else if leb s.first value && leb value s.last
    then within
    else if value == s.last + 1
    then adjacent_back
    else after

abbrev pub new_single_segment : ℕ → Segment
new_single_segment num = record { first = num; last = num }

-- `split` on a segment and what follows it: the chain that stands there afterwards.
pub split : ℕ → Segment → List Segment → List Segment × Bool
split use_value s next =
    if ltb use_value s.first || ltb s.last use_value
    then (s ∷ next, false)
    else if use_value == s.first
    then (record s { first = s.first + 1 } ∷ next, true)
    else if use_value == s.last
    then (record s { last = s.last - 1 } ∷ next, true)
    else (
      record s { last = use_value - 1 } ∷ record { first = use_value + 1; last = s.last } ∷ next,
      true,
    )

-- `extendLast` on a segment and what follows it.
pub extend_last : Segment → List Segment → List Segment
extend_last s [] = record s { last = s.last + 1 } ∷ []
extend_last s (n ∷ next) =
    if s.last + 1 + 1 == n.first
    then record s { last = n.last } ∷ next
    else record s { last = s.last + 1 } ∷ n ∷ next

unfoldable pub new_pool : ℕ → ℕ → Option LazyReusePool
new_pool first last =
    if ltb last first
    then none
    else some (record {
      segments = record { first = first; last = last } ∷ [];
      first = first;
      last = last;
      remain = last - first + 1;
    })

-- `head.first++`, and the head is left behind when that empties it.
pub advance : Segment → List Segment → List Segment
advance s next = if ltb s.last (s.first + 1) then next else record s { first = s.first + 1 } ∷ next

pub allocate_from : LazyReusePool → List Segment → LazyReusePool × Option ℕ
unfolding advance
allocate_from p [] = (p, none)
allocate_from p (s ∷ next) =
    (record p { segments = advance s next; remain = p.remain - 1 }, some s.first)

-- `none` is `ok == false`.
unfoldable pub allocate : LazyReusePool → LazyReusePool × Option ℕ
unfolding allocate_from
allocate p = allocate_from p p.segments

-- The loop of `Use`: `none` when no segment holds the value.
unfoldable pub use_from : ℕ → List Segment → Option (List Segment)
unfolding relative_position_of split
use_from value [] = none
use_from value (cur ∷ next) = elim (relative_position_of cur value) [
  | within ↦ some (if cur.first == cur.last then next else (split value cur next).0)
  | _ ↦ Option.map (λ rest. cur ∷ rest) (use_from value next)
]

unfoldable pub use_value : LazyReusePool → ℕ → LazyReusePool × Bool
use_value p value = elim (use_from value p.segments) [
  | none ↦ (p, false)
  | some segments ↦ (record p { segments = segments; remain = p.remain - 1 }, true)
]

-- The loop of `Free` behind the head: `none` when the value is found to be free already.
pub free_loop : ℕ → List Segment → Option (List Segment)
unfolding relative_position_of extend_last
free_loop value [] = some []
free_loop value (cur ∷ next) =
    let rest = Option.map (λ segments. cur ∷ segments) (free_loop value next) in
    elim (relative_position_of cur value) [
      | before ↦ some (new_single_segment value ∷ cur ∷ next)
      | adjacent_front ↦ some (record cur { first = value } ∷ next)
      | within ↦ none
      | adjacent_back ↦ some (extend_last cur next)
      | after ↦ elim next [ [] ↦ some (cur ∷ new_single_segment value ∷ []) | _ ∷ _ ↦ rest ]
    ]

-- `Free` at a value that the head neither holds nor ends before: it goes behind the head.
pub free_behind : ℕ → Segment → List Segment → Option (List Segment)
unfolding free_loop
free_behind value head [] = some (head ∷ new_single_segment value ∷ [])
free_behind value head (cur ∷ next) =
    Option.map (λ segments. head ∷ segments) (free_loop value (cur ∷ next))

-- `Free` once the value is known to lie in the pool's range.
pub free_from : ℕ → List Segment → Option (List Segment)
unfolding relative_position_of extend_last free_behind
free_from value [] = some (new_single_segment value ∷ [])
free_from value (head ∷ next) = elim (relative_position_of head value) [
  | within ↦ none
  | adjacent_back ↦ some (extend_last head next)
  | _ ↦ free_behind value head next
]

pub free : LazyReusePool → ℕ → LazyReusePool × Bool
free p value =
    if ltb value p.first || ltb p.last value
    then (p, false)
    else elim (free_from value p.segments) [
      | none ↦ (p, false)
      | some segments ↦ (record p { segments = segments; remain = p.remain + 1 }, true)
    ]

pub contains : LazyReusePool → ℕ → ℕ → Bool
contains p first last = leb first last && leb p.first first && leb last p.last

-- The cases of the switch in `Reserve`, in its order.
pub data Overlap : Type 0 where
  front back inside whole apart : Overlap

pub overlap : ℕ → ℕ → Segment → Overlap
overlap first last cur =
    if leb first cur.first && leb cur.first last && ltb last cur.last
    then front
    else if ltb cur.first first && leb first cur.last && leb cur.last last
    then back
    else if ltb cur.first first && ltb last cur.last
    then inside
    else if leb first cur.first && leb cur.last last
    then whole
    else apart

abbrev cons_to : Segment → Option (List Segment × ℕ) → Option (List Segment × ℕ)
cons_to s none = none
cons_to s (some (segments, remain)) = some (s ∷ segments, remain)

-- The loop of `Reserve`, with `remain` as it stands. A segment cut in two is followed by its new
-- second half, which the loop visits next; `none` means that the fuel ran out.
pub reserve_loop : ℕ → ℕ → ℕ → ℕ → List Segment → Option (List Segment × ℕ)
reserve_loop fuel first last remain [] = some ([], remain)
reserve_loop zero first last remain (cur ∷ next) = none
reserve_loop (suc fuel) first last remain (cur ∷ next) = elim (overlap first last cur) [
  | front ↦
      cons_to (record cur { first = last + 1 })
        (reserve_loop fuel first last (remain - (last - cur.first + 1)) next)
  | back ↦
      cons_to (record cur { last = first - 1 })
        (reserve_loop fuel first last (remain - (cur.last - first + 1)) next)
  | inside ↦
      cons_to (record cur { last = first - 1 })
        (reserve_loop fuel first last (remain - (last - first + 1))
          (record { first = last + 1; last = cur.last } ∷ next))
  | whole ↦ reserve_loop fuel first last (remain - (cur.last - cur.first + 1)) next
  | apart ↦ cons_to cur (reserve_loop fuel first last remain next)
]

pub data Reserved : Type 0 where
  reserved : LazyReusePool → Reserved
  bad_range out_of_fuel : Reserved

pub reserve : LazyReusePool → ℕ → ℕ → Reserved
unfolding reserve_loop contains
reserve p first last =
    if contains p first last
    then elim (reserve_loop (2 * length p.segments) first last p.remain p.segments) [
      | none ↦ out_of_fuel
      | some (segments, remain) ↦ reserved (record p { segments = segments; remain = remain })
    ]
    else bad_range

unfoldable pub is_joint : LazyReusePool → LazyReusePool → Bool
is_joint p1 p2 = if ltb p2.last p1.first || ltb p1.last p2.first then false else true

pub total : LazyReusePool → ℕ
total p = p.last - p.first + 1
