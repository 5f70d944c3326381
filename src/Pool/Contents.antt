-- ===== src/Pool/Contents.antt =====
-- What a chain of segments holds: how often each value is free in it.
use smf_nwdaf_ext.Common.{
  ℕ, ◌+◌, ◌-◌, ◌≤◌, ◌<◌, ◌≡◌, refl, ◌⊎◌, ◌&&◌, List, [], ◌∷◌, arith, leb, ◌==◌, if◌then◌else◌,
}
use smf_nwdaf_ext.Pool.{Segment, LazyReusePool}

-- 1 at the value itself, 0 elsewhere.
abbrev pub point : ℕ → ℕ → ℕ
point a v = if a == v then 1 else 0

unfoldable pub covers : Segment → ℕ → ℕ
covers s v = if leb s.first v && leb v s.last then 1 else 0

-- How many segments hold a value: 0 when it is in use, 1 when it is free.
unfoldable pub copies : List Segment → ℕ → ℕ
copies [] v = 0
copies (s ∷ next) v = covers s v + copies next v

unfoldable pub count_free : List Segment → ℕ
count_free [] = 0
count_free (s ∷ next) = s.last + 1 - s.first + count_free next

abbrev pub Proper : List Segment → Type 0
Proper [] = Unit {0}
Proper (s ∷ next) = (s.first ≤ s.last) × Proper next

abbrev pub Inside : ℕ → ℕ → List Segment → Type 0
Inside lo hi [] = Unit {0}
Inside lo hi (s ∷ next) = (lo ≤ s.first) × (s.last ≤ hi) × Inside lo hi next

-- What every method keeps: no segment is empty, the segments stay in the pool's range, and
-- `remain` counts what they hold.
pub record IsValid (p : LazyReusePool) : Type 0 where
  pub ranged : p.first ≤ p.last
  pub proper : Proper p.segments
  pub inside : Inside p.first p.last p.segments
  pub counted : p.remain ≡ count_free p.segments

-- No value is free twice.
abbrev pub IsDistinct : LazyReusePool → Type 0
IsDistinct p = (v : ℕ) → copies p.segments v ≤ 1

pub covers-zero : (s : Segment) (v : ℕ) → covers s v ≡ 0 → (v < s.first) ⊎ (s.last < v)
unfolding covers
covers-zero s v h = ground arith

pub copies-outside :
    (lo hi v : ℕ) (segments : List Segment)
    → Inside lo hi segments
    → (v < lo) ⊎ (hi < v)
    → copies segments v ≡ 0
unfolding copies covers
copies-outside lo hi v [] i h = refl
copies-outside lo hi v (s ∷ next) i h = ground (arith, copies-outside lo hi v next i.2 h)

-- A chain that holds one value more than another, and is otherwise as good.
pub record Adds (lo hi value : ℕ) (old new : List Segment) : Type 0 where
  pub held : (v : ℕ) → copies new v ≡ copies old v + point value v
  pub proper : Proper new
  pub inside : Inside lo hi new
  pub counted : count_free new ≡ count_free old + 1

-- The same, the other way round.
abbrev pub Drops : ℕ → ℕ → ℕ → List Segment → List Segment → Type 0
Drops lo hi value old new =
    ((v : ℕ) → copies old v ≡ copies new v + point value v)
    × Proper new
    × Inside lo hi new
    × (count_free old ≡ count_free new + 1)

-- A free value lies in the pool's range.
pub free-bounds :
    (p : LazyReusePool) (v : ℕ) → IsValid p → 1 ≤ copies p.segments v → (p.first ≤ v) × (v ≤ p.last)
free-bounds p v i h = ground (arith, copies-outside p.first p.last v p.segments i.inside)
