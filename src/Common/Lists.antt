-- ===== src/Common/Lists.antt =====
-- Lists measured by native numbers.
use Prim.Native.Nat.{ℕ, zero, suc, ◌+◌}
use mathlib.Core.Path.{◌≡◌, refl}
use mathlib.Core.Bool.{Bool, true, false, ◌||◌}
use mathlib.Core.List.{List, [], ◌∷◌, ◌++◌}
use native.Mathlib.Omega.{arith}
use smf_nwdaf_ext.Common.Tests.{◌==◌, if◌then◌else◌}

module _ {ℓ} {A : Type ℓ} where
  abbrev pub length : List A → ℕ
  length [] = 0
  length (x ∷ xs) = suc (length xs)

  pub length-append : (xs ys : List A) → length (xs ++ ys) ≡ length xs + length ys
  length-append [] ys = omega arith
  length-append (x ∷ xs) ys = omega (arith, length-append xs ys)

  abbrev pub take : ℕ → List A → List A
  take zero xs = []
  take (suc n) [] = []
  take (suc n) (x ∷ xs) = x ∷ take n xs

  abbrev pub drop : ℕ → List A → List A
  drop zero xs = xs
  drop (suc n) [] = []
  drop (suc n) (x ∷ xs) = drop n xs

-- Whether a number stands in a list.
abbrev pub has : ℕ → List ℕ → Bool
has v [] = false
has v (x ∷ xs) = if x == v then true else has v xs

pub has-append : (v : ℕ) (xs ys : List ℕ) → has v (xs ++ ys) ≡ (has v xs || has v ys)
has-append v [] ys = refl
has-append v (x ∷ xs) ys = ground (arith, has-append v xs ys)

has-take-drop : (v n : ℕ) (xs : List ℕ) → has v xs ≡ (has v (drop n xs) || has v (take n xs))
has-take-drop v zero xs = ground arith
has-take-drop v (suc n) [] = refl
has-take-drop v (suc n) (x ∷ xs) = ground (arith, has-take-drop v n xs)

-- A rotated list has the same members.
pub has-rotate : (v n : ℕ) (xs : List ℕ) → has v (drop n xs ++ take n xs) ≡ has v xs
has-rotate v n xs = ground (arith, has-append v (drop n xs) (take n xs), has-take-drop v n xs)
