-- ===== src/Topology/Links/Counting.antt =====
-- How often each node stands in a list of links.
use smf_nwdaf_ext.Common.{
  ℕ, zero, suc, ◌+◌, ◌≡◌, refl, subst, true, false, none, some, List, [], ◌∷◌, ◌++◌, ◌==◌,
  if◌then◌else◌, arith, Bool-cases, Option-cases, inl, inr,
}
use smf_nwdaf_ext.Topology.Links.{node_in_link, last_or, but_last, set_nth, remove_node_from_link}

abbrev pub count : ℕ → List ℕ → ℕ
count v [] = 0
count v (x ∷ xs) = (if x == v then 1 else 0) + count v xs

abbrev one : ℕ → ℕ → ℕ
one x v = if x == v then 1 else 0

count-but_last :
    (v d x : ℕ) (xs : List ℕ)
    → count v (but_last (x ∷ xs)) + one (last_or d (x ∷ xs)) v ≡ count v (x ∷ xs)
count-but_last v d x [] = ground arith
count-but_last v d x (y ∷ xs) = let rest = count-but_last v x y xs in omega (arith, rest)

-- The node that stands at an index.
abbrev StandsAt : List ℕ → ℕ → ℕ → Type 0
StandsAt [] i n = true ≡ false
StandsAt (x ∷ xs) zero n = x ≡ n
StandsAt (x ∷ xs) (suc i) n = StandsAt xs i n

count-set_nth :
    (v i w n : ℕ) (xs : List ℕ)
    → StandsAt xs i n
    → count v (set_nth xs i w) + one n v ≡ count v xs + one w v
count-set_nth v i w n [] at = ground arith
count-set_nth v zero w n (x ∷ xs) at =
    subst (λ m. count v (w ∷ xs) + one m v ≡ count v (x ∷ xs) + one w v) at (omega arith)
count-set_nth v (suc i) w n (x ∷ xs) at =
    let rest = count-set_nth v i w n xs at in omega (arith, rest)

node_in_link-StandsAt : (n i : ℕ) (xs : List ℕ) → node_in_link n xs ≡ some i → StandsAt xs i n
node_in_link-StandsAt n i [] e = ground arith
node_in_link-StandsAt n i (x ∷ xs) e = elim (Bool-cases (x == n)) [
  | inl here ↦
      let at : 0 ≡ i = ground (arith, e) in subst (λ j. StandsAt (x ∷ xs) j n) at (ground arith)
  | inr there ↦ elim (Option-cases (node_in_link n xs)) [
    | inl absent ↦ absurd (ground (arith, e))
    | inr (j, found) ↦
        let at : suc j ≡ i = ground (arith, e) in
        subst (λ k. StandsAt (x ∷ xs) k n) at (node_in_link-StandsAt n j xs found)
  ]
]

-- The last one, of a list in which the last one has taken a place.
last-set_nth :
    (i d e : ℕ) (x : ℕ) (xs : List ℕ)
    → last_or d (set_nth (x ∷ xs) i (last_or e (x ∷ xs))) ≡ last_or e (x ∷ xs)
last-set_nth zero d e x [] = refl
last-set_nth zero d e x (y ∷ xs) = refl
last-set_nth (suc i) d e x [] = refl
last-set_nth (suc i) d e x (y ∷ xs) = last-set_nth i x x y xs

count-shrink :
    (v n d e x : ℕ) (xs : List ℕ) (y : ℕ) (ys : List ℕ)
    → last_or d (y ∷ ys) ≡ last_or e (x ∷ xs)
    → count v (y ∷ ys) + one n v ≡ count v (x ∷ xs) + one (last_or e (x ∷ xs)) v
    → count v (but_last (y ∷ ys)) + one n v ≡ count v (x ∷ xs)
count-shrink v n d e x xs y ys same changed =
    let shorter = count-but_last v d y ys in
    let shorter' : count v (but_last (y ∷ ys)) + one (last_or e (x ∷ xs)) v ≡ count v (y ∷ ys) =
      subst (λ l. count v (but_last (y ∷ ys)) + one l v ≡ count v (y ∷ ys)) same shorter in
    omega (arith, shorter', changed)

-- The node that was found stands in the list once less, and each other one as often as before.
pub count-remove :
    (v n i : ℕ) (links : List ℕ)
    → node_in_link n links ≡ some i
    → count v (remove_node_from_link links i) + one n v ≡ count v links
unfolding remove_node_from_link
count-remove v n i [] e = ground arith
count-remove v n zero (x ∷ xs) e =
    count-shrink v n 0 0 x xs (last_or 0 (x ∷ xs)) xs (last-set_nth zero 0 0 x xs) (
      count-set_nth v zero (last_or 0 (x ∷ xs)) n (x ∷ xs)
        (node_in_link-StandsAt n zero (x ∷ xs) e))
count-remove v n (suc i) (x ∷ xs) e =
    count-shrink v n 0 0 x xs x (set_nth xs i (last_or 0 (x ∷ xs))) (last-set_nth (suc i) 0 0 x xs)
      (count-set_nth v (suc i) (last_or 0 (x ∷ xs)) n (x ∷ xs)
        (node_in_link-StandsAt n (suc i) (x ∷ xs) e))

pub count-absent : (n : ℕ) (links : List ℕ) → node_in_link n links ≡ none → count n links ≡ 0
count-absent n [] e = refl
count-absent n (x ∷ xs) e = elim (Bool-cases (x == n)) [
  | inl here ↦ absurd (ground (arith, e))
  | inr there ↦ elim (Option-cases (node_in_link n xs)) [
    | inl absent ↦ let rest = count-absent n xs absent in ground (arith, rest)
    | inr (j, found) ↦ absurd (ground (arith, e))
  ]
]

pub count-append : (v : ℕ) (xs ys : List ℕ) → count v (xs ++ ys) ≡ count v xs + count v ys
count-append v [] ys = omega arith
count-append v (x ∷ xs) ys = let rest = count-append v xs ys in omega (arith, rest)
