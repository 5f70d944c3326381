-- ===== src/Topology/Links/Linking.antt =====
-- The links that a configuration makes.
use smf_nwdaf_ext.Common.{
  ℕ, ◌+◌, ◌≤◌, ◌≡◌, ◌≢◌, refl, sym, ap, ◌∙◌, subst, Bool, true, false, ◌&&◌, ◌||◌, not, Option,
  none, some, List, [], ◌∷◌, ◌++◌, ◌==◌, if◌then◌else◌, arith, Bool-cases, if_both, inl, inr,
}
use smf_nwdaf_ext.Topology.Links.{
  UserPlane, node_in_link, is_found, links_from_configuration, link_nodes, add_link,
}
use smf_nwdaf_ext.Topology.Links.Counting.{count, count-absent, count-append}
use smf_nwdaf_ext.Topology.Links.Deletion.{WellLinked}

-- No link of the configuration goes from a node to itself.
abbrev pub NoLoops : List (ℕ × ℕ) → Type 0
NoLoops [] = true ≡ true
NoLoops ((a, b) ∷ links) = (a ≢ b) × NoLoops links

abbrev hit : ℕ → ℕ → ℕ → ℕ → ℕ
hit a b x y = if a == x then (if b == y then 1 else 0) else 0

after-add :
    (upi : UserPlane) (a b x : ℕ)
    → (add_link upi a b).links x ≡ (
        if b == x
        then (if a == b then upi.links a ++ (b ∷ []) else upi.links b) ++ (a ∷ [])
        else if a == x
        then upi.links a ++ (b ∷ [])
        else upi.links x)
after-add upi a b x = refl

count-add_link :
    (upi : UserPlane) (a b x y : ℕ)
    → a ≢ b
    → count y ((add_link upi a b).links x) ≡ count y (upi.links x) + (hit a b x y + hit b a x y)
count-add_link upi a b x y apart =
    let more_a = count-append y (upi.links a) (b ∷ []) in
    let more_b = count-append y (upi.links b) (a ∷ []) in
    elim (Bool-cases (b == x)) [
      | inl here ↦
          let at : b ≡ x = ground arith in
          let off : (a == b) ≡ false = ground arith in
          let off' : (a == x) ≡ false = ground arith in
          let e : upi.links b ≡ upi.links x = ap upi.links at in
          let e' : count y (upi.links b) ≡ count y (upi.links x) = ap (count y) e in
          rw (here, off, off') (omega (arith, more_b, e'))
      | inr there ↦ elim (Bool-cases (a == x)) [
        | inl here ↦
            let at : a ≡ x = ground arith in
            let e' : count y (upi.links a) ≡ count y (upi.links x) =
              ap (λ z. count y (upi.links z)) at in
            rw (there, here) (omega (arith, more_a, e'))
        | inr elsewhere ↦ rw (there, elsewhere) (omega arith)
      ]
    ]

absent_of : (o : Option ℕ) → is_found o ≡ false → o ≡ none
absent_of none e = refl
absent_of (some i) e = ground arith

hit-unlinked :
    (upi : UserPlane) (a b x y : ℕ)
    → a ≢ b
    → count b (upi.links a) ≡ 0
    → count a (upi.links b) ≡ 0
    → count y (upi.links x) ≤ 1
    → count y (upi.links x) + (hit a b x y + hit b a x y) ≤ 1
hit-unlinked upi a b x y apart fresh back before = elim (Bool-cases (a == x)) [
  | inl here ↦
      let at : a ≡ x = ground arith in
      let off : (b == x) ≡ false = ground arith in
      let zero_y : (b == y) ≡ true → count y (upi.links x) ≡ 0 = λ e.
        let at' : b ≡ y = ground (arith, e) in
        subst (λ z. count z (upi.links x) ≡ 0) at'
          (subst (λ z. count b (upi.links z) ≡ 0) at fresh) in
      elim (Bool-cases (b == y)) [
        | inl hits ↦ let none_yet = zero_y hits in rw (here, off, hits) (omega (arith, none_yet))
        | inr misses ↦ rw (here, off, misses) (omega (arith, before))
      ]
  | inr elsewhere ↦ elim (Bool-cases (b == x)) [
    | inl here ↦
        let at : b ≡ x = ground arith in
        let zero_y : (a == y) ≡ true → count y (upi.links x) ≡ 0 = λ e.
          let at' : a ≡ y = ground (arith, e) in
          subst (λ z. count z (upi.links x) ≡ 0) at'
            (subst (λ z. count a (upi.links z) ≡ 0) at back) in
        elim (Bool-cases (a == y)) [
          | inl hits ↦
              let none_yet = zero_y hits in rw (elsewhere, here, hits) (omega (arith, none_yet))
          | inr misses ↦ rw (elsewhere, here, misses) (omega (arith, before))
        ]
    | inr there ↦ rw (elsewhere, there) (omega (arith, before))
  ]
]

-- Two tests, in either order.
nested_tests :
    (p q : Bool)
    → ◌≡◌ {A = ℕ} (if p then if q then 1 else 0 else 0) (if q then if p then 1 else 0 else 0)
nested_tests true true = refl
nested_tests true false = refl
nested_tests false true = refl
nested_tests false false = refl

both_ways_added :
    (a b x y m n : ℕ) → m ≡ n → m + (hit a b x y + hit b a x y) ≡ n + (hit a b y x + hit b a y x)
both_ways_added a b x y m n e =
    let there = nested_tests (a == x) (b == y) in
    let back = nested_tests (b == x) (a == y) in omega (arith, e, there, back)

add_link-WellLinked :
    (upi : UserPlane) (a b : ℕ)
    → a ≢ b
    → node_in_link b (upi.links a) ≡ none
    → WellLinked upi
    → WellLinked (add_link upi a b)
add_link-WellLinked upi a b apart fresh well =
    let none_yet = count-absent b (upi.links a) fresh in
    let back = sym (well.both_ways a b) ∙ none_yet in
    record {
      once = λ x y.
          subst (λ n. n ≤ 1) (sym (count-add_link upi a b x y apart))
            (hit-unlinked upi a b x y apart none_yet back (well.once x y));
      both_ways = λ x y.
          count-add_link upi a b x y apart
          ∙ both_ways_added a b x y (count y (upi.links x)) (count x (upi.links y))
              (well.both_ways x y)
          ∙ sym (count-add_link upi a b y x apart);
    }

link_nodes-WellLinked :
    (upi : UserPlane) (a b : ℕ) → a ≢ b → WellLinked upi → WellLinked (link_nodes upi a b)
link_nodes-WellLinked upi a b apart well =
    if_both WellLinked (not (upi.up_nodes a && upi.up_nodes b)) well
      (linked (node_in_link b (upi.links a)) refl)
  where
    linked :
        (o : Option ℕ)
        → node_in_link b (upi.links a) ≡ o
        → WellLinked (
            if is_found o || is_found (node_in_link a (upi.links b)) then upi else add_link upi a b)
    linked none fresh =
        if_both WellLinked (is_found (node_in_link a (upi.links b))) well
          (add_link-WellLinked upi a b apart fresh well)
    linked (some i) there = well

-- The links of a configuration none of which goes from a node to itself leave each two nodes linked
-- once at most, and to each other, whatever nodes the configuration names and however often it repeats
-- a link.
pub links_from_configuration-WellLinked :
    (upi : UserPlane) (links : List (ℕ × ℕ))
    → NoLoops links
    → WellLinked upi
    → WellLinked (links_from_configuration upi links)
unfolding links_from_configuration
links_from_configuration-WellLinked upi [] apart well = well
links_from_configuration-WellLinked upi ((a, b) ∷ links) (apart, rest) well =
    links_from_configuration-WellLinked (link_nodes upi a b) links rest
      (link_nodes-WellLinked upi a b apart well)
