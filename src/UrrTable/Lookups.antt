-- ===== src/UrrTable/Lookups.antt =====
-- What a lookup finds after each of the table's operations.
use mathlib.Core.Option
use smf_nwdaf_ext.Common.{
  ℕ, zero, suc, ◌+◌, ◌≡◌, refl, ap, ◌∙◌, ◌&&◌, Option, none, some, List, [], ◌∷◌, ◌==◌,
  if◌then◌else◌, arith, Bool-cases, Option-cases, inl, inr,
}
use smf_nwdaf_ext.UrrTable.{
  UrrEntry, UrrTable, get_entry, put_entry, update_entry, refer, unrefer, append_loop, release_loop,
}

-- How often a number stands in a list.
abbrev pub count : ℕ → List ℕ → ℕ
count v [] = 0
count v (x ∷ xs) = (if x == v then 1 else 0) + count v xs

abbrev pub times {ℓ} : {A : Type ℓ} → ℕ → (A → A) → A → A
times zero f a = a
times (suc n) f a = times n f (f a)

pub get-put :
    (table : UrrTable) (upf urr v u : ℕ) (e : Option UrrEntry)
    → get_entry (put_entry table upf urr e) v u
      ≡ (if upf == v && urr == u then e else get_entry table v u)
get-put table upf urr v u e = elim (Bool-cases (upf == v)) [
  | inr other ↦ rw other refl
  | inl here ↦ let same : upf ≡ v = ground arith in rw (here, same) refl
]

map_zero : (f : UrrEntry → UrrEntry) (o : Option UrrEntry) → o ≡ Option.map (times 0 f) o
map_zero f none = refl
map_zero f (some e) = refl

-- One update, seen at any place.
pub get-update :
    (table : UrrTable) (upf urr v u : ℕ) (f : UrrEntry → UrrEntry)
    → get_entry (update_entry table upf urr f) v u
      ≡ Option.map (times (if upf == v && urr == u then 1 else 0) f) (get_entry table v u)
get-update table upf urr v u f = elim (Option-cases (get_entry table upf urr)) [
  | inl absent ↦ elim (Bool-cases (upf == v && urr == u)) [
    | inr other ↦ rw (other, absent) (map_zero f (get_entry table v u))
    | inl here ↦
        let same_upf : upf ≡ v = ground arith in
        let same_urr : urr ≡ u = ground arith in
        let gone : get_entry table v u ≡ none = rw (← same_upf, ← same_urr) absent in
        rw (absent, gone) refl
  ]
  | inr (e, there) ↦ elim (Bool-cases (upf == v && urr == u)) [
    | inr other ↦
        rw (there, other)
          ((get-put table upf urr v u (some (f e)) ∙ rw other refl)
            ∙ map_zero f (get_entry table v u))
    | inl here ↦
        let same_upf : upf ≡ v = ground arith in
        let same_urr : urr ≡ u = ground arith in
        let found : get_entry table v u ≡ some e = rw (← same_upf, ← same_urr) there in
        rw (there, here, found) (get-put table upf urr v u (some (f e)) ∙ rw here refl)
  ]
]

map-times :
    (m n : ℕ) (f : UrrEntry → UrrEntry) (o : Option UrrEntry)
    → Option.map (times n f) (Option.map (times m f) o) ≡ Option.map (times (m + n) f) o
map-times m n f none = refl
map-times zero n f (some e) = let same : 0 + n ≡ n = omega arith in rw same refl
map-times (suc m) n f (some e) =
    let same : suc m + n ≡ suc (m + n) = omega arith in rw same (map-times m n f (some (f e)))

abbrev pub refers : ℕ → ℕ → ℕ → List ℕ → ℕ
refers upf v u urrs = if upf == v then count u urrs else 0

refers_cons :
    (upf v u urr : ℕ) (urrs : List ℕ)
    → (if upf == v && urr == u then 1 else 0) + refers upf v u urrs ≡ refers upf v u (urr ∷ urrs)
refers_cons upf v u urr urrs = ground arith

pub get-append_loop :
    (table : UrrTable) (upf pdr : ℕ) (urrs : List ℕ) (v u : ℕ)
    → get_entry (append_loop table upf pdr urrs) v u
      ≡ Option.map (times (refers upf v u urrs) (refer pdr)) (get_entry table v u)
unfolding append_loop
get-append_loop table upf pdr [] v u =
    let none_here : refers upf v u [] ≡ 0 = ground arith in
    rw none_here (map_zero (refer pdr) (get_entry table v u))
get-append_loop table upf pdr (urr ∷ urrs) v u =
    get-append_loop (update_entry table upf urr (refer pdr)) upf pdr urrs v u
    ∙ rw (get-update table upf urr v u (refer pdr)) (
        map-times (if upf == v && urr == u then 1 else 0) (refers upf v u urrs) (refer pdr)
          (get_entry table v u)
        ∙ ap (λ n. Option.map (times n (refer pdr)) (get_entry table v u))
            (refers_cons upf v u urr urrs))

pub get-release_loop :
    (table : UrrTable) (upf pdr : ℕ) (urrs : List ℕ) (v u : ℕ)
    → get_entry (release_loop table upf pdr urrs) v u
      ≡ Option.map (times (refers upf v u urrs) (unrefer pdr)) (get_entry table v u)
unfolding release_loop
get-release_loop table upf pdr [] v u =
    let none_here : refers upf v u [] ≡ 0 = ground arith in
    rw none_here (map_zero (unrefer pdr) (get_entry table v u))
get-release_loop table upf pdr (urr ∷ urrs) v u =
    get-release_loop (update_entry table upf urr (unrefer pdr)) upf pdr urrs v u
    ∙ rw (get-update table upf urr v u (unrefer pdr)) (
        map-times (if upf == v && urr == u then 1 else 0) (refers upf v u urrs) (unrefer pdr)
          (get_entry table v u)
        ∙ ap (λ n. Option.map (times n (unrefer pdr)) (get_entry table v u))
            (refers_cons upf v u urr urrs))
