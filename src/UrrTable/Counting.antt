-- ===== src/UrrTable/Counting.antt =====
-- Histories of a session's PDRs and their URRs, and what one entry counts.
use mathlib.Core.Option
use smf_nwdaf_ext.Common.{
  ℕ, zero, suc, ◌+◌, ◌≤◌, ◌≡◌, refl, sym, ap, ◌∙◌, ◌⊎◌, inl, inr, false, Option, none, some, List,
  [], ◌∷◌, ◌++◌, ◌==◌, if◌then◌else◌, arith, Bool-cases, subst,
}
use smf_nwdaf_ext.Rules.{Urr}
use smf_nwdaf_ext.UrrTable.{
  RuleState, rule_remove, at_most_zero, pos, UrrEntry, UrrTable, get_entry, refer, unrefer,
  register_urr, Pdr, pdr_append_urrs, pdr_release_urrs, set_urr_state, delete_from_urr_table,
}
use smf_nwdaf_ext.UrrTable.Lookups.{count, times, refers}

-- The PDRs in use, each with its UPF.
abbrev pub Live : Type 0
Live = List (ℕ × Pdr)

abbrev pub references : ℕ → ℕ → Live → ℕ
references v u [] = 0
references v u ((upf, pdr) ∷ live) = refers upf v u pdr.urrs + references v u live

-- `Picked x live rest`: `rest` is `live` without one place of `x`.
pub data Picked (x : ℕ × Pdr) : Live → Live → Type 0 where
  here : (live : Live) → Picked x (x ∷ live) live
  later : (y : ℕ × Pdr) (live rest : Live) → Picked x live rest → Picked x (y ∷ live) (y ∷ rest)

-- A session: a rule is registered, a new one under an identifier to which no PDR in use refers; rules
-- are marked; a PDR is made, and is given URRs any number of times; a PDR in use releases its URRs and
-- is used no more; an entry is deleted at any time. A PDR is in use until it releases its URRs.
pub data Reach : UrrTable → Live → Type 0 where
  start : Reach (λ _. none) []
  registering :
      (t : UrrTable) (l : Live) (upf : ℕ) (urr : Urr)
      → (get_entry t upf urr.urr_id ≡ none → references upf urr.urr_id l ≡ 0)
      → Reach t l
      → Reach (register_urr t upf urr).0 l
  marking :
      (t : UrrTable) (l : Live) (upf urr : ℕ) (s : RuleState)
      → Reach t l
      → Reach (set_urr_state t upf urr s) l
  making :
      (t : UrrTable) (l : Live) (upf id : ℕ)
      → Reach t l
      → Reach t ((upf, record { pdr_id = id; urrs = [] }) ∷ l)
  appending :
      (t : UrrTable) (l rest : Live) (upf : ℕ) (pdr : Pdr) (urrs : List ℕ)
      → Picked (upf, pdr) l rest
      → Reach t l
      → Reach (pdr_append_urrs t upf pdr urrs).0 ((upf, (pdr_append_urrs t upf pdr urrs).1) ∷ rest)
  releasing :
      (t : UrrTable) (l rest : Live) (upf : ℕ) (pdr : Pdr)
      → Picked (upf, pdr) l rest
      → Reach t l
      → Reach (pdr_release_urrs t upf (some pdr)) rest
  deleting :
      (t : UrrTable) (l : Live) (upf urr : ℕ)
      → Reach t l
      → Reach (delete_from_urr_table t upf urr) l

-- What a place of the table holds, when `n` references from PDRs in use lead there.
abbrev pub CountedAt : Option UrrEntry → ℕ → Type 0
CountedAt o n = (o ≡ none) ⊎ ((e : UrrEntry) × (o ≡ some e) × (e.ref_count ≡ pos n))

abbrev pub Counted : UrrTable → Live → Type 0
Counted t l = (v u : ℕ) → CountedAt (get_entry t v u) (references v u l)

count-append : (u : ℕ) (xs ys : List ℕ) → count u (xs ++ ys) ≡ count u xs + count u ys
count-append u [] ys = omega arith
count-append u (x ∷ xs) ys = omega (arith, count-append u xs ys)

pub refers-append :
    (upf v u : ℕ) (xs ys : List ℕ)
    → refers upf v u (xs ++ ys) ≡ refers upf v u xs + refers upf v u ys
refers-append upf v u xs ys = ground (arith, count-append u xs ys)

pub references-Picked :
    (x : ℕ × Pdr) (l rest : Live) (v u : ℕ)
    → Picked x l rest
    → references v u l ≡ refers x.0 v u x.1.urrs + references v u rest
references-Picked x l rest v u (here live) = refl
references-Picked x l rest v u (later y live rest' p) =
    omega (arith, references-Picked x live rest' v u p)

refer_count :
    (n k pdr : ℕ) (e : UrrEntry)
    → e.ref_count ≡ pos k
    → (times n (refer pdr) e).ref_count ≡ pos (n + k)
refer_count zero k pdr e h = let same : 0 + k ≡ k = omega arith in rw same h
refer_count (suc n) k pdr e h =
    let same : suc n + k ≡ n + suc k = omega arith in
    rw same (refer_count n (suc k) pdr (refer pdr e) (rw h refl))

not_zero : (m : ℕ) → 1 ≤ m → at_most_zero (pos m) ≡ false
not_zero zero h = absurd (omega arith)
not_zero (suc m) h = refl

one_less :
    (m pdr : ℕ) (e : UrrEntry)
    → e.ref_count ≡ pos (suc m)
    → ((unrefer pdr e).ref_count ≡ pos m)
      × ((unrefer pdr e).state ≡ (if at_most_zero (pos m) then rule_remove else e.state))
one_less m pdr e h = rw h (refl, refl)

-- Releasing `n` of `n + k` references.
pub unrefer_count :
    (n k pdr : ℕ) (e : UrrEntry)
    → e.ref_count ≡ pos (n + k)
    → ((times n (unrefer pdr) e).ref_count ≡ pos k)
      × (1 ≤ k → (times n (unrefer pdr) e).state ≡ e.state)
      × (1 ≤ n → k ≡ 0 → (times n (unrefer pdr) e).state ≡ rule_remove)
unrefer_count zero k pdr e h =
    let same : 0 + k ≡ k = omega arith in (rw (← same) h, λ _. refl, λ p. absurd (omega arith))
unrefer_count (suc n) k pdr e h =
    let sum : suc n + k ≡ suc (n + k) = omega arith in
    let (counted, state) = one_less (n + k) pdr e (h ∙ ap pos sum) in
    let (c, same, removed) = unrefer_count n k pdr (unrefer pdr e) counted in
    (
      c,
      λ some_left. same some_left ∙ (state ∙ rw (not_zero (n + k) (omega arith)) refl),
      λ _ none_left. elim (Bool-cases (n == 0)) [
        | inr more ↦ removed (ground arith) none_left
        | inl last ↦
            let at_end : n ≡ 0 = ground arith in
            let nothing : n + k ≡ 0 = omega arith in
            subst (λ i. (times i (unrefer pdr) (unrefer pdr e)).state ≡ rule_remove) (sym at_end)
              (state ∙ rw nothing refl)
      ],
    )

pub appended :
    (n k pdr : ℕ) (o : Option UrrEntry)
    → CountedAt o k
    → CountedAt (Option.map (times n (refer pdr)) o) (n + k)
appended n k pdr o (inl e) = inl (rw e refl)
appended n k pdr o (inr (e, there, c)) =
    inr (times n (refer pdr) e, rw there refl, refer_count n k pdr e c)

pub released :
    (n k pdr : ℕ) (o : Option UrrEntry)
    → CountedAt o (n + k)
    → CountedAt (Option.map (times n (unrefer pdr)) o) k
released n k pdr o (inl e) = inl (rw e refl)
released n k pdr o (inr (e, there, c)) =
    inr (times n (unrefer pdr) e, rw there refl, (unrefer_count n k pdr e c).0)
