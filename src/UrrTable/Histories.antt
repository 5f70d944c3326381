-- ===== src/UrrTable/Histories.antt =====
-- The reference counts over the histories of a session.
use mathlib.Core.Option
use smf_nwdaf_ext.Common.{
  ℕ, ◌+◌, ◌≤◌, ◌≡◌, refl, ap, ◌∙◌, inl, inr, ◌&&◌, Option, none, some, [], ◌++◌, ◌==◌, arith,
  Bool-cases, Option-cases, subst,
}
use smf_nwdaf_ext.Rules.{Urr}
use smf_nwdaf_ext.UrrTable.{
  RuleState, rule_remove, pos, UrrEntry, UrrTable, get_entry, put_entry, new_entry, refer, unrefer,
  register_urr, Pdr, pdr_append_urrs, pdr_release_urrs, set_urr_state, delete_from_urr_table,
}
use smf_nwdaf_ext.UrrTable.Lookups.{times, refers, get-put, get-append_loop, get-release_loop}
use smf_nwdaf_ext.UrrTable.Counting.{
  Live, references, Picked, Reach, start, registering, marking, making, appending, releasing,
  deleting, CountedAt, Counted, refers-append, references-Picked, unrefer_count, appended, released,
}

put-Counted :
    (t : UrrTable) (l : Live) (upf urr v u : ℕ) (e : Option UrrEntry)
    → Counted t l
    → CountedAt e (references upf urr l)
    → CountedAt (get_entry (put_entry t upf urr e) v u) (references v u l)
put-Counted t l upf urr v u e c h = elim (Bool-cases (upf == v && urr == u)) [
  | inr other ↦ rw (get-put t upf urr v u e, other) (c v u)
  | inl hit ↦
      let same_upf : upf ≡ v = ground arith in
      let same_urr : urr ≡ u = ground arith in
      rw (get-put t upf urr v u e, hit) (rw (← same_upf, ← same_urr) h)
]

register-Counted :
    (t : UrrTable) (l : Live) (upf : ℕ) (urr : Urr)
    → (get_entry t upf urr.urr_id ≡ none → references upf urr.urr_id l ≡ 0)
    → Counted t l
    → Counted (register_urr t upf urr).0 l
unfolding register_urr
register-Counted t l upf urr fresh c v u = elim (c upf urr.urr_id) [
  | inr (e, there, _) ↦ rw (there, register_urr) (c v u)
  | inl e ↦
      let z = fresh e in
      rw (e, register_urr)
        (put-Counted t l upf urr.urr_id v u (some (new_entry urr)) c
          (inr (new_entry urr, refl, rw z refl)))
]

mark-Counted :
    (t : UrrTable) (l : Live) (upf urr : ℕ) (s : RuleState)
    → Counted t l
    → Counted (set_urr_state t upf urr s) l
unfolding set_urr_state
mark-Counted t l upf urr s c v u = elim (c upf urr) [
  | inl e ↦ rw (e, set_urr_state) (c v u)
  | inr (e, there, k) ↦
      rw (there, set_urr_state)
        (put-Counted t l upf urr v u (some (record e { state = s })) c
          (inr (record e { state = s }, refl, k)))
]

delete-Counted :
    (t : UrrTable) (l : Live) (upf urr : ℕ)
    → Counted t l
    → Counted (delete_from_urr_table t upf urr) l
unfolding delete_from_urr_table
delete-Counted t l upf urr c v u = elim (Option-cases (t upf)) [
  | inl absent ↦ rw (absent, delete_from_urr_table) (c v u)
  | inr (entries, found) ↦
      rw (found, delete_from_urr_table) (put-Counted t l upf urr v u none c (inl refl))
]

-- Over any history in which new rules are registered under identifiers to which no PDR in use refers,
-- PDRs are given URRs any number of times and release them once, and entries are marked and deleted at
-- any time, the reference count of every entry in the table is the number of references to its URR
-- from the PDRs in use.
pub Reach-Counted : (t : UrrTable) (l : Live) → Reach t l → Counted t l
unfolding pdr_append_urrs pdr_release_urrs
Reach-Counted t l start v u = inl refl
Reach-Counted t l (registering t' l' upf urr fresh r) v u =
    register-Counted t' l' upf urr fresh (Reach-Counted t' l' r) v u
Reach-Counted t l (marking t' l' upf urr s r) v u =
    mark-Counted t' l' upf urr s (Reach-Counted t' l' r) v u
Reach-Counted t l (making t' l' upf id r) v u =
    let same : references v u l' ≡ refers upf v u [] + references v u l' = ground arith in
    subst (λ n. CountedAt (get_entry t' v u) n) same (Reach-Counted t' l' r v u)
Reach-Counted t l (appending t' l' rest upf pdr urrs p r) v u =
    let before = references-Picked (upf, pdr) l' rest v u p in
    let more = refers-append upf v u pdr.urrs urrs in
    let total : refers upf v u urrs + references v u l'
        ≡ refers upf v u (pdr.urrs ++ urrs) + references v u rest =
      omega (arith, before, more) in
    rw (get-append_loop t' upf pdr.pdr_id urrs v u) (
      subst
        (λ n.
          CountedAt (Option.map (times (refers upf v u urrs) (refer pdr.pdr_id)) (get_entry t' v u))
            n)
        total
        (appended (refers upf v u urrs) (references v u l') pdr.pdr_id (get_entry t' v u)
          (Reach-Counted t' l' r v u)))
Reach-Counted t l (releasing t' l' rest upf pdr p r) v u =
    rw (get-release_loop t' upf pdr.pdr_id pdr.urrs v u) (
      released (refers upf v u pdr.urrs) (references v u rest) pdr.pdr_id (get_entry t' v u) (
        subst (λ n. CountedAt (get_entry t' v u) n) (references-Picked (upf, pdr) l' rest v u p)
          (Reach-Counted t' l' r v u)))
Reach-Counted t l (deleting t' l' upf urr r) v u =
    delete-Counted t' l' upf urr (Reach-Counted t' l' r) v u

-- Over any such history, when a PDR in use releases its URRs, each entry stays: a URR of the PDR to
-- which no other PDR in use refers is marked to be removed, and a URR to which one still refers keeps
-- its state.
pub pdr_release_urrs_lem :
    (t : UrrTable) (l rest : Live) (upf : ℕ) (pdr : Pdr) (v u : ℕ) (e : UrrEntry)
    → Reach t l
    → Picked (upf, pdr) l rest
    → get_entry t v u ≡ some e
    → (after : UrrEntry) × (get_entry (pdr_release_urrs t upf (some pdr)) v u ≡ some after)
      × (after.ref_count ≡ pos (references v u rest))
      × (1 ≤ references v u rest → after.state ≡ e.state)
      × (1 ≤ refers upf v u pdr.urrs → references v u rest ≡ 0 → after.state ≡ rule_remove)
unfolding pdr_release_urrs
pdr_release_urrs_lem t l rest upf pdr v u e r p there =
    let n = refers upf v u pdr.urrs in
    let k = references v u rest in
    elim (Reach-Counted t l r v u) [
      | inl absent ↦ absurd (ground arith)
      | inr (e', there', c) ↦
          let same : e' ≡ e = ground arith in
          let counts : e.ref_count ≡ pos (n + k) =
            rw (← same) (c ∙ ap pos (references-Picked (upf, pdr) l rest v u p)) in
          let (counted, kept, removed) = unrefer_count n k pdr.pdr_id e counts in
          (
            times n (unrefer pdr.pdr_id) e,
            get-release_loop t upf pdr.pdr_id pdr.urrs v u ∙ rw there refl,
            counted,
            kept,
            removed,
          )
    ]
