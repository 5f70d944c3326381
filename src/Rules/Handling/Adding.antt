-- ===== src/Rules/Handling/Adding.antt =====
-- `AddPDR` on each branch, what `RemovePDR` undoes of it, and the identifier that it can lose.
use mathlib.Core.Option
use smf_nwdaf_ext.Common.{
  ℕ, ◌%◌, Bool, if◌then◌else◌, ◌≡◌, ◌≢◌, refl, sym, ◌∙◌, true, false, ◌⊎◌, inl, inr, Option, none,
  some, ◌==◌, arith, if_both, subst, Bool-cases,
}
use smf_nwdaf_ext.Rules.{IdGenerator, take_id, Pdr, RuleTables}
use smf_nwdaf_ext.Rules.Handling.{
  pdr_id, far_id, store_far, store_pdr, pdr_with_far, add_pdr, add_far, remove_pdr,
}
use smf_nwdaf_ext.Rules.Tracking.{Fresh, Added, take_id-some, store-Added, unused_absent}
use smf_nwdaf_ext.Rules.Handling.Keeping.{AllTracked}

if_on {ℓ κ} :
    {A : Type ℓ} (P : A → Type κ) (b : Bool) {x : A} (y : A)
    → b ≡ true
    → P x
    → P (if b then x else y)
if_on P true y on p = p
if_on P false y on p = absurd (ground (arith, on))

if_off {ℓ κ} :
    {A : Type ℓ} (P : A → Type κ) (b : Bool) (x : A) {y : A}
    → b ≡ false
    → P y
    → P (if b then x else y)
if_off P false x off p = p
if_off P true x off p = absurd (ground (arith, off))

module _ (G : IdGenerator) where
  -- The rules, the generators aside.
  abbrev pub SameRules : RuleTables G → RuleTables G → Type 0
  SameRules upf after =
      (after.pdrs.pool ≡ upf.pdrs.pool)
      × (after.fars.pool ≡ upf.fars.pool)
      × (after.bars ≡ upf.bars)
      × (after.qers ≡ upf.qers)
      × (after.urrs ≡ upf.urrs)

  -- Why there is no new PDR: no association, or no identifier left for the PDR or for its FAR.
  abbrev pub CannotAdd : RuleTables G → Type 0
  CannotAdd upf =
      (upf.associated ≡ false)
      ⊎ (((G.allocate_id upf.pdrs.ids).1 ≡ none) ⊎ ((G.allocate_id upf.fars.ids).1 ≡ none))

  no_id : (width : ℕ) (o : Option ℕ) → Option.map (λ id. id % width) o ≡ none → o ≡ none
  no_id width none e = refl
  no_id width (some id) e = ground (arith, e)

  pub record GainsPdr (upf after : RuleTables G) (pdr : Pdr) : Type 0 where
    pub own : Added G (λ r. r.pdr_id) 65535 upf.pdrs after.pdrs pdr
    pub action :
        Added G (λ r. r.far_id) 4294967295 upf.fars after.fars (record { far_id = pdr.far })
    pub same_bars : after.bars ≡ upf.bars
    pub same_qers : after.qers ≡ upf.qers
    pub same_urrs : after.urrs ≡ upf.urrs

  abbrev pub AddPdrOutcome : RuleTables G → RuleTables G × Option Pdr → Type 0
  AddPdrOutcome upf r =
      ((r.1 ≡ none) × CannotAdd upf × SameRules upf r.0)
      ⊎ ((upf.associated ≡ true) × ((pdr : Pdr) × (r.1 ≡ some pdr) × GainsPdr upf r.0 pdr))

  -- Behind both generators.
  both_ids :
      (upf : RuleTables G) (id : ℕ) (o : Option ℕ)
      → upf.associated ≡ true
      → Fresh G (λ r. r.pdr_id) 65535 upf.pdrs (take_id G 65536 upf.pdrs).0 id
      → ((far : ℕ)
          → o ≡ some far
          → Fresh G (λ r. r.far_id) 4294967295 upf.fars (take_id G 4294967296 upf.fars).0 far)
      → (o ≡ none → (G.allocate_id upf.fars.ids).1 ≡ none)
      → AddPdrOutcome upf (
          store_pdr G id (
            store_far G (
              record upf {
                pdrs = (take_id G 65536 upf.pdrs).0;
                fars = (take_id G 4294967296 upf.fars).0;
              },
              o,
            )))
  both_ids upf id none on f g out = inl (refl, inr (inr (out refl)), (refl, refl, refl, refl, refl))
  both_ids upf id (some far) on f g out = inr (
    on,
    (
      record { pdr_id = id; far = far },
      refl,
      record {
        own =
            store-Added G (λ r. r.pdr_id) 65535 65536 id (record { pdr_id = id; far = far })
              upf.pdrs f refl;
        action =
            store-Added G (λ r. r.far_id) 4294967295 4294967296 far (record { far_id = far })
              upf.fars (g far refl) refl;
        same_bars = refl;
        same_qers = refl;
        same_urrs = refl;
      },
    ),
  )

  with_far_id :
      (upf : RuleTables G) (o : Option ℕ)
      → AllTracked G upf
      → upf.associated ≡ true
      → ((id : ℕ)
          → o ≡ some id
          → Fresh G (λ r. r.pdr_id) 65535 upf.pdrs (take_id G 65536 upf.pdrs).0 id)
      → (o ≡ none → (G.allocate_id upf.pdrs.ids).1 ≡ none)
      → AddPdrOutcome upf (pdr_with_far G (record upf { pdrs = (take_id G 65536 upf.pdrs).0 }, o))
  unfolding pdr_with_far add_far far_id
  with_far_id upf none k on f out = inl (refl, inr (inl (out refl)), (refl, refl, refl, refl, refl))
  with_far_id upf (some id) k on f out =
      if_on (λ r. AddPdrOutcome upf (store_pdr G id r)) upf.associated _ on
        (if_on (λ r. AddPdrOutcome upf (store_pdr G id (store_far G r))) upf.associated _ on
          (both_ids upf id (take_id G 4294967296 upf.fars).1 on (f id refl)
            (take_id-some G (λ r. r.far_id) 4294967295 4294967296 upf.fars k.fars (omega arith))
            (no_id 4294967296 (G.allocate_id upf.fars.ids).1)))

  -- Given a generator that keeps its promises and tables that are tracked, `AddPDR` returns an error
  -- only without an association, or where no identifier is left for the PDR or for its FAR, and then
  -- leaves every rule as it was. Otherwise, on an associated UPF, it stores a PDR and its FAR, each
  -- under an identifier that no rule of its kind had and that fits its field, and touches no other
  -- rule.
  pub add_pdr_lem : (upf : RuleTables G) → AllTracked G upf → AddPdrOutcome upf (add_pdr G upf)
  unfolding add_pdr pdr_id pdr_with_far
  add_pdr_lem upf k = elim (Bool-cases upf.associated) [
    | inr off ↦
        if_off (AddPdrOutcome upf) upf.associated _ off
          (inl (refl, inl off, (refl, refl, refl, refl, refl)))
    | inl on ↦ if_on (AddPdrOutcome upf) upf.associated _ on (
        if_on (λ r. AddPdrOutcome upf (pdr_with_far G r)) upf.associated _ on
          (with_far_id upf (take_id G 65536 upf.pdrs).1 k on
            (take_id-some G (λ r. r.pdr_id) 65535 65536 upf.pdrs k.pdrs (omega arith))
            (no_id 65536 (G.allocate_id upf.pdrs.ids).1)))
  ]

  gains_undone :
      (upf after : RuleTables G) (pdr : Pdr)
      → after.associated ≡ true
      → GainsPdr upf after pdr
      → ((remove_pdr G after pdr).1 ≡ true)
        × ((v : ℕ) → (remove_pdr G after pdr).0.pdrs.pool v ≡ upf.pdrs.pool v)
        × (G.is_used (remove_pdr G after pdr).0.pdrs.ids pdr.pdr_id ≡ false)
  unfolding remove_pdr
  gains_undone upf after pdr on g = (
    rw on refl,
    λ v. elim (Bool-cases (pdr.pdr_id == v)) [
      | inl here ↦
          let same : pdr.pdr_id ≡ v = ground arith in rw (on, here) (rw (← same) (sym g.own.absent))
      | inr there ↦ let ne : v ≢ pdr.pdr_id = ground arith in rw (on, there) (g.own.others v ne)
    ],
    rw on (G.free_lem after.pdrs.ids pdr.pdr_id).0,
  )

  without_far :
      (upf : RuleTables G) (id : ℕ)
      → upf.associated ≡ true
      → (G.allocate_id upf.pdrs.ids).1 ≡ some id
      → (G.allocate_id upf.fars.ids).1 ≡ none
      → add_pdr G upf ≡ (
        record upf {
          pdrs = (take_id G 65536 upf.pdrs).0;
          fars = (take_id G 4294967296 upf.fars).0;
        },
        none,
      )
  unfolding add_pdr pdr_id pdr_with_far add_far far_id
  without_far upf id on e f = rw (on, e, f) refl

  -- An associated UPF whose FAR identifiers are used up loses one PDR identifier with each call:
  -- `AddPDR` takes it before it asks for the FAR, returns the error, and neither stores a PDR under
  -- the identifier nor gives it back.
  pub add_pdr_leaks :
      (upf : RuleTables G) (id : ℕ)
      → AllTracked G upf
      → upf.associated ≡ true
      → (G.allocate_id upf.pdrs.ids).1 ≡ some id
      → (G.allocate_id upf.fars.ids).1 ≡ none
      → ((add_pdr G upf).1 ≡ none)
        × ((add_pdr G upf).0.pdrs.pool id ≡ none)
        × (G.is_used upf.pdrs.ids id ≡ false)
        × (G.is_used (add_pdr G upf).0.pdrs.ids id ≡ true)
  add_pdr_leaks upf id k on e f = elim (G.allocate_lem upf.pdrs.ids) [
    | inl (n, _) ↦ absurd (ground arith)
    | inr (j, e', _, _, u, v, _) ↦
        let same : j ≡ id = ground arith in
        let absent : upf.pdrs.pool j ≡ none =
          unused_absent G (λ r. r.pdr_id) 65535 upf.pdrs j k.pdrs u in
        rw (without_far upf id on e f, ← same) (refl, absent, u, v)
  ]

  pub add_pdr-associated : (upf : RuleTables G) → (add_pdr G upf).0.associated ≡ upf.associated
  unfolding add_pdr pdr_id pdr_with_far add_far far_id
  add_pdr-associated upf =
      if_both Same upf.associated
        (if_both (λ r. Same (pdr_with_far G r)) upf.associated
          (second (record upf { pdrs = (take_id G 65536 upf.pdrs).0 }) (take_id G 65536 upf.pdrs).1)
          refl)
        refl
    where
      Same : RuleTables G × Option Pdr → Type 0
      Same r = r.0.associated ≡ upf.associated

      third :
          (id : ℕ) (u : RuleTables G) (o : Option ℕ)
          → (store_pdr G id (store_far G (u, o))).0.associated ≡ u.associated
      third id u none = refl
      third id u (some far) = refl

      second :
          (u : RuleTables G) (o : Option ℕ) → (pdr_with_far G (u, o)).0.associated ≡ u.associated
      second u none = refl
      second u (some id) =
          if_both (λ r. (store_pdr G id r).0.associated ≡ u.associated) u.associated
            (if_both (λ r. (store_pdr G id (store_far G r)).0.associated ≡ u.associated)
              u.associated
              (third id (record u { fars = (take_id G 4294967296 u.fars).0 })
                (take_id G 4294967296 u.fars).1)
              refl)
            refl

  -- Given a generator that keeps its promises and tables that are tracked, `RemovePDR` of the PDR that
  -- `AddPDR` has just returned succeeds, leaves the PDRs as they were before, and takes the
  -- identifier back.
  pub remove_pdr-add_pdr :
      (upf : RuleTables G) (pdr : Pdr)
      → AllTracked G upf
      → (add_pdr G upf).1 ≡ some pdr
      → ((remove_pdr G (add_pdr G upf).0 pdr).1 ≡ true)
        × ((v : ℕ) → (remove_pdr G (add_pdr G upf).0 pdr).0.pdrs.pool v ≡ upf.pdrs.pool v)
        × (G.is_used (remove_pdr G (add_pdr G upf).0 pdr).0.pdrs.ids pdr.pdr_id ≡ false)
  remove_pdr-add_pdr upf pdr k e = elim (add_pdr_lem upf k) [
    | inl (n, _, _) ↦ absurd (ground arith)
    | inr (on, (pdr', e', g)) ↦
        let same : pdr' ≡ pdr = ground arith in
        gains_undone upf (add_pdr G upf).0 pdr (add_pdr-associated upf ∙ on)
          (subst (λ r. GainsPdr upf (add_pdr G upf).0 r) same g)
  ]
