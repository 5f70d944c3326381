-- ===== src/Rules/Tracking.antt =====
-- What a table keeps: its rules have identifiers that are out, each its own.
use native.Mathlib.Nat.{mod-eq_of_lt}
use smf_nwdaf_ext.Common.{
  ℕ, ◌%◌, ◌≤◌, ◌<◌, ◌≡◌, ◌≢◌, refl, true, false, ◌⊎◌, inl, inr, none, some, ◌==◌, arith, Bool-cases,
  Option-cases, subst,
}
use smf_nwdaf_ext.Rules.{IdGenerator, Table, take_id, store, remove}

module _ (G : IdGenerator) {R : Type 0} (key : R → ℕ) (bound : ℕ) where
  pub record Tracked (t : Table G R) : Type 0 where
    pub keyed :
        (v : ℕ) (r : R)
        → t.pool v ≡ some r
        → (key r ≡ v) × (G.is_used t.ids v ≡ true) × (1 ≤ v) × (v ≤ bound)
    pub lowest : G.low t.ids ≡ 1
    pub highest : G.high t.ids ≡ bound

  -- An identifier that the table gives out: none of its rules has it.
  pub record Fresh (t after : Table G R) (id : ℕ) : Type 0 where
    pub positive : 1 ≤ id
    pub bounded : id ≤ bound
    pub unused : G.is_used t.ids id ≡ false
    pub absent : t.pool id ≡ none
    pub used : G.is_used after.ids id ≡ true

  pub unused_absent :
      (t : Table G R) (id : ℕ) → Tracked t → G.is_used t.ids id ≡ false → t.pool id ≡ none
  unused_absent t id k u = elim (Option-cases (t.pool id)) [
    | inl e ↦ e
    | inr (r, e) ↦ let (_, used, _, _) = k.keyed id r e in absurd (ground arith)
  ]

  pub take_id-Tracked :
      (width : ℕ) (t : Table G R) → Tracked t → bound < width → Tracked (take_id G width t).0
  take_id-Tracked width t k b = record {
    keyed = λ v r h. (
      (k.keyed v r h).0,
      (elim (G.allocate_lem t.ids) [
        | inl (_, same) ↦ ground (arith, same v, (k.keyed v r h).1)
        | inr (id, _, _, _, u, used, same) ↦ elim (Bool-cases (v == id)) [
          | inl here ↦ let at_id : v ≡ id = ground arith in rw at_id used
          | inr there ↦
              let ne : v ≢ id = ground arith in ground (arith, same v ne, (k.keyed v r h).1)
        ]
      ]),
      (k.keyed v r h).2,
      (k.keyed v r h).3,
    );
    lowest = ground (arith, G.allocate_range t.ids, k.lowest);
    highest = ground (arith, G.allocate_range t.ids, k.highest);
  }

  take_id-Fresh :
      (width : ℕ) (t : Table G R)
      → Tracked t
      → bound < width
      → ((take_id G width t).1 ≡ none)
        ⊎ ((id : ℕ) × ((take_id G width t).1 ≡ some id) × Fresh t (take_id G width t).0 id)
  take_id-Fresh width t k b = elim (G.allocate_lem t.ids) [
    | inl (e, _) ↦ inl (rw e refl)
    | inr (id, e, l, h, u, v, _) ↦
        let small : id < width = ground (arith, k.highest) in
        let cut : id % width ≡ id = mod-eq_of_lt small in
        inr (
          id,
          rw (e, cut) refl,
          record {
            positive = ground (arith, k.lowest);
            bounded = ground (arith, k.highest);
            unused = u;
            absent = unused_absent t id k u;
            used = v;
          },
        )
  ]

  pub take_id-some :
      (width : ℕ) (t : Table G R)
      → Tracked t
      → bound < width
      → (id : ℕ) → (take_id G width t).1 ≡ some id
      → Fresh t (take_id G width t).0 id
  take_id-some width t k b id e = elim (take_id-Fresh width t k b) [
    | inl none_left ↦ absurd (ground arith)
    | inr (j, e', f) ↦
        let same : j ≡ id = ground arith in subst (λ i. Fresh t (take_id G width t).0 i) same f
  ]

  pub store-Tracked :
      (id : ℕ) (r : R) (t after : Table G R)
      → Fresh t after id
      → Tracked after
      → key r ≡ id
      → Tracked (store G id r after)
  store-Tracked id r t after f k e = record {
    keyed = λ v s h. elim (Bool-cases (id == v)) [
      | inl here ↦
          let same : id ≡ v = ground arith in
          let it : r ≡ s = ground arith in
          (ground arith, rw (← same) f.used, omega (arith, f.positive), omega (arith, f.bounded))
      | inr there ↦ k.keyed v s (ground arith)
    ];
    lowest = k.lowest;
    highest = k.highest;
  }

  -- The table gained one rule, under an identifier of its range that no rule had.
  pub record Added (t after : Table G R) (r : R) : Type 0 where
    pub absent : t.pool (key r) ≡ none
    pub positive : 1 ≤ key r
    pub bounded : key r ≤ bound
    pub stored : after.pool (key r) ≡ some r
    pub used : G.is_used after.ids (key r) ≡ true
    pub others : (v : ℕ) → v ≢ key r → after.pool v ≡ t.pool v

  pub store-Added :
      (width id : ℕ) (r : R) (t : Table G R)
      → Fresh t (take_id G width t).0 id
      → key r ≡ id
      → Added t (store G id r (take_id G width t).0) r
  store-Added width id r t f e = record {
    absent = rw e f.absent;
    positive = rw e f.positive;
    bounded = rw e f.bounded;
    stored = ground arith;
    used = rw e f.used;
    others = λ v ne. ground arith;
  }

  pub remove-Tracked : (id : ℕ) (t : Table G R) → Tracked t → Tracked (remove G id t)
  remove-Tracked id t k = record {
    keyed = λ v s h. elim (Bool-cases (id == v)) [
      | inl here ↦ absurd (ground arith)
      | inr there ↦
          let ne : v ≢ id = ground arith in
          let (e, u, p, b) = k.keyed v s (ground arith) in
          (e, ground (arith, (G.free_lem t.ids id).1 v ne, u), p, b)
    ];
    lowest = ground (arith, G.free_range t.ids id, k.lowest);
    highest = ground (arith, G.free_range t.ids id, k.highest);
  }
