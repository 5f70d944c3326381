-- ===== src/Qfi/Distinct.antt =====
-- No two QoS ids of a session share an identifier.
use native.Mathlib.Nat.{mod-eq_of_lt}
use smf_nwdaf_ext.Common.{
  ℕ, ◌%◌, ◌≤◌, ◌<◌, ◌≡◌, ◌≢◌, refl, inl, inr, true, Option, none, some, List, [], ◌∷◌, ◌==◌, arith,
  Bool-cases,
}
use smf_nwdaf_ext.Rules.{IdGenerator}
use smf_nwdaf_ext.Qfi.{
  QosContext, new_qos_context, assign_at, assign_qfi, add_qos_flow, remove_qos_flow, remove_at,
  remove_qfi,
}

-- A QoS id gets an identifier, gives it up, or a flow is noted.
pub data Change : Type 0 where
  assigning removing : ℕ → Change
  flowing : ℕ → Option ℕ → Change

module _ (G : IdGenerator) where
  pub record IsConsistent (c : QosContext G) : Type 0 where
    pub issued :
        (q id : ℕ)
        → c.qos_data_to_qfi q ≡ some id
        → (G.is_used c.qfi_generator id ≡ true) × (2 ≤ id) × (id ≤ 63)
    pub distinct :
        (p q id : ℕ) → c.qos_data_to_qfi p ≡ some id → c.qos_data_to_qfi q ≡ some id → p ≡ q
    pub lowest : G.low c.qfi_generator ≡ 2
    pub highest : G.high c.qfi_generator ≡ 63

  new-IsConsistent : IsConsistent (new_qos_context G)
  unfolding new_qos_context
  new-IsConsistent = record {
    issued = λ q id h. absurd (ground arith);
    distinct = λ p q id h k. absurd (ground arith);
    lowest = (G.new_lem 2 63).1;
    highest = (G.new_lem 2 63).2;
  }

  -- The identifier is new to the map, since the map's are all out.
  assign_at-IsConsistent :
      (c : QosContext G) (qos_id : ℕ) (o : Option ℕ)
      → IsConsistent c
      → IsConsistent (assign_at G c qos_id o).0
  assign_at-IsConsistent c qos_id (some qfi) k = k
  assign_at-IsConsistent c qos_id none k = elim (G.allocate_lem c.qfi_generator) [
    | inl (e, same) ↦ rw e (record {
      issued = λ q id h. let (u, l, b) = k.issued q id h in (ground (arith, same id, u), l, b);
      distinct = k.distinct;
      lowest = ground (arith, G.allocate_range c.qfi_generator, k.lowest);
      highest = ground (arith, G.allocate_range c.qfi_generator, k.highest);
    })
    | inr (new_id, e, l, h, unused, used, same) ↦
        let small : new_id < 256 = ground (arith, k.highest) in
        let cut : new_id % 256 ≡ new_id = mod-eq_of_lt small in
        rw (e, cut)
          (record {
            issued = λ q id hq. elim (Bool-cases (qos_id == q)) [
              | inl here ↦
                  let it : new_id ≡ id = ground arith in
                  (rw (← it) used, ground (arith, k.lowest), ground (arith, k.highest))
              | inr other ↦
                  let (u, lo, hi) = k.issued q id (ground arith) in
                  let ne : id ≢ new_id = λ it.
                    let clash : G.is_used c.qfi_generator new_id ≡ true = rw (← it) u in
                    absurd (ground arith) in
                  (ground (arith, same id ne, u), lo, hi)
            ];
            distinct = λ p q id hp hq. elim (Bool-cases (qos_id == p)) [
              | inl p_new ↦ elim (Bool-cases (qos_id == q)) [
                | inl q_new ↦ ground arith
                | inr q_old ↦
                    let (u, _, _) = k.issued q id (ground arith) in
                    let it : new_id ≡ id = ground arith in
                    let clash : G.is_used c.qfi_generator new_id ≡ true = rw it u in
                    absurd (ground arith)
              ]
              | inr p_old ↦ elim (Bool-cases (qos_id == q)) [
                | inl q_new ↦
                    let (u, _, _) = k.issued p id (ground arith) in
                    let it : new_id ≡ id = ground arith in
                    let clash : G.is_used c.qfi_generator new_id ≡ true = rw it u in
                    absurd (ground arith)
                | inr q_old ↦ k.distinct p q id (ground arith) (ground arith)
              ]
            ];
            lowest = ground (arith, G.allocate_range c.qfi_generator, k.lowest);
            highest = ground (arith, G.allocate_range c.qfi_generator, k.highest);
          })
  ]

  -- What the other QoS ids have stays out, since it differs from what is freed.
  remove_at-IsConsistent :
      (c : QosContext G) (qos_id : ℕ) (o : Option ℕ)
      → IsConsistent c
      → c.qos_data_to_qfi qos_id ≡ o
      → IsConsistent (remove_at G c qos_id o)
  unfolding remove_at remove_qos_flow
  remove_at-IsConsistent c qos_id none k e = k
  remove_at-IsConsistent c qos_id (some qfi) k e = record {
    issued = λ q id hq. elim (Bool-cases (qos_id == q)) [
      | inl here ↦ absurd (ground arith)
      | inr other ↦
          let old : c.qos_data_to_qfi q ≡ some id = ground arith in
          let (u, lo, hi) = k.issued q id old in
          let ne : id ≢ qfi = λ it.
            let both : qos_id ≡ q = k.distinct qos_id q id (rw it e) old in absurd (ground arith) in
          (ground (arith, (G.free_lem c.qfi_generator qfi).1 id ne, u), lo, hi)
    ];
    distinct = λ p q id hp hq. k.distinct p q id (ground arith) (ground arith);
    lowest = ground (arith, G.free_range c.qfi_generator qfi, k.lowest);
    highest = ground (arith, G.free_range c.qfi_generator qfi, k.highest);
  }

  flow-IsConsistent :
      (c : QosContext G) (qfi : ℕ) (profile : Option ℕ)
      → IsConsistent c
      → IsConsistent (add_qos_flow G c qfi profile)
  unfolding add_qos_flow
  flow-IsConsistent c qfi none k = k
  flow-IsConsistent c qfi (some profile) k = record {
    issued = k.issued;
    distinct = k.distinct;
    lowest = k.lowest;
    highest = k.highest;
  }

  abbrev pub change : Change → QosContext G → QosContext G
  change (assigning q) c = (assign_qfi G c q).0
  change (removing q) c = remove_qfi G c q
  change (flowing qfi profile) c = add_qos_flow G c qfi profile

  abbrev pub change_all : List Change → QosContext G → QosContext G
  change_all [] c = c
  change_all (x ∷ changes) c = change_all changes (change x c)

  change-IsConsistent : (x : Change) (c : QosContext G) → IsConsistent c → IsConsistent (change x c)
  unfolding assign_qfi remove_qfi
  change-IsConsistent (assigning q) c k = assign_at-IsConsistent c q (c.qos_data_to_qfi q) k
  change-IsConsistent (removing q) c k = remove_at-IsConsistent c q (c.qos_data_to_qfi q) k refl
  change-IsConsistent (flowing qfi profile) c k = flow-IsConsistent c qfi profile k

  change_all-kept :
      (changes : List Change) (c : QosContext G)
      → IsConsistent c
      → IsConsistent (change_all changes c)
  change_all-kept [] c k = k
  change_all-kept (x ∷ changes) c k =
      change_all-kept changes (change x c) (change-IsConsistent x c k)

  -- Given a generator that keeps its promises, after any changes to a new session no two QoS ids have
  -- the same identifier, and each that is assigned lies between 2 and 63 and is out.
  pub change_all-IsConsistent :
      (changes : List Change) → IsConsistent (change_all changes (new_qos_context G))
  change_all-IsConsistent changes = change_all-kept changes (new_qos_context G) new-IsConsistent
