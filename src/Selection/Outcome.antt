-- ===== src/Selection/Outcome.antt =====
-- What the choice of an anchor leaves in the pools, on success and on failure.
use smf_nwdaf_ext.Common.{
  ℕ, suc, ◌≡◌, refl, sym, fun_ext, subst, ◌∙◌, ◌⊎◌, inl, inr, Bool, true, some, List, [], ◌∷◌, ◌==◌,
  arith, Bool-cases, has, has-rotate, length,
}
use smf_nwdaf_ext.Net.{Ip}
use smf_nwdaf_ext.UeIpPool.{Allocation}
use smf_nwdaf_ext.UeIpPool.Leases.{IsRequest, Exhausted}
use smf_nwdaf_ext.Topology.{Selection, Upf, Topology}
use smf_nwdaf_ext.Selection.{
  Store, get_ue_ip_pool, create_list_for_selection, alloc_from_pools, Selected, selected, exhausted,
  then_next, try_pools, try_upf, alloc_from_upfs, select_and_alloc,
}
use smf_nwdaf_ext.Selection.Trying.{AllAddressPools, Gave, Tried, alloc_from_pools-Tried}

module _ (t : Topology) (selection : Selection) (offset : ℕ → ℕ → ℕ) where
  -- Pool `k` is one that the UPF at place `n` offers for the selection, with the flag `static`.
  abbrev pub Offers : Store → ℕ → ℕ → Bool → Type 0
  Offers pools n k static =
      (upf : Upf) × ((t.node n).upf ≡ some upf)
      × (upf.associated ≡ true)
      × (has k (get_ue_ip_pool pools upf selection).0 ≡ true)
      × ((get_ue_ip_pool pools upf selection).1 ≡ static)

  -- What trying the UPFs of a list comes to.
  abbrev pub Chosen : Store → List ℕ → Store × Selected → Type 0
  Chosen pools upfs result =
      (((j : ℕ) → result.0 j ≡ pools j)
        × (result.1 ≡ exhausted)
        × ((n k : ℕ) (static : Bool)
            → has n upfs ≡ true
            → Offers pools n k static
            → Exhausted (pools k) selection.pdu_address))
      ⊎ ((n : ℕ) × (k : ℕ) × (addr : Ip) × (static : Bool) × (result.1 ≡ selected n addr static)
          × (has n upfs ≡ true)
          × Offers pools n k static
          × Gave pools selection.pdu_address result.0 k addr)

  wider-Chosen :
      (pools : Store) (n : ℕ) (upfs : List ℕ) (result : Store × Selected)
      → ((k : ℕ) (static : Bool)
          → Offers pools n k static
          → Exhausted (pools k) selection.pdu_address)
      → Chosen pools upfs result
      → Chosen pools (n ∷ upfs) result
  wider-Chosen pools n upfs result x (inl (same, e, none_left)) = inl (
    same,
    e,
    λ m k static h o. elim (Bool-cases (n == m)) [
      | inl here ↦
          let at_n : n ≡ m = ground arith in
          x k static (subst (λ i. Offers pools i k static) (sym at_n) o)
      | inr there ↦ none_left m k static (ground arith) o
    ],
  )
  wider-Chosen pools n upfs result x (inr (m, k, addr, static, e, h, o, g)) =
      inr (m, k, addr, static, e, ground arith, o, g)

  -- Once the pools of the list are tried.
  then_next-Chosen :
      (n : ℕ) (upfs ks : List ℕ) (static : Bool) (pools : Store) (r : Store × Allocation)
      (next : Store → Store × Selected)
      → ((k : ℕ) → has k ks ≡ true → Offers pools n k static)
      → ((k : ℕ) (flag : Bool) → Offers pools n k flag → has k ks ≡ true)
      → Tried pools selection.pdu_address ks r
      → Chosen pools upfs (next pools)
      → Chosen pools (n ∷ upfs) (then_next n static r next)
  then_next-Chosen n upfs ks static pools (after, outcome) next sub sup (inl (same, e, x)) rest =
      subst (λ o. Chosen pools (n ∷ upfs) (then_next n static (after, o) next)) (sym e)
        (subst (λ s. Chosen pools (n ∷ upfs) (next s)) (sym (fun_ext same))
          (wider-Chosen pools n upfs (next pools) (λ k flag o. x k (sup k flag o)) rest))
  then_next-Chosen n upfs ks static pools (after, outcome) next sub sup (inr (k, addr, e, h, g))
        rest =
      subst (λ o. Chosen pools (n ∷ upfs) (then_next n static (after, o) next)) (sym e)
        (inr (n, k, addr, static, refl, ground arith, sub k h, g))

  try_pools-Chosen :
      (i n : ℕ) (upfs ks : List ℕ) (static : Bool) (pools : Store) (next : Store → Store × Selected)
      → AllAddressPools pools
      → IsRequest selection.pdu_address
      → ((k : ℕ) → has k ks ≡ true → Offers pools n k static)
      → ((k : ℕ) (flag : Bool) → Offers pools n k flag → has k ks ≡ true)
      → Chosen pools upfs (next pools)
      → Chosen pools (n ∷ upfs) (try_pools i n static ks selection.pdu_address pools next)
  unfolding try_pools create_list_for_selection
  try_pools-Chosen i n upfs [] static pools next a r sub sup rest =
      wider-Chosen pools n upfs (next pools)
        (λ k flag o. let m = sup k flag o in absurd (ground arith)) rest
  try_pools-Chosen i n upfs (k ∷ ks) static pools next a r sub sup rest =
      let order = create_list_for_selection i (k ∷ ks) in
      then_next-Chosen n upfs order static pools
        (alloc_from_pools pools selection.pdu_address order) next
        (λ j m. sub j (sym (has-rotate j i (k ∷ ks)) ∙ m))
        (λ j flag o. has-rotate j i (k ∷ ks) ∙ sup j flag o)
        (alloc_from_pools-Tried pools selection.pdu_address order a r) rest

  try_upf-Chosen :
      (call n : ℕ) (upfs : List ℕ) (upf : Upf) (pools : Store) (next : Store → Store × Selected)
      → (t.node n).upf ≡ some upf
      → AllAddressPools pools
      → IsRequest selection.pdu_address
      → Chosen pools upfs (next pools)
      → Chosen pools (n ∷ upfs) (try_upf t selection offset call n (some upf) pools next)
  unfolding try_upf get_ue_ip_pool
  try_upf-Chosen call n upfs upf pools next u a r rest = elim (Bool-cases upf.associated) [
    | inr off ↦ rw off (
        wider-Chosen pools n upfs (next pools)
          (λ k static (upf', u', on, _, _). absurd (ground arith)) rest)
    | inl on ↦ rw on (
        try_pools-Chosen (offset call (length (get_ue_ip_pool pools upf selection).0)) n upfs
          (get_ue_ip_pool pools upf selection).0 (get_ue_ip_pool pools upf selection).1 pools next a
          r (λ k m. (upf, u, on, m, refl))
          (λ k flag (upf', u', _, m, _). let same : upf' ≡ upf = ground arith in rw (← same) m)
          rest)
  ]

  -- Every UPF of a list is a UPF: its node has one.
  abbrev pub AllUpfs : List ℕ → Type 0
  AllUpfs upfs = (n : ℕ) → has n upfs ≡ true → (upf : Upf) × ((t.node n).upf ≡ some upf)

  alloc_from_upfs-Chosen :
      (call : ℕ) (upfs : List ℕ) (pools : Store)
      → AllUpfs upfs
      → AllAddressPools pools
      → IsRequest selection.pdu_address
      → Chosen pools upfs (alloc_from_upfs t selection offset call upfs pools)
  unfolding alloc_from_upfs
  alloc_from_upfs-Chosen call [] pools us a r =
      inl (λ j. refl, refl, λ n k static m. absurd (ground arith))
  alloc_from_upfs-Chosen call (n ∷ upfs) pools us a r =
      let (upf, u) = us n (ground arith) in
      subst
        (λ o. Chosen pools (n ∷ upfs) (
          try_upf t selection offset call n o pools
            (λ later. alloc_from_upfs t selection offset (suc call) upfs later)))
        (sym u)
        (try_upf-Chosen call n upfs upf pools
          (λ later. alloc_from_upfs t selection offset (suc call) upfs later) u a r
          (alloc_from_upfs-Chosen (suc call) upfs pools (λ m h. us m (ground arith)) a r))

  reorder :
      (anchors order : List ℕ) (pools : Store) (result : Store × Selected)
      → ((n : ℕ) → has n order ≡ has n anchors)
      → Chosen pools order result
      → Chosen pools anchors result
  reorder anchors order pools result same (inl (keep, e, x)) =
      inl (keep, e, λ n k static h o. x n k static (same n ∙ h) o)
  reorder anchors order pools result same (inr (n, k, addr, static, e, h, o, g)) =
      inr (n, k, addr, static, e, sym (same n) ∙ h, o, g)

  -- Given anchors that are UPFs, pools of 32-bit addresses and a request of four bytes, the choice
  -- never panics. It gives an address of a pool that an associated anchor offers for the selection,
  -- the requested one where one is requested, and changes no other pool; or it changes nothing, and
  -- then no pool that an associated anchor offers could have served the request.
  pub select_and_alloc-Chosen :
      (anchors : List ℕ) (pools : Store)
      → AllUpfs anchors
      → AllAddressPools pools
      → IsRequest selection.pdu_address
      → Chosen pools anchors (select_and_alloc t selection offset anchors pools)
  unfolding select_and_alloc create_list_for_selection
  select_and_alloc-Chosen [] pools us a r =
      inl (λ j. refl, refl, λ n k static m. absurd (ground arith))
  select_and_alloc-Chosen (n ∷ anchors) pools us a r =
      reorder (n ∷ anchors) (create_list_for_selection i (n ∷ anchors)) pools
        (alloc_from_upfs t selection offset 1 (create_list_for_selection i (n ∷ anchors)) pools)
        (λ m. has-rotate m i (n ∷ anchors))
        (alloc_from_upfs-Chosen 1 (create_list_for_selection i (n ∷ anchors)) pools
          (λ m h. us m (sym (has-rotate m i (n ∷ anchors)) ∙ h)) a r)
    where
      i : ℕ
      i = offset 0 (length (n ∷ anchors))
