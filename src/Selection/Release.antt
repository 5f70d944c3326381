-- ===== src/Selection/Release.antt =====
-- The address that a choice gave goes back to the pool that gave it.
use smf_nwdaf_ext.Common.{
  ℕ, ◌≡◌, ◌≢◌, ◌≤◌, refl, subst, inl, inr, Bool, true, Option, some, List, ◌==◌, arith, Bool-cases,
  has,
}
use smf_nwdaf_ext.Net.{Ip, big_endian_uint32, net_contains}
use smf_nwdaf_ext.Pool.Contents.{IsDistinct, copies}
use smf_nwdaf_ext.UeIpPool.{UeIpPool, release}
use smf_nwdaf_ext.UeIpPool.Leases.{IsRequest, Restores, release-Leases}
use smf_nwdaf_ext.UeIpPool.Creation.{IsAddressPool}
use smf_nwdaf_ext.Topology.{Selection, Topology, Upf}
use smf_nwdaf_ext.Selection.{
  Store, put, get_ue_ip_pool, find_pool_by_addr, release_ue_ip, select_and_alloc, selected,
}
use smf_nwdaf_ext.Selection.Trying.{AllAddressPools, Gave}
use smf_nwdaf_ext.Selection.Outcome.{AllUpfs, select_and_alloc-Chosen}
use smf_nwdaf_ext.Selection.Owned.{owns, pools_in_slices-owns, IsOnlyPool, find_pool_by_addr-only}

same_nets :
    (pools after : Store) (request : Option Ip) (k : ℕ) (addr : Ip)
    → Gave pools request after k addr
    → (j : ℕ) → (after j).ue_sub_net ≡ (pools j).ue_sub_net
same_nets pools after request k addr g j = elim (Bool-cases (j == k)) [
  | inl here ↦ let at_k : j ≡ k = ground arith in rw at_k g.leases.same_net
  | inr there ↦ rw (g.others j (ground arith))
]

release_found :
    (pools : Store) (upf : Upf) (addr : Ip) (static : Bool) (k : ℕ) (p : UeIpPool)
    → find_pool_by_addr pools upf addr static ≡ some k
    → release (pools k) addr ≡ some p
    → release_ue_ip pools upf addr static ≡ some (put pools k p)
unfolding release_ue_ip
release_found pools upf addr static k p e e' = rw (e, e', release_ue_ip)

put-Restores :
    (pools after : Store) (k : ℕ) (p : UeIpPool)
    → Restores (pools k) p
    → ((j : ℕ) → j ≢ k → after j ≡ pools j)
    → (j : ℕ) → Restores (pools j) (put after k p j)
put-Restores pools after k p back others j = elim (Bool-cases (k == j)) [
  | inl here ↦
      let at_k : k ≡ j = ground arith in rw here (subst (λ i. Restores (pools i) p) at_k back)
  | inr there ↦ let ne : j ≢ k = ground arith in rw there (rw (others j ne) (λ v. refl, refl))
]

release-Gave :
    (pools after : Store) (upf : Upf) (selection : Selection) (k : ℕ) (addr : Ip)
    → IsAddressPool (pools k)
    → IsDistinct (pools k).pool
    → has k (get_ue_ip_pool pools upf selection).0 ≡ true
    → net_contains (pools k).ue_sub_net addr ≡ true
    → IsOnlyPool pools upf addr (get_ue_ip_pool pools upf selection).1 k
    → Gave pools selection.pdu_address after k addr
    → (restored : Store) × (release_ue_ip after upf addr (get_ue_ip_pool pools upf selection).1
        ≡ some restored)
      × ((j : ℕ) → Restores (pools j) (restored j))
unfolding get_ue_ip_pool
release-Gave pools after upf selection k addr a d h c only g =
    let static = (get_ue_ip_pool pools upf selection).1 in
    let (p, e, back) = release-Leases (pools k) (after k) selection.pdu_address addr a d g.leases in
    let nets = same_nets pools after selection.pdu_address k addr g in
    let found =
      find_pool_by_addr-only after upf addr static k
        (pools_in_slices-owns pools upf.snssai_infos selection k h) (rw (nets k) c)
        (λ j o i. only j o (rw (← nets j) i)) in
    (
      put after k p,
      release_found after upf addr static k p found e,
      put-Restores pools after k p back g.others,
    )

-- Among the UPF's pools of one kind, the one that holds the address free contains it in its subnet,
-- and no other one does.
abbrev pub HasOnePool : Store → Upf → Ip → Bool → Type 0
HasOnePool pools upf addr static =
    (k : ℕ)
    → owns upf.snssai_infos static k ≡ true
    → ((value : ℕ)
        → big_endian_uint32 addr ≡ some value
        → 1 ≤ copies (pools k).pool.segments value
        → (net_contains (pools k).ue_sub_net addr ≡ true) × IsOnlyPool pools upf addr static k)

module _ (t : Topology) (selection : Selection) (offset : ℕ → ℕ → ℕ) where
  -- Releasing undoes a choice. Given anchors that are UPFs, pools of distinct 32-bit addresses and a
  -- request of four bytes, let the choice return an address of a UPF. Where the subnet of the UPF's
  -- pool that holds the address free contains it, and that of no other pool of that kind does, the
  -- release from that UPF does not panic and leaves every pool as it was before the choice, address
  -- by address.
  pub release_ue_ip-select_and_alloc :
      (anchors : List ℕ) (pools after : Store) (n : ℕ) (addr : Ip) (static : Bool) (upf : Upf)
      → AllUpfs t selection offset anchors
      → AllAddressPools pools
      → ((k : ℕ) → IsDistinct (pools k).pool)
      → IsRequest selection.pdu_address
      → select_and_alloc t selection offset anchors pools ≡ (after, selected n addr static)
      → (t.node n).upf ≡ some upf
      → HasOnePool pools upf addr static
      → (restored : Store) × (release_ue_ip after upf addr static ≡ some restored)
        × ((j : ℕ) → Restores (pools j) (restored j))
  unfolding get_ue_ip_pool
  release_ue_ip-select_and_alloc anchors pools after n addr static upf us a d r e u one =
      elim (select_and_alloc-Chosen t selection offset anchors pools us a r) [
        | inl (_, e', _) ↦ absurd (ground arith)
        | inr (n', k, addr', static', e', _, (upf', u', _, h, f), g) ↦
            let place : n' ≡ n = ground arith in
            let same_addr : addr ≡ addr' = ground arith in
            let same_flag : static ≡ (get_ue_ip_pool pools upf selection).1 = ground arith in
            let same_upf : upf' ≡ upf = ground arith in
            let offered : has k (get_ue_ip_pool pools upf selection).0 ≡ true = rw (← same_upf) h in
            let given : Gave pools selection.pdu_address after k addr =
              rw same_addr (subst (λ s. Gave pools selection.pdu_address s.0 k addr') e g) in
            let owned : owns upf.snssai_infos static k ≡ true =
              rw same_flag (pools_in_slices-owns pools upf.snssai_infos selection k offered) in
            let (inside, only) =
              one k owned given.leases.value given.leases.encoded
                (ground (arith, given.leases.taken.held given.leases.value)) in
            rw same_flag (
              release-Gave pools after upf selection k addr (a k) (d k) offered inside
                (rw (← same_flag) only) given)
      ]
