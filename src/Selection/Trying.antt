-- ===== src/Selection/Trying.antt =====
-- The loop over the pools of one UPF: which pool gave the address, and what the others kept.
use smf_nwdaf_ext.Common.{
  ℕ, ◌≡◌, ◌≢◌, refl, sym, fun_ext, subst, ◌⊎◌, inl, inr, true, Option, List, [], ◌∷◌, ◌==◌, arith,
  Bool-cases, has,
}
use smf_nwdaf_ext.Net.{Ip}
use smf_nwdaf_ext.UeIpPool.{UeIpPool, Allocation, address, no_address, allocate_ip}
use smf_nwdaf_ext.UeIpPool.Creation.{IsAddressPool}
use smf_nwdaf_ext.UeIpPool.Leases.{IsRequest, Exhausted, Leases, allocate_ip_lem}
use smf_nwdaf_ext.Selection.{Store, put, alloc_from_pools, take_or_next}

abbrev pub AllAddressPools : Store → Type 0
AllAddressPools pools = (k : ℕ) → IsAddressPool (pools k)

-- Pool `k` gave the address, and every other pool is as it was.
pub record Gave (before : Store) (request : Option Ip) (after : Store) (k : ℕ) (addr : Ip)
    : Type 0 where
  pub leases : Leases (before k) request (after k) addr
  pub others : (j : ℕ) → j ≢ k → after j ≡ before j

-- What trying the pools of a list comes to.
abbrev pub Tried : Store → Option Ip → List ℕ → Store × Allocation → Type 0
Tried pools request ks result =
    (((j : ℕ) → result.0 j ≡ pools j)
      × (result.1 ≡ no_address)
      × ((k : ℕ) → has k ks ≡ true → Exhausted (pools k) request))
    ⊎ ((k : ℕ) × (addr : Ip) × (result.1 ≡ address addr)
        × (has k ks ≡ true)
        × Gave pools request result.0 k addr)

put_at : (pools : Store) (k : ℕ) (p : UeIpPool) → put pools k p k ≡ p
put_at pools k p = ground arith

put_other : (pools : Store) (k j : ℕ) (p : UeIpPool) → j ≢ k → put pools k p j ≡ pools j
put_other pools k j p ne = ground arith

put-same : (pools : Store) (k : ℕ) (j : ℕ) → put pools k (pools k) j ≡ pools j
put-same pools k j = elim (Bool-cases (k == j)) [
  | inl e ↦ let same : k ≡ j = ground arith in rw e (rw same)
  | inr e ↦ rw e
]

put-same_fun : (pools : Store) (k : ℕ) → put pools k (pools k) ≡ pools
put-same_fun pools k = fun_ext (put-same pools k)

wider-Tried :
    (pools : Store) (request : Option Ip) (k : ℕ) (ks : List ℕ) (result : Store × Allocation)
    → Exhausted (pools k) request
    → Tried pools request ks result
    → Tried pools request (k ∷ ks) result
wider-Tried pools request k ks result x (inl (same, e, none_left)) = inl (
  same,
  e,
  λ j m. elim (Bool-cases (k == j)) [
    | inl here ↦ let at_k : k ≡ j = ground arith in rw (← at_k) x
    | inr there ↦ none_left j (ground arith)
  ],
)
wider-Tried pools request k ks result x (inr (j, addr, e, m, g)) = inr (j, addr, e, ground arith, g)

-- One pool, and then whatever the others come to.
take_or_next-Tried :
    (pools : Store) (request : Option Ip) (k : ℕ) (ks : List ℕ) (r : UeIpPool × Allocation)
    (next : Store → Store × Allocation)
    → ((r ≡ (pools k, no_address)) × Exhausted (pools k) request)
      ⊎ ((q : UeIpPool) × (addr : Ip) × (r ≡ (q, address addr)) × Leases (pools k) request q addr)
    → Tried pools request ks (next pools)
    → Tried pools request (k ∷ ks) (take_or_next pools k r next)
take_or_next-Tried pools request k ks r next (inl (e, x)) rest =
    subst (λ o. Tried pools request (k ∷ ks) (take_or_next pools k o next)) (sym e)
      (subst (λ s. Tried pools request (k ∷ ks) (next s)) (sym (put-same_fun pools k))
        (wider-Tried pools request k ks (next pools) x rest))
take_or_next-Tried pools request k ks r next (inr (q, addr, e, l)) rest =
    subst (λ o. Tried pools request (k ∷ ks) (take_or_next pools k o next)) (sym e)
      (inr (
        k,
        addr,
        refl,
        ground arith,
        record {
          leases = subst (λ p. Leases (pools k) request p addr) (sym (put_at pools k q)) l;
          others = λ j ne. put_other pools k j q ne;
        },
      ))

pub alloc_from_pools-Tried :
    (pools : Store) (request : Option Ip) (ks : List ℕ)
    → AllAddressPools pools
    → IsRequest request
    → Tried pools request ks (alloc_from_pools pools request ks)
unfolding alloc_from_pools
alloc_from_pools-Tried pools request [] a r = inl (λ j. refl, refl, λ k m. absurd (ground arith))
alloc_from_pools-Tried pools request (k ∷ ks) a r =
    take_or_next-Tried pools request k ks (allocate_ip (pools k) request)
      (λ later. alloc_from_pools later request ks) (allocate_ip_lem (pools k) request (a k) r)
      (alloc_from_pools-Tried pools request ks a r)
