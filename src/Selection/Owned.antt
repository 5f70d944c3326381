-- ===== src/Selection/Owned.antt =====
-- The pools of a UPF, and how the search by address finds one.
use smf_nwdaf_ext.Common.{
  ℕ, ◌≡◌, inl, inr, Bool, true, false, Option, none, some, List, [], ◌∷◌, if◌then◌else◌, arith,
  Bool-cases, Option-cases, has,
}
use smf_nwdaf_ext.Net.{Ip, net_contains}
use smf_nwdaf_ext.Topology.{Selection, Upf, SnssaiInfo, DnnInfo}
use smf_nwdaf_ext.Selection.{
  Store, find_containing, dnn_pools, pools_in_dnns, pools_in_slices, pool_in_dnns, pool_in_slices,
  find_pool_by_addr,
}

abbrev pub pools_of : DnnInfo → Bool → List ℕ
pools_of d static = if static then d.static_ip_pools else d.ue_ip_pools

abbrev pub in_dnns : List DnnInfo → Bool → ℕ → Bool
in_dnns [] static k = false
in_dnns (d ∷ dnns) static k = if has k (pools_of d static) then true else in_dnns dnns static k

-- Pool `k` is one of the UPF's, of the kind that `static` says.
abbrev pub owns : List SnssaiInfo → Bool → ℕ → Bool
owns [] static k = false
owns (info ∷ infos) static k = if in_dnns info.dnn_list static k then true else owns infos static k

find_containing-has :
    (pools : Store) (addr : Ip) (ks : List ℕ) (k : ℕ)
    → find_containing pools addr ks ≡ some k
    → (has k ks ≡ true) × (net_contains (pools k).ue_sub_net addr ≡ true)
unfolding find_containing
find_containing-has pools addr [] k e = absurd (ground arith)
find_containing-has pools addr (j ∷ ks) k e = ground (arith, find_containing-has pools addr ks k)

find_containing-some :
    (pools : Store) (addr : Ip) (ks : List ℕ) (k : ℕ)
    → has k ks ≡ true
    → net_contains (pools k).ue_sub_net addr ≡ true
    → (j : ℕ) × (find_containing pools addr ks ≡ some j)
unfolding find_containing
find_containing-some pools addr [] k h c = absurd (ground arith)
find_containing-some pools addr (j ∷ ks) k h c =
    elim (Bool-cases (net_contains (pools j).ue_sub_net addr)) [
      | inl here ↦ (j, rw here)
      | inr there ↦
          let other : has k ks ≡ true = ground arith in
          let (i, e) = find_containing-some pools addr ks k other c in (i, rw there e)
    ]

-- A pool that a data network offers is listed there, under the flag that goes with it.
dnn_pools-has :
    (pools : Store) (d : DnnInfo) (request : Option Ip) (k : ℕ)
    → has k (dnn_pools pools d request).0 ≡ true
    → has k (pools_of d (dnn_pools pools d request).1) ≡ true
unfolding dnn_pools
dnn_pools-has pools d none k h = h
dnn_pools-has pools d (some addr) k h =
    elim (Option-cases (find_containing pools addr d.static_ip_pools)) [
      | inr (j, e) ↦
          let (listed, _) = find_containing-has pools addr d.static_ip_pools j e in
          let same : j ≡ k = ground arith in rw (e, dnn_pools) (rw (← same) listed)
      | inl e ↦ elim (Option-cases (find_containing pools addr d.ue_ip_pools)) [
        | inr (j, e') ↦
            let (listed, _) = find_containing-has pools addr d.ue_ip_pools j e' in
            let same : j ≡ k = ground arith in
            let listed' : has k d.ue_ip_pools ≡ true = rw (← same) listed in
            rw (e, e', dnn_pools) listed'
        | inl e' ↦ absurd (ground arith)
      ]
    ]

pools_in_dnns-has :
    (pools : Store) (dnns : List DnnInfo) (selection : Selection) (found : List ℕ × Bool) (k : ℕ)
    → pools_in_dnns pools dnns selection ≡ some found
    → has k found.0 ≡ true
    → in_dnns dnns found.1 k ≡ true
unfolding pools_in_dnns
pools_in_dnns-has pools [] selection found k e h = absurd (ground arith)
pools_in_dnns-has pools (d ∷ dnns) selection found k e h = ground (
  arith,
  dnn_pools-has pools d selection.pdu_address k,
  pools_in_dnns-has pools dnns selection found k,
)

-- A pool that a UPF offers is one of its own, under the flag that goes with it.
pub pools_in_slices-owns :
    (pools : Store) (infos : List SnssaiInfo) (selection : Selection) (k : ℕ)
    → has k (pools_in_slices pools infos selection).0 ≡ true
    → owns infos (pools_in_slices pools infos selection).1 k ≡ true
unfolding pools_in_slices
pools_in_slices-owns pools [] selection k h = absurd (ground arith)
pools_in_slices-owns pools (info ∷ infos) selection k h =
    elim (Option-cases (pools_in_dnns pools info.dnn_list selection)) [
      | inl e ↦ ground (arith, pools_in_slices-owns pools infos selection k)
      | inr (found, e) ↦ ground (
        arith,
        pools_in_slices-owns pools infos selection k,
        pools_in_dnns-has pools info.dnn_list selection found k,
      )
    ]

-- The search by address meets one of the UPF's pools that contain it, when there is one.
pool_in_dnns-some :
    (pools : Store) (addr : Ip) (static : Bool) (dnns : List DnnInfo) (k : ℕ)
    → in_dnns dnns static k ≡ true
    → net_contains (pools k).ue_sub_net addr ≡ true
    → (j : ℕ) × (pool_in_dnns pools addr static dnns ≡ some j)
unfolding pool_in_dnns
pool_in_dnns-some pools addr static [] k h c = absurd (ground arith)
pool_in_dnns-some pools addr static (d ∷ dnns) k h c =
    elim (Option-cases (find_containing pools addr (pools_of d static))) [
      | inr (j, e) ↦ (j, ground arith)
      | inl e ↦ elim (Bool-cases (has k (pools_of d static))) [
        | inl here ↦
            let (j, e') = find_containing-some pools addr (pools_of d static) k here c in
            absurd (ground arith)
        | inr there ↦
            let (j, e') = pool_in_dnns-some pools addr static dnns k (ground arith) c in
            (j, ground arith)
      ]
    ]

pool_in_dnns-has :
    (pools : Store) (addr : Ip) (static : Bool) (dnns : List DnnInfo) (k : ℕ)
    → pool_in_dnns pools addr static dnns ≡ some k
    → (in_dnns dnns static k ≡ true) × (net_contains (pools k).ue_sub_net addr ≡ true)
unfolding pool_in_dnns
pool_in_dnns-has pools addr static [] k e = absurd (ground arith)
pool_in_dnns-has pools addr static (d ∷ dnns) k e = ground (
  arith,
  find_containing-has pools addr (pools_of d static) k,
  pool_in_dnns-has pools addr static dnns k,
)

pool_in_slices-some :
    (pools : Store) (addr : Ip) (static : Bool) (infos : List SnssaiInfo) (k : ℕ)
    → owns infos static k ≡ true
    → net_contains (pools k).ue_sub_net addr ≡ true
    → (j : ℕ) × (pool_in_slices pools addr static infos ≡ some j)
unfolding pool_in_slices
pool_in_slices-some pools addr static [] k h c = absurd (ground arith)
pool_in_slices-some pools addr static (info ∷ infos) k h c =
    elim (Option-cases (pool_in_dnns pools addr static info.dnn_list)) [
      | inr (j, e) ↦ (j, ground arith)
      | inl e ↦ elim (Bool-cases (in_dnns info.dnn_list static k)) [
        | inl here ↦
            let (j, e') = pool_in_dnns-some pools addr static info.dnn_list k here c in
            absurd (ground arith)
        | inr there ↦
            let (j, e') = pool_in_slices-some pools addr static infos k (ground arith) c in
            (j, ground arith)
      ]
    ]

pool_in_slices-has :
    (pools : Store) (addr : Ip) (static : Bool) (infos : List SnssaiInfo) (k : ℕ)
    → pool_in_slices pools addr static infos ≡ some k
    → (owns infos static k ≡ true) × (net_contains (pools k).ue_sub_net addr ≡ true)
unfolding pool_in_slices
pool_in_slices-has pools addr static [] k e = absurd (ground arith)
pool_in_slices-has pools addr static (info ∷ infos) k e = ground (
  arith,
  pool_in_dnns-has pools addr static info.dnn_list k,
  pool_in_slices-has pools addr static infos k,
)

-- The UPF at hand has no other pool of the kind that contains the address.
abbrev pub IsOnlyPool : Store → Upf → Ip → Bool → ℕ → Type 0
IsOnlyPool pools upf addr static k =
    (j : ℕ)
    → owns upf.snssai_infos static j ≡ true
    → net_contains (pools j).ue_sub_net addr ≡ true
    → j ≡ k

pub find_pool_by_addr-only :
    (pools : Store) (upf : Upf) (addr : Ip) (static : Bool) (k : ℕ)
    → owns upf.snssai_infos static k ≡ true
    → net_contains (pools k).ue_sub_net addr ≡ true
    → IsOnlyPool pools upf addr static k
    → find_pool_by_addr pools upf addr static ≡ some k
unfolding find_pool_by_addr
find_pool_by_addr-only pools upf addr static k h c only =
    let (j, e) = pool_in_slices-some pools addr static upf.snssai_infos k h c in
    let (h', c') = pool_in_slices-has pools addr static upf.snssai_infos j e in rw (e, only j h' c')
