-- ===== src/Selection.antt =====
-- The choice of an anchor UPF with a UE address, and its release, of
-- internal/context/user_plane_information.go. The pools are pointers there: here a store holds
-- them, and a data network names them by their places.
pub mod Trying
pub mod Outcome
pub mod Owned
pub mod Release
pub mod Examples
use text.Mathlib.Text.{◌==◌ as str_eq}
use smf_nwdaf_ext.Common.{
  ℕ, suc, ◌+◌, Bool, true, false, not, ◌&&◌, Option, none, some, List, [], ◌∷◌, ◌++◌, ◌==◌, length,
  take, drop, if◌then◌else◌,
}
use smf_nwdaf_ext.Net.{Ip, net_contains}
use smf_nwdaf_ext.UeIpPool.{UeIpPool, Allocation, address, no_address, crash, allocate_ip, release}
use smf_nwdaf_ext.Topology.{
  SnssaiInfo, DnnInfo, Selection, Upf, UpNode, Topology, snssai_equal, contains_dnai,
}

abbrev pub Store : Type 0
Store = ℕ → UeIpPool

abbrev pub put : Store → ℕ → UeIpPool → Store
put pools k p j = if k == j then p else pools j

-- The first pool of a list whose subnet contains an address.
pub find_containing : Store → Ip → List ℕ → Option ℕ
find_containing pools addr [] = none
find_containing pools addr (k ∷ ks) =
    if net_contains (pools k).ue_sub_net addr then some k else find_containing pools addr ks

-- The body of `getUEIPPool` at the data network that it settles on.
pub dnn_pools : Store → DnnInfo → Option Ip → List ℕ × Bool
unfolding find_containing
dnn_pools pools d none = (d.ue_ip_pools, false)
dnn_pools pools d (some addr) = elim (find_containing pools addr d.static_ip_pools) [
  | some k ↦ (k ∷ [], true)
  | none ↦ elim (find_containing pools addr d.ue_ip_pools) [
    | some k ↦ (k ∷ [], false)
    | none ↦ ([], false)
  ]
]

-- `none` where the loop over the data networks goes on to its end.
pub pools_in_dnns : Store → List DnnInfo → Selection → Option (List ℕ × Bool)
unfolding dnn_pools
pools_in_dnns pools [] selection = none
pools_in_dnns pools (d ∷ dnns) selection =
    if str_eq d.dnn selection.dnn
      && not (not (str_eq selection.dnai "") && not (contains_dnai d selection.dnai))
    then some (dnn_pools pools d selection.pdu_address)
    else pools_in_dnns pools dnns selection

pub pools_in_slices : Store → List SnssaiInfo → Selection → List ℕ × Bool
unfolding pools_in_dnns
pools_in_slices pools [] selection = ([], false)
pools_in_slices pools (info ∷ infos) selection =
    let rest = pools_in_slices pools infos selection in
    if snssai_equal info.snssai selection.snssai
    then elim (pools_in_dnns pools info.dnn_list selection) [ some found ↦ found | none ↦ rest ]
    else rest

pub get_ue_ip_pool : Store → Upf → Selection → List ℕ × Bool
unfolding pools_in_slices
get_ue_ip_pool pools upf selection = pools_in_slices pools upf.snssai_infos selection

-- `rand.Intn(len(list))` is the offset.
pub create_list_for_selection : ℕ → List ℕ → List ℕ
create_list_for_selection offset list = drop offset list ++ take offset list

-- The body of the loop over the pools, at what pool `k` answered.
abbrev pub take_or_next :
    Store → ℕ → UeIpPool × Allocation → (Store → Store × Allocation) → Store × Allocation
take_or_next pools k (p, address addr) next = (put pools k p, address addr)
take_or_next pools k (p, no_address) next = next (put pools k p)
take_or_next pools k (p, crash) next = (put pools k p, crash)

-- The loop over the pools of one UPF: the first address that a pool gives.
pub alloc_from_pools : Store → Option Ip → List ℕ → Store × Allocation
alloc_from_pools pools request [] = (pools, no_address)
alloc_from_pools pools request (k ∷ ks) =
    take_or_next pools k (allocate_ip (pools k) request)
      (λ later. alloc_from_pools later request ks)

-- `selected n addr static` is the UPF at place `n`; `panics` is a nil UPF or a short address.
pub data Selected : Type 0 where
  selected : ℕ → Ip → Bool → Selected
  exhausted panics : Selected

abbrev pub then_next : ℕ → Bool → Store × Allocation → (Store → Store × Selected) → Store × Selected
then_next n use_static (pools, address addr) next = (pools, selected n addr use_static)
then_next n use_static (pools, no_address) next = next pools
then_next n use_static (pools, crash) next = (pools, panics)

-- The loop over the pools, on the list that one UPF offers; `offset` is the answer of `rand.Intn`.
pub try_pools :
    ℕ → ℕ → Bool → List ℕ → Option Ip → Store → (Store → Store × Selected) → Store × Selected
unfolding create_list_for_selection alloc_from_pools
try_pools offset n use_static [] request pools next = next pools
try_pools offset n use_static (k ∷ ks) request pools next =
    then_next n use_static
      (alloc_from_pools pools request (create_list_for_selection offset (k ∷ ks))) next

module _ (t : Topology) (selection : Selection) (offset : ℕ → ℕ → ℕ) where
  -- The body of the loop over the UPFs at one UPF, which is the `call`-th.
  pub try_upf : ℕ → ℕ → Option Upf → Store → (Store → Store × Selected) → Store × Selected
  unfolding try_pools
  try_upf call n none pools next = (pools, panics)
  try_upf call n (some upf) pools next =
      let found = get_ue_ip_pool pools upf selection in
      if not upf.associated
      then next pools
      else try_pools (offset call (length found.0)) n found.1 found.0 selection.pdu_address pools
          next

  -- `offset call n` is the answer of the `call`-th `rand.Intn(n)`.
  pub alloc_from_upfs : ℕ → List ℕ → Store → Store × Selected
  unfolding try_upf
  alloc_from_upfs call [] pools = (pools, exhausted)
  alloc_from_upfs call (n ∷ upfs) pools =
      try_upf call n (t.node n).upf pools (λ later. alloc_from_upfs (suc call) upfs later)

  -- `SelectUPFAndAllocUEIP` from the list of anchors on, sorted by name.
  pub select_and_alloc : List ℕ → Store → Store × Selected
  unfolding alloc_from_upfs create_list_for_selection
  select_and_alloc [] pools = (pools, exhausted)
  select_and_alloc (n ∷ anchors) pools =
      alloc_from_upfs 1 (create_list_for_selection (offset 0 (length (n ∷ anchors))) (n ∷ anchors))
        pools

-- `none` where no pool of a data network contains the address.
pub pool_in_dnns : Store → Ip → Bool → List DnnInfo → Option ℕ
unfolding find_containing
pool_in_dnns pools addr static [] = none
pool_in_dnns pools addr static (d ∷ dnns) =
    let rest = pool_in_dnns pools addr static dnns in
    elim (find_containing pools addr (if static then d.static_ip_pools else d.ue_ip_pools)) [
      | some k ↦ some k
      | none ↦ rest
    ]

pub pool_in_slices : Store → Ip → Bool → List SnssaiInfo → Option ℕ
unfolding pool_in_dnns
pool_in_slices pools addr static [] = none
pool_in_slices pools addr static (info ∷ infos) =
    let rest = pool_in_slices pools addr static infos in
    elim (pool_in_dnns pools addr static info.dnn_list) [ some k ↦ some k | none ↦ rest ]

pub find_pool_by_addr : Store → Upf → Ip → Bool → Option ℕ
unfolding pool_in_slices
find_pool_by_addr pools upf addr static = pool_in_slices pools addr static upf.snssai_infos

-- `none` is the panic of `Release`; with no pool nothing is done.
pub release_ue_ip : Store → Upf → Ip → Bool → Option Store
release_ue_ip pools upf addr static = elim (find_pool_by_addr pools upf addr static) [
  | none ↦ some pools
  | some k ↦ elim (release (pools k) addr) [ none ↦ none | some p ↦ some (put pools k p) ]
]
