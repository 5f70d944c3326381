-- ===== src/Selection/Examples.antt =====
-- Two anchors that offer pools of the addresses 10.0.0.0/29, and one request.
use smf_nwdaf_ext.Common.{ℕ, zero, suc, ◌≡◌, refl, true, false, some, [], ◌∷◌, arith}
use smf_nwdaf_ext.Net.{Ip, big_endian_uint32, net_contains, put_uint32}
use smf_nwdaf_ext.Pool.{use_value, use_from}
use smf_nwdaf_ext.UeIpPool.{UeIpPool, allocate_ip}
use smf_nwdaf_ext.UeIpPool.Leases.{Restores}
use smf_nwdaf_ext.UeIpPool.Examples.{small, four, small-IsAddressPool, small-IsDistinct}
use smf_nwdaf_ext.Topology.{
  SNssai, DnnInfo, Selection, Upf, UpNode, Topology, snssai_equal, contains_dnai,
}
use smf_nwdaf_ext.Selection.{
  Store, put, get_ue_ip_pool, select_and_alloc, release_ue_ip, selected, try_upf, alloc_from_pools,
}
use smf_nwdaf_ext.Selection.Outcome.{Chosen, AllUpfs, select_and_alloc-Chosen}
use smf_nwdaf_ext.Selection.Release.{HasOnePool, release_ue_ip-select_and_alloc}

abbrev slice : SNssai
slice = record { sst = 1; sd = "010203" }

abbrev internet : DnnInfo
internet = record { dnn = "internet"; dnai_list = []; ue_ip_pools = 0 ∷ []; static_ip_pools = [] }

abbrev anchor : Upf
anchor = record {
  snssai_infos = record { snssai = slice; dnn_list = internet ∷ [] } ∷ [];
  associated = true;
}

-- Place 0 is not associated, every other place is.
abbrev nodes : ℕ → UpNode
nodes zero = record { is_an = false; links = []; upf = some (record anchor { associated = false }) }
nodes (suc n) = record { is_an = false; links = []; upf = some anchor }

abbrev two : Topology
two = record { size = 2; node = nodes }

abbrev wanted : Ip
wanted = 10 ∷ 0 ∷ 0 ∷ 5 ∷ []

abbrev request : Selection
request = record { dnn = "internet"; snssai = slice; dnai = ""; pdu_address = some wanted }

abbrev stock : Store
stock _ = small

abbrev leased : UeIpPool
leased = record small {
  pool = record {
    segments =
        record { first = 167772160; last = 167772164 }
        ∷ record { first = 167772166; last = 167772167 }
        ∷ [];
    first = 167772160;
    last = 167772167;
    remain = 7;
  };
}

nodes-AllUpfs : AllUpfs two request (λ _ _. 1) (0 ∷ 1 ∷ [])
nodes-AllUpfs zero h = (record anchor { associated = false }, refl)
nodes-AllUpfs (suc n) h = (anchor, refl)

select_and_alloc-Chosen_example :
    Chosen two request
      (λ _ _. 1)
      stock
      (0 ∷ 1 ∷ [])
      (select_and_alloc two request (λ _ _. 1) (0 ∷ 1 ∷ []) stock)
select_and_alloc-Chosen_example =
    select_and_alloc-Chosen two request (λ _ _. 1) (0 ∷ 1 ∷ []) stock nodes-AllUpfs
      (λ k. small-IsAddressPool) (four 10 0 0 5 (omega arith))

select_and_alloc-two :
    select_and_alloc two request (λ _ _. 1) (0 ∷ 1 ∷ []) stock
    ≡ (put stock 0 leased, selected 1 wanted false)
unfolding select_and_alloc try_upf get_ue_ip_pool alloc_from_pools snssai_equal contains_dnai
    allocate_ip use_value use_from net_contains big_endian_uint32 put_uint32
select_and_alloc-two = refl

anchor-HasOnePool : HasOnePool stock anchor wanted false
unfolding net_contains
anchor-HasOnePool zero o value e c = (refl, λ j o' i. ground arith)
anchor-HasOnePool (suc k) o value e c = absurd (ground arith)

release_ue_ip-select_and_alloc_example :
    (restored : Store) × (release_ue_ip (put stock 0 leased) anchor wanted false ≡ some restored)
    × ((j : ℕ) → Restores (stock j) (restored j))
release_ue_ip-select_and_alloc_example =
    release_ue_ip-select_and_alloc two request (λ _ _. 1) (0 ∷ 1 ∷ []) stock (put stock 0 leased) 1
      wanted false anchor nodes-AllUpfs (λ k. small-IsAddressPool) (λ k. small-IsDistinct)
      (four 10 0 0 5 (omega arith)) select_and_alloc-two refl anchor-HasOnePool
