-- ===== src/Topology/Search/Examples.antt =====
-- Two small topologies: one access node before two UPFs in a row, and two access nodes at one UPF.
use smf_nwdaf_ext.Common.{
  ℕ, zero, suc, ◌<◌, ◌≡◌, ◌≢◌, refl, ◌⊎◌, true, false, none, some, List, [], ◌∷◌, arith, has,
}
use smf_nwdaf_ext.Topology.{SNssai, Upf, UpNode, Topology, is_support_snssai}
use smf_nwdaf_ext.Topology.Search.{Visited, found, missing, crash, search_path}
use smf_nwdaf_ext.Topology.Search.Walks.{Walk}
use smf_nwdaf_ext.Topology.Search.Verdict.{search_path-decides}
use smf_nwdaf_ext.Topology.Search.Crash.{search_path-crash}

abbrev slice : SNssai
slice = record { sst = 1; sd = "0a0b0c" }

-- Configured in capitals.
abbrev serving : Upf
serving = record {
  snssai_infos = record { snssai = record { sst = 1; sd = "0A0B0C" }; dnn_list = [] } ∷ [];
  associated = true;
}

abbrev an_node : List ℕ → UpNode
an_node links = record { is_an = true; links = links; upf = none }

abbrev upf_node : List ℕ → UpNode
upf_node links = record { is_an = false; links = links; upf = some serving }

abbrev row_node : ℕ → UpNode
row_node zero = an_node (1 ∷ [])
row_node (suc zero) = upf_node (0 ∷ 2 ∷ [])
row_node (suc (suc k)) = upf_node (1 ∷ [])

abbrev row : Topology
row = record { size = 3; node = row_node }

row_linked : (u v : ℕ) → has v (row.node u).links ≡ true → v < 3
row_linked zero v h = ground arith
row_linked (suc zero) v h = ground arith
row_linked (suc (suc k)) v h = ground arith

row_upfs : (v : ℕ) → v ≢ 0 → (upf : Upf) × ((row.node v).upf ≡ some upf)
row_upfs zero h = absurd (h refl)
row_upfs (suc zero) h = (serving, refl)
row_upfs (suc (suc k)) h = (serving, refl)

search_path-row : search_path row slice 0 2 ≡ found (0 ∷ 1 ∷ 2 ∷ [])
unfolding search_path is_support_snssai
search_path-row = refl

search_path-decides_example :
    ((path : List ℕ) × (search_path row slice 0 2 ≡ found path) × Walk row slice 0 2 path)
    ⊎ ((after : Visited) × (search_path row slice 0 2 ≡ missing after)
        × ((path : List ℕ) → ¬ Walk row slice 0 2 path))
search_path-decides_example = search_path-decides row slice 0 2 row_linked row_upfs (omega arith)

abbrev fork_node : ℕ → UpNode
fork_node zero = an_node (1 ∷ [])
fork_node (suc zero) = upf_node (0 ∷ 2 ∷ 3 ∷ [])
fork_node (suc (suc zero)) = an_node (1 ∷ [])
fork_node (suc (suc (suc k))) = upf_node (1 ∷ [])

abbrev fork : Topology
fork = record { size = 4; node = fork_node }

serving-slice : is_support_snssai serving slice ≡ true
unfolding is_support_snssai
serving-slice = refl

search_path-crash_example : search_path fork slice 0 3 ≡ crash
search_path-crash_example =
    search_path-crash fork slice 0 3 1 2 [] (3 ∷ []) serving (omega arith) (omega arith)
      (omega arith) (omega arith) (omega arith) (omega arith) refl refl refl serving-slice refl
