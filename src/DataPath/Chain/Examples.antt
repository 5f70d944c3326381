-- ===== src/DataPath/Chain/Examples.antt =====
-- A path over two UPFs, and its copy.
use smf_nwdaf_ext.Common.{ℕ, ◌<◌, ◌≡◌, refl, none, some, List, [], ◌∷◌, Option, arith, false}
use smf_nwdaf_ext.DataPath.Chain.{
  Nodes, DataPath, no_tunnel, generate_data_path, copy_first_dp_node,
}
use smf_nwdaf_ext.DataPath.Chain.Links.{IsChain, generate_data_path-IsChain}
use smf_nwdaf_ext.DataPath.Chain.Copying.{AllNew, copy_first_dp_node-IsChain}

abbrev no_nodes : Nodes
no_nodes = record {
  node = λ k. record { upf = none; up_link_tunnel = no_tunnel; down_link_tunnel = no_tunnel };
  fresh = 0;
}

abbrev two_upfs : List (Option ℕ)
two_upfs = some 7 ∷ some 8 ∷ []

generate_data_path-IsChain_example :
    ((generate_data_path no_nodes []).1 ≡ none)
    × ((path : DataPath) × ((generate_data_path no_nodes two_upfs).1 ≡ some path)
        × IsChain (generate_data_path no_nodes two_upfs).0 none path.first_dp_node two_upfs
        × ((k : ℕ) → k < 0 → (generate_data_path no_nodes two_upfs).0.node k ≡ no_nodes.node k))
generate_data_path-IsChain_example = generate_data_path-IsChain no_nodes (some 7) (some 8 ∷ [])

abbrev two_nodes : Nodes
two_nodes = (generate_data_path no_nodes two_upfs).0

abbrev two_path : DataPath
two_path = record {
  activated = false;
  is_default_path = false;
  gbr_flow = false;
  has_branching_point = false;
  first_dp_node = some 0;
}

two_nodes-IsChain : IsChain two_nodes none (some 0) two_upfs
unfolding generate_data_path
two_nodes-IsChain = (0, refl, omega arith, refl, refl, (1, refl, omega arith, refl, refl, refl))

copy_first_dp_node-IsChain_example :
    IsChain
      (copy_first_dp_node 2 two_nodes two_path).0
      none
      (copy_first_dp_node 2 two_nodes two_path).1
      two_upfs
    × AllNew two_nodes.fresh
        (copy_first_dp_node 2 two_nodes two_path).0
        (copy_first_dp_node 2 two_nodes two_path).1
        two_upfs
    × ((k : ℕ)
        → k < two_nodes.fresh
        → (copy_first_dp_node 2 two_nodes two_path).0.node k ≡ two_nodes.node k)
copy_first_dp_node-IsChain_example =
    copy_first_dp_node-IsChain 2 two_nodes two_path two_upfs two_nodes-IsChain (omega arith)
