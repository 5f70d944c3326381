-- ===== src/DataPath/Chain.antt =====
-- A data path as a chain of nodes that are linked both ways. The nodes stand in a store; a node is its
-- place there, and `none` is nil. Every node is made by `NewDataPathNode`, and no code takes one of
-- its two tunnels away.
pub mod Links
pub mod Copying
mod Examples
use smf_nwdaf_ext.Common.{
  ℕ, zero, suc, Bool, false, Option, none, some, List, [], ◌∷◌, ◌==◌, if◌then◌else◌,
}

pub record GtpTunnel : Type 0 where
  pub src_end_point : Option ℕ
  pub dest_end_point : Option ℕ
  pub teid : ℕ

-- `upf` is nil for an access node.
pub record DataPathNode : Type 0 where
  pub upf : Option ℕ
  pub up_link_tunnel : GtpTunnel
  pub down_link_tunnel : GtpTunnel

-- `fresh` is the place of the next node that is made.
pub record Nodes : Type 0 where
  pub node : ℕ → DataPathNode
  pub fresh : ℕ

pub record DataPath : Type 0 where
  pub activated : Bool
  pub is_default_path : Bool
  pub gbr_flow : Bool
  pub has_branching_point : Bool
  pub first_dp_node : Option ℕ

abbrev pub no_tunnel : GtpTunnel
no_tunnel = record { src_end_point = none; dest_end_point = none; teid = 0 }

abbrev pub set_node : Nodes → ℕ → DataPathNode → Nodes
set_node nodes k n = record nodes { node = λ j. if k == j then n else nodes.node j }

-- The place of the new node is `fresh`.
pub new_data_path_node : Nodes → Nodes
new_data_path_node nodes =
    record (set_node nodes nodes.fresh
      (record { upf = none; up_link_tunnel = no_tunnel; down_link_tunnel = no_tunnel })) {
        fresh = suc nodes.fresh;
      }

pub set_upf : Nodes → ℕ → Option ℕ → Nodes
set_upf nodes k upf = set_node nodes k (record (nodes.node k) { upf = upf })

pub add_next : Nodes → ℕ → Option ℕ → Nodes
add_next nodes k next =
    let n = nodes.node k in
    set_node nodes k
      (record n { down_link_tunnel = record (n.down_link_tunnel) { src_end_point = next } })

pub add_prev : Nodes → ℕ → Option ℕ → Nodes
add_prev nodes k prev =
    let n = nodes.node k in
    set_node nodes k
      (record n { up_link_tunnel = record (n.up_link_tunnel) { src_end_point = prev } })

abbrev pub next_of : Nodes → ℕ → Option ℕ
next_of nodes k = (nodes.node k).down_link_tunnel.src_end_point

abbrev pub prev_of : Nodes → ℕ → Option ℕ
prev_of nodes k = (nodes.node k).up_link_tunnel.src_end_point

abbrev pub is_nil : Option ℕ → Bool
is_nil none = Bool.true
is_nil (some _) = false

pub is_an_upf : Nodes → ℕ → Bool
is_an_upf nodes k = is_nil (prev_of nodes k)

pub is_anchor_upf : Nodes → ℕ → Bool
is_anchor_upf nodes k = is_nil (next_of nodes k)

pub new_data_path : DataPath
new_data_path = record {
  activated = false;
  is_default_path = false;
  gbr_flow = false;
  has_branching_point = false;
  first_dp_node = none;
}

-- A new node behind another one.
abbrev pub link_behind : Nodes → Option ℕ → ℕ → Nodes
unfolding add_next add_prev
link_behind nodes none k = nodes
link_behind nodes (some p) k = add_prev (add_next nodes p (some k)) k (some p)

abbrev pub grow : Nodes → Option ℕ → Option ℕ → Nodes
unfolding new_data_path_node set_upf link_behind
grow nodes prev upf =
    link_behind (set_upf (new_data_path_node nodes) nodes.fresh upf) prev nodes.fresh

-- The loop over the path. The first node's `AddPrev(nil)` and the last one's `AddNext(nil)` are calls
-- on a new node, whose end points are nil already.
pub generate_loop : Nodes → Option ℕ → List (Option ℕ) → Nodes
unfolding grow
generate_loop nodes prev [] = nodes
generate_loop nodes prev (upf ∷ upfs) = generate_loop (grow nodes prev upf) (some nodes.fresh) upfs

-- The UPFs of the path's nodes are handed over.
pub generate_data_path : Nodes → List (Option ℕ) → Nodes × Option DataPath
unfolding generate_loop new_data_path
generate_data_path nodes [] = (nodes, none)
generate_data_path nodes (upf ∷ upfs) = (
  generate_loop nodes none (upf ∷ upfs),
  some (record new_data_path { first_dp_node = some nodes.fresh }),
)

-- The loop over a path from a node on. It ends where it has taken as many rounds as the fuel says.
pub copy_loop : ℕ → Nodes → Option ℕ → Option ℕ → Nodes
unfolding grow
copy_loop zero nodes parent at = nodes
copy_loop (suc fuel) nodes parent none = nodes
copy_loop (suc fuel) nodes parent (some k) =
    let nodes' = grow nodes parent (nodes.node k).upf in
    copy_loop fuel nodes' (some nodes.fresh) (next_of nodes' k)

abbrev pub first_copy : Nodes → Option ℕ → Option ℕ
first_copy nodes none = none
first_copy nodes (some k) = some nodes.fresh

pub copy_first_dp_node : ℕ → Nodes → DataPath → Nodes × Option ℕ
unfolding copy_loop
copy_first_dp_node fuel nodes path =
    (copy_loop fuel nodes none path.first_dp_node, first_copy nodes path.first_dp_node)
