-- ===== src/Topology/Search.antt =====
-- `getPathBetween` of internal/context/user_plane_information.go: the depth-first search for a path.
-- The map `visited` is shared by the calls, so each call returns it. Two nodes of a configuration
-- differ in their names, so `reflect.DeepEqual(*cur, *dest)` is equality of places. Fuel bounds the
-- depth: each call on the stack has marked a node of its own.
pub mod Walks
pub mod Passing
pub mod Verdict
pub mod Crash
pub mod Examples
use smf_nwdaf_ext.Common.{
  ℕ, zero, suc, Bool, true, false, Option, none, some, List, [], ◌∷◌, ◌==◌, if◌then◌else◌,
}
use smf_nwdaf_ext.Topology.{SNssai, Upf, UpNode, Topology, is_support_snssai}

abbrev pub Visited : Type 0
Visited = ℕ → Bool

abbrev pub mark : ℕ → Visited → Visited
mark v visited w = if v == w then true else visited w

-- `crash` is the panic at a node that has no UPF.
pub data Search : Type 0 where
  found : List ℕ → Search
  missing : Visited → Search
  crash out_of_fuel : Search

-- Behind the recursive call: a path is extended by `cur`, after a miss the loop goes on.
abbrev pub and_then : ℕ → Search → (Visited → Search) → Search
and_then cur (found tail) next = found (cur ∷ tail)
and_then cur (missing visited) next = next visited
and_then cur crash next = crash
and_then cur out_of_fuel next = out_of_fuel

module _ (t : Topology) (snssai : SNssai) where
  -- The body of the loop at a link to a node that is not visited yet.
  pub try_node : (ℕ → Visited → Search) → ℕ → ℕ → Option Upf → (Visited → Search) → Visited → Search
  try_node search cur n none next visited = crash
  try_node search cur n (some upf) next visited =
      if is_support_snssai upf snssai
      then and_then cur (search n visited) next
      else next (mark n visited)

  -- The loop over the links of `cur`.
  pub try_links : (ℕ → Visited → Search) → ℕ → List ℕ → Visited → Search
  unfolding try_node
  try_links search cur [] visited = missing visited
  try_links search cur (n ∷ links) visited =
      if visited n
      then try_links search cur links visited
      else try_node search cur n (t.node n).upf (λ later. try_links search cur links later) visited

  pub path_between : ℕ → ℕ → ℕ → Visited → Search
  unfolding try_links
  path_between zero dest cur visited = out_of_fuel
  path_between (suc fuel) dest cur visited = elim (cur == dest) [
    | true ↦ found (cur ∷ [])
    | false ↦ try_links (path_between fuel dest) cur (t.node cur).links (mark cur visited)
  ]

  -- `GenerateDefaultPath` clears the map and searches from an access node.
  unfoldable pub search_path : ℕ → ℕ → Search
  unfolding path_between
  search_path source dest = path_between t.size dest source (λ _. false)
