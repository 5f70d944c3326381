-- ===== src/Topology/Links/Deletion.antt =====
-- What the deletion of a node leaves of the links and of the cached paths.
use smf_nwdaf_ext.Common.{
  ℕ, ◌≤◌, ◌≡◌, ◌≢◌, refl, sym, subst, Bool, true, false, Option, none, some, List, [],
  if◌then◌else◌, arith, Option-cases, inl, inr,
}
use smf_nwdaf_ext.Topology.Links.{
  upnode_upf, UserPlane, node_in_link, is_found, without, forget, invalidate, delete_links,
  delete_found, up_node_delete,
}
use smf_nwdaf_ext.Topology.Links.Counting.{count, count-remove, count-absent}

-- Two nodes are linked once at most, and to each other.
pub record WellLinked (upi : UserPlane) : Type 0 where
  pub once : (a b : ℕ) → count b (upi.links a) ≤ 1
  pub both_ways : (a b : ℕ) → count b (upi.links a) ≡ count a (upi.links b)

without-count :
    (node v : ℕ) (links : List ℕ)
    → count node links ≤ 1
    → (count node (without node links (node_in_link node links)) ≡ 0)
      × (v ≢ node → count v (without node links (node_in_link node links)) ≡ count v links)
unfolding without
without-count node v links once = elim (Option-cases (node_in_link node links)) [
  | inl absent ↦ rw absent (count-absent node links absent, λ ne. refl)
  | inr (i, found) ↦
      let own = count-remove node node i links found in
      let other = count-remove v node i links found in
      rw found (ground (arith, own, once), λ ne. ground (arith, other))
]

abbrev pub path_or_nil : Option (List ℕ) → List ℕ
path_or_nil none = []
path_or_nil (some path) = path

path_left :
    (node : ℕ) (cached : Option (List ℕ))
    → node_in_link node (path_or_nil (invalidate node cached)) ≡ none
path_left node none = refl
path_left node (some path) = elim (Option-cases (node_in_link node path)) [
  | inl absent ↦
      subst (λ o. node_in_link node (path_or_nil (if is_found o then none else some path)) ≡ none)
        (sym absent) absent
  | inr (i, there) ↦ rw there refl
]

links_left :
    (node v : ℕ) (present : Bool) (links : List ℕ)
    → count node links ≤ 1
    → v ≢ node
    → (count node (if present then without node links (node_in_link node links) else links)
        ≡ (if present then 0 else count node links))
      × (count v (if present then without node links (node_in_link node links) else links)
          ≡ count v links)
links_left node v true links once other =
    ((without-count node node links once).0, (without-count node v links once).1 other)
links_left node v false links once other = (refl, refl)

-- The deletion of a UPF takes it out of the nodes and out of the links of each node that is left. Each
-- node keeps its links to the others, where two nodes are linked once at most and to each other. No
-- cached path to a UPF goes through the deleted one any more. The cached paths of a data network are as
-- they were, so that one of them can still go through it.
pub up_node_delete_lem :
    (upi : UserPlane) (node m v selection ip : ℕ)
    → WellLinked upi
    → upi.up_nodes node ≡ true
    → upi.node_type node ≡ upnode_upf
    → v ≢ node
    → ((up_node_delete upi node).up_nodes node ≡ false)
      × (count node ((up_node_delete upi node).links m)
          ≡ (if (up_node_delete upi node).up_nodes m then 0 else count node (upi.links m)))
      × (count v ((up_node_delete upi node).links m) ≡ count v (upi.links m))
      × (node_in_link node
            (path_or_nil ((up_node_delete upi node).default_user_plane_path_to_upf selection ip))
          ≡ none)
      × ((up_node_delete upi node).default_user_plane_path ≡ upi.default_user_plane_path)
unfolding up_node_delete delete_found delete_links
up_node_delete_lem upi node m v selection ip well there upf other =
    let kept =
      links_left node v (forget node upi.up_nodes m) (upi.links m) (well.once m node) other in
    rw (there, upf)
      (
        ground arith,
        kept.0,
        kept.1,
        path_left node (upi.default_user_plane_path_to_upf selection ip),
        refl,
      )
