-- ===== src/Topology/Links/Examples.antt =====
-- Nodes that are linked, and one of them deleted.
use smf_nwdaf_ext.Common.{
  ℕ, zero, suc, ◌≤◌, ◌≡◌, refl, true, false, none, some, List, [], ◌∷◌, ◌==◌, if◌then◌else◌, arith,
}
use smf_nwdaf_ext.Topology.Links.{
  links_from_configuration, upnode_upf, upnode_an, UserPlane, up_node_delete, delete_found,
  delete_links, without, remove_node_from_link, node_in_link,
}
use smf_nwdaf_ext.Topology.Links.Counting.{count}
use smf_nwdaf_ext.Topology.Links.Deletion.{WellLinked, up_node_delete_lem, path_or_nil}
use smf_nwdaf_ext.Topology.Links.Linking.{links_from_configuration-WellLinked}

-- An access node 0 and two UPFs, in a row.
abbrev row_links : ℕ → List ℕ
row_links zero = 1 ∷ []
row_links (suc zero) = 0 ∷ 2 ∷ []
row_links (suc (suc zero)) = 1 ∷ []
row_links (suc (suc (suc n))) = []

abbrev row : UserPlane
row = record {
  up_nodes = λ m. if m == 0 then true else if m == 1 then true else m == 2;
  node_type = λ m. if m == 0 then upnode_an else upnode_upf;
  upfs = λ m. if m == 1 then true else m == 2;
  access_network = λ m. m == 0;
  links = row_links;
  default_user_plane_path = λ selection. some (0 ∷ 1 ∷ 2 ∷ []);
  default_user_plane_path_to_upf = λ selection ip. some (0 ∷ 1 ∷ []);
}

row-once : (a b : ℕ) → count b (row_links a) ≤ 1
row-once zero b = ground arith
row-once (suc zero) b = ground arith
row-once (suc (suc zero)) b = ground arith
row-once (suc (suc (suc a))) b = ground arith

row-both_ways : (a b : ℕ) → count b (row_links a) ≡ count a (row_links b)
row-both_ways zero zero = refl
row-both_ways zero (suc zero) = refl
row-both_ways zero (suc (suc zero)) = refl
row-both_ways zero (suc (suc (suc b))) = ground arith
row-both_ways (suc zero) zero = refl
row-both_ways (suc zero) (suc zero) = refl
row-both_ways (suc zero) (suc (suc zero)) = refl
row-both_ways (suc zero) (suc (suc (suc b))) = ground arith
row-both_ways (suc (suc zero)) zero = refl
row-both_ways (suc (suc zero)) (suc zero) = refl
row-both_ways (suc (suc zero)) (suc (suc zero)) = refl
row-both_ways (suc (suc zero)) (suc (suc (suc b))) = ground arith
row-both_ways (suc (suc (suc a))) zero = ground arith
row-both_ways (suc (suc (suc a))) (suc zero) = ground arith
row-both_ways (suc (suc (suc a))) (suc (suc zero)) = ground arith
row-both_ways (suc (suc (suc a))) (suc (suc (suc b))) = refl

row-WellLinked : WellLinked row
row-WellLinked = record { once = row-once; both_ways = row-both_ways }

deleted_links : (up_node_delete row 1).links 0 ≡ []
unfolding up_node_delete delete_found delete_links without remove_node_from_link
deleted_links = refl

still_cached : (up_node_delete row 1).default_user_plane_path 5 ≡ some (0 ∷ 1 ∷ 2 ∷ [])
unfolding up_node_delete delete_found delete_links without remove_node_from_link
still_cached = refl

up_node_delete_lem_example :
    ((up_node_delete row 1).up_nodes 1 ≡ false)
    × (count 1 ((up_node_delete row 1).links 2)
        ≡ (if (up_node_delete row 1).up_nodes 2 then 0 else count 1 (row.links 2)))
    × (count 0 ((up_node_delete row 1).links 2) ≡ count 0 (row.links 2))
    × (node_in_link 1 (path_or_nil ((up_node_delete row 1).default_user_plane_path_to_upf 5 9))
        ≡ none)
    × ((up_node_delete row 1).default_user_plane_path ≡ row.default_user_plane_path)
up_node_delete_lem_example =
    up_node_delete_lem row 1 2 0 5 9 row-WellLinked refl refl (λ e. ground (arith, e))

abbrev unlinked : UserPlane
unlinked = record row { links = λ m. [] }

unlinked-WellLinked : WellLinked unlinked
unlinked-WellLinked = record { once = λ a b. ground arith; both_ways = λ a b. refl }

linked_twice :
    (links_from_configuration unlinked ((0, 1) ∷ (1, 0) ∷ (1, 7) ∷ (2, 1) ∷ [])).links 1
    ≡ 0 ∷ 2 ∷ []
unfolding links_from_configuration
linked_twice = refl

links_from_configuration-WellLinked_example :
    WellLinked (links_from_configuration unlinked ((0, 1) ∷ (1, 0) ∷ (1, 7) ∷ (2, 1) ∷ []))
links_from_configuration-WellLinked_example =
    links_from_configuration-WellLinked unlinked ((0, 1) ∷ (1, 0) ∷ (1, 7) ∷ (2, 1) ∷ [])
      (
        λ e. ground (arith, e),
        (λ e. ground (arith, e), (λ e. ground (arith, e), (λ e. ground (arith, e), refl))),
      )
      unlinked-WellLinked
