-- ===== src/Topology/Links.antt =====
-- The links between the nodes, and the deletion of a node, of
-- internal/context/user_plane_information.go. A node stands for its name too, since each has one. A
-- selection and an address of a UPF, which are keys of the caches, are numbers. The pool of UPFs that
-- `RemoveUPFNodeByNodeID` changes is not part of the state.
pub mod Counting
pub mod Deletion
pub mod Linking
mod Examples
use smf_nwdaf_ext.Common.{
  ℕ, zero, suc, Bool, true, false, ◌&&◌, ◌||◌, not, Option, none, some, List, [], ◌∷◌, ◌++◌, ◌==◌,
  has, if◌then◌else◌,
}

pub data UpNodeType : Type 0 where
  upnode_upf upnode_an : UpNodeType

pub record UserPlane : Type 0 where
  pub up_nodes : ℕ → Bool
  pub node_type : ℕ → UpNodeType
  pub upfs : ℕ → Bool
  pub access_network : ℕ → Bool
  pub links : ℕ → List ℕ
  pub default_user_plane_path : ℕ → Option (List ℕ)
  pub default_user_plane_path_to_upf : ℕ → ℕ → Option (List ℕ)

-- The index of a node in a list; `none` is -1. `nodeInPath` is the same function.
abbrev pub later : Option ℕ → Option ℕ
later none = none
later (some i) = some (suc i)

abbrev pub node_in_link : ℕ → List ℕ → Option ℕ
node_in_link node [] = none
node_in_link node (n ∷ links) = if n == node then some 0 else later (node_in_link node links)

abbrev pub is_found : Option ℕ → Bool
is_found none = false
is_found (some i) = true

abbrev pub last_or : ℕ → List ℕ → ℕ
last_or d [] = d
last_or d (x ∷ xs) = last_or x xs

abbrev pub but_last : List ℕ → List ℕ
but_last [] = []
but_last (x ∷ []) = []
but_last (x ∷ y ∷ xs) = x ∷ but_last (y ∷ xs)

abbrev pub set_nth : List ℕ → ℕ → ℕ → List ℕ
set_nth [] i v = []
set_nth (x ∷ xs) zero v = v ∷ xs
set_nth (x ∷ xs) (suc i) v = x ∷ set_nth xs i v

-- The last one takes the place of the one that goes.
pub remove_node_from_link : List ℕ → ℕ → List ℕ
remove_node_from_link links i = but_last (set_nth links i (last_or 0 links))

abbrev pub set_links : UserPlane → ℕ → List ℕ → UserPlane
set_links upi n links = record upi { links = λ m. if n == m then links else upi.links m }

abbrev pub add_link : UserPlane → ℕ → ℕ → UserPlane
add_link upi a b =
    let upi' = set_links upi a (upi.links a ++ (b ∷ [])) in
    set_links upi' b (upi'.links b ++ (a ∷ []))

abbrev pub link_nodes : UserPlane → ℕ → ℕ → UserPlane
link_nodes upi a b =
    if not (upi.up_nodes a && upi.up_nodes b)
    then upi
    else if is_found (node_in_link b (upi.links a)) || is_found (node_in_link a (upi.links b))
    then upi
    else add_link upi a b

pub links_from_configuration : UserPlane → List (ℕ × ℕ) → UserPlane
links_from_configuration upi [] = upi
links_from_configuration upi ((a, b) ∷ links) = links_from_configuration (link_nodes upi a b) links

abbrev pub without : ℕ → List ℕ → Option ℕ → List ℕ
unfolding remove_node_from_link
without node links none = links
without node links (some i) = remove_node_from_link links i

abbrev pub forget : ℕ → (ℕ → Bool) → ℕ → Bool
forget node f m = if node == m then false else f m

abbrev pub invalidate : ℕ → Option (List ℕ) → Option (List ℕ)
invalidate node none = none
invalidate node (some path) = if is_found (node_in_link node path) then none else some path

abbrev pub delete_of_type : UpNodeType → UserPlane → ℕ → UserPlane
delete_of_type upnode_upf upi node = record upi {
  upfs = forget node upi.upfs;
  default_user_plane_path_to_upf =
      λ selection ip. invalidate node (upi.default_user_plane_path_to_upf selection ip);
}
delete_of_type upnode_an upi node = record upi { access_network = forget node upi.access_network }

abbrev pub delete_links : UserPlane → ℕ → UserPlane
unfolding without
delete_links upi node = record upi {
  links = λ m.
      if upi.up_nodes m
      then without node (upi.links m) (node_in_link node (upi.links m))
      else upi.links m;
}

abbrev pub delete_found : UserPlane → ℕ → UserPlane
unfolding delete_links
delete_found upi node =
    let upi' = delete_of_type (upi.node_type node) upi node in
    delete_links (record upi' { up_nodes = forget node upi'.up_nodes }) node

pub up_node_delete : UserPlane → ℕ → UserPlane
unfolding delete_found
up_node_delete upi node = if upi.up_nodes node then delete_found upi node else upi
