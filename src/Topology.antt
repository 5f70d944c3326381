-- ===== src/Topology.antt =====
-- internal/context/snssai.go, the nodes of internal/context/user_plane_information.go, and the slices
-- that a UPF serves. A node is named by its place in the configuration, which stands for the pointer
-- `*UPNode`; a slice's `Sd` and a data network's name are texts of ASCII.
pub mod Search
pub mod Links
use Prim.Native.Char.{code}
use Prim.Native.String
use Prim.Native.String.{String}
use text.Mathlib.Text.{◌==◌ as str_eq}
use smf_nwdaf_ext.Common.{
  ℕ, ◌+◌, ◌<◌, Bool, true, false, ◌&&◌, Option, none, some, List, [], ◌∷◌, leb, ◌==◌, if◌then◌else◌,
}
use smf_nwdaf_ext.Net.{Ip}

pub record SNssai : Type 0 where
  pub sst : ℕ
  pub sd : String

abbrev fold_case : ℕ → ℕ
fold_case c = if leb b'A' c && leb c b'Z' then c + 32 else c

-- `strings.EqualFold`
pub equal_fold : String → String → Bool
equal_fold String.[] String.[] = true
equal_fold (String.◌∷◌ c s) (String.◌∷◌ d t) =
    fold_case (code c) == fold_case (code d) && equal_fold s t
equal_fold _ _ = false

unfoldable pub snssai_equal : SNssai → SNssai → Bool
unfolding equal_fold
snssai_equal s target = s.sst == target.sst && equal_fold s.sd target.sd

-- `DnnUPFInfoItem`: its pools are named by their places in the store of pools.
pub record DnnInfo : Type 0 where
  pub dnn : String
  pub dnai_list : List String
  pub ue_ip_pools : List ℕ
  pub static_ip_pools : List ℕ

pub record SnssaiInfo : Type 0 where
  pub snssai : SNssai
  pub dnn_list : List DnnInfo

-- `UPFSelectionParams`
pub record Selection : Type 0 where
  pub dnn : String
  pub snssai : SNssai
  pub dnai : String
  pub pdu_address : Option Ip

has_text : String → List String → Bool
has_text target [] = false
has_text target (s ∷ texts) = if str_eq s target then true else has_text target texts

is_empty_list : List String → Bool
is_empty_list [] = true
is_empty_list (_ ∷ _) = false

unfoldable pub contains_dnai : DnnInfo → String → Bool
unfolding has_text is_empty_list
contains_dnai d target_dnai =
    if str_eq target_dnai "" then is_empty_list d.dnai_list else has_text target_dnai d.dnai_list

-- The slices of a UPF, and whether it is associated (`IsAssociated() == nil`).
pub record Upf : Type 0 where
  pub snssai_infos : List SnssaiInfo
  pub associated : Bool

-- `upf` is nil at an access node.
pub record UpNode : Type 0 where
  pub is_an : Bool
  pub links : List ℕ
  pub upf : Option Upf

-- `node k` is the node at place `k`, of `size` nodes.
pub record Topology : Type 0 where
  pub size : ℕ
  pub node : ℕ → UpNode

support_in : List SnssaiInfo → SNssai → Bool
unfolding snssai_equal
support_in [] snssai = false
support_in (info ∷ infos) snssai =
    if snssai_equal info.snssai snssai then true else support_in infos snssai

pub is_support_snssai : Upf → SNssai → Bool
unfolding support_in
is_support_snssai upf snssai = support_in upf.snssai_infos snssai

matched_dnn : List DnnInfo → Selection → Bool
unfolding contains_dnai
matched_dnn [] selection = false
matched_dnn (d ∷ dnns) selection =
    if str_eq d.dnn selection.dnn
    then (if str_eq selection.dnai ""
        then true
        else if contains_dnai d selection.dnai
        then true
        else matched_dnn dnns selection)
    else matched_dnn dnns selection

matched_in : List SnssaiInfo → Selection → Bool
unfolding snssai_equal matched_dnn
matched_in [] selection = false
matched_in (info ∷ infos) selection =
    if snssai_equal info.snssai selection.snssai
    then (if matched_dnn info.dnn_list selection then true else matched_in infos selection)
    else matched_in infos selection

-- `MatchedSelection` at a node that has a UPF; at another it panics, which its callers write out.
pub matched_selection : Upf → Selection → Bool
unfolding matched_in
matched_selection upf selection = matched_in upf.snssai_infos selection
