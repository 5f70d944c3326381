-- ===== src/Topology/Search/Crash.antt =====
-- Where the path search panics.
use smf_nwdaf_ext.Common.{ℕ, zero, suc, ◌≤◌, ◌≡◌, ◌≢◌, true, false, none, some, List, ◌∷◌, arith}
use smf_nwdaf_ext.Topology.{SNssai, Upf, Topology, is_support_snssai}
use smf_nwdaf_ext.Topology.Search.{mark, crash, try_node, try_links, path_between, search_path}

-- A call at a UPF whose first link is visited and whose second leads to an unvisited access node.
crash_at :
    (t : Topology) (snssai : SNssai) (fuel dest source u an : ℕ) (rest : List ℕ)
    → u ≢ dest
    → an ≢ source
    → an ≢ u
    → (t.node u).links ≡ source ∷ an ∷ rest
    → (t.node an).upf ≡ none
    → path_between t snssai (suc fuel) dest u (mark source (λ _. false)) ≡ crash
unfolding path_between try_links try_node
crash_at t snssai fuel dest source u an rest ud as' au lu ea = ground arith

reach_first :
    (t : Topology) (snssai : SNssai) (fuel dest source u : ℕ) (more : List ℕ) (upf : Upf)
    → source ≢ dest
    → u ≢ source
    → (t.node source).links ≡ u ∷ more
    → (t.node u).upf ≡ some upf
    → is_support_snssai upf snssai ≡ true
    → path_between t snssai fuel dest u (mark source (λ _. false)) ≡ crash
    → path_between t snssai (suc fuel) dest source (λ _. false) ≡ crash
unfolding path_between try_links try_node
reach_first t snssai fuel dest source u more upf sd us ls eu s e = ground arith

-- With a second access node the search panics: the access node's first link leads to a UPF `u` that
-- serves the slice and is not the destination, and the links of `u` lead back and then to `an`,
-- which has no UPF.
pub search_path-crash :
    (t : Topology) (snssai : SNssai) (source dest u an : ℕ) (more rest : List ℕ) (upf : Upf)
    → 2 ≤ t.size
    → source ≢ dest
    → u ≢ dest
    → u ≢ source
    → an ≢ source
    → an ≢ u
    → (t.node source).links ≡ u ∷ more
    → (t.node u).links ≡ source ∷ an ∷ rest
    → (t.node u).upf ≡ some upf
    → is_support_snssai upf snssai ≡ true
    → (t.node an).upf ≡ none
    → search_path t snssai source dest ≡ crash
unfolding search_path
search_path-crash t snssai source dest u an more rest upf h sd ud us as' au ls lu eu s ea =
    two_deep t.size h
  where
    two_deep : (fuel : ℕ) → 2 ≤ fuel → path_between t snssai fuel dest source (λ _. false) ≡ crash
    two_deep zero k = absurd (omega arith)
    two_deep (suc zero) k = absurd (omega arith)
    two_deep (suc (suc fuel)) k =
        reach_first t snssai (suc fuel) dest source u more upf sd us ls eu s
          (crash_at t snssai fuel dest source u an rest ud as' au lu ea)
