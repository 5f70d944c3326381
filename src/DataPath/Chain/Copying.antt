-- ===== src/DataPath/Chain/Copying.antt =====
-- The copy that `CopyFirstDPNode` makes of a path.
use smf_nwdaf_ext.Common.{
  ℕ, zero, suc, ◌≤◌, ◌<◌, ◌≡◌, ◌≢◌, refl, sym, ap, ◌∙◌, subst, Option, none, some, List, [], ◌∷◌,
  arith, length, some_eq,
}
use smf_nwdaf_ext.DataPath.Chain.{
  Nodes, DataPath, next_of, grow, generate_loop, copy_loop, copy_first_dp_node, first_copy,
}
use smf_nwdaf_ext.DataPath.Chain.Links.{
  IsChain, Below, in_front, grow-fresh, grow-other, grow-new, generate_loop-Grown,
}

-- The nodes from `at` on, as many as there are UPFs, have places that were free when `lo` was the first
-- free one.
abbrev pub AllNew : ℕ → Nodes → Option ℕ → List (Option ℕ) → Type 0
AllNew lo nodes at [] = at ≡ none
AllNew lo nodes at (upf ∷ upfs) =
    (k : ℕ) × (at ≡ some k) × (lo ≤ k) × AllNew lo nodes (next_of nodes k) upfs

generate_loop-AllNew :
    (upfs : List (Option ℕ)) (nodes : Nodes) (prev : Option ℕ) (lo : ℕ)
    → Below prev nodes.fresh
    → lo ≤ nodes.fresh
    → AllNew lo (generate_loop nodes prev upfs) (in_front upfs nodes.fresh none) upfs
unfolding generate_loop
generate_loop-AllNew [] nodes prev lo below old = refl
generate_loop-AllNew (upf ∷ upfs) nodes prev lo below old =
    let size = grow-fresh nodes prev upf in
    let new = grow-new nodes prev upf below in
    let lower : Below (some nodes.fresh) (grow nodes prev upf).fresh =
      λ p. λ e. let same = some_eq e in omega (arith, same, size) in
    let done = generate_loop (grow nodes prev upf) (some nodes.fresh) upfs in
    let grown = generate_loop-Grown upfs (grow nodes prev upf) (some nodes.fresh) lower in
    let seam = grown.2 nodes.fresh refl (omega (arith, size)) in
    let next : next_of done nodes.fresh ≡ in_front upfs (grow nodes prev upf).fresh none =
      seam.2 ∙ ap (in_front upfs (grow nodes prev upf).fresh) new.2 in
    (
      nodes.fresh,
      refl,
      old,
      subst (λ at. AllNew lo done at upfs) (sym next)
          (generate_loop-AllNew upfs (grow nodes prev upf) (some nodes.fresh) lo lower
            (omega (arith, size, old))),
    )

copy_loop-generate_loop :
    (fuel : ℕ) (old nodes : Nodes) (prev parent at : Option ℕ) (upfs : List (Option ℕ))
    → old.fresh ≤ nodes.fresh
    → ((k : ℕ) → k < old.fresh → nodes.node k ≡ old.node k)
    → ((p : ℕ) → parent ≡ some p → old.fresh ≤ p)
    → IsChain old prev at upfs
    → length upfs ≤ fuel
    → copy_loop fuel nodes parent at ≡ generate_loop nodes parent upfs
unfolding copy_loop generate_loop
copy_loop-generate_loop zero old nodes prev parent at [] more same above chain enough = refl
copy_loop-generate_loop zero old nodes prev parent at (upf ∷ upfs) more same above chain enough =
    ground arith
copy_loop-generate_loop (suc fuel) old nodes prev parent none [] more same above chain enough = refl
copy_loop-generate_loop (suc fuel) old nodes prev parent (some k) [] more same above chain enough =
    ground arith
copy_loop-generate_loop (suc fuel) old nodes prev parent none (upf ∷ upfs) more same above
      (k, e, lower, here, back, rest) enough =
    ground arith
copy_loop-generate_loop (suc fuel) old nodes prev parent (some j) (upf ∷ upfs) more same above
      (k, e, lower, here, back, rest) enough =
    let place : j ≡ k = some_eq e in
    let text : (nodes.node j).upf ≡ upf =
      ap (λ i. (nodes.node i).upf) place ∙ (ap (λ n. n.upf) (same k lower) ∙ here) in
    let size = grow-fresh nodes parent upf in
    let apart : (i : ℕ) → i < old.fresh → parent ≢ some i =
      λ i. λ l. λ f. let high = above i f in omega (arith, high, l) in
    let kept : (i : ℕ) → i < old.fresh → (grow nodes parent upf).node i ≡ old.node i =
      λ i. λ l. grow-other nodes parent upf i (omega (arith, l, more)) (apart i l) ∙ same i l in
    let onward : next_of (grow nodes parent upf) j ≡ next_of old k =
      ap (next_of (grow nodes parent upf)) place
      ∙ ap (λ n. n.down_link_tunnel.src_end_point) (kept k lower) in
    rw (text, onward)
      (copy_loop-generate_loop fuel old (grow nodes parent upf) (some k) (some nodes.fresh)
        (next_of old k) upfs (omega (arith, more, size)) kept
        (λ p. λ f. let seam = some_eq f in omega (arith, seam, more)) rest (omega (arith, enough)))

first_copy-in_front :
    (nodes : Nodes) (at : Option ℕ) (upfs : List (Option ℕ))
    → IsChain nodes none at upfs
    → first_copy nodes at ≡ in_front upfs nodes.fresh none
first_copy-in_front nodes none [] chain = refl
first_copy-in_front nodes (some k) [] chain = ground arith
first_copy-in_front nodes none (upf ∷ upfs) (k, e, lower, here, back, rest) = ground arith
first_copy-in_front nodes (some k) (upf ∷ upfs) chain = refl

-- `CopyFirstDPNode` ends on a path whose nodes are linked both ways, with a round for each of them as
-- fuel. The copy is linked both ways in the same order, over the same UPFs, all of its nodes are new,
-- and the nodes that were there are as they were.
pub copy_first_dp_node-IsChain :
    (fuel : ℕ) (nodes : Nodes) (path : DataPath) (upfs : List (Option ℕ))
    → IsChain nodes none path.first_dp_node upfs
    → length upfs ≤ fuel
    → IsChain
        (copy_first_dp_node fuel nodes path).0
        none
        (copy_first_dp_node fuel nodes path).1
        upfs
      × AllNew nodes.fresh
          (copy_first_dp_node fuel nodes path).0
          (copy_first_dp_node fuel nodes path).1
          upfs
      × ((k : ℕ) → k < nodes.fresh → (copy_first_dp_node fuel nodes path).0.node k ≡ nodes.node k)
unfolding copy_first_dp_node
copy_first_dp_node-IsChain fuel nodes path upfs chain enough =
    let grown = generate_loop-Grown upfs nodes none (λ p. λ e. ground arith) in
    let same =
      copy_loop-generate_loop fuel nodes nodes none none path.first_dp_node upfs (omega arith)
        (λ k. λ l. refl) (λ p. λ e. ground arith) chain enough in
    let first = first_copy-in_front nodes path.first_dp_node upfs chain in
    (
      rw (same, first) grown.3,
      rw (same, first)
          (generate_loop-AllNew upfs nodes none nodes.fresh (λ p. λ e. ground arith) (omega arith)),
      rw same (λ k. λ old. grown.1 k old (λ e. ground arith)),
    )
