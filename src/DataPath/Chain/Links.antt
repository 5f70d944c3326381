-- ===== src/DataPath/Chain/Links.antt =====
-- The links that `GenerateDataPath` makes.
use smf_nwdaf_ext.Common.{
  ℕ, suc, ◌≤◌, ◌<◌, ◌≡◌, ◌≢◌, refl, sym, ap, ◌∙◌, subst, Option, none, some, List, [], ◌∷◌, arith,
  some_eq,
}
use smf_nwdaf_ext.DataPath.Chain.{
  Nodes, DataPath, next_of, prev_of, grow, generate_loop, generate_data_path, new_data_path_node,
  set_upf, add_next, add_prev,
}

-- From a node on the nodes of these UPFs follow, each linked to the one behind it and back, and the
-- last one to none.
abbrev pub IsChain : Nodes → Option ℕ → Option ℕ → List (Option ℕ) → Type 0
IsChain nodes prev at [] = at ≡ none
IsChain nodes prev at (upf ∷ upfs) =
    (k : ℕ) × (at ≡ some k)
    × (k < nodes.fresh)
    × ((nodes.node k).upf ≡ upf)
    × (prev_of nodes k ≡ prev)
    × IsChain nodes (some k) (next_of nodes k) upfs

abbrev pub Below : Option ℕ → ℕ → Type 0
Below prev n = (p : ℕ) → prev ≡ some p → p < n

-- What is linked to the node in front: the first of the new nodes, where there is one.
abbrev pub in_front : List (Option ℕ) → ℕ → Option ℕ → Option ℕ
in_front [] n old = old
in_front (upf ∷ upfs) n old = some n

pub grow-fresh :
    (nodes : Nodes) (prev upf : Option ℕ) → (grow nodes prev upf).fresh ≡ suc nodes.fresh
unfolding new_data_path_node set_upf add_next add_prev grow
grow-fresh nodes none upf = refl
grow-fresh nodes (some p) upf = refl

pub grow-other :
    (nodes : Nodes) (prev upf : Option ℕ) (k : ℕ)
    → k < nodes.fresh
    → prev ≢ some k
    → (grow nodes prev upf).node k ≡ nodes.node k
unfolding new_data_path_node set_upf add_next add_prev grow
grow-other nodes none upf k old other = ground arith
grow-other nodes (some p) upf k old other =
    let apart : p ≢ k = λ e. other (ap some e) in ground arith

pub grow-new :
    (nodes : Nodes) (prev upf : Option ℕ)
    → Below prev nodes.fresh
    → (((grow nodes prev upf).node nodes.fresh).upf ≡ upf)
      × (prev_of (grow nodes prev upf) nodes.fresh ≡ prev)
      × (next_of (grow nodes prev upf) nodes.fresh ≡ none)
unfolding new_data_path_node set_upf add_next add_prev grow
grow-new nodes none upf below = (ground arith, ground arith, ground arith)
grow-new nodes (some p) upf below =
    let lower = below p refl in (ground arith, ground arith, ground arith)

grow-front :
    (nodes : Nodes) (p : ℕ) (upf : Option ℕ)
    → p < nodes.fresh
    → (((grow nodes (some p) upf).node p).upf ≡ (nodes.node p).upf)
      × (prev_of (grow nodes (some p) upf) p ≡ prev_of nodes p)
      × (next_of (grow nodes (some p) upf) p ≡ some nodes.fresh)
unfolding new_data_path_node set_upf add_next add_prev grow
grow-front nodes p upf lower = (ground arith, ground arith, ground arith)

-- What a loop that starts behind `prev` leaves, where `done` are the nodes after it.
abbrev pub Grown : Nodes → Option ℕ → List (Option ℕ) → Nodes → Type 0
Grown nodes prev upfs done =
    (nodes.fresh ≤ done.fresh)
    × ((k : ℕ) → k < nodes.fresh → prev ≢ some k → done.node k ≡ nodes.node k)
    × ((p : ℕ)
        → prev ≡ some p
        → p < nodes.fresh
        → ((done.node p).upf ≡ (nodes.node p).upf)
          × (prev_of done p ≡ prev_of nodes p)
          × (next_of done p ≡ in_front upfs nodes.fresh (next_of nodes p)))
    × IsChain done prev (in_front upfs nodes.fresh none) upfs

Grown-one :
    (nodes : Nodes) (prev upf : Option ℕ) (upfs : List (Option ℕ)) (done : Nodes)
    → Below prev nodes.fresh
    → Grown (grow nodes prev upf) (some nodes.fresh) upfs done
    → Grown nodes prev (upf ∷ upfs) done
Grown-one nodes prev upf upfs done below (longer, kept, front, chain) =
    let size = grow-fresh nodes prev upf in
    let new = grow-new nodes prev upf below in
    let seam = front nodes.fresh refl (ground (arith, size)) in
    let earlier : (k : ℕ) → k < nodes.fresh → done.node k ≡ (grow nodes prev upf).node k = λ k.
      λ old.
        kept k (ground (arith, size)) (λ e. let same = some_eq e in omega (arith, same, old)) in
    let next : next_of done nodes.fresh ≡ in_front upfs (grow nodes prev upf).fresh none =
      seam.2 ∙ ap (in_front upfs (grow nodes prev upf).fresh) new.2 in
    (
      ground (arith, size, longer),
      λ k. λ old. λ other. earlier k old ∙ grow-other nodes prev upf k old other,
      λ p. λ e. λ lower.
          let fields =
            subst
              (λ q.
                ((((grow nodes q upf).node p).upf ≡ (nodes.node p).upf)
                  × (prev_of (grow nodes q upf) p ≡ prev_of nodes p)
                  × (next_of (grow nodes q upf) p ≡ some nodes.fresh)))
              (sym e) (grow-front nodes p upf lower) in
          let same = earlier p lower in
          (
            ap (λ n. n.upf) same ∙ fields.0,
            ap (λ n. n.up_link_tunnel.src_end_point) same ∙ fields.1,
            ap (λ n. n.down_link_tunnel.src_end_point) same ∙ fields.2,
          ),
      (
        nodes.fresh,
        refl,
        ground (arith, size, longer),
        seam.0 ∙ new.0,
        seam.1 ∙ new.1,
        subst (λ at. IsChain done (some nodes.fresh) at upfs) (sym next) chain,
      ),
    )

pub generate_loop-Grown :
    (upfs : List (Option ℕ)) (nodes : Nodes) (prev : Option ℕ)
    → Below prev nodes.fresh
    → Grown nodes prev upfs (generate_loop nodes prev upfs)
unfolding generate_loop
generate_loop-Grown [] nodes prev below =
    (omega arith, λ k. λ old. λ other. refl, λ p. λ e. λ lower. (refl, refl, refl), refl)
generate_loop-Grown (upf ∷ upfs) nodes prev below =
    let size = grow-fresh nodes prev upf in
    Grown-one nodes prev upf upfs (generate_loop (grow nodes prev upf) (some nodes.fresh) upfs)
      below
      (generate_loop-Grown upfs (grow nodes prev upf) (some nodes.fresh)
        (λ p. λ e. let same = some_eq e in omega (arith, same, size)))

-- `GenerateDataPath` gives a path for every list of UPFs but the empty one. Its nodes are linked both
-- ways in the order of the list, and the nodes that were there are as they were.
pub generate_data_path-IsChain :
    (nodes : Nodes) (upf : Option ℕ) (upfs : List (Option ℕ))
    → ((generate_data_path nodes []).1 ≡ none)
      × ((path : DataPath) × ((generate_data_path nodes (upf ∷ upfs)).1 ≡ some path)
          × IsChain (generate_data_path nodes (upf ∷ upfs)).0 none path.first_dp_node (upf ∷ upfs)
          × ((k : ℕ)
              → k < nodes.fresh
              → (generate_data_path nodes (upf ∷ upfs)).0.node k ≡ nodes.node k))
unfolding generate_data_path
generate_data_path-IsChain nodes upf upfs =
    let grown = generate_loop-Grown (upf ∷ upfs) nodes none (λ p. λ e. ground arith) in
    (refl, (_, refl, grown.3, λ k. λ old. grown.1 k old (λ e. ground arith)))
