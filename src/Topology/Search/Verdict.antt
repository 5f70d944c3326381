-- ===== src/Topology/Search/Verdict.antt =====
-- The search returns a path along links through nodes that serve the slice, or there is none.
use smf_nwdaf_ext.Common.{
  ℕ, zero, suc, ◌≤◌, ◌<◌, ◌≡◌, ◌≢◌, refl, subst, ◌⊎◌, inl, inr, true, false, some, List, [], ◌∷◌,
  ◌==◌, arith, Bool-cases, has,
}
use smf_nwdaf_ext.Topology.{SNssai, Upf, Topology, is_support_snssai}
use smf_nwdaf_ext.Topology.Search.{
  Visited, mark, Search, found, missing, crash, out_of_fuel, try_node, try_links, path_between,
  search_path,
}
use smf_nwdaf_ext.Topology.Search.Walks.{
  unseen, unseen_mono, unseen-mark, serves, Link, Walk, stop, step, Swept, Verdict, LoopVerdict,
}
use smf_nwdaf_ext.Topology.Search.Passing.{skip-Passed, refuse-Passed, widen, and_then-Verdict}

module _ (t : Topology) (snssai : SNssai) (source : ℕ)
    (linked : (u v : ℕ) → has v (t.node u).links ≡ true → v < t.size)
    (upfs : (v : ℕ) → v ≢ source → (upf : Upf) × ((t.node v).upf ≡ some upf)) where
  -- What a call of the search is made with.
  record Ready (fuel cur : ℕ) (visited : Visited) : Type 0 where
    within : cur < t.size
    fresh : visited cur ≡ false
    fuelled : unseen t.size visited ≤ fuel
    rooted : (cur ≡ source) ⊎ (visited source ≡ true)

  -- Facts of the loop: the access node is marked, and there is fuel for each node not marked.
  record Looping (fuel : ℕ) (visited : Visited) : Type 0 where
    fuelled : unseen t.size visited ≤ fuel
    rooted : visited source ≡ true

  Looping-grows :
      (fuel : ℕ) (before after : Visited)
      → ((v : ℕ) → before v ≡ true → after v ≡ true)
      → Looping fuel before
      → Looping fuel after
  Looping-grows fuel before after h l = record {
    fuelled = omega (arith, unseen_mono t.size before after h, l.fuelled);
    rooted = h source l.rooted;
  }

  abbrev Searches : ℕ → ℕ → (ℕ → Visited → Search) → Type 0
  Searches fuel dest go =
      (n : ℕ) (visited : Visited)
      → Ready fuel n visited
      → Verdict t snssai n dest visited (go n visited)

  try_node-Verdict :
      (fuel cur n dest : ℕ) (rest : List ℕ) (before : Visited) (upf : Upf)
      (go : ℕ → Visited → Search) (next : Visited → Search)
      → Link t snssai cur n
      → (t.node n).upf ≡ some upf
      → before n ≡ false
      → Looping fuel before
      → Searches fuel dest go
      → ((mid : Visited) → Looping fuel mid → LoopVerdict t snssai cur rest dest mid (next mid))
      → LoopVerdict t snssai cur
          (n ∷ rest)
          dest
          before
          (try_node t snssai go cur n (some upf) next before)
  unfolding try_node
  try_node-Verdict fuel cur n dest rest before upf go next l u e ok ih f =
      elim (Bool-cases (is_support_snssai upf snssai)) [
        | inl yes' ↦
            rw (yes', try_node)
              (and_then-Verdict t snssai cur n dest rest before (go n before) next l
                (rw (u, serves) yes')
                (ih n before (record {
                  within = linked cur n l;
                  fresh = e;
                  fuelled = ok.fuelled;
                  rooted = inr ok.rooted;
                }))
                (λ mid w. f mid (Looping-grows fuel before mid w.grows ok)))
        | inr no' ↦
            rw (no', try_node)
              (widen t snssai cur n dest rest before (mark n before) (next (mark n before))
                (λ after p. refuse-Passed t snssai n dest rest before after (rw (u, serves) no') p)
                (f (mark n before)
                  (Looping-grows fuel before (mark n before) (λ v m. ground arith) ok)))
      ]

  try_links-Verdict :
      (fuel cur dest : ℕ) (links : List ℕ) (visited : Visited) (go : ℕ → Visited → Search)
      → ((v : ℕ) → has v links ≡ true → Link t snssai cur v)
      → Looping fuel visited
      → Searches fuel dest go
      → LoopVerdict t snssai cur links dest visited (try_links t snssai go cur links visited)
  unfolding try_links
  try_links-Verdict fuel cur dest [] visited go sub ok ih = record {
    grows = λ v m. m;
    marks = λ v m. cc;
    closed = λ u v b a o l. cc;
    misses = λ u b a o. absurd (ground arith);
  }
  try_links-Verdict fuel cur dest (n ∷ links) visited go sub ok ih = elim (Bool-cases (visited n)) [
    | inl seen ↦
        rw (seen, try_links)
          (widen t snssai cur n dest links visited visited (try_links t snssai go cur links visited)
            (λ after p. skip-Passed t snssai n dest links visited after seen p)
            (try_links-Verdict fuel cur dest links visited go (later n links sub) ok ih))
    | inr new ↦
        let other : n ≢ source = λ e. absurd (ground (arith, ok.rooted)) in
        let (upf, u) = upfs n other in
        rw (new, u, try_links)
          (try_node-Verdict fuel cur n dest links visited upf go
            (λ mid. try_links t snssai go cur links mid) (sub n (ground arith)) u new ok ih
            (λ mid ok'. try_links-Verdict fuel cur dest links mid go (later n links sub) ok' ih))
  ]
    where
      later :
          (n : ℕ) (links : List ℕ)
          → ((v : ℕ) → has v (n ∷ links) ≡ true → Link t snssai cur v)
          → (v : ℕ) → has v links ≡ true
          → Link t snssai cur v
      later n links sub v m = sub v (ground arith)

  close :
      (cur dest : ℕ) (visited : Visited) (r : Search)
      → visited cur ≡ false
      → cur ≢ dest
      → LoopVerdict t snssai cur (t.node cur).links dest (mark cur visited) r
      → Verdict t snssai cur dest visited r
  close cur dest visited (found path) e d v = v
  close cur dest visited (missing after) e d p = record {
    grows = λ v m. p.grows v (ground arith);
    marks = p.grows cur (ground arith);
    closed = λ u v b a o l. elim (Bool-cases (cur == u)) [
      | inl here ↦ let same : cur ≡ u = ground arith in p.marks v (rw same l)
      | inr there ↦ p.closed u v (ground arith) a (ground arith) l
    ];
    misses = λ u b a o. elim (Bool-cases (cur == u)) [
      | inl here ↦ let same : cur ≡ u = ground arith in rw (← same) d
      | inr there ↦ p.misses u (ground arith) a (ground arith)
    ];
  }
  close cur dest visited crash e d v = v
  close cur dest visited out_of_fuel e d v = v

  path_between-Verdict :
      (fuel dest cur : ℕ) (visited : Visited)
      → Ready fuel cur visited
      → Verdict t snssai cur dest visited (path_between t snssai fuel dest cur visited)
  unfolding path_between
  path_between-Verdict zero dest cur visited ok =
      absurd (omega (arith, unseen-mark t.size cur visited ok.within ok.fresh, ok.fuelled))
  path_between-Verdict (suc fuel) dest cur visited ok = elim (Bool-cases (cur == dest)) [
    | inl same ↦
        let here : cur ≡ dest = ground arith in
        rw (same, path_between) (subst (λ d. Walk t snssai cur d (cur ∷ [])) here stop)
    | inr other ↦
        rw (other, path_between)
          (close cur dest visited _ ok.fresh (ground arith) (
            try_links-Verdict fuel cur dest (t.node cur).links (mark cur visited)
              (path_between t snssai fuel dest) (λ v m. m)
              (record {
                fuelled =
                    omega (arith, unseen-mark t.size cur visited ok.within ok.fresh, ok.fuelled);
                rooted = ground (arith, ok.rooted);
              })
              (λ n v r. path_between-Verdict fuel dest n v r)))
  ]

module _ (t : Topology) (snssai : SNssai) (source dest : ℕ) (after : Visited)
    (swept : Swept t snssai source dest (λ _. false) after) where
  blocked :
      {u d : ℕ} {path : List ℕ}
      → Walk t snssai u d path
      → d ≡ dest
      → after u ≡ true
      → (u ≡ source) ⊎ (serves t snssai u ≡ true)
      → ⊥
  blocked (stop {d}) e m o = swept.misses d refl m o e
  blocked (step {u} {v} l s w) e m o = blocked w e (swept.closed u v refl m o l) (inr s)

unseen-none : (n : ℕ) → unseen n (λ _. false) ≤ n
unseen-none zero = omega arith
unseen-none (suc n) = omega (arith, unseen-none n)

-- In a topology whose links stay inside it and whose access node is the only node without a UPF, the
-- search from the access node always returns: a path to the destination along links through UPFs
-- that serve the slice, or a miss, and then no such path exists.
pub search_path-decides :
    (t : Topology) (snssai : SNssai) (source dest : ℕ)
    → ((u v : ℕ) → has v (t.node u).links ≡ true → v < t.size)
    → ((v : ℕ) → v ≢ source → (upf : Upf) × ((t.node v).upf ≡ some upf))
    → source < t.size
    → ((path : List ℕ) × (search_path t snssai source dest ≡ found path)
        × Walk t snssai source dest path)
      ⊎ ((after : Visited) × (search_path t snssai source dest ≡ missing after)
          × ((path : List ℕ) → ¬ Walk t snssai source dest path))
unfolding search_path
search_path-decides t snssai source dest linked upfs h =
    go (path_between t snssai t.size dest source (λ _. false)) refl (
      path_between-Verdict t snssai source linked upfs t.size dest source (λ _. false)
        (record { within = h; fresh = refl; fuelled = unseen-none t.size; rooted = inl refl }))
  where
    go :
        (r : Search)
        → search_path t snssai source dest ≡ r
        → Verdict t snssai source dest (λ _. false) r
        → ((path : List ℕ) × (search_path t snssai source dest ≡ found path)
            × Walk t snssai source dest path)
          ⊎ ((after : Visited) × (search_path t snssai source dest ≡ missing after)
              × ((path : List ℕ) → ¬ Walk t snssai source dest path))
    go (found path) e w = inl (path, e, w)
    go (missing after) e w =
        inr
          (after, e, λ path walk. blocked t snssai source dest after w walk refl w.marks (inl refl))
    go crash e w = absurd w
    go out_of_fuel e w = absurd w
