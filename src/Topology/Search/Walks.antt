-- ===== src/Topology/Search/Walks.antt =====
-- What a path and a miss of the search are.
use smf_nwdaf_ext.Common.{
  ℕ, zero, suc, ◌+◌, ◌≤◌, ◌<◌, ◌≡◌, ◌≢◌, ◌⊎◌, inl, inr, Bool, true, false, none, some, List, [],
  ◌∷◌, ◌==◌, if◌then◌else◌, arith, Bool-cases, has,
}
use smf_nwdaf_ext.Topology.{SNssai, Topology, is_support_snssai}
use smf_nwdaf_ext.Topology.Search.{Visited, mark, Search, found, missing, crash, out_of_fuel}

-- The nodes below `n` that are not visited.
abbrev pub unseen : ℕ → Visited → ℕ
unseen zero visited = 0
unseen (suc n) visited = (if visited n then 0 else 1) + unseen n visited

pub unseen_mono :
    (n : ℕ) (a b : Visited) → ((v : ℕ) → a v ≡ true → b v ≡ true) → unseen n b ≤ unseen n a
unseen_mono zero a b h = omega arith
unseen_mono (suc n) a b h = ground (arith, unseen_mono n a b h, h n)

pub unseen-mark :
    (n v : ℕ) (visited : Visited)
    → v < n
    → visited v ≡ false
    → unseen n (mark v visited) + 1 ≤ unseen n visited
unseen-mark zero v visited h e = absurd (omega arith)
unseen-mark (suc n) v visited h e = elim (Bool-cases (v == n)) [
  | inl here ↦ ground (arith, unseen_mono n visited (mark v visited) (λ w m. ground arith))
  | inr there ↦ ground (arith, unseen-mark n v visited)
]

module _ (t : Topology) (snssai : SNssai) where
  abbrev pub serves : ℕ → Bool
  serves v = elim (t.node v).upf [ none ↦ false | some upf ↦ is_support_snssai upf snssai ]

  abbrev pub Link : ℕ → ℕ → Type 0
  Link u v = has v (t.node u).links ≡ true

  -- A path as the search builds it: every node after the first serves the slice.
  pub data Walk : ℕ → ℕ → List ℕ → Type 0 where
    stop : {d : ℕ} → Walk d d (d ∷ [])
    step :
        {u v d : ℕ} {path : List ℕ}
        → Link u v
        → serves v ≡ true
        → Walk v d path
        → Walk u d (u ∷ path)

  -- What a miss from `cur` tells of the nodes that it marked.
  pub record Swept (cur dest : ℕ) (before after : Visited) : Type 0 where
    pub grows : (v : ℕ) → before v ≡ true → after v ≡ true
    pub marks : after cur ≡ true
    pub closed :
        (u v : ℕ)
        → before u ≡ false
        → after u ≡ true
        → (u ≡ cur) ⊎ (serves u ≡ true)
        → Link u v
        → after v ≡ true
    pub misses :
        (u : ℕ) → before u ≡ false → after u ≡ true → (u ≡ cur) ⊎ (serves u ≡ true) → u ≢ dest

  -- The same of the loop over `links`.
  pub record Passed (links : List ℕ) (dest : ℕ) (before after : Visited) : Type 0 where
    pub grows : (v : ℕ) → before v ≡ true → after v ≡ true
    pub marks : (v : ℕ) → has v links ≡ true → after v ≡ true
    pub closed :
        (u v : ℕ) → before u ≡ false → after u ≡ true → serves u ≡ true → Link u v → after v ≡ true
    pub misses : (u : ℕ) → before u ≡ false → after u ≡ true → serves u ≡ true → u ≢ dest

  abbrev pub Verdict : ℕ → ℕ → Visited → Search → Type 0
  Verdict cur dest before (found path) = Walk cur dest path
  Verdict cur dest before (missing after) = Swept cur dest before after
  Verdict cur dest before crash = ⊥
  Verdict cur dest before out_of_fuel = ⊥

  abbrev pub LoopVerdict : ℕ → List ℕ → ℕ → Visited → Search → Type 0
  LoopVerdict cur links dest before (found path) = Walk cur dest path
  LoopVerdict cur links dest before (missing after) = Passed links dest before after
  LoopVerdict cur links dest before crash = ⊥
  LoopVerdict cur links dest before out_of_fuel = ⊥
