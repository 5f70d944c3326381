-- ===== src/Topology/Search/Passing.antt =====
-- One link of the loop: what it adds to what the rest of the loop tells.
use smf_nwdaf_ext.Common.{ℕ, ◌≡◌, inl, inr, true, false, List, ◌∷◌, ◌==◌, arith, Bool-cases}
use smf_nwdaf_ext.Topology.{SNssai, Topology}
use smf_nwdaf_ext.Topology.Search.{
  Visited, mark, Search, found, missing, crash, out_of_fuel, and_then,
}
use smf_nwdaf_ext.Topology.Search.Walks.{serves, Link, step, Swept, Passed, Verdict, LoopVerdict}

module _ (t : Topology) (snssai : SNssai) where
  pub skip-Passed :
      (n dest : ℕ) (rest : List ℕ) (before after : Visited)
      → before n ≡ true
      → Passed t snssai rest dest before after
      → Passed t snssai (n ∷ rest) dest before after
  skip-Passed n dest rest before after e p = record {
    grows = p.grows;
    marks = λ v m. ground (arith, p.marks v, p.grows n e);
    closed = p.closed;
    misses = p.misses;
  }

  pub refuse-Passed :
      (n dest : ℕ) (rest : List ℕ) (before after : Visited)
      → serves t snssai n ≡ false
      → Passed t snssai rest dest (mark n before) after
      → Passed t snssai (n ∷ rest) dest before after
  refuse-Passed n dest rest before after s p = record {
    grows = λ v m. p.grows v (ground arith);
    marks = λ v m. ground (arith, p.marks v, p.grows n);
    closed = λ u v b a o l. p.closed u v (fresh u b o) a o l;
    misses = λ u b a o. p.misses u (fresh u b o) a o;
  }
    where
      fresh : (u : ℕ) → before u ≡ false → serves t snssai u ≡ true → mark n before u ≡ false
      fresh u b o = elim (Bool-cases (n == u)) [
        | inl e ↦ let same : n ≡ u = ground arith in cc
        | inr e ↦ rw e b
      ]

  after-Passed :
      (n dest : ℕ) (rest : List ℕ) (before mid after : Visited)
      → serves t snssai n ≡ true
      → Swept t snssai n dest before mid
      → Passed t snssai rest dest mid after
      → Passed t snssai (n ∷ rest) dest before after
  after-Passed n dest rest before mid after s w p = record {
    grows = λ v m. p.grows v (w.grows v m);
    marks = λ v m. ground (arith, p.marks v, p.grows n w.marks);
    closed = λ u v b a o l. elim (Bool-cases (mid u)) [
      | inl early ↦ p.grows v (w.closed u v b early (inr o) l)
      | inr late ↦ p.closed u v late a o l
    ];
    misses = λ u b a o. elim (Bool-cases (mid u)) [
      | inl early ↦ w.misses u b early (inr o)
      | inr late ↦ p.misses u late a o
    ];
  }

  pub widen :
      (cur n dest : ℕ) (rest : List ℕ) (before mid : Visited) (r : Search)
      → ((after : Visited)
          → Passed t snssai rest dest mid after
          → Passed t snssai (n ∷ rest) dest before after)
      → LoopVerdict t snssai cur rest dest mid r
      → LoopVerdict t snssai cur (n ∷ rest) dest before r
  widen cur n dest rest before mid (found path) f v = v
  widen cur n dest rest before mid (missing after) f v = f after v
  widen cur n dest rest before mid crash f v = v
  widen cur n dest rest before mid out_of_fuel f v = v

  pub and_then-Verdict :
      (cur n dest : ℕ) (rest : List ℕ) (before : Visited) (r : Search) (next : Visited → Search)
      → Link t snssai cur n
      → serves t snssai n ≡ true
      → Verdict t snssai n dest before r
      → ((mid : Visited)
          → Swept t snssai n dest before mid
          → LoopVerdict t snssai cur rest dest mid (next mid))
      → LoopVerdict t snssai cur (n ∷ rest) dest before (and_then cur r next)
  and_then-Verdict cur n dest rest before (found path) next l s v f = step l s v
  and_then-Verdict cur n dest rest before (missing mid) next l s v f =
      widen cur n dest rest before mid (next mid)
        (λ after p. after-Passed n dest rest before mid after s v p) (f mid v)
  and_then-Verdict cur n dest rest before crash next l s v f = v
  and_then-Verdict cur n dest rest before out_of_fuel next l s v f = v
