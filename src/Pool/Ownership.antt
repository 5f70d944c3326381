-- ===== src/Pool/Ownership.antt =====
-- The pool and its clients: who holds which value after any sequence of calls.
use smf_nwdaf_ext.Common.{
  ℕ, ◌+◌, ◌≤◌, ◌<◌, ◌≡◌, refl, ◌∙◌, subst, subst₂, ◌⊎◌, inl, inr, ◌&&◌, true, List, [], ◌∷◌, arith,
  leb, ◌==◌, if◌then◌else◌, some,
}
use smf_nwdaf_ext.Pool.{LazyReusePool, new_pool, allocate, use_value, free}
use smf_nwdaf_ext.Pool.Contents.{copies, point, IsValid}
use smf_nwdaf_ext.Pool.Accounting.{
  Takes, Gives, allocate_lem, use_value_lem, free_lem, new_pool-IsValid,
}

abbrev pub count : ℕ → List ℕ → ℕ
count v [] = 0
count v (x ∷ held) = point x v + count v held

abbrev pub drop_one : ℕ → List ℕ → List ℕ
drop_one v [] = []
drop_one v (x ∷ held) = if x == v then held else x ∷ drop_one v held

pub count-drop_one :
    (v w : ℕ) (held : List ℕ)
    → 1 ≤ count v held
    → count w (drop_one v held) + point v w ≡ count w held
count-drop_one v w [] h = absurd (omega arith)
count-drop_one v w (x ∷ held) h = ground (arith, count-drop_one v w held)

pub record World : Type 0 where
  pub pool : LazyReusePool
  pub held : List ℕ

-- A client frees only what it holds. A call that fails changes nothing and is no step.
pub data Step : World → World → Type 0 where
  allocates :
      {w : World} (value : ℕ) (q : LazyReusePool)
      → allocate w.pool ≡ (q, some value)
      → Step w (record { pool = q; held = value ∷ w.held })
  uses :
      {w : World} (value : ℕ) (q : LazyReusePool)
      → use_value w.pool value ≡ (q, true)
      → Step w (record { pool = q; held = value ∷ w.held })
  frees :
      {w : World} (value : ℕ)
      → 1 ≤ count value w.held
      → Step w (record { pool = (free w.pool value).0; held = drop_one value w.held })

pub data Reach (s : World) : World → Type 0 where
  here : Reach s s
  next : {t u : World} → Reach s t → Step t u → Reach s u

-- How often a value stands in the pool and in clients' hands.
abbrev pub places : World → ℕ → ℕ
places w v = copies w.pool.segments v + count v w.held

pub record IsSound (w : World) : Type 0 where
  pub valid : IsValid w.pool
  pub single : (v : ℕ) → places w v ≤ 1
  pub ranged : (v : ℕ) → (v < w.pool.first) ⊎ (w.pool.last < v) → places w v ≡ 0

-- What one call keeps.
record Kept (w u : World) : Type 0 where
  sound : IsSound u
  same : (v : ℕ) → places u v ≡ places w v

keep :
    {w : World} (u : World)
    → IsSound w
    → IsValid u.pool
    → u.pool.first ≡ w.pool.first
    → u.pool.last ≡ w.pool.last
    → ((v : ℕ) → places u v ≡ places w v)
    → Kept w u
keep u s v f l same = record {
  sound = record {
    valid = v;
    single = λ x. omega (arith, same x, s.single x);
    ranged = λ x out. same x ∙ s.ranged x (rw (← f, ← l) out);
  };
  same = same;
}

take-Kept :
    (w : World) (value : ℕ) (q : LazyReusePool)
    → IsSound w
    → Takes value w.pool q
    → Kept w (record { pool = q; held = value ∷ w.held })
take-Kept w value q s t =
    keep (record { pool = q; held = value ∷ w.held }) s t.valid t.same_first t.same_last
      (λ v. omega (arith, t.held v))

give-Kept :
    (w : World) (value : ℕ) (q : LazyReusePool)
    → IsSound w
    → 1 ≤ count value w.held
    → Gives value w.pool q
    → Kept w (record { pool = q; held = drop_one value w.held })
give-Kept w value q s h g =
    keep (record { pool = q; held = drop_one value w.held }) s g.valid g.same_first g.same_last
      (λ v. omega (arith, g.held v, count-drop_one value v w.held h))

-- A held value is in the pool's range and not free, so `Free` accepts it.
held_frees :
    (w : World) (value : ℕ)
    → IsSound w
    → 1 ≤ count value w.held
    → (q : LazyReusePool) × (free w.pool value ≡ (q, true)) × Gives value w.pool q
held_frees w value s h = elim (free_lem w.pool value s.valid) [
  | inl (inl below, e) ↦ absurd (omega (arith, s.ranged value (inl below)))
  | inl (inr (inl above), e) ↦ absurd (omega (arith, s.ranged value (inr above)))
  | inl (inr (inr twice), e) ↦ absurd (omega (arith, s.single value))
  | inr (q, e, _, _, g) ↦ (q, e, g)
]

allocate-Takes :
    (p : LazyReusePool) (value : ℕ) (q : LazyReusePool)
    → IsValid p
    → allocate p ≡ (q, some value)
    → Takes value p q
allocate-Takes p value q v e = elim (allocate_lem p v) [
  | inl (_, failed) ↦ absurd (ground arith)
  | inr (x, r, done, t, _, _) ↦ subst₂ (λ a b. Takes a p b) (ground arith) (ground arith) t
]

use_value-Takes :
    (p : LazyReusePool) (value : ℕ) (q : LazyReusePool)
    → IsValid p
    → use_value p value ≡ (q, true)
    → Takes value p q
use_value-Takes p value q v e = elim (use_value_lem p value v) [
  | inl (_, failed) ↦ absurd (ground arith)
  | inr (r, done, t) ↦ subst (Takes value p) (ground arith) t
]

Step-Kept : {w u : World} → Step w u → IsSound w → Kept w u
Step-Kept {w} (allocates value q e) s =
    take-Kept w value q s (allocate-Takes w.pool value q s.valid e)
Step-Kept {w} (uses value q e) s = take-Kept w value q s (use_value-Takes w.pool value q s.valid e)
Step-Kept {w} (frees value h) s =
    let (q, e, g) = held_frees w value s h in rw e (give-Kept w value q s h g)

Reach-Kept : {s w : World} → Reach s w → IsSound s → Kept s w
Reach-Kept here s = record { sound = s; same = λ v. refl }
Reach-Kept (next r st) s =
    let before = Reach-Kept r s in
    let after = Step-Kept st before.sound in
    record { sound = after.sound; same = λ v. after.same v ∙ before.same v }

abbrev pub start : LazyReusePool → World
start p = record { pool = p; held = [] }

start-IsSound :
    (first last : ℕ) (p : LazyReusePool) → new_pool first last ≡ some p → IsSound (start p)
start-IsSound first last p e =
    let (v, f, l, c) = new_pool-IsValid first last p e in
    record { valid = v; single = λ x. ground (arith, c x); ranged = λ x out. ground (arith, c x) }

-- From a new pool, after any calls of clients that free only what they hold: every value of the
-- range is in exactly one place, free in the pool or held by one client, and no other value is in any.
pub Reach-conserves :
    (first last : ℕ) (p : LazyReusePool) (w : World)
    → new_pool first last ≡ some p
    → Reach (start p) w
    → (v : ℕ) → places w v ≡ (if leb first v && leb v last then 1 else 0)
Reach-conserves first last p w e r v =
    let (_, _, _, c) = new_pool-IsValid first last p e in
    omega (arith, (Reach-Kept r (start-IsSound first last p e)).same v, c v)

-- And then whatever a client holds, `Free` takes back: no value is ever lost to the pool.
pub Reach-frees :
    (first last : ℕ) (p : LazyReusePool) (w : World) (value : ℕ)
    → new_pool first last ≡ some p
    → Reach (start p) w
    → 1 ≤ count value w.held
    → (q : LazyReusePool) × (free w.pool value ≡ (q, true)) × (copies q.segments value ≡ 1)
Reach-frees first last p w value e r h =
    let kept = Reach-Kept r (start-IsSound first last p e) in
    let (q, done, g) = held_frees w value kept.sound h in
    (q, done, ground (arith, g.held value, kept.sound.single value))
