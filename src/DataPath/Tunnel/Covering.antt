-- ===== src/DataPath/Tunnel/Covering.antt =====
-- What one tunnel takes and what it gives back.
use smf_nwdaf_ext.Common.{
  ℕ, ◌≡◌, ◌≢◌, refl, sym, ◌∙◌, subst, Bool, true, false, ◌||◌, ◌&&◌, inl, inr, Option, none, List,
  [], ◌∷◌, ◌++◌, ◌==◌, if◌then◌else◌, arith, Bool-cases,
}
use smf_nwdaf_ext.Rules.{Pdr}

-- A table of each UPF that has lost nothing, and has gained at most what stands at `marks`.
abbrev pub Covered :
    {X : Type 0} → (ℕ → ℕ → Option X) → (ℕ → ℕ → Option X) → (ℕ → ℕ → Bool) → Type 0
Covered before after marks =
    (u v : ℕ)
    → (marks u v ≡ true → before u v ≡ none) × (marks u v ≡ false → after u v ≡ before u v)

abbrev pub either : (ℕ → ℕ → Bool) → (ℕ → ℕ → Bool) → ℕ → ℕ → Bool
either m n u v = m u v || n u v

pub Covered-trans :
    {X : Type 0} (f g h : ℕ → ℕ → Option X) (m n : ℕ → ℕ → Bool)
    → Covered f g m
    → Covered g h n
    → Covered f h (either m n)
Covered-trans f g h m n c d u v = (
  λ marked. elim (Bool-cases (m u v)) [
    | inl first ↦ (c u v).0 first
    | inr other ↦ sym ((c u v).1 other) ∙ (d u v).0 (ground arith)
  ],
  λ unmarked. (d u v).1 (ground arith) ∙ (c u v).1 (ground arith),
)

-- The PDRs that tunnels hold, each with its UPF, as marks on the identifiers `key` names.
abbrev pub marks : (Pdr → ℕ) → List (ℕ × Pdr) → ℕ → ℕ → Bool
marks key [] u v = false
marks key ((w, p) ∷ held) u v = (w == u && key p == v) || marks key held u v

abbrev pub uses : List (ℕ × Pdr) → ℕ → Bool
uses [] u = false
uses ((w, p) ∷ held) u = w == u || uses held u

pub marks-append :
    (key : Pdr → ℕ) (s t : List (ℕ × Pdr)) (u v : ℕ)
    → marks key (s ++ t) u v ≡ (marks key s u v || marks key t u v)
marks-append key [] t u v = refl
marks-append key ((w, p) ∷ s) t u v = ground (arith, marks-append key s t u v)

pub uses-append : (s t : List (ℕ × Pdr)) (u : ℕ) → uses (s ++ t) u ≡ (uses s u || uses t u)
uses-append [] t u = refl
uses-append ((w, p) ∷ s) t u = ground (arith, uses-append s t u)

pub Covered-append :
    {X : Type 0} (f g h : ℕ → ℕ → Option X) (key : Pdr → ℕ) (s t : List (ℕ × Pdr))
    → Covered f g (marks key s)
    → Covered g h (marks key t)
    → Covered f h (marks key (s ++ t))
Covered-append f g h key s t c d u v =
    let both = Covered-trans f g h (marks key s) (marks key t) c d u v in
    let same = marks-append key s t u v in (λ m. both.0 (sym same ∙ m), λ m. both.1 (sym same ∙ m))

-- One identifier of one UPF that was free.
pub Covered-one :
    {X : Type 0} (f g : ℕ → ℕ → Option X) (key : Pdr → ℕ) (w : ℕ) (p : Pdr)
    → f w (key p) ≡ none
    → ((v : ℕ) → v ≢ key p → g w v ≡ f w v)
    → ((u v : ℕ) → w ≢ u → g u v ≡ f u v)
    → Covered f g (marks key ((w, p) ∷ []))
Covered-one f g key w p absent here there u v = (
  λ m.
      let at : w ≡ u = ground arith in
      let id : key p ≡ v = ground arith in
      subst (λ j. f j v ≡ none) at (subst (λ i. f w i ≡ none) id absent),
  λ m. elim (Bool-cases (w == u)) [
    | inl same ↦
        let at : w ≡ u = ground arith in subst (λ j. g j v ≡ f j v) at (here v (ground arith))
    | inr other ↦ there u v (ground arith)
  ],
)

-- A table without what is marked.
abbrev pub Cleared :
    {X : Type 0} → (ℕ → ℕ → Option X) → (ℕ → ℕ → Option X) → (ℕ → ℕ → Bool) → Type 0
Cleared before after m = (u v : ℕ) → after u v ≡ (if m u v then none else before u v)

pub Cleared-append :
    {X : Type 0} (f g h : ℕ → ℕ → Option X) (key : Pdr → ℕ) (s t : List (ℕ × Pdr))
    → Cleared f g (marks key s)
    → Cleared g h (marks key t)
    → Cleared f h (marks key (s ++ t))
Cleared-append f g h key s t c d u v =
    d u v
    ∙ (rw (c u v, marks-append key s t u v) (join (f u v) (marks key s u v) (marks key t u v)))
  where
    join :
        {X : Type 0} (x : Option X) (a b : Bool)
        → (if b then none else (if a then none else x)) ≡ (if a || b then none else x)
    join x true true = refl
    join x true false = refl
    join x false true = refl
    join x false false = refl

-- What is gained at the marks and then cleared there is as before.
pub Covered-Cleared :
    {X : Type 0} (f g h : ℕ → ℕ → Option X) (m : ℕ → ℕ → Bool)
    → Covered f g m
    → Cleared g h m
    → (u v : ℕ) → h u v ≡ f u v
Covered-Cleared f g h m c d u v = elim (Bool-cases (m u v)) [
  | inl marked ↦ d u v ∙ rw marked (sym ((c u v).0 marked))
  | inr other ↦ d u v ∙ rw other ((c u v).1 other)
]
