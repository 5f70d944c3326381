-- ===== src/Pfcp/Requests/Orders.antt =====
-- Orders as they change the table of a UPF, and what a loop over a list of rules brings about.
use smf_nwdaf_ext.Common.{
  ℕ, true, false, Option, none, some, List, [], ◌∷◌, ◌++◌, ◌==◌, if◌then◌else◌, has, ◌≡◌, refl, sym,
  ap, ◌∙◌, subst, ◌≢◌, inl, inr, arith, Bool-cases, Option-cases,
}
use smf_nwdaf_ext.UrrTable.{
  RuleState, rule_initial, rule_create, rule_update, rule_remove, rule_query,
}
use smf_nwdaf_ext.Pfcp.Requests.{
  Order, create, update, remove, query, update_at, send_each, by_state,
}

-- The rules of one kind that a UPF holds, by identifier.
abbrev pub Held : Type 0 → Type 0
Held A = ℕ → Option A

abbrev pub put : {A : Type 0} → Held A → ℕ → Option A → Held A
put t id o j = if id == j then o else t j

abbrev pub if_absent : {A : Type 0} → Option A → Held A → Option (Held A)
if_absent none t = some t
if_absent (some _) t = none

abbrev pub if_present : {A : Type 0} → Option A → Held A → Option (Held A)
if_present none t = none
if_present (some _) t = some t

-- A UPF creates only a rule that it does not hold, and updates and removes only one that it holds.
abbrev pub accept : {A : Type 0} → (A → ℕ) → Order A → Held A → Option (Held A)
accept key (create ie) t = if_absent (t (key ie)) (put t (key ie) (some ie))
accept key (update ie) t = if_present (t (key ie)) (put t (key ie) (some ie))
accept key (remove id) t = if_present (t id) (put t id none)
accept key (query id) t = if_present (t id) t

abbrev pub after_order :
    {A : Type 0} → (Held A → Option (Held A)) → Option (Held A) → Option (Held A)
after_order f none = none
after_order f (some t) = f t

abbrev pub deliver : {A : Type 0} → (A → ℕ) → List (Order A) → Held A → Option (Held A)
deliver key [] t = some t
deliver key (o ∷ orders) t = after_order (deliver key orders) (accept key o t)

-- The UPF holds no rule that is not created yet, and holds one that is to change.
abbrev pub Fits : {A : Type 0} → RuleState → Option A → Type 0
Fits rule_initial o = o ≡ none
Fits rule_create o = o ≡ o
Fits rule_update o = o ≢ none
Fits rule_remove o = o ≢ none
Fits rule_query o = o ≡ o

-- What the UPF is to hold of a rule, after what it held.
abbrev pub wanted : {A : Type 0} → RuleState → A → A → Option A → Option A
wanted rule_initial new changed held = some new
wanted rule_create new changed held = held
wanted rule_update new changed held = some changed
wanted rule_remove new changed held = none
wanted rule_query new changed held = held

abbrev pub Distinct : {R : Type 0} → (R → ℕ) → (ℕ → R) → List ℕ → Type 0
Distinct id h [] = true ≡ true
Distinct id h (k ∷ ks) =
    (has k ks ≡ false) × ((j : ℕ) → has j ks ≡ true → id (h k) ≢ id (h j)) × Distinct id h ks

-- Every order is accepted, each rule of the list then stands in the UPF as wanted, and the other
-- identifiers are as they were.
abbrev pub Delivers :
    {R A : Type 0}
    → (R → RuleState)
    → (R → ℕ)
    → (R → A)
    → (R → A)
    → (A → ℕ)
    → (ℕ → R)
    → List ℕ
    → List (Order A)
    → Held A
    → Type 0
Delivers {A = A} state id new changed key h ks orders t =
    (t' : Held A) × (deliver key orders t ≡ some t')
    × ((k : ℕ)
        → has k ks ≡ true
        → t' (id (h k)) ≡ wanted (state (h k)) (new (h k)) (changed (h k)) (t (id (h k))))
    × ((j : ℕ) → ((k : ℕ) → has k ks ≡ true → id (h k) ≢ j) → t' j ≡ t j)

module _ {R A : Type 0} (state : R → RuleState) (id : R → ℕ) (new changed : R → A)
    (key : A → ℕ) where
  abbrev OneOrder : RuleState → A → A → ℕ → Held A → List (Order A) → Type 0
  OneOrder s a b i t rest =
      (t' : Held A) × (deliver key (by_state s a b i ++ rest) t ≡ deliver key rest t')
      × (t' i ≡ wanted s a b (t i))
      × ((j : ℕ) → i ≢ j → t' j ≡ t j)

  one_order :
      (s : RuleState) (a b : A) (i : ℕ) (t : Held A) (rest : List (Order A))
      → key a ≡ i
      → key b ≡ i
      → Fits s (t i)
      → OneOrder s a b i t rest
  one_order rule_initial a b i t rest ka kb fits =
      let gone : t (key a) ≡ none = rw ka fits in
      (put t (key a) (some a), rw gone refl, ground arith, λ j. λ other. ground arith)
  one_order rule_create a b i t rest ka kb fits = (t, refl, refl, λ j. λ other. refl)
  one_order rule_update a b i t rest ka kb fits = elim (Option-cases (t (key b))) [
    | inl gone ↦ elim (fits (subst (λ n. t n ≡ none) kb gone)) [ ]
    | inr (held, there) ↦
        (put t (key b) (some b), rw there refl, ground arith, λ j. λ other. ground arith)
  ]
  one_order rule_remove a b i t rest ka kb fits = elim (Option-cases (t i)) [
    | inl gone ↦ elim (fits gone) [ ]
    | inr (held, there) ↦ (put t i none, rw there refl, ground arith, λ j. λ other. ground arith)
  ]
  one_order rule_query a b i t rest ka kb fits = (t, refl, refl, λ j. λ other. refl)

  abbrev order : R → List (Order A)
  order r = by_state (state r) (new r) (changed r) (id r)

  has_first : (k : ℕ) (ks : List ℕ) → has k (k ∷ ks) ≡ true
  has_first k ks = ground arith

  no_rules : (h : ℕ → R) (t : Held A) → Delivers state id new changed key h [] [] t
  no_rules h t = (t, refl, λ k. λ no. ground arith, λ j. λ other. refl)

  add_rule :
      (h : ℕ → R) (k : ℕ) (ks : List ℕ) (t : Held A) (rest : List (Order A))
      → ((j : ℕ) → has j ks ≡ true → id (h k) ≢ id (h j))
      → (one : OneOrder (state (h k)) (new (h k)) (changed (h k)) (id (h k)) t rest)
      → Delivers state id new changed key h ks rest one.0
      → Delivers state id new changed key h (k ∷ ks) (order (h k) ++ rest) t
  add_rule h k ks t rest apart one more = (
    more.0,
    one.1 ∙ more.1,
    λ j. λ member. elim (Bool-cases (k == j)) [
      | inl here ↦
          let same : k ≡ j = ground arith in
          subst
            (λ i.
              more.0 (id (h i)) ≡ wanted (state (h i)) (new (h i)) (changed (h i)) (t (id (h i))))
            same (more.3 (id (h k)) (λ i. λ m. λ e. apart i m (sym e)) ∙ one.2)
      | inr there ↦
          let m : has j ks ≡ true = ground arith in
          more.2 j m
          ∙ ap (wanted (state (h j)) (new (h j)) (changed (h j))) (one.3 (id (h j)) (apart j m))
    ],
    λ j. λ other. more.3 j (λ i. λ m. other i (ground arith)) ∙ one.3 j (other k (has_first k ks)),
  )

  -- The store can differ from the one at the loop's start where the list does not reach.
  send_each_from :
      (sent : R → R)
      → ((r : R) → key (new r) ≡ id r)
      → ((r : R) → key (changed r) ≡ id r)
      → (h g : ℕ → R) (ks : List ℕ) (t : Held A) → ((j : ℕ) → has j ks ≡ true → g j ≡ h j)
      → Distinct id h ks
      → ((k : ℕ) → has k ks ≡ true → Fits (state (h k)) (t (id (h k))))
      → Delivers state id new changed key h ks (send_each order sent g ks).1 t
  send_each_from sent kn kc h g [] t agree distinct fits = no_rules h t
  send_each_from sent kn kc h g (k ∷ ks) t agree distinct fits =
      let rest = (send_each order sent (update_at g k sent) ks).1 in
      let one : OneOrder (state (h k)) (new (h k)) (changed (h k)) (id (h k)) t rest =
        one_order (state (h k)) (new (h k)) (changed (h k)) (id (h k)) t rest (kn (h k)) (kc (h k))
          (fits k (has_first k ks)) in
      let elsewhere : (j : ℕ) → has j ks ≡ true → update_at g k sent j ≡ h j = λ j. λ m.
        elim (Bool-cases (k == j)) [
          | inl here ↦ let same : k ≡ j = ground arith in ground (arith, distinct.0, m)
          | inr there ↦ rw there (agree j (ground arith))
        ] in
      let more =
        send_each_from sent kn kc h (update_at g k sent) ks one.0 elsewhere distinct.2 (λ j. λ m.
          subst (Fits (state (h j))) (sym (one.3 (id (h j)) (distinct.1 j m)))
            (fits j (ground arith))) in
      subst (λ r. Delivers state id new changed key h (k ∷ ks) (order r ++ rest) t)
        (sym (agree k (has_first k ks))) (add_rule h k ks t rest distinct.1 one more)

  -- A loop over the rules of a list.
  pub send_each-Delivers :
      (sent : R → R)
      → ((r : R) → key (new r) ≡ id r)
      → ((r : R) → key (changed r) ≡ id r)
      → (h : ℕ → R) (ks : List ℕ) (t : Held A) → Distinct id h ks
      → ((k : ℕ) → has k ks ≡ true → Fits (state (h k)) (t (id (h k))))
      → Delivers state id new changed key h ks
          (send_each (λ r. by_state (state r) (new r) (changed r) (id r)) sent h ks).1
          t
  send_each-Delivers sent kn kc h ks t distinct fits =
      send_each_from sent kn kc h h ks t (λ j. λ m. refl) distinct fits
