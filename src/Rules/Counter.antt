-- ===== src/Rules/Counter.antt =====
-- A generator that counts up and never uses an identifier twice: it keeps the promises.
use smf_nwdaf_ext.Common.{
  ℕ, suc, ◌+◌, ◌≤◌, ◌≡◌, ◌≢◌, ◌⊎◌, refl, Bool, true, false, not, ◌&&◌, inl, inr, Option, none, some,
  ◌==◌, leb, if◌then◌else◌, arith, Bool-cases,
}
use smf_nwdaf_ext.Rules.{IdGenerator}

pub record Counter : Type 0 where
  pub lowest : ℕ
  pub highest : ℕ
  pub count : ℕ
  pub out : ℕ → Bool

abbrev pub fits : Counter → Bool
fits g = leb (g.lowest + g.count) g.highest && not (g.out (g.lowest + g.count))

abbrev pub give : Counter → Counter × Option ℕ
give g =
    if fits g
    then (
      record g {
        count = suc g.count;
        out = λ v. if g.lowest + g.count == v then true else g.out v;
      },
      some (g.lowest + g.count),
    )
    else (g, none)

abbrev pub take_back : Counter → ℕ → Counter
take_back g id = record g { out = λ v. if id == v then false else g.out v }

pub give_lem :
    (g : Counter)
    → (((give g).1 ≡ none) × ((v : ℕ) → (give g).0.out v ≡ g.out v))
      ⊎ ((id : ℕ) × ((give g).1 ≡ some id)
          × (g.lowest ≤ id)
          × (id ≤ g.highest)
          × (g.out id ≡ false)
          × ((give g).0.out id ≡ true)
          × ((v : ℕ) → v ≢ id → (give g).0.out v ≡ g.out v))
give_lem g = elim (Bool-cases (fits g)) [
  | inr full ↦ inl (ground arith, λ v. ground arith)
  | inl free ↦ inr (
    g.lowest + g.count,
    ground arith,
    omega arith,
    ground arith,
    ground arith,
    ground arith,
    λ v ne. ground arith,
  )
]

pub give_range : (g : Counter) → ((give g).0.lowest ≡ g.lowest) × ((give g).0.highest ≡ g.highest)
give_range g = ground arith

pub take_back_lem :
    (g : Counter) (id : ℕ)
    → ((take_back g id).out id ≡ false) × ((v : ℕ) → v ≢ id → (take_back g id).out v ≡ g.out v)
take_back_lem g id = (ground arith, λ v ne. ground arith)

abbrev pub counting : IdGenerator
counting = record {
  State = Counter;
  new_generator = λ a b. record { lowest = a; highest = b; count = 0; out = λ _. false };
  allocate_id = give;
  free_id = take_back;
  is_used = λ g v. g.out v;
  low = λ g. g.lowest;
  high = λ g. g.highest;
  new_lem = λ a b. (λ v. refl, refl, refl);
  allocate_lem = give_lem;
  allocate_range = give_range;
  free_lem = take_back_lem;
  free_range = λ g id. (refl, refl);
}
