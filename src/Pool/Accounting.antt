-- ===== src/Pool/Accounting.antt =====
-- Each method of the pool against the multiset of its free values.
use smf_nwdaf_ext.Common.{
  ℕ, ◌+◌, ◌-◌, ◌*◌, ◌≤◌, ◌<◌, ◌≡◌, refl, sym, subst, ◌⊎◌, inl, inr, ◌&&◌, ◌||◌, true, false, Bool,
  List, [], ◌∷◌, arith, ltb, leb, if◌then◌else◌, Option, none, some, Option-cases, length,
  Bool-cases,
}
use smf_nwdaf_ext.Pool.{
  Segment, LazyReusePool, new_pool, advance, allocate_from, allocate, use_from, use_value,
  free_from, free, contains, reserve, Reserved, reserved, bad_range,
}
use smf_nwdaf_ext.Pool.Contents.{covers, copies, count_free, Proper, Inside, point, Drops, IsValid}
use smf_nwdaf_ext.Pool.Insertion.{free_from-Adds, free_from_refused}
use smf_nwdaf_ext.Pool.Removal.{use_from-some, use_from_refused}
use smf_nwdaf_ext.Pool.Reservation.{loop-Cleared, rounds-le, outside}

-- `q` is `p` less one free copy of the value.
pub record Takes (value : ℕ) (p q : LazyReusePool) : Type 0 where
  pub valid : IsValid q
  pub held : (v : ℕ) → copies p.segments v ≡ copies q.segments v + point value v
  pub same_first : q.first ≡ p.first
  pub same_last : q.last ≡ p.last
  pub remaining : p.remain ≡ q.remain + 1

take-Takes :
    (value : ℕ) (p : LazyReusePool) (segments : List Segment)
    → IsValid p
    → Drops p.first p.last value p.segments segments
    → Takes value p (record p { segments = segments; remain = p.remain - 1 })
take-Takes value p segments v d = record {
  valid = record {
    ranged = v.ranged;
    proper = d.1;
    inside = d.2;
    counted = omega (arith, v.counted, d.3);
  };
  held = d.0;
  same_first = refl;
  same_last = refl;
  remaining = omega (arith, v.counted, d.3);
}

abbrev pub Allocated : LazyReusePool → LazyReusePool × Option ℕ → Type 0
Allocated p result =
    ((p.remain ≡ 0) × (result ≡ (p, none)))
    ⊎ ((value : ℕ) × (q : LazyReusePool) × (result ≡ (q, some value))
        × Takes value p q
        × (p.first ≤ value)
        × (value ≤ p.last))

advance-Drops :
    (lo hi : ℕ) (s : Segment) (next : List Segment)
    → Proper (s ∷ next)
    → Inside lo hi (s ∷ next)
    → Drops lo hi s.first (s ∷ next) (advance s next)
unfolding advance copies covers count_free
advance-Drops lo hi s next p i = (λ v. ground arith, ground arith, ground arith, ground arith)

allocate_from-Allocated :
    (p : LazyReusePool) (segments : List Segment)
    → p.segments ≡ segments
    → IsValid p
    → Allocated p (allocate_from p segments)
unfolding allocate_from count_free
allocate_from-Allocated p [] e v = inl (rw e at v.counted, refl)
allocate_from-Allocated p (s ∷ next) e v =
    let proper : Proper (s ∷ next) = subst Proper e v.proper in
    let inside : Inside p.first p.last (s ∷ next) = subst (Inside p.first p.last) e v.inside in
    let d : Drops p.first p.last s.first (s ∷ next) (advance s next) =
      advance-Drops p.first p.last s next proper inside in
    inr (
      s.first,
      _,
      refl,
      take-Takes s.first p (advance s next) v
          (subst (λ old. Drops p.first p.last s.first old (advance s next)) (sym e) d),
      inside.0,
      omega arith,
    )

-- `Allocate` fails exactly on a pool with nothing left; otherwise it takes out the value it returns.
pub allocate_lem : (p : LazyReusePool) → IsValid p → Allocated p (allocate p)
unfolding allocate
allocate_lem p v = allocate_from-Allocated p p.segments refl v

abbrev pub Used : LazyReusePool → ℕ → LazyReusePool × Bool → Type 0
Used p value result =
    ((copies p.segments value ≡ 0) × (result ≡ (p, false)))
    ⊎ ((q : LazyReusePool) × (result ≡ (q, true)) × Takes value p q)

-- `Use` takes the value that is asked for, and refuses exactly a value that is not free.
pub use_value_lem : (p : LazyReusePool) (value : ℕ) → IsValid p → Used p value (use_value p value)
unfolding use_value
use_value_lem p value v = elim (Option-cases (use_from value p.segments)) [
  | inl e ↦ inl (use_from_refused value p.segments e, rw (e, use_value))
  | inr (segments, e) ↦ inr (
    record p { segments = segments; remain = p.remain - 1 },
    rw (e, use_value),
    take-Takes value p segments v
        (use_from-some p.first p.last value p.segments segments v.proper v.inside e),
  )
]

-- `q` is `p` with one more free copy of the value.
pub record Gives (value : ℕ) (p q : LazyReusePool) : Type 0 where
  pub valid : IsValid q
  pub held : (v : ℕ) → copies q.segments v ≡ copies p.segments v + point value v
  pub same_first : q.first ≡ p.first
  pub same_last : q.last ≡ p.last
  pub remaining : q.remain ≡ p.remain + 1

abbrev pub Freed : LazyReusePool → ℕ → LazyReusePool × Bool → Type 0
Freed p value result =
    (((value < p.first) ⊎ (p.last < value) ⊎ (1 ≤ copies p.segments value)) × (result ≡ (p, false)))
    ⊎ ((q : LazyReusePool) × (result ≡ (q, true))
        × (p.first ≤ value)
        × (value ≤ p.last)
        × Gives value p q)

free_in_range :
    (p : LazyReusePool) (value : ℕ)
    → IsValid p
    → p.first ≤ value
    → value ≤ p.last
    → Freed p value (free p value)
unfolding free
free_in_range p value v l h = elim (Option-cases (free_from value p.segments)) [
  | inl e ↦ inl (inr (inr (free_from_refused value p.segments e)), ground arith)
  | inr (segments, e) ↦
      let a = free_from-Adds p.first p.last value p.segments segments l h v.proper v.inside e in
      inr (
        record p { segments = segments; remain = p.remain + 1 },
        ground arith,
        l,
        h,
        record {
          valid = record {
            ranged = v.ranged;
            proper = a.proper;
            inside = a.inside;
            counted = omega (arith, v.counted, a.counted);
          };
          held = a.held;
          same_first = refl;
          same_last = refl;
          remaining = refl;
        },
      )
]

-- `Free` refuses only a value out of range or free already; otherwise it adds the value, once.
pub free_lem : (p : LazyReusePool) (value : ℕ) → IsValid p → Freed p value (free p value)
unfolding free
free_lem p value v = elim (Bool-cases (ltb value p.first || ltb p.last value)) [
  | inl e ↦ inl (ground arith, rw (e, free))
  | inr e ↦ free_in_range p value v (ground arith) (ground arith)
]

abbrev pub Reserves : LazyReusePool → ℕ → ℕ → Reserved → Type 0
Reserves p first last result =
    ((contains p first last ≡ false) × (result ≡ bad_range))
    ⊎ ((contains p first last ≡ true)
        × ((q : LazyReusePool) × (result ≡ reserved q)
            × IsValid q
            × (q.first ≡ p.first)
            × (q.last ≡ p.last)
            × ((v : ℕ) → copies q.segments v ≡ outside first last v (copies p.segments v))
            × (p.remain + count_free q.segments ≡ q.remain + count_free p.segments)))

reserve_in_range :
    (p : LazyReusePool) (first last : ℕ)
    → IsValid p
    → first ≤ last
    → contains p first last ≡ true
    → Reserves p first last (reserve p first last)
unfolding reserve
reserve_in_range p first last v h e =
    let (new, left, run, c) =
      loop-Cleared p.first p.last first last h (2 * length p.segments) p.remain p.segments
        (rounds-le first last p.segments) v.proper v.inside (omega (arith, v.counted)) in
    inr (
      e,
      (
        record p { segments = new; remain = left },
        rw (e, run, reserve),
        record {
          ranged = v.ranged;
          proper = c.proper;
          inside = c.inside;
          counted = omega (arith, v.counted, c.counted);
        },
        refl,
        refl,
        c.held,
        c.counted,
      ),
    )

-- `Reserve` always ends; inside the pool's range it clears exactly the values that it names.
pub reserve_lem :
    (p : LazyReusePool) (first last : ℕ) → IsValid p → Reserves p first last (reserve p first last)
unfolding reserve contains
reserve_lem p first last v = elim (Bool-cases (contains p first last)) [
  | inl e ↦ reserve_in_range p first last v (ground arith) e
  | inr e ↦ inl (e, rw (e, reserve))
]

pub new_pool-IsValid :
    (first last : ℕ) (p : LazyReusePool)
    → new_pool first last ≡ some p
    → IsValid p
      × (p.first ≡ first)
      × (p.last ≡ last)
      × ((v : ℕ) → copies p.segments v ≡ (if leb first v && leb v last then 1 else 0))
unfolding new_pool copies covers count_free
new_pool-IsValid first last p e = (ground arith, ground arith, ground arith, λ v. ground arith)
