-- ===== src/Rules/Handling/Keeping.antt =====
-- What adding and removing rules keeps.
use smf_nwdaf_ext.Common.{ℕ, ◌≡◌, refl, sym, Option, none, some, arith, if_both, subst}
use smf_nwdaf_ext.Rules.{
  IdGenerator, Table, take_id, Pdr, Far, Bar, Qer, RuleTables, new_rule_tables,
}
use smf_nwdaf_ext.Rules.Handling.{
  pdr_id, far_id, bar_id, qer_id, store_far, store_pdr, store_bar, store_qer, pdr_with_far, add_pdr,
  add_far, add_bar, add_qer,
}
use smf_nwdaf_ext.Rules.Tracking.{Tracked, Fresh, take_id-Tracked, take_id-some, store-Tracked}

module _ (G : IdGenerator) where
  pub record AllTracked (upf : RuleTables G) : Type 0 where
    pub pdrs : Tracked G (λ pdr. pdr.pdr_id) 65535 upf.pdrs
    pub fars : Tracked G (λ far. far.far_id) 4294967295 upf.fars
    pub bars : Tracked G (λ bar. bar.bar_id) 255 upf.bars
    pub qers : Tracked G (λ qer. qer.qer_id) 4294967295 upf.qers

  pub new_rule_tables-AllTracked : AllTracked (new_rule_tables G)
  unfolding new_rule_tables
  new_rule_tables-AllTracked = record {
    pdrs = empty 65535 (λ pdr. pdr.pdr_id);
    fars = empty 4294967295 (λ far. far.far_id);
    bars = empty 255 (λ bar. bar.bar_id);
    qers = empty 4294967295 (λ qer. qer.qer_id);
  }
    where
      empty :
          {R : Type 0} (max : ℕ) (key : R → ℕ)
          → Tracked G key max (record { ids = G.new_generator 1 max; pool = λ _. none })
      empty max key = record {
        keyed = λ v r h. absurd (ground arith);
        lowest = (G.new_lem 1 max).1;
        highest = (G.new_lem 1 max).2;
      }

  abbrev pub Keeps : (R : Type 0) → RuleTables G × Option R → Type 0
  Keeps R r = AllTracked r.0

  store_far-AllTracked :
      (t : Table G Far) (upf : RuleTables G) (o : Option ℕ)
      → AllTracked upf
      → ((id : ℕ) → o ≡ some id → Fresh G (λ r. r.far_id) 4294967295 t upf.fars id)
      → Keeps Far (store_far G (upf, o))
  store_far-AllTracked t upf none k f = k
  store_far-AllTracked t upf (some id) k f = record {
    pdrs = k.pdrs;
    fars =
        store-Tracked G (λ r. r.far_id) 4294967295 id (record { far_id = id }) t upf.fars
          (f id refl) k.fars refl;
    bars = k.bars;
    qers = k.qers;
  }

  pub add_far-AllTracked : (upf : RuleTables G) → AllTracked upf → Keeps Far (add_far G upf)
  unfolding add_far far_id
  add_far-AllTracked upf k =
      if_both (Keeps Far) upf.associated
        (if_both (λ r. Keeps Far (store_far G r)) upf.associated
          (store_far-AllTracked upf.fars (record upf { fars = (take_id G 4294967296 upf.fars).0 })
            (take_id G 4294967296 upf.fars).1
            (record {
              pdrs = k.pdrs;
              fars =
                  take_id-Tracked G (λ r. r.far_id) 4294967295 4294967296 upf.fars k.fars
                    (omega arith);
              bars = k.bars;
              qers = k.qers;
            })
            (take_id-some G (λ r. r.far_id) 4294967295 4294967296 upf.fars k.fars (omega arith)))
          k)
        k

  store_bar-AllTracked :
      (t : Table G Bar) (upf : RuleTables G) (o : Option ℕ)
      → AllTracked upf
      → ((id : ℕ) → o ≡ some id → Fresh G (λ r. r.bar_id) 255 t upf.bars id)
      → Keeps Bar (store_bar G (upf, o))
  store_bar-AllTracked t upf none k f = k
  store_bar-AllTracked t upf (some id) k f = record {
    pdrs = k.pdrs;
    fars = k.fars;
    bars =
        store-Tracked G (λ r. r.bar_id) 255 id (record { bar_id = id }) t upf.bars (f id refl)
          k.bars refl;
    qers = k.qers;
  }

  pub add_bar-AllTracked : (upf : RuleTables G) → AllTracked upf → Keeps Bar (add_bar G upf)
  unfolding add_bar bar_id
  add_bar-AllTracked upf k =
      if_both (Keeps Bar) upf.associated
        (if_both (λ r. Keeps Bar (store_bar G r)) upf.associated
          (store_bar-AllTracked upf.bars (record upf { bars = (take_id G 256 upf.bars).0 })
            (take_id G 256 upf.bars).1
            (record {
              pdrs = k.pdrs;
              fars = k.fars;
              bars = take_id-Tracked G (λ r. r.bar_id) 255 256 upf.bars k.bars (omega arith);
              qers = k.qers;
            })
            (take_id-some G (λ r. r.bar_id) 255 256 upf.bars k.bars (omega arith)))
          k)
        k

  store_qer-AllTracked :
      (t : Table G Qer) (upf : RuleTables G) (o : Option ℕ)
      → AllTracked upf
      → ((id : ℕ) → o ≡ some id → Fresh G (λ r. r.qer_id) 4294967295 t upf.qers id)
      → Keeps Qer (store_qer G (upf, o))
  store_qer-AllTracked t upf none k f = k
  store_qer-AllTracked t upf (some id) k f = record {
    pdrs = k.pdrs;
    fars = k.fars;
    bars = k.bars;
    qers =
        store-Tracked G (λ r. r.qer_id) 4294967295 id (record { qer_id = id }) t upf.qers
          (f id refl) k.qers refl;
  }

  pub add_qer-AllTracked : (upf : RuleTables G) → AllTracked upf → Keeps Qer (add_qer G upf)
  unfolding add_qer qer_id
  add_qer-AllTracked upf k =
      if_both (Keeps Qer) upf.associated
        (if_both (λ r. Keeps Qer (store_qer G r)) upf.associated
          (store_qer-AllTracked upf.qers (record upf { qers = (take_id G 4294967296 upf.qers).0 })
            (take_id G 4294967296 upf.qers).1
            (record {
              pdrs = k.pdrs;
              fars = k.fars;
              bars = k.bars;
              qers =
                  take_id-Tracked G (λ r. r.qer_id) 4294967295 4294967296 upf.qers k.qers
                    (omega arith);
            })
            (take_id-some G (λ r. r.qer_id) 4294967295 4294967296 upf.qers k.qers (omega arith)))
          k)
        k

  -- The PDR is stored where the FAR, which another table keeps, was made.
  store_pdr-AllTracked :
      (t : Table G Pdr) (id : ℕ) (upf : RuleTables G) (o : Option Far)
      → AllTracked upf
      → Fresh G (λ r. r.pdr_id) 65535 t upf.pdrs id
      → Keeps Pdr (store_pdr G id (upf, o))
  store_pdr-AllTracked t id upf none k f = k
  store_pdr-AllTracked t id upf (some far) k f = record {
    pdrs =
        store-Tracked G (λ r. r.pdr_id) 65535 id (record { pdr_id = id; far = far.far_id }) t
          upf.pdrs f k.pdrs refl;
    fars = k.fars;
    bars = k.bars;
    qers = k.qers;
  }

  add_far-pdrs : (upf : RuleTables G) → (add_far G upf).0.pdrs ≡ upf.pdrs
  unfolding add_far far_id
  add_far-pdrs upf =
      if_both Same upf.associated
        (if_both (λ r. Same (store_far G r)) upf.associated
          (store_far_pdrs (record upf { fars = (take_id G 4294967296 upf.fars).0 })
            (take_id G 4294967296 upf.fars).1)
          refl)
        refl
    where
      Same : RuleTables G × Option Far → Type 0
      Same r = r.0.pdrs ≡ upf.pdrs

      store_far_pdrs :
          (upf : RuleTables G) (o : Option ℕ) → (store_far G (upf, o)).0.pdrs ≡ upf.pdrs
      store_far_pdrs upf none = refl
      store_far_pdrs upf (some id) = refl

  pdr_with_far-AllTracked :
      (t : Table G Pdr) (upf : RuleTables G) (o : Option ℕ)
      → AllTracked upf
      → ((id : ℕ) → o ≡ some id → Fresh G (λ r. r.pdr_id) 65535 t upf.pdrs id)
      → Keeps Pdr (pdr_with_far G (upf, o))
  unfolding pdr_with_far
  pdr_with_far-AllTracked t upf none k f = k
  pdr_with_far-AllTracked t upf (some id) k f =
      store_pdr-AllTracked t id (add_far G upf).0 (add_far G upf).1 (add_far-AllTracked upf k)
        (subst (λ s. Fresh G (λ r. r.pdr_id) 65535 t s id) (sym (add_far-pdrs upf)) (f id refl))

  pub add_pdr-AllTracked : (upf : RuleTables G) → AllTracked upf → Keeps Pdr (add_pdr G upf)
  unfolding add_pdr pdr_id
  add_pdr-AllTracked upf k =
      if_both (Keeps Pdr) upf.associated
        (if_both (λ r. Keeps Pdr (pdr_with_far G r)) upf.associated
          (pdr_with_far-AllTracked upf.pdrs (record upf { pdrs = (take_id G 65536 upf.pdrs).0 })
            (take_id G 65536 upf.pdrs).1
            (record {
              pdrs = take_id-Tracked G (λ r. r.pdr_id) 65535 65536 upf.pdrs k.pdrs (omega arith);
              fars = k.fars;
              bars = k.bars;
              qers = k.qers;
            })
            (take_id-some G (λ r. r.pdr_id) 65535 65536 upf.pdrs k.pdrs (omega arith)))
          k)
        k
