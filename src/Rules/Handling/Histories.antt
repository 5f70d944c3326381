-- ===== src/Rules/Handling/Histories.antt =====
-- Any history of a UPF's rules, from `NewUPF` on.
use smf_nwdaf_ext.Common.{ℕ, Bool, Option, none, some, List, [], ◌∷◌, ◌==◌, if_both}
use smf_nwdaf_ext.Rules.{
  IdGenerator, take_id, Pdr, Far, Bar, Qer, Urr, UrrOpt, RuleTables, new_rule_tables,
}
use smf_nwdaf_ext.Rules.Handling.{
  urr_id, store_urr, add_pdr, add_far, add_bar, add_qer, add_urr, remove_pdr, remove_far,
  remove_bar, remove_qer, remove_urr,
}
use smf_nwdaf_ext.Rules.Tracking.{remove-Tracked}
use smf_nwdaf_ext.Rules.Handling.Keeping.{
  AllTracked, new_rule_tables-AllTracked, add_pdr-AllTracked, add_far-AllTracked,
  add_bar-AllTracked, add_qer-AllTracked,
}

-- One call on a UPF, or a change of its association.
pub data Call : Type 0 where
  associating : Bool → Call
  adding_pdr adding_far adding_bar adding_qer : Call
  adding_urr : ℕ → List UrrOpt → Call
  removing_pdr : Pdr → Call
  removing_far : Far → Call
  removing_bar : Bar → Call
  removing_qer : Qer → Call
  removing_urr : Urr → Call

module _ (G : IdGenerator) where
  abbrev pub run : Call → RuleTables G → RuleTables G
  run (associating b) upf = record upf { associated = b }
  run adding_pdr upf = (add_pdr G upf).0
  run adding_far upf = (add_far G upf).0
  run adding_bar upf = (add_bar G upf).0
  run adding_qer upf = (add_qer G upf).0
  run (adding_urr id opts) upf = (add_urr G id opts upf).0
  run (removing_pdr r) upf = (remove_pdr G upf r).0
  run (removing_far r) upf = (remove_far G upf r).0
  run (removing_bar r) upf = (remove_bar G upf r).0
  run (removing_qer r) upf = (remove_qer G upf r).0
  run (removing_urr r) upf = (remove_urr G upf r).0

  abbrev pub run_all : List Call → RuleTables G → RuleTables G
  run_all [] upf = upf
  run_all (call ∷ calls) upf = run_all calls (run call upf)

  -- The URRs are no part of it.
  abbrev Kept : RuleTables G × Option Urr → Type 0
  Kept r = AllTracked G r.0

  store_urr-Kept :
      (opts : List UrrOpt) (upf : RuleTables G) (o : Option ℕ)
      → AllTracked G upf
      → Kept (store_urr G opts (upf, o))
  unfolding store_urr
  store_urr-Kept opts upf none k = k
  store_urr-Kept opts upf (some id) k = record {
    pdrs = k.pdrs;
    fars = k.fars;
    bars = k.bars;
    qers = k.qers;
  }

  add_urr-Kept :
      (id : ℕ) (opts : List UrrOpt) (upf : RuleTables G)
      → AllTracked G upf
      → Kept (add_urr G id opts upf)
  unfolding add_urr urr_id store_urr
  add_urr-Kept id opts upf k =
      if_both Kept upf.associated
        (if_both (λ r. Kept (store_urr G opts r)) (id == 0)
          (store_urr-Kept opts (record upf { urrs = (take_id G 4294967296 upf.urrs).0 })
            (take_id G 4294967296 upf.urrs).1
            (record { pdrs = k.pdrs; fars = k.fars; bars = k.bars; qers = k.qers }))
          (store_urr-Kept opts upf (some id) k))
        k

  run-AllTracked :
      (call : Call) (upf : RuleTables G) → AllTracked G upf → AllTracked G (run call upf)
  unfolding remove_pdr remove_far remove_bar remove_qer remove_urr
  run-AllTracked (associating b) upf k = record {
    pdrs = k.pdrs;
    fars = k.fars;
    bars = k.bars;
    qers = k.qers;
  }
  run-AllTracked adding_pdr upf k = add_pdr-AllTracked G upf k
  run-AllTracked adding_far upf k = add_far-AllTracked G upf k
  run-AllTracked adding_bar upf k = add_bar-AllTracked G upf k
  run-AllTracked adding_qer upf k = add_qer-AllTracked G upf k
  run-AllTracked (adding_urr id opts) upf k = add_urr-Kept id opts upf k
  run-AllTracked (removing_pdr r) upf k =
      if_both (λ (s : RuleTables G × Bool). AllTracked G s.0) upf.associated
        (record {
          pdrs = remove-Tracked G (λ r. r.pdr_id) 65535 r.pdr_id upf.pdrs k.pdrs;
          fars = k.fars;
          bars = k.bars;
          qers = k.qers;
        })
        k
  run-AllTracked (removing_far r) upf k =
      if_both (λ (s : RuleTables G × Bool). AllTracked G s.0) upf.associated
        (record {
          pdrs = k.pdrs;
          fars = remove-Tracked G (λ r. r.far_id) 4294967295 r.far_id upf.fars k.fars;
          bars = k.bars;
          qers = k.qers;
        })
        k
  run-AllTracked (removing_bar r) upf k =
      if_both (λ (s : RuleTables G × Bool). AllTracked G s.0) upf.associated
        (record {
          pdrs = k.pdrs;
          fars = k.fars;
          bars = remove-Tracked G (λ r. r.bar_id) 255 r.bar_id upf.bars k.bars;
          qers = k.qers;
        })
        k
  run-AllTracked (removing_qer r) upf k =
      if_both (λ (s : RuleTables G × Bool). AllTracked G s.0) upf.associated
        (record {
          pdrs = k.pdrs;
          fars = k.fars;
          bars = k.bars;
          qers = remove-Tracked G (λ r. r.qer_id) 4294967295 r.qer_id upf.qers k.qers;
        })
        k
  run-AllTracked (removing_urr r) upf k =
      if_both (λ (s : RuleTables G × Bool). AllTracked G s.0) upf.associated
        (record { pdrs = k.pdrs; fars = k.fars; bars = k.bars; qers = k.qers }) k

  run_all-kept :
      (calls : List Call) (upf : RuleTables G) → AllTracked G upf → AllTracked G (run_all calls upf)
  run_all-kept [] upf k = k
  run_all-kept (call ∷ calls) upf k = run_all-kept calls (run call upf) (run-AllTracked call upf k)

  -- Given a generator that keeps its promises, after any calls on a new UPF, in any order and with any
  -- arguments, each PDR, FAR, BAR and QER stands under its own identifier, which is at least 1, fits
  -- the 16, 32, 8 or 32 bits of its kind, and is one that the generator has out.
  pub run_all-AllTracked : (calls : List Call) → AllTracked G (run_all calls (new_rule_tables G))
  run_all-AllTracked calls = run_all-kept calls (new_rule_tables G) (new_rule_tables-AllTracked G)
