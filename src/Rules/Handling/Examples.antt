-- ===== src/Rules/Handling/Examples.antt =====
-- Tables over the generator that counts up.
use smf_nwdaf_ext.Common.{ℕ, ◌≡◌, refl, true, false, none, some, List, [], ◌∷◌, arith}
use smf_nwdaf_ext.Rules.Counter.{Counter, counting}
use smf_nwdaf_ext.Rules.{Pdr, RuleTables, new_rule_tables}
use smf_nwdaf_ext.Rules.Handling.{add_pdr, remove_pdr}
use smf_nwdaf_ext.Rules.Handling.Keeping.{AllTracked}
use smf_nwdaf_ext.Rules.Handling.Histories.{
  Call, associating, adding_pdr, adding_qer, removing_pdr, run_all, run_all-AllTracked,
}
use smf_nwdaf_ext.Rules.Handling.Adding.{
  AddPdrOutcome, add_pdr_lem, remove_pdr-add_pdr, add_pdr_leaks,
}

abbrev calls : List Call
calls =
    associating true
    ∷ adding_pdr
    ∷ adding_qer
    ∷ adding_pdr
    ∷ removing_pdr (record { pdr_id = 1; far = 1 })
    ∷ []

abbrev empty_upf : RuleTables counting
empty_upf = new_rule_tables counting

run_all-AllTracked_example : AllTracked counting (run_all counting calls (new_rule_tables counting))
run_all-AllTracked_example = run_all-AllTracked counting calls

abbrev ready : RuleTables counting
ready = run_all counting (associating true ∷ []) (new_rule_tables counting)

ready-AllTracked : AllTracked counting ready
ready-AllTracked = run_all-AllTracked counting (associating true ∷ [])

add_pdr_lem_example : AddPdrOutcome counting ready (add_pdr counting ready)
add_pdr_lem_example = add_pdr_lem counting ready ready-AllTracked

abbrev first_pdr : Pdr
first_pdr = record { pdr_id = 1; far = 1 }

add_pdr-first : (add_pdr counting ready).1 ≡ some first_pdr
unfolding add_pdr new_rule_tables
add_pdr-first = refl

remove_pdr-add_pdr_example :
    ((remove_pdr counting (add_pdr counting ready).0 first_pdr).1 ≡ true)
    × ((v : ℕ)
        → (remove_pdr counting (add_pdr counting ready).0 first_pdr).0.pdrs.pool v
          ≡ ready.pdrs.pool v)
    × (counting.is_used (remove_pdr counting (add_pdr counting ready).0 first_pdr).0.pdrs.ids 1
        ≡ false)
remove_pdr-add_pdr_example =
    remove_pdr-add_pdr counting ready first_pdr ready-AllTracked add_pdr-first

abbrev spent : Counter
spent = record { lowest = 1; highest = 4294967295; count = 4294967295; out = λ _. true }

-- Every FAR identifier is out.
abbrev drained : RuleTables counting
drained = record ready { fars = record { ids = spent; pool = λ _. none } }

drained-AllTracked : AllTracked counting drained
drained-AllTracked = record {
  pdrs = ready-AllTracked.pdrs;
  fars = record { keyed = λ v r h. absurd (ground arith); lowest = refl; highest = refl };
  bars = ready-AllTracked.bars;
  qers = ready-AllTracked.qers;
}

ready_first : (counting.allocate_id ready.pdrs.ids).1 ≡ some 1
unfolding new_rule_tables
ready_first = refl

add_pdr_leaks_example :
    ((add_pdr counting drained).1 ≡ none)
    × ((add_pdr counting drained).0.pdrs.pool 1 ≡ none)
    × (counting.is_used drained.pdrs.ids 1 ≡ false)
    × (counting.is_used (add_pdr counting drained).0.pdrs.ids 1 ≡ true)
add_pdr_leaks_example = add_pdr_leaks counting drained 1 drained-AllTracked refl ready_first refl
