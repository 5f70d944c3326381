-- ===== src/Qfi/Examples.antt =====
-- A session that assigns two identifiers and gives one back.
use smf_nwdaf_ext.Common.{some, List, [], ◌∷◌}
use smf_nwdaf_ext.Rules.Counter.{counting}
use smf_nwdaf_ext.Qfi.{new_qos_context}
use smf_nwdaf_ext.Qfi.Distinct.{
  Change, assigning, removing, flowing, IsConsistent, change_all, change_all-IsConsistent,
}

abbrev changes : List Change
changes = assigning 5 ∷ assigning 6 ∷ flowing 2 (some 5) ∷ removing 5 ∷ assigning 5 ∷ []

change_all-IsConsistent_example :
    IsConsistent counting (change_all counting changes (new_qos_context counting))
change_all-IsConsistent_example = change_all-IsConsistent counting changes
