-- ===== src/UrrTable/Unreleased.antt =====
-- A session that never calls `PDRReleaseURRs`, as the program does not: the marks that the deactivation
-- of a tunnel in internal/context/datapath.go looks for.
use mathlib.Core.Option
use smf_nwdaf_ext.Common.{ℕ, ◌≡◌, ◌≢◌, true, Option, none, some, List}
use smf_nwdaf_ext.Rules.{Urr}
use smf_nwdaf_ext.UrrTable.{
  RuleState, rule_remove, UrrEntry, UrrTable, register_urr, Pdr, pdr_append_urrs, set_urr_state,
  delete_from_urr_table,
}

-- The calls that the program makes: rules are registered, marked to be created, updated or queried,
-- given to PDRs and deleted, in any order.
pub data Running : UrrTable → Type 0 where
  no_rules : Running (λ _. none)
  registers : (t : UrrTable) (upf : ℕ) (urr : Urr) → Running t → Running (register_urr t upf urr).0
  marks :
      (t : UrrTable) (upf urr : ℕ) (s : RuleState)
      → s ≢ rule_remove
      → Running t
      → Running (set_urr_state t upf urr s)
  appends :
      (t : UrrTable) (upf : ℕ) (pdr : Pdr) (urrs : List ℕ)
      → Running t
      → Running (pdr_append_urrs t upf pdr urrs).0
  deletes : (t : UrrTable) (upf urr : ℕ) → Running t → Running (delete_from_urr_table t upf urr)

-- Not marked to be removed.
abbrev Stays : Option UrrEntry → Type 0
Stays none = true ≡ true
Stays (some e) = e.state ≢ rule_remove
