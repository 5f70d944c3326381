-- ===== src/UrrTable.antt =====
-- The table of URRs that a session keeps, of internal/context/pfcp_rules.go: for each UPF and URR the
-- state of the rule and the PDRs that refer to it. A UPF's id is a number here, and a PDR names its
-- URRs by their ids, where the source has pointers.
pub mod Lookups
pub mod Counting
pub mod Histories
pub mod Unreleased
pub mod Examples
use smf_nwdaf_ext.Common.{
  ℕ, zero, suc, Bool, true, false, ◌&&◌, Option, none, some, List, [], ◌∷◌, ◌++◌, ◌==◌,
  if◌then◌else◌,
}
use smf_nwdaf_ext.Rules.{Urr}

pub data RuleState : Type 0 where
  rule_initial rule_create rule_update rule_remove rule_query : RuleState

-- A Go `int`.
pub data ℤ : Type 0 where
  pos negsuc : ℕ → ℤ

abbrev pub increment : ℤ → ℤ
increment (pos n) = pos (suc n)
increment (negsuc zero) = pos 0
increment (negsuc (suc n)) = negsuc n

abbrev pub decrement : ℤ → ℤ
decrement (pos zero) = negsuc 0
decrement (pos (suc n)) = pos n
decrement (negsuc n) = negsuc (suc n)

abbrev pub at_most_zero : ℤ → Bool
at_most_zero (pos zero) = true
at_most_zero (pos (suc n)) = false
at_most_zero (negsuc n) = true

pub record UrrEntry : Type 0 where
  pub rule : Urr
  pub state : RuleState
  pub ref_count : ℤ
  pub pdr_ids : List ℕ

-- `none` is a UPF without a map of its own.
abbrev pub UrrTable : Type 0
UrrTable = ℕ → Option (ℕ → Option UrrEntry)

abbrev pub in_entries : Option (ℕ → Option UrrEntry) → ℕ → Option UrrEntry
in_entries none urr = none
in_entries (some entries) urr = entries urr

-- `c.UrrTable[upfId][urrID]`, which is nil in a nil map.
abbrev pub get_entry : UrrTable → ℕ → ℕ → Option UrrEntry
get_entry table upf urr = in_entries (table upf) urr

abbrev pub put_entry : UrrTable → ℕ → ℕ → Option UrrEntry → UrrTable
put_entry table upf urr e v =
    if upf == v then some (λ u. if urr == u then e else in_entries (table upf) u) else table v

abbrev pub new_entry : Urr → UrrEntry
new_entry urr = record { rule = urr; state = rule_initial; ref_count = pos 0; pdr_ids = [] }

-- A rule that is registered already is returned as it stands.
pub register_urr : UrrTable → ℕ → Urr → UrrTable × Urr
register_urr table upf urr = elim (get_entry table upf urr.urr_id) [
  | some entry ↦ (table, entry.rule)
  | none ↦ (put_entry table upf urr.urr_id (some (new_entry urr)), urr)
]

pub get_urr_rule : UrrTable → ℕ → ℕ → Option Urr
get_urr_rule table upf urr = elim (get_entry table upf urr) [
  | none ↦ none
  | some entry ↦ some entry.rule
]

pub get_urr_state : UrrTable → ℕ → ℕ → RuleState
get_urr_state table upf urr = elim (get_entry table upf urr) [
  | none ↦ rule_initial
  | some entry ↦ entry.state
]

-- A PDR with its URRs.
pub record Pdr : Type 0 where
  pub pdr_id : ℕ
  pub urrs : List ℕ

abbrev pub refer : ℕ → UrrEntry → UrrEntry
refer pdr entry = record entry {
  ref_count = increment entry.ref_count;
  pdr_ids = entry.pdr_ids ++ (pdr ∷ []);
}

abbrev pub update_at : UrrTable → ℕ → ℕ → (UrrEntry → UrrEntry) → Option UrrEntry → UrrTable
update_at table upf urr f none = table
update_at table upf urr f (some entry) = put_entry table upf urr (some (f entry))

-- A URR without an entry is only logged.
abbrev pub update_entry : UrrTable → ℕ → ℕ → (UrrEntry → UrrEntry) → UrrTable
update_entry table upf urr f = update_at table upf urr f (get_entry table upf urr)

pub set_urr_state : UrrTable → ℕ → ℕ → RuleState → UrrTable
set_urr_state table upf urr state =
    update_entry table upf urr (λ entry. record entry { state = state })

pub append_loop : UrrTable → ℕ → ℕ → List ℕ → UrrTable
append_loop table upf pdr [] = table
append_loop table upf pdr (urr ∷ urrs) =
    append_loop (update_entry table upf urr (refer pdr)) upf pdr urrs

pub pdr_append_urrs : UrrTable → ℕ → Pdr → List ℕ → UrrTable × Pdr
unfolding append_loop
pdr_append_urrs table upf pdr urrs =
    (append_loop table upf pdr.pdr_id urrs, record pdr { urrs = pdr.urrs ++ urrs })

abbrev remove_first : ℕ → List ℕ → List ℕ
remove_first pdr [] = []
remove_first pdr (id ∷ ids) = if id == pdr then ids else id ∷ remove_first pdr ids

abbrev pub unrefer : ℕ → UrrEntry → UrrEntry
unrefer pdr entry =
    let count = decrement entry.ref_count in
    record entry {
      ref_count = count;
      pdr_ids = remove_first pdr entry.pdr_ids;
      state = if at_most_zero count then rule_remove else entry.state;
    }

pub release_loop : UrrTable → ℕ → ℕ → List ℕ → UrrTable
release_loop table upf pdr [] = table
release_loop table upf pdr (urr ∷ urrs) =
    release_loop (update_entry table upf urr (unrefer pdr)) upf pdr urrs

-- The PDR keeps its list of URRs; `none` is a nil PDR.
pub pdr_release_urrs : UrrTable → ℕ → Option Pdr → UrrTable
unfolding release_loop
pdr_release_urrs table upf none = table
pdr_release_urrs table upf (some pdr) = release_loop table upf pdr.pdr_id pdr.urrs

pub delete_from_urr_table : UrrTable → ℕ → ℕ → UrrTable
delete_from_urr_table table upf urr = elim (table upf) [
  | none ↦ table
  | some entries ↦ put_entry table upf urr none
]
