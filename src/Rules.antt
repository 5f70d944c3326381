-- ===== src/Rules.antt =====
-- The packet rules that a UPF holds, of internal/context/upf.go and internal/context/pfcp_rules.go: a
-- table of each kind, whose identifiers come from a generator. The generator is
-- github.com/free5gc/util/idgenerator, which the program only calls: here it is a record of its
-- calls and of what they promise. A rule refers to another by its identifier, where the source has
-- a pointer, and the fields that `AddPDR` and the others leave unset have no place.
pub mod Handling
pub mod Tracking
pub mod Counter
use mathlib.Core.Option
use smf_nwdaf_ext.Common.{
  ℕ, ◌+◌, ◌%◌, ◌≤◌, ◌≡◌, ◌≢◌, Bool, true, false, not, ◌⊎◌, Option, none, some, List, [], ◌∷◌, ◌==◌,
  if◌then◌else◌,
}

-- `is_used`, `low` and `high` are what the promises speak of: the identifiers that are out, and the
-- range.
pub record IdGenerator : Type 1 where
  pub State : Type 0
  pub new_generator : ℕ → ℕ → State
  pub allocate_id : State → State × Option ℕ
  pub free_id : State → ℕ → State
  pub is_used : State → ℕ → Bool
  pub low : State → ℕ
  pub high : State → ℕ
  pub new_lem :
      (a b : ℕ)
      → ((v : ℕ) → is_used (new_generator a b) v ≡ false)
        × (low (new_generator a b) ≡ a)
        × (high (new_generator a b) ≡ b)
  pub allocate_lem :
      (g : State)
      → (((allocate_id g).1 ≡ none) × ((v : ℕ) → is_used (allocate_id g).0 v ≡ is_used g v))
        ⊎ ((id : ℕ) × ((allocate_id g).1 ≡ some id)
            × (low g ≤ id)
            × (id ≤ high g)
            × (is_used g id ≡ false)
            × (is_used (allocate_id g).0 id ≡ true)
            × ((v : ℕ) → v ≢ id → is_used (allocate_id g).0 v ≡ is_used g v))
  pub allocate_range :
      (g : State) → (low (allocate_id g).0 ≡ low g) × (high (allocate_id g).0 ≡ high g)
  pub free_lem :
      (g : State) (id : ℕ)
      → (is_used (free_id g id) id ≡ false)
        × ((v : ℕ) → v ≢ id → is_used (free_id g id) v ≡ is_used g v)
  pub free_range :
      (g : State) (id : ℕ) → (low (free_id g id) ≡ low g) × (high (free_id g id) ≡ high g)

-- The generator of one kind and its `sync.Map`, from the identifier to the rule.
pub record Table (G : IdGenerator) (R : Type 0) : Type 0 where
  pub ids : G.State
  pub pool : ℕ → Option R

-- An identifier cut to the width of its field; `none` is the generator's error.
abbrev pub take_id : {R : Type 0} (G : IdGenerator) → ℕ → Table G R → Table G R × Option ℕ
take_id G width t = (
  record t { ids = (G.allocate_id t.ids).0 },
  Option.map (λ id. id % width) (G.allocate_id t.ids).1,
)

abbrev pub store : {R : Type 0} (G : IdGenerator) → ℕ → R → Table G R → Table G R
store G id r t = record t { pool = λ v. if id == v then some r else t.pool v }

abbrev pub remove : {R : Type 0} (G : IdGenerator) → ℕ → Table G R → Table G R
remove G id t = record t {
  ids = G.free_id t.ids id;
  pool = λ v. if id == v then none else t.pool v;
}

pub record Pdr : Type 0 where
  pub pdr_id : ℕ
  pub far : ℕ

pub record Far : Type 0 where
  pub far_id : ℕ

pub record Bar : Type 0 where
  pub bar_id : ℕ

pub record Qer : Type 0 where
  pub qer_id : ℕ

pub data MeasureMethod : Type 0 where
  method_vol method_time : MeasureMethod

pub record MeasurementInformation : Type 0 where
  pub mnop : Bool
  pub mbqe : Bool

pub record ReportingTriggers : Type 0 where
  pub perio : Bool
  pub volth : Bool
  pub volqu : Bool
  pub start : Bool

pub record Urr : Type 0 where
  pub urr_id : ℕ
  pub measure_method : MeasureMethod
  pub reporting_trigger : ReportingTriggers
  pub measurement_period : ℕ
  pub measurement_information : MeasurementInformation
  pub volume_threshold : ℕ
  pub volume_quota : ℕ

abbrev pub UrrOpt : Type 0
UrrOpt = Urr → Urr

pub new_measure_information : Bool → Bool → UrrOpt
new_measure_information is_measure_pkt is_measure_before_qos urr = record urr {
  measurement_information = record { mnop = is_measure_pkt; mbqe = is_measure_before_qos };
}

pub new_measurement_period : ℕ → UrrOpt
new_measurement_period time urr = record urr {
  reporting_trigger = record (urr.reporting_trigger) { perio = true };
  measurement_period = time;
}

pub new_volume_threshold : ℕ → UrrOpt
new_volume_threshold threshold urr = record urr {
  reporting_trigger = record (urr.reporting_trigger) { volth = true };
  volume_threshold = threshold;
}

pub new_volume_quota : ℕ → UrrOpt
new_volume_quota quota urr = record urr {
  reporting_trigger = record (urr.reporting_trigger) { volqu = true };
  volume_quota = quota;
}

pub set_start_of_sdf_trigger : UrrOpt
set_start_of_sdf_trigger urr = record urr {
  reporting_trigger = record (urr.reporting_trigger) { start = true };
}

-- The rules of a `UPF`; `associated` is `IsAssociated() == nil`.
pub record RuleTables (G : IdGenerator) : Type 0 where
  pub associated : Bool
  pub pdrs : Table G Pdr
  pub fars : Table G Far
  pub bars : Table G Bar
  pub qers : Table G Qer
  pub urrs : Table G Urr

abbrev empty_table : {R : Type 0} (G : IdGenerator) → ℕ → Table G R
empty_table G max = record { ids = G.new_generator 1 max; pool = λ _. none }

-- The tables of `NewUPF`, which is not associated.
unfoldable pub new_rule_tables : (G : IdGenerator) → RuleTables G
new_rule_tables G = record {
  associated = false;
  pdrs = empty_table G 65535;
  fars = empty_table G 4294967295;
  bars = empty_table G 255;
  qers = empty_table G 4294967295;
  urrs = empty_table G 4294967295;
}
