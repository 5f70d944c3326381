-- ===== src/Qfi.antt =====
-- QoS flow identifiers of a session, of internal/context/sm_context.go and
-- internal/context/sm_context_policy.go. A QoS id is a number here; a flow keeps its profile's id.
pub mod Distinct
pub mod Examples
use smf_nwdaf_ext.Common.{ℕ, ◌%◌, Bool, true, false, Option, none, some, ◌==◌, if◌then◌else◌}
use smf_nwdaf_ext.Rules.{IdGenerator}

pub record QosContext (G : IdGenerator) : Type 0 where
  pub qfi_generator : G.State
  pub qos_data_to_qfi : ℕ → Option ℕ
  pub additional_qos_flows : ℕ → Option ℕ

abbrev set : (ℕ → Option ℕ) → ℕ → Option ℕ → ℕ → Option ℕ
set f k o v = if k == v then o else f v

module _ (G : IdGenerator) where
  -- The fields that `NewSMContext` makes; 1 is the default flow's.
  pub new_qos_context : QosContext G
  new_qos_context = record {
    qfi_generator = G.new_generator 2 63;
    qos_data_to_qfi = λ _. none;
    additional_qos_flows = λ _. none;
  }

  abbrev pub note_qfi : QosContext G → ℕ → Option ℕ → QosContext G × ℕ
  note_qfi c qos_id none = (c, 0)
  note_qfi c qos_id (some new_id) = (
    record c { qos_data_to_qfi = set c.qos_data_to_qfi qos_id (some (new_id % 256)) },
    new_id % 256,
  )

  abbrev pub assign_at : QosContext G → ℕ → Option ℕ → QosContext G × ℕ
  assign_at c qos_id (some qfi) = (c, qfi)
  assign_at c qos_id none =
      note_qfi (record c { qfi_generator = (G.allocate_id c.qfi_generator).0 }) qos_id
        (G.allocate_id c.qfi_generator).1

  -- A result of 0 is a failure.
  pub assign_qfi : QosContext G → ℕ → QosContext G × ℕ
  assign_qfi c qos_id = assign_at c qos_id (c.qos_data_to_qfi qos_id)

  -- A nil profile adds nothing.
  pub add_qos_flow : QosContext G → ℕ → Option ℕ → QosContext G
  add_qos_flow c qfi none = c
  add_qos_flow c qfi (some profile) = record c {
    additional_qos_flows = set c.additional_qos_flows qfi (some profile);
  }

  pub remove_qos_flow : QosContext G → ℕ → QosContext G
  remove_qos_flow c qfi = record c { additional_qos_flows = set c.additional_qos_flows qfi none }

  abbrev pub remove_at : QosContext G → ℕ → Option ℕ → QosContext G
  unfolding remove_qos_flow
  remove_at c qos_id none = c
  remove_at c qos_id (some qfi) =
      remove_qos_flow
        (record c {
          qfi_generator = G.free_id c.qfi_generator qfi;
          qos_data_to_qfi = set c.qos_data_to_qfi qos_id none;
        })
        qfi

  pub remove_qfi : QosContext G → ℕ → QosContext G
  unfolding remove_at
  remove_qfi c qos_id = remove_at c qos_id (c.qos_data_to_qfi qos_id)
