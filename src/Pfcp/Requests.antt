-- ===== src/Pfcp/Requests.antt =====
-- The requests that establish and modify a PFCP session. The rules stand in a store, since a rule is
-- one object that several lists can name. The fields for the rules of one kind (`CreatePDR`,
-- `UpdatePDR`, `RemovePDR`) are one list of orders here, in the order of the rules. Go ranges over a
-- map in any order, so the order of QERs and URRs is a parameter.
pub mod Orders
pub mod Repeats
pub mod Delivery
pub mod Examples
use smf_nwdaf_ext.Common.{
  ℕ, Bool, true, false, not, Option, none, some, List, [], ◌∷◌, ◌++◌, ◌==◌, if◌then◌else◌,
}
use smf_nwdaf_ext.Net.{Ip}
use smf_nwdaf_ext.UrrTable.{
  RuleState, rule_initial, rule_create, rule_update, rule_remove, rule_query, UrrTable,
  get_urr_state, set_urr_state,
}
use smf_nwdaf_ext.Pfcp.{Pdr, Far, Bar, Qer, Urr}
use smf_nwdaf_ext.Pfcp.Conversion.{
  PdrIe, FarIe, QerIe, UrrIe, pdr_to_create_pdr, pdr_to_update_pdr, far_to_create_far,
  far_to_update_far, bar_to_create_bar, qer_to_create_qer, urr_to_create_urr, urr_to_update_urr,
}

pub data Order (A : Type 0) : Type 0 where
  create update : A → Order A
  remove query : ℕ → Order A

pub record FSeid : Type 0 where
  pub v4 : Bool
  pub v6 : Bool
  pub seid : ℕ
  pub ipv4_address : Option Ip

pub record Request : Type 0 where
  pub cp_fseid : FSeid
  pub pdrs : List (Order PdrIe)
  pub fars : List (Order FarIe)
  pub bars : List (Order ℕ)
  pub qers : List (Order QerIe)
  pub urrs : List (Order UrrIe)

-- The rules in memory, and the table of the session's URRs.
pub record Memory : Type 0 where
  pub pdrs : ℕ → Pdr
  pub fars : ℕ → Far
  pub bars : ℕ → Bar
  pub qers : ℕ → Qer
  pub urr_table : UrrTable

abbrev pub update_at : {R : Type 0} → (ℕ → R) → ℕ → (R → R) → ℕ → R
update_at h k f j = if k == j then f (h j) else h j

-- A loop over the rules of a list: what each sends, and what is left of it.
abbrev pub send_each :
    {R A : Type 0} → (R → List (Order A)) → (R → R) → (ℕ → R) → List ℕ → (ℕ → R) × List (Order A)
send_each emit after h [] = (h, [])
send_each emit after h (k ∷ ks) =
    let (h', orders) = send_each emit after (update_at h k after) ks in (h', emit (h k) ++ orders)

abbrev pub when_initial : {A : Type 0} → RuleState → A → List (Order A)
when_initial rule_initial ie = create ie ∷ []
when_initial rule_create ie = []
when_initial rule_update ie = []
when_initial rule_remove ie = []
when_initial rule_query ie = []

-- The switch of a modification, at a state, the two elements and the identifier.
abbrev pub by_state : {A : Type 0} → RuleState → A → A → ℕ → List (Order A)
by_state rule_initial new changed id = create new ∷ []
by_state rule_create new changed id = []
by_state rule_update new changed id = update changed ∷ []
by_state rule_remove new changed id = remove id ∷ []
by_state rule_query new changed id = []

abbrev pub pdr_sent : Pdr → Pdr
pdr_sent pdr = record pdr { state = rule_create }

abbrev pub far_sent : Far → Far
far_sent far = record far { state = rule_create }

abbrev pub bar_sent : Bar → Bar
bar_sent bar = record bar { state = rule_create }

abbrev pub qer_sent : Qer → Qer
qer_sent qer = record qer { state = rule_create }

abbrev pub pdr_order : Pdr → List (Order PdrIe)
pdr_order pdr = by_state pdr.state (pdr_to_create_pdr pdr) (pdr_to_update_pdr pdr) pdr.pdr_id

abbrev pub far_order : Far → List (Order FarIe)
far_order far = by_state far.state (far_to_create_far far) (far_to_update_far far) far.far_id

abbrev pub bar_order : Bar → List (Order ℕ)
bar_order bar = when_initial bar.state (bar_to_create_bar bar)

abbrev pub qer_order : Qer → List (Order QerIe)
qer_order qer = when_initial qer.state (qer_to_create_qer qer)

-- `urrMap`: a URR of the same identifier takes the place of an earlier one.
abbrev pub put_urr : Urr → List Urr → List Urr
put_urr urr [] = urr ∷ []
put_urr urr (u ∷ urrs) = if u.urr_id == urr.urr_id then urr ∷ urrs else u ∷ put_urr urr urrs

abbrev pub urr_map : List Urr → List Urr → List Urr
urr_map [] found = found
urr_map (urr ∷ urrs) found = urr_map urrs (put_urr urr found)

-- `qerMap`, of the QERs in the store.
abbrev pub put_qer : (ℕ → Qer) → ℕ → List ℕ → List ℕ
put_qer h k [] = k ∷ []
put_qer h k (j ∷ ks) = if (h j).qer_id == (h k).qer_id then k ∷ ks else j ∷ put_qer h k ks

abbrev pub qer_map : (ℕ → Qer) → List ℕ → List ℕ → List ℕ
qer_map h [] found = found
qer_map h (k ∷ ks) found = qer_map h ks (put_qer h k found)

-- What is sent for a URR of a state, and the state that it has then.
abbrev pub established : RuleState → Urr → List (Order UrrIe) × RuleState
established rule_initial urr = (create (urr_to_create_urr urr) ∷ [], rule_create)
established rule_create urr = ([], rule_create)
established rule_update urr = ([], rule_update)
established rule_remove urr = ([], rule_remove)
established rule_query urr = ([], rule_query)

abbrev pub modified : RuleState → Urr → List (Order UrrIe) × RuleState
modified rule_initial urr = (create (urr_to_create_urr urr) ∷ [], rule_create)
modified rule_create urr = ([], rule_create)
modified rule_update urr = (update (urr_to_update_urr urr) ∷ [], rule_create)
modified rule_remove urr = (remove urr.urr_id ∷ [], rule_remove)
modified rule_query urr = (query urr.urr_id ∷ [], rule_create)

-- Only a state that is left for another one is set.
abbrev pub same_state : RuleState → RuleState → Bool
same_state rule_create rule_create = true
same_state rule_update rule_update = true
same_state rule_remove rule_remove = true
same_state rule_query rule_query = true
same_state rule_initial rule_initial = true
same_state _ _ = false

abbrev pub move_urr : UrrTable → ℕ → ℕ → RuleState → UrrTable
move_urr table upf id state =
    if same_state (get_urr_state table upf id) state
    then table
    else set_urr_state table upf id state

pub send_urrs :
    (RuleState → Urr → List (Order UrrIe) × RuleState)
    → ℕ
    → UrrTable
    → List Urr
    → UrrTable × List (Order UrrIe)
send_urrs step upf table [] = (table, [])
send_urrs step upf table (urr ∷ urrs) =
    let (orders, state) = step (get_urr_state table upf urr.urr_id) urr in
    let (table', more) = send_urrs step upf (move_urr table upf urr.urr_id state) urrs in
    (table', orders ++ more)

abbrev is_some : Option Ip → Bool
is_some none = false
is_some (some _) = true

-- The lists of rules that the caller hands over.
pub record RuleLists : Type 0 where
  pub pdr_list : List ℕ
  pub far_list : List ℕ
  pub bar_list : List ℕ
  pub qer_list : List ℕ
  pub urr_list : List Urr

module _ (qer_range : List ℕ → List ℕ) (urr_range : List Urr → List Urr) where
  -- `self_ip` is `ExternalIP().To4()`.
  pub build_pfcp_session_establishment_request :
      Option Ip → ℕ → ℕ → RuleLists → Memory → Memory × Request
  unfolding send_urrs
  build_pfcp_session_establishment_request self_ip seid upf l m =
      let pdrs =
        send_each (λ pdr. when_initial pdr.state (pdr_to_create_pdr pdr)) pdr_sent m.pdrs
          l.pdr_list in
      let fars =
        send_each (λ far. when_initial far.state (far_to_create_far far)) far_sent m.fars
          l.far_list in
      let bars = send_each bar_order bar_sent m.bars l.bar_list in
      let qers = send_each qer_order qer_sent m.qers (qer_range (qer_map m.qers l.qer_list [])) in
      let urrs = send_urrs established upf m.urr_table (urr_range (urr_map l.urr_list [])) in
      (
        record { pdrs = pdrs.0; fars = fars.0; bars = bars.0; qers = qers.0; urr_table = urrs.0 },
        record {
          cp_fseid = record {
            v4 = is_some self_ip;
            v6 = not (is_some self_ip);
            seid = seid;
            ipv4_address = self_ip;
          };
          pdrs = pdrs.1;
          fars = fars.1;
          bars = bars.1;
          qers = qers.1;
          urrs = urrs.1;
        },
      )

  -- The state of a BAR is left as it is.
  pub build_pfcp_session_modification_request :
      Option Ip → ℕ → ℕ → RuleLists → Memory → Memory × Request
  unfolding send_urrs
  build_pfcp_session_modification_request self_ip seid upf l m =
      let pdrs = send_each pdr_order pdr_sent m.pdrs l.pdr_list in
      let fars = send_each far_order far_sent m.fars l.far_list in
      let bars = send_each bar_order (λ bar. bar) m.bars l.bar_list in
      let qers = send_each qer_order qer_sent m.qers l.qer_list in
      let urrs = send_urrs modified upf m.urr_table (urr_range (urr_map l.urr_list [])) in
      (
        record { pdrs = pdrs.0; fars = fars.0; bars = bars.0; qers = qers.0; urr_table = urrs.0 },
        record {
          cp_fseid = record { v4 = true; v6 = false; seid = seid; ipv4_address = self_ip };
          pdrs = pdrs.1;
          fars = fars.1;
          bars = bars.1;
          qers = qers.1;
          urrs = urrs.1;
        },
      )
