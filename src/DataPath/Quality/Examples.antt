-- ===== src/DataPath/Quality/Examples.antt =====
-- A path over one UPF with generators that count up.
use smf_nwdaf_ext.Common.{ℕ, ◌≡◌, refl, true, Option, none, some, [], ◌∷◌}
use smf_nwdaf_ext.Rules.Counter.{counting}
use smf_nwdaf_ext.Rules.{RuleTables, new_rule_tables}
use smf_nwdaf_ext.Rules.Handling.{add_qer}
use smf_nwdaf_ext.Rules.Handling.Histories.{associating, run_all}
use smf_nwdaf_ext.Qos.BitRate.{Text, bit_rate_to_kbps}
use smf_nwdaf_ext.Qos.Flow.{QosData, is_gbr_flow}
use smf_nwdaf_ext.DataPath.Tunnel.{Tunnel, Hop}
use smf_nwdaf_ext.DataPath.Forwarding.{going, crashed}
use smf_nwdaf_ext.DataPath.Quality.{QosState, add_qos}
use smf_nwdaf_ext.DataPath.Quality.Reusing.{add_qos-reuses}

abbrev tables : RuleTables counting
tables = run_all counting (associating true ∷ []) (new_rule_tables counting)

abbrev state : QosState counting
state = record { upfs = λ u. tables; qer_upf_map = λ u qfi. none; contents = λ u id. none }

abbrev no_pdr : Tunnel
no_pdr = record { teid = 0; pdr = none }

abbrev hop : Hop
hop = record { upf = 3; up_link_tunnel = no_pdr; down_link_tunnel = no_pdr }

-- An empty text is a rate of zero.
abbrev best_effort : Option QosData
best_effort =
    some (record { var5qi = 9; maxbr_ul = []; maxbr_dl = []; gbr_ul = []; gbr_dl = []; arp = none })

abbrev no_float : Text → Option ℕ
no_float t = none

first_fine : (add_qos counting no_float state (hop ∷ []) 2 best_effort).2 ≡ going
unfolding add_qos add_qer new_rule_tables is_gbr_flow bit_rate_to_kbps
first_fine = refl

add_qos-reuses_example :
    ((add_qos counting no_float
        (add_qos counting no_float state (hop ∷ []) 2 best_effort).0
        (hop ∷ hop ∷ [])
        2
        best_effort).0
      ≡ (add_qos counting no_float state (hop ∷ []) 2 best_effort).0)
    × ((add_qos counting no_float
          (add_qos counting no_float state (hop ∷ []) 2 best_effort).0
          (hop ∷ hop ∷ [])
          2
          best_effort).2
        ≡ going)
add_qos-reuses_example =
    add_qos-reuses counting no_float state (hop ∷ []) (hop ∷ hop ∷ []) 2 best_effort first_fine
      (refl, (refl, refl))

-- The default flow without QoS data: the QER is made, and then its rates are read of nil.
default_flow_panics : (add_qos counting no_float state (hop ∷ []) 1 none).2 ≡ crashed
unfolding add_qos add_qer new_rule_tables
default_flow_panics = refl

qer_lost : (add_qos counting no_float state (hop ∷ []) 1 none).0.qer_upf_map 3 1 ≡ none
unfolding add_qos add_qer new_rule_tables
qer_lost = refl

id_taken :
    (add_qos counting no_float state (hop ∷ []) 1 none).0.upfs 3 ≡ (add_qer counting tables).0
unfolding add_qos add_qer new_rule_tables
id_taken = refl
