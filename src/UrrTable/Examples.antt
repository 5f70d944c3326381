-- ===== src/UrrTable/Examples.antt =====
-- A session with one URR and two PDRs that refer to it.
use smf_nwdaf_ext.Common.{◌≤◌, ◌≡◌, refl, true, false, none, some, [], ◌∷◌}
use smf_nwdaf_ext.Rules.{Urr, method_vol}
use smf_nwdaf_ext.UrrTable.{
  UrrTable, UrrEntry, rule_remove, rule_initial, pos, get_entry, register_urr, Pdr, pdr_append_urrs,
  pdr_release_urrs,
}
use smf_nwdaf_ext.UrrTable.Lookups.{refers}
use smf_nwdaf_ext.UrrTable.Counting.{
  references, here, later, Reach, start, registering, making, appending, Counted,
}
use smf_nwdaf_ext.UrrTable.Histories.{Reach-Counted, pdr_release_urrs_lem}

abbrev volume : Urr
volume = record {
  urr_id = 7;
  measure_method = method_vol;
  reporting_trigger = record { perio = false; volth = true; volqu = false; start = false };
  measurement_period = 0;
  measurement_information = record { mnop = true; mbqe = false };
  volume_threshold = 1000;
  volume_quota = 0;
}

abbrev registered : UrrTable
registered = (register_urr (λ _. none) 1 volume).0

abbrev uplink : Pdr
uplink = record { pdr_id = 3; urrs = 7 ∷ [] }

abbrev downlink : Pdr
downlink = record { pdr_id = 4; urrs = 7 ∷ [] }

abbrev one_pdr : UrrTable
one_pdr = (pdr_append_urrs registered 1 (record { pdr_id = 3; urrs = [] }) (7 ∷ [])).0

abbrev two_pdrs : UrrTable
two_pdrs = (pdr_append_urrs one_pdr 1 (record { pdr_id = 4; urrs = [] }) (7 ∷ [])).0

registered-Reach : Reach registered []
registered-Reach = registering (λ _. none) [] 1 volume (λ e. refl) start

one_pdr-Reach : Reach one_pdr ((1, uplink) ∷ [])
unfolding pdr_append_urrs
one_pdr-Reach =
    appending registered ((1, record { pdr_id = 3; urrs = [] }) ∷ []) [] 1
      (record { pdr_id = 3; urrs = [] }) (7 ∷ []) (here [])
      (making registered [] 1 3 registered-Reach)

two_pdrs-Reach : Reach two_pdrs ((1, downlink) ∷ (1, uplink) ∷ [])
unfolding pdr_append_urrs
two_pdrs-Reach =
    appending one_pdr ((1, record { pdr_id = 4; urrs = [] }) ∷ (1, uplink) ∷ []) ((1, uplink) ∷ [])
      1 (record { pdr_id = 4; urrs = [] }) (7 ∷ []) (here ((1, uplink) ∷ []))
      (making one_pdr ((1, uplink) ∷ []) 1 4 one_pdr-Reach)

Reach-Counted_example : Counted two_pdrs ((1, downlink) ∷ (1, uplink) ∷ [])
Reach-Counted_example = Reach-Counted two_pdrs ((1, downlink) ∷ (1, uplink) ∷ []) two_pdrs-Reach

abbrev shared : UrrEntry
shared = record { rule = volume; state = rule_initial; ref_count = pos 2; pdr_ids = 3 ∷ 4 ∷ [] }

two_pdrs-shared : get_entry two_pdrs 1 7 ≡ some shared
unfolding register_urr pdr_append_urrs
two_pdrs-shared = refl

pdr_release_urrs_lem_example :
    (after : UrrEntry) × (get_entry (pdr_release_urrs two_pdrs 1 (some uplink)) 1 7 ≡ some after)
    × (after.ref_count ≡ pos (references 1 7 ((1, downlink) ∷ [])))
    × (1 ≤ references 1 7 ((1, downlink) ∷ []) → after.state ≡ shared.state)
    × (1 ≤ refers 1 1 7 (7 ∷ [])
        → references 1 7 ((1, downlink) ∷ []) ≡ 0
        → after.state ≡ rule_remove)
pdr_release_urrs_lem_example =
    pdr_release_urrs_lem two_pdrs ((1, downlink) ∷ (1, uplink) ∷ []) ((1, downlink) ∷ []) 1 uplink 1
      7 shared two_pdrs-Reach (later (1, downlink) ((1, uplink) ∷ []) [] (here [])) two_pdrs-shared
