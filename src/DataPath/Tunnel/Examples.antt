-- ===== src/DataPath/Tunnel/Examples.antt =====
-- A path over two UPFs with generators that count up. The second UPF is not associated, so the
-- activation stops there.
use smf_nwdaf_ext.Common.{ℕ, ◌≡◌, refl, ◌==◌, none, some, List, [], ◌∷◌}
use smf_nwdaf_ext.Rules.Counter.{counting}
use smf_nwdaf_ext.Rules.{RuleTables, new_rule_tables}
use smf_nwdaf_ext.Rules.Handling.Histories.{associating, run_all, run_all-AllTracked}
use smf_nwdaf_ext.DataPath.Tunnel.{
  World, Tunnel, Hop, allocate_local_seid_for_data_path, activate_tunnels, activate_dc_tunnels,
  deactivate_tunnel_and_pdr, deactivate_dc_tunnel_and_pdr,
}
use smf_nwdaf_ext.DataPath.Tunnel.Views.{Sound, sessions_of}
use smf_nwdaf_ext.DataPath.Tunnel.Restoring.{deactivate-activate, deactivate_dc-activate_dc}

abbrev tables_of : ℕ → RuleTables counting
tables_of u = run_all counting (associating (u == 0) ∷ []) (new_rule_tables counting)

abbrev world : World counting
world = record {
  upfs = tables_of;
  pfcp_context = λ u. none;
  urr_table = λ u. none;
  next_seid = 1;
  local_ul_teid = 10;
  local_dl_teid = 11;
  local_ul_teid_for_split = 12;
  local_dl_teid_for_split = 13;
}

world-Sound : Sound counting world
world-Sound = record {
  tracked = λ u. run_all-AllTracked counting (associating (u == 0) ∷ []);
  known = λ u v. λ h. refl;
}

abbrev no_pdr : Tunnel
no_pdr = record { teid = 0; pdr = none }

abbrev hops : List Hop
hops =
    record { upf = 0; up_link_tunnel = no_pdr; down_link_tunnel = no_pdr }
    ∷ record { upf = 1; up_link_tunnel = no_pdr; down_link_tunnel = no_pdr }
    ∷ []

deactivate-activate_example :
    (w' : World counting) × (deactivate_tunnel_and_pdr counting
        (activate_tunnels counting (allocate_local_seid_for_data_path counting world hops) hops).0
        (activate_tunnels counting (allocate_local_seid_for_data_path counting world hops) hops).1
      ≡ some w')
    × ((u v : ℕ) → (w'.upfs u).pdrs.pool v ≡ (world.upfs u).pdrs.pool v)
    × ((u v : ℕ) → (w'.upfs u).fars.pool v ≡ (world.upfs u).fars.pool v)
    × ((u v : ℕ) → sessions_of counting w' u v ≡ sessions_of counting world u v)
deactivate-activate_example =
    deactivate-activate counting world hops world-Sound (refl, refl, (refl, refl, refl))

deactivate_dc-activate_dc_example :
    (w' : World counting) × (deactivate_dc_tunnel_and_pdr counting
        (activate_dc_tunnels counting
          (allocate_local_seid_for_data_path counting world hops)
          hops).0
        (activate_dc_tunnels counting
          (allocate_local_seid_for_data_path counting world hops)
          hops).1
      ≡ some w')
    × ((u v : ℕ) → (w'.upfs u).pdrs.pool v ≡ (world.upfs u).pdrs.pool v)
    × ((u v : ℕ) → (w'.upfs u).fars.pool v ≡ (world.upfs u).fars.pool v)
    × ((u v : ℕ) → sessions_of counting w' u v ≡ sessions_of counting world u v)
deactivate_dc-activate_dc_example =
    deactivate_dc-activate_dc counting world hops world-Sound (refl, refl, (refl, refl, refl))
