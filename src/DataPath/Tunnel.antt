-- ===== src/DataPath/Tunnel.antt =====
-- The tunnels of a data path: `ActivateUpLinkTunnel`, `DeactivateUpLinkTunnel` and the others of
-- internal/context/datapath.go, with the PFCP sessions of internal/context/sm_context.go. The nodes of
-- a path are the list of them in the order of the chain. A UPF is its number, also where the source
-- takes its address as the key.
pub mod Covering
pub mod Views
pub mod Putting
pub mod Taking
pub mod Clearing
pub mod Removing
pub mod Giving
pub mod Restoring
mod Examples
use smf_nwdaf_ext.Common.{
  ℕ, suc, Bool, true, false, Option, none, some, List, [], ◌∷◌, ◌==◌, if◌then◌else◌,
}
use smf_nwdaf_ext.Rules.{IdGenerator, Pdr, Far, Bar, Qer, Urr, RuleTables}
use smf_nwdaf_ext.Rules.Handling.{
  add_pdr, remove_pdr, remove_far, remove_bar, remove_qer, remove_urr,
}
use smf_nwdaf_ext.UrrTable.{
  RuleState, rule_initial, rule_create, rule_update, rule_remove, rule_query, UrrTable,
  get_urr_state, delete_from_urr_table,
}

-- A PDR with what it refers to. The far is the PDR's; `bar` is the FAR's.
pub record TunnelPdr : Type 0 where
  pub pdr : Pdr
  pub bar : Option Bar
  pub qers : List (Option Qer)
  pub urrs : List Urr

pub record Tunnel : Type 0 where
  pub teid : ℕ
  pub pdr : Option TunnelPdr

pub record Hop : Type 0 where
  pub upf : ℕ
  pub up_link_tunnel : Tunnel
  pub down_link_tunnel : Tunnel

pub record PfcpSessionContext : Type 0 where
  pub pdrs : ℕ → Option Pdr
  pub local_seid : ℕ

-- The UPFs, and what a session keeps. `next_seid` is the next one that `AllocateLocalSEID` gives.
pub record World (G : IdGenerator) : Type 0 where
  pub upfs : ℕ → RuleTables G
  pub pfcp_context : ℕ → Option PfcpSessionContext
  pub urr_table : UrrTable
  pub next_seid : ℕ
  pub local_ul_teid : ℕ
  pub local_dl_teid : ℕ
  pub local_ul_teid_for_split : ℕ
  pub local_dl_teid_for_split : ℕ

abbrev pub set_at : {R : Type 0} → (ℕ → R) → ℕ → R → ℕ → R
set_at f k r j = if k == j then r else f j

abbrev pub set_pdr : PfcpSessionContext → ℕ → Option Pdr → PfcpSessionContext
set_pdr c id o = record c { pdrs = set_at c.pdrs id o }

module _ (G : IdGenerator) where
  abbrev pub set_context : World G → ℕ → PfcpSessionContext → World G
  set_context w u c = record w { pfcp_context = set_at w.pfcp_context u (some c) }

  abbrev pub with_context : World G → ℕ → Option PfcpSessionContext → World G
  with_context w u none =
      record (set_context w u (record { pdrs = λ v. none; local_seid = w.next_seid })) {
        next_seid = suc w.next_seid;
      }
  with_context w u (some c) = w

  pub allocate_local_seid_for_data_path : World G → List Hop → World G
  allocate_local_seid_for_data_path w [] = w
  allocate_local_seid_for_data_path w (hop ∷ hops) =
      allocate_local_seid_for_data_path (with_context w hop.upf (w.pfcp_context hop.upf)) hops

  -- `false` is the error.
  abbrev pub put_pdr_at : World G → ℕ → Option PfcpSessionContext → Pdr → World G × Bool
  put_pdr_at w u none pdr = (w, false)
  put_pdr_at w u (some c) pdr = (set_context w u (set_pdr c pdr.pdr_id (some pdr)), true)

  pub put_pdr_to_pfcp_session : World G → ℕ → Pdr → World G × Bool
  put_pdr_to_pfcp_session w u pdr = put_pdr_at w u (w.pfcp_context u) pdr

  -- `none` is a panic: there is no context of the UPF.
  abbrev pub remove_pdr_at : World G → ℕ → Option PfcpSessionContext → ℕ → Option (World G)
  remove_pdr_at w u none id = none
  remove_pdr_at w u (some c) id = some (set_context w u (set_pdr c id none))

  pub remove_pdr_from_pfcp_session : World G → ℕ → Pdr → Option (World G)
  remove_pdr_from_pfcp_session w u pdr = remove_pdr_at w u (w.pfcp_context u) pdr.pdr_id

  abbrev pub Activation : Type 0
  Activation = (World G) × Tunnel × Bool

  abbrev pub new_tunnel_pdr : Pdr → TunnelPdr
  new_tunnel_pdr pdr = record { pdr = pdr; bar = none; qers = []; urrs = [] }

  -- The tunnel identifier is set behind the last error.
  abbrev pub finish : ℕ → Tunnel → Pdr → World G × Bool → Activation
  finish teid t pdr (w, false) = (w, record t { pdr = some (new_tunnel_pdr pdr) }, false)
  finish teid t pdr (w, true) = (w, record { teid = teid; pdr = some (new_tunnel_pdr pdr) }, true)

  abbrev pub put_and_finish : World G → ℕ → ℕ → Tunnel → RuleTables G × Option Pdr → Activation
  unfolding put_pdr_to_pfcp_session
  put_and_finish w u teid t (tables, none) =
      (record w { upfs = set_at w.upfs u tables }, record t { pdr = none }, false)
  put_and_finish w u teid t (tables, some pdr) =
      finish teid t pdr (put_pdr_to_pfcp_session (record w { upfs = set_at w.upfs u tables }) u pdr)

  -- What the four functions share: they differ in the tunnel and in the identifier that it gets. The
  -- end points that they set are those of the chain.
  pub activate_tunnel : World G → ℕ → ℕ → Tunnel → Activation
  unfolding put_and_finish
  activate_tunnel w u teid t = put_and_finish w u teid t (add_pdr G (w.upfs u))

  abbrev pub activate_up_link_tunnel : World G → Hop → Activation
  activate_up_link_tunnel w hop = activate_tunnel w hop.upf w.local_ul_teid hop.up_link_tunnel

  abbrev pub activate_up_link_dc_tunnel : World G → Hop → Activation
  activate_up_link_dc_tunnel w hop =
      activate_tunnel w hop.upf w.local_ul_teid_for_split hop.up_link_tunnel

  abbrev pub activate_down_link_tunnel : World G → Hop → Activation
  activate_down_link_tunnel w hop = activate_tunnel w hop.upf w.local_dl_teid hop.down_link_tunnel

  abbrev pub activate_down_link_dc_tunnel : World G → Hop → Activation
  activate_down_link_dc_tunnel w hop =
      activate_tunnel w hop.upf w.local_dl_teid_for_split hop.down_link_tunnel

  -- An error of a removal is only logged.
  abbrev pub change_upf : World G → ℕ → (RuleTables G → RuleTables G × Bool) → World G
  change_upf w u f = record w { upfs = set_at w.upfs u (f (w.upfs u)).0 }

  abbrev pub remove_bar_of : World G → ℕ → Option Bar → World G
  remove_bar_of w u none = w
  remove_bar_of w u (some bar) = change_upf w u (λ upf. remove_bar G upf bar)

  abbrev pub remove_qers : World G → ℕ → List (Option Qer) → World G
  remove_qers w u [] = w
  remove_qers w u (none ∷ qers) = remove_qers w u qers
  remove_qers w u (some qer ∷ qers) =
      remove_qers (change_upf w u (λ upf. remove_qer G upf qer)) u qers

  abbrev pub free_if_removed : World G → ℕ → Urr → RuleState → World G
  free_if_removed w u urr rule_initial = w
  free_if_removed w u urr rule_create = w
  free_if_removed w u urr rule_update = w
  free_if_removed w u urr rule_remove =
      let w' = change_upf w u (λ upf. remove_urr G upf urr) in
      record w' { urr_table = delete_from_urr_table w'.urr_table u urr.urr_id }
  free_if_removed w u urr rule_query = w

  abbrev pub free_urrs : World G → ℕ → List Urr → World G
  free_urrs w u [] = w
  free_urrs w u (urr ∷ urrs) =
      free_urrs (free_if_removed w u urr (get_urr_state w.urr_table u urr.urr_id)) u urrs

  abbrev pub remove_rules : ℕ → TunnelPdr → Option (World G) → Option (World G)
  remove_rules u p none = none
  remove_rules u p (some w) =
      let w1 = change_upf w u (λ upf. remove_pdr G upf p.pdr) in
      let w2 = change_upf w1 u (λ upf. remove_far G upf (record { far_id = p.pdr.far })) in
      let w3 = remove_bar_of w2 u p.bar in some (free_urrs (remove_qers w3 u p.qers) u p.urrs)

  -- What the four functions share. The tunnel keeps its PDR.
  abbrev pub deactivate_tunnel : World G → ℕ → Option TunnelPdr → Option (World G)
  deactivate_tunnel w u none = some w
  deactivate_tunnel w u (some p) = remove_rules u p (remove_pdr_from_pfcp_session w u p.pdr)

  pub deactivate_up_link_tunnel : World G → Hop → Option (World G)
  unfolding remove_pdr_from_pfcp_session
  deactivate_up_link_tunnel w hop = deactivate_tunnel w hop.upf hop.up_link_tunnel.pdr

  pub deactivate_down_link_tunnel : World G → Hop → Option (World G)
  unfolding remove_pdr_from_pfcp_session
  deactivate_down_link_tunnel w hop = deactivate_tunnel w hop.upf hop.down_link_tunnel.pdr

  pub deactivate_up_link_dc_tunnel : World G → Hop → Option (World G)
  unfolding remove_pdr_from_pfcp_session
  deactivate_up_link_dc_tunnel w hop = deactivate_tunnel w hop.upf hop.up_link_tunnel.pdr

  pub deactivate_down_link_dc_tunnel : World G → Hop → Option (World G)
  unfolding remove_pdr_from_pfcp_session
  deactivate_down_link_dc_tunnel w hop = deactivate_tunnel w hop.upf hop.down_link_tunnel.pdr

  abbrev pub Activated : Type 0
  Activated = (World G) × List Hop × Bool

  abbrev pub in_front : Hop → Activated → Activated
  in_front hop (w, hops, ok) = (w, hop ∷ hops, ok)

  abbrev pub with_up : Hop → Tunnel → Hop
  with_up hop t = record hop { up_link_tunnel = t }

  abbrev pub with_down : Hop → Tunnel → Hop
  with_down hop t = record hop { down_link_tunnel = t }

  abbrev pub unless_failed : Bool → Activated → Activated → Activated
  unless_failed true failed more = more
  unless_failed false failed more = failed

  -- The first loop of `ActivateTunnelAndPDR`, behind the contexts. It returns at an error.
  pub activate_tunnels : World G → List Hop → Activated
  unfolding activate_tunnel
  activate_tunnels w [] = (w, [], true)
  activate_tunnels w (hop ∷ hops) =
      let (w1, up, ok1) = activate_up_link_tunnel w hop in
      let (w2, down, ok2) = activate_down_link_tunnel w1 (with_up hop up) in
      let rest = activate_tunnels w2 hops in
      unless_failed ok1 (w1, with_up hop up ∷ hops, false)
        (unless_failed ok2 (w2, with_down (with_up hop up) down ∷ hops, false)
          (in_front (with_down (with_up hop up) down) rest))

  -- The first loop of `ActivateDcTunnelAndPDR`, which goes on at an error.
  pub activate_dc_tunnels : World G → List Hop → World G × List Hop
  unfolding activate_tunnel
  activate_dc_tunnels w [] = (w, [])
  activate_dc_tunnels w (hop ∷ hops) =
      let (w1, up, ok1) = activate_up_link_dc_tunnel w hop in
      let (w2, down, ok2) = activate_down_link_dc_tunnel w1 (with_up hop up) in
      let (w3, more) = activate_dc_tunnels w2 hops in (w3, with_down (with_up hop up) down ∷ more)

  abbrev pub chain_of : Option (World G) → (World G → Option (World G)) → Option (World G)
  chain_of none f = none
  chain_of (some w) f = f w

  pub deactivate_tunnel_and_pdr : World G → List Hop → Option (World G)
  unfolding deactivate_up_link_tunnel deactivate_down_link_tunnel
  deactivate_tunnel_and_pdr w [] = some w
  deactivate_tunnel_and_pdr w (hop ∷ hops) = chain_of (deactivate_up_link_tunnel w hop) (λ w1.
      chain_of (deactivate_down_link_tunnel w1 hop) (λ w2. deactivate_tunnel_and_pdr w2 hops))

  pub deactivate_dc_tunnel_and_pdr : World G → List Hop → Option (World G)
  unfolding deactivate_up_link_dc_tunnel deactivate_down_link_dc_tunnel
  deactivate_dc_tunnel_and_pdr w [] = some w
  deactivate_dc_tunnel_and_pdr w (hop ∷ hops) = chain_of (deactivate_up_link_dc_tunnel w hop) (λ w1.
      chain_of (deactivate_down_link_dc_tunnel w1 hop) (λ w2. deactivate_dc_tunnel_and_pdr w2 hops))
