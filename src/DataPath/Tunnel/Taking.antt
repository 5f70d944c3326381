-- ===== src/DataPath/Tunnel/Taking.antt =====
-- What the activation of tunnels takes.
use smf_nwdaf_ext.Common.{
  ℕ, ◌≡◌, refl, sym, ap, ◌∙◌, subst, Bool, true, false, none, List, [], ◌∷◌, ◌++◌,
}
use smf_nwdaf_ext.Rules.{IdGenerator, Pdr}
use smf_nwdaf_ext.DataPath.Tunnel.{
  World, Hop, activate_tunnels, activate_dc_tunnels, activate_up_link_dc_tunnel,
  activate_down_link_dc_tunnel, activate_up_link_tunnel, activate_down_link_tunnel, with_up,
  with_down, in_front, unless_failed, Activated,
}
use smf_nwdaf_ext.DataPath.Tunnel.Views.{
  Sound, SameBase, Took, held_in, Took-append, Took-nothing, is_missing,
}
use smf_nwdaf_ext.DataPath.Tunnel.Putting.{Outcome, activate_tunnel-Took}

module _ (G : IdGenerator) where
  -- The PDRs that a path's tunnels hold.
  abbrev pub held_by : List Hop → List (ℕ × Pdr)
  held_by [] = []
  held_by (hop ∷ hops) =
      held_in G hop.upf hop.up_link_tunnel.pdr
      ++ (held_in G hop.upf hop.down_link_tunnel.pdr ++ held_by hops)

  -- A path that has not been activated.
  abbrev pub IsNew : List Hop → Type 0
  IsNew [] = true ≡ true
  IsNew (hop ∷ hops) =
      (hop.up_link_tunnel.pdr ≡ none) × (hop.down_link_tunnel.pdr ≡ none) × IsNew hops

  -- Every node's UPF has a context.
  abbrev pub HasContexts : World G → List Hop → Type 0
  HasContexts w [] = true ≡ true
  HasContexts w (hop ∷ hops) = (is_missing (w.pfcp_context hop.upf) ≡ false) × HasContexts w hops

  pub HasContexts-base :
      (w w' : World G) (hops : List Hop)
      → SameBase G w w'
      → HasContexts w hops
      → HasContexts w' hops
  HasContexts-base w w' [] b h = h
  HasContexts-base w w' (hop ∷ hops) b h =
      (b.contexts hop.upf ∙ h.0, HasContexts-base w w' hops b h.1)

  held_by-IsNew : (hops : List Hop) → IsNew hops → held_by hops ≡ []
  held_by-IsNew [] n = refl
  held_by-IsNew (hop ∷ hops) n = rw (n.0, n.1) (held_by-IsNew hops n.2)

  pub unless_both :
      (P : Activated G → Type 0) (ok : Bool) (failed more : Activated G)
      → P failed
      → P more
      → P (unless_failed G ok failed more)
  unless_both P true failed more p q = q
  unless_both P false failed more p q = p

  abbrev AllOutcome : World G → Activated G → Type 0
  AllOutcome w r = Took G w r.0 (held_by r.1)

  append_nil : {A : Type 0} (s : List A) → s ++ [] ≡ s
  append_nil [] = refl
  append_nil (x ∷ s) = ap (λ t. x ∷ t) (append_nil s)

  -- The activation of a path, whether or not it reaches the end.
  pub activate_tunnels-Took :
      (w : World G) (hops : List Hop)
      → Sound G w
      → IsNew hops
      → HasContexts w hops
      → AllOutcome w (activate_tunnels G w hops)
  unfolding activate_tunnels
  activate_tunnels-Took w [] k n c = Took-nothing G w k
  activate_tunnels-Took w (hop ∷ hops) k n c =
      let up = activate_up_link_tunnel G w hop in
      let hop1 = with_up G hop up.1 in
      let down = activate_down_link_tunnel G up.0 hop1 in
      let hop2 = with_down G hop1 down.1 in
      let first : Outcome G w hop.upf up =
        activate_tunnel-Took G w hop.upf w.local_ul_teid hop.up_link_tunnel k c.0 in
      let second : Outcome G up.0 hop.upf down =
        activate_tunnel-Took G up.0 hop.upf up.0.local_dl_teid hop.down_link_tunnel first.sound
          (first.base.contexts hop.upf ∙ c.0) in
      let third = activate_tunnels-Took down.0 hops second.sound n.2 (
        HasContexts-base up.0 down.0 hops second.base
          (HasContexts-base w up.0 hops first.base c.1)) in
      unless_both (AllOutcome w) up.2 (up.0, hop1 ∷ hops, false)
        (unless_failed G down.2 (down.0, hop2 ∷ hops, false)
          (in_front G hop2 (activate_tunnels G down.0 hops)))
        (subst (Took G w up.0)
          (sym (rw (n.1, held_by-IsNew hops n.2) (append_nil (held_in G hop.upf up.1.pdr)))) first)
        (unless_both (AllOutcome w) down.2 (down.0, hop2 ∷ hops, false)
          (in_front G hop2 (activate_tunnels G down.0 hops))
          (subst (λ s. Took G w down.0 (held_in G hop.upf up.1.pdr ++ s))
            (sym (rw (held_by-IsNew hops n.2) (append_nil (held_in G hop.upf down.1.pdr))))
            (Took-append G w up.0 down.0 (held_in G hop.upf up.1.pdr) (held_in G hop.upf down.1.pdr)
              first second))
          (Took-append G w up.0 (activate_tunnels G down.0 hops).0 (held_in G hop.upf up.1.pdr)
            (held_in G hop.upf down.1.pdr ++ held_by (activate_tunnels G down.0 hops).1) first
            (Took-append G up.0 down.0 (activate_tunnels G down.0 hops).0
              (held_in G hop.upf down.1.pdr) (held_by (activate_tunnels G down.0 hops).1) second
              third)))

  -- The activation of a path for dual connectivity.
  pub activate_dc_tunnels-Took :
      (w : World G) (hops : List Hop)
      → Sound G w
      → IsNew hops
      → HasContexts w hops
      → Took G w (activate_dc_tunnels G w hops).0 (held_by (activate_dc_tunnels G w hops).1)
  unfolding activate_dc_tunnels
  activate_dc_tunnels-Took w [] k n c = Took-nothing G w k
  activate_dc_tunnels-Took w (hop ∷ hops) k n c =
      let up = activate_up_link_dc_tunnel G w hop in
      let hop1 = with_up G hop up.1 in
      let down = activate_down_link_dc_tunnel G up.0 hop1 in
      let rest = activate_dc_tunnels G down.0 hops in
      let first : Outcome G w hop.upf up =
        activate_tunnel-Took G w hop.upf w.local_ul_teid_for_split hop.up_link_tunnel k c.0 in
      let second : Outcome G up.0 hop.upf down =
        activate_tunnel-Took G up.0 hop.upf up.0.local_dl_teid_for_split hop.down_link_tunnel
          first.sound (first.base.contexts hop.upf ∙ c.0) in
      let third = activate_dc_tunnels-Took down.0 hops second.sound n.2 (
        HasContexts-base up.0 down.0 hops second.base
          (HasContexts-base w up.0 hops first.base c.1)) in
      Took-append G w up.0 rest.0 (held_in G hop.upf up.1.pdr)
        (held_in G hop.upf down.1.pdr ++ held_by rest.1) first
        (Took-append G up.0 down.0 rest.0 (held_in G hop.upf down.1.pdr) (held_by rest.1) second
          third)
