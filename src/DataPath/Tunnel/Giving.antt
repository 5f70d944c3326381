-- ===== src/DataPath/Tunnel/Giving.antt =====
-- What the deactivation of tunnels gives back.
use smf_nwdaf_ext.Common.{
  ℕ, ◌≡◌, refl, ◌∙◌, true, false, Option, none, some, List, [], ◌∷◌, ◌++◌, arith, Option-cases, inl,
  inr,
}
use smf_nwdaf_ext.Rules.{IdGenerator, Pdr}
use smf_nwdaf_ext.DataPath.Tunnel.{
  World, TunnelPdr, Hop, remove_bar_of, remove_qers, free_urrs, deactivate_tunnel,
  remove_pdr_from_pfcp_session, deactivate_tunnel_and_pdr, deactivate_up_link_tunnel,
  deactivate_down_link_tunnel, chain_of,
}
use smf_nwdaf_ext.DataPath.Tunnel.Covering.{uses, uses-append}
use smf_nwdaf_ext.DataPath.Tunnel.Views.{is_missing, held_in}
use smf_nwdaf_ext.DataPath.Tunnel.Taking.{held_by, HasContexts, HasContexts-base}
use smf_nwdaf_ext.DataPath.Tunnel.Clearing.{
  Gave, base_trans, Gave-append, Gave-nothing, Untouched-trans, remove_bar_of-Untouched,
  remove_qers-Untouched, free_urrs-Untouched,
}
use smf_nwdaf_ext.DataPath.Tunnel.Removing.{rules_gone, rules_gone-Gave, Untouched-Gave}

module _ (G : IdGenerator) where
  abbrev pub Given : World G → Option (World G) → List (ℕ × Pdr) → Type 0
  Given w o s = (w' : World G) × (o ≡ some w') × Gave G w w' s

  deactivate_tunnel-Given :
      (w : World G) (u : ℕ) (o : Option TunnelPdr)
      → is_missing (w.pfcp_context u) ≡ false
      → ((j : ℕ) → uses (held_in G u o) j ≡ true → (w.upfs j).associated ≡ true)
      → Given w (deactivate_tunnel G w u o) (held_in G u o)
  unfolding remove_pdr_from_pfcp_session
  deactivate_tunnel-Given w u none present on = (w, refl, Gave-nothing G w)
  deactivate_tunnel-Given w u (some p) present on = elim (Option-cases (w.pfcp_context u)) [
    | inl missing ↦ absurd (ground arith)
    | inr (c, there) ↦
        let w1 = rules_gone G w u c p.pdr in
        let w2 = remove_bar_of G w1 u p.bar in
        let w3 = remove_qers G w2 u p.qers in
        (
          free_urrs G w3 u p.urrs,
          rw there refl,
          Untouched-Gave G w w1 (free_urrs G w3 u p.urrs) ((u, p.pdr) ∷ [])
              (rules_gone-Gave G w u c p.pdr there (on u (ground arith)))
              (Untouched-trans G w1 w2 (free_urrs G w3 u p.urrs)
                (remove_bar_of-Untouched G w1 u p.bar)
                (Untouched-trans G w2 w3 (free_urrs G w3 u p.urrs)
                  (remove_qers-Untouched G w2 u p.qers) (free_urrs-Untouched G w3 u p.urrs))),
        )
  ]

  chain-Given :
      (w : World G) (o : Option (World G)) (f : World G → Option (World G)) (s t : List (ℕ × Pdr))
      → Given w o s
      → ((w' : World G) → Gave G w w' s → Given w' (f w') t)
      → Given w (chain_of G o f) (s ++ t)
  chain-Given w o f s t (w', e, g) h =
      let (w'', e', g') = h w' g in (w'', rw e e', Gave-append G w w' w'' s t g g')

  -- The deactivation of a path does not panic where each of its nodes has a context, and its UPFs are
  -- associated where they have to be.
  pub deactivate_tunnel_and_pdr-Given :
      (w : World G) (hops : List Hop)
      → HasContexts G w hops
      → ((j : ℕ) → uses (held_by G hops) j ≡ true → (w.upfs j).associated ≡ true)
      → Given w (deactivate_tunnel_and_pdr G w hops) (held_by G hops)
  unfolding deactivate_tunnel_and_pdr deactivate_up_link_tunnel deactivate_down_link_tunnel
  deactivate_tunnel_and_pdr-Given w [] c on = (w, refl, Gave-nothing G w)
  deactivate_tunnel_and_pdr-Given w (hop ∷ hops) c on =
      let up = held_in G hop.upf hop.up_link_tunnel.pdr in
      let down = held_in G hop.upf hop.down_link_tunnel.pdr in
      let rest = held_by G hops in
      chain-Given w (deactivate_up_link_tunnel G w hop)
        (λ w1.
          chain_of G (deactivate_down_link_tunnel G w1 hop)
            (λ w2. deactivate_tunnel_and_pdr G w2 hops))
        up (down ++ rest)
        (deactivate_tunnel-Given w hop.upf hop.up_link_tunnel.pdr c.0
          (λ j. λ m. on j (ground (arith, uses-append up (down ++ rest) j))))
        (λ w1. λ g1.
          chain-Given w1 (deactivate_down_link_tunnel G w1 hop)
            (λ w2. deactivate_tunnel_and_pdr G w2 hops) down rest
            (deactivate_tunnel-Given w1 hop.upf hop.down_link_tunnel.pdr
              (g1.base.contexts hop.upf ∙ c.0)
              (λ j. λ m.
                g1.base.associated j
                ∙ on j (ground (arith, uses-append up (down ++ rest) j, uses-append down rest j))))
            (λ w2. λ g2.
              deactivate_tunnel_and_pdr-Given w2 hops
                (HasContexts-base G w w2 hops (base_trans G w w1 w2 g1.base g2.base) c.1)
                (λ j. λ m.
                  (base_trans G w w1 w2 g1.base g2.base).associated j
                  ∙ on j
                      (ground (arith, uses-append up (down ++ rest) j, uses-append down rest j)))))
