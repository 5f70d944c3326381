-- ===== src/DataPath/Tunnel/Restoring.antt =====
-- A path that is activated and deactivated.
use smf_nwdaf_ext.Common.{
  ℕ, ◌≡◌, refl, sym, ap, ◌∙◌, subst, false, Option, none, some, List, [], ◌∷◌, arith,
}
use smf_nwdaf_ext.Rules.{IdGenerator}
use smf_nwdaf_ext.Rules.Handling.Keeping.{AllTracked}
use smf_nwdaf_ext.DataPath.Tunnel.{
  World, Hop, PfcpSessionContext, with_context, allocate_local_seid_for_data_path, activate_tunnels,
  activate_dc_tunnels, activate_up_link_dc_tunnel, activate_down_link_dc_tunnel,
  deactivate_up_link_tunnel, deactivate_down_link_tunnel, deactivate_up_link_dc_tunnel,
  deactivate_down_link_dc_tunnel, deactivate_dc_tunnel_and_pdr, chain_of, activate_up_link_tunnel,
  activate_down_link_tunnel, with_up, with_down, in_front, unless_failed, deactivate_tunnel_and_pdr,
}
use smf_nwdaf_ext.DataPath.Tunnel.Covering.{marks, Covered-Cleared}
use smf_nwdaf_ext.DataPath.Tunnel.Views.{
  key_pdr, key_far, in_context, is_missing, pdrs_of, fars_of, sessions_of, Sound, Took,
}
use smf_nwdaf_ext.DataPath.Tunnel.Taking.{
  held_by, IsNew, HasContexts, HasContexts-base, unless_both, activate_tunnels-Took,
  activate_dc_tunnels-Took,
}
use smf_nwdaf_ext.DataPath.Tunnel.Putting.{at_each}
use smf_nwdaf_ext.DataPath.Tunnel.Giving.{deactivate_tunnel_and_pdr-Given}

module _ (G : IdGenerator) where
  -- A world in which contexts may have been added.
  record Grows (w w' : World G) : Type 0 where
    upfs : w'.upfs ≡ w.upfs
    sessions : (u v : ℕ) → sessions_of G w' u v ≡ sessions_of G w u v
    present :
        (u : ℕ) → is_missing (w.pfcp_context u) ≡ false → is_missing (w'.pfcp_context u) ≡ false

  with_context-Grows :
      (w : World G) (u : ℕ) (o : Option PfcpSessionContext)
      → w.pfcp_context u ≡ o
      → Grows w (with_context G w u o)
  with_context-Grows w u (some c) there = record {
    upfs = refl;
    sessions = λ j v. refl;
    present = λ j. λ p. p;
  }
  with_context-Grows w u none there =
      let new : PfcpSessionContext = record { pdrs = λ v. none; local_seid = w.next_seid } in
      record {
        upfs = refl;
        sessions = λ j v.
            at_each G (λ i o. in_context o v ≡ sessions_of G w i v) w.pfcp_context u (some new)
              (ap (λ o. in_context o v) (sym there)) (λ i. refl) j;
        present = λ j. λ p.
            at_each G (λ i o. is_missing (w.pfcp_context i) ≡ false → is_missing o ≡ false)
              w.pfcp_context u (some new) (λ q. refl) (λ i. λ q. q) j p;
      }

  with_context-here :
      (w : World G) (u : ℕ) (o : Option PfcpSessionContext)
      → w.pfcp_context u ≡ o
      → is_missing ((with_context G w u o).pfcp_context u) ≡ false
  with_context-here w u (some c) there = ap is_missing there
  with_context-here w u none there = ground arith

  Grows-trans : (a b c : World G) → Grows a b → Grows b c → Grows a c
  Grows-trans a b c p q = record {
    upfs = q.upfs ∙ p.upfs;
    sessions = λ u v. q.sessions u v ∙ p.sessions u v;
    present = λ u. λ h. q.present u (p.present u h);
  }

  allocate-Grows :
      (w : World G) (hops : List Hop) → Grows w (allocate_local_seid_for_data_path G w hops)
  unfolding allocate_local_seid_for_data_path
  allocate-Grows w [] = record { upfs = refl; sessions = λ j v. refl; present = λ j. λ p. p }
  allocate-Grows w (hop ∷ hops) =
      let w1 = with_context G w hop.upf (w.pfcp_context hop.upf) in
      Grows-trans w w1 (allocate_local_seid_for_data_path G w1 hops)
        (with_context-Grows w hop.upf (w.pfcp_context hop.upf) refl) (allocate-Grows w1 hops)

  allocate-HasContexts :
      (w : World G) (hops : List Hop)
      → HasContexts G (allocate_local_seid_for_data_path G w hops) hops
  unfolding allocate_local_seid_for_data_path
  allocate-HasContexts w [] = refl
  allocate-HasContexts w (hop ∷ hops) =
      let w1 = with_context G w hop.upf (w.pfcp_context hop.upf) in
      (
        (allocate-Grows w1 hops).present hop.upf
            (with_context-here w hop.upf (w.pfcp_context hop.upf) refl),
        allocate-HasContexts w1 hops,
      )

  Grows-Sound : (w w' : World G) → Grows w w' → Sound G w → Sound G w'
  Grows-Sound w w' g k = record {
    tracked = λ u. subst (λ f. AllTracked G (f u)) (sym g.upfs) (k.tracked u);
    known = λ u v. λ h. g.sessions u v ∙ k.known u v (ap (λ f. (f u).pdrs.pool v) (sym g.upfs) ∙ h);
  }

  activate_tunnels-HasContexts :
      (c w : World G) (hops : List Hop)
      → HasContexts G c hops
      → HasContexts G c (activate_tunnels G w hops).1
  unfolding activate_tunnels
  activate_tunnels-HasContexts c w [] h = h
  activate_tunnels-HasContexts c w (hop ∷ hops) h =
      let up = activate_up_link_tunnel G w hop in
      let hop1 = with_up G hop up.1 in
      let down = activate_down_link_tunnel G up.0 hop1 in
      let hop2 = with_down G hop1 down.1 in
      let rest = activate_tunnels G down.0 hops in
      unless_both G (λ r. HasContexts G c r.1) up.2 (up.0, hop1 ∷ hops, false)
        (unless_failed G down.2 (down.0, hop2 ∷ hops, false) (in_front G hop2 rest)) h
        (unless_both G (λ r. HasContexts G c r.1) down.2 (down.0, hop2 ∷ hops, false)
          (in_front G hop2 rest) h (h.0, activate_tunnels-HasContexts c down.0 hops h.1))

  activate_dc_tunnels-HasContexts :
      (c w : World G) (hops : List Hop)
      → HasContexts G c hops
      → HasContexts G c (activate_dc_tunnels G w hops).1
  unfolding activate_dc_tunnels
  activate_dc_tunnels-HasContexts c w [] h = h
  activate_dc_tunnels-HasContexts c w (hop ∷ hops) h =
      let up = activate_up_link_dc_tunnel G w hop in
      let down = activate_down_link_dc_tunnel G up.0 (with_up G hop up.1) in
      (h.0, activate_dc_tunnels-HasContexts c down.0 hops h.1)

  abbrev Through :
      Option (World G) → (World G → Option (World G)) → (World G → Option (World G)) → Type 0
  Through o f g = chain_of G o f ≡ chain_of G o g

  go_on :
      (o : Option (World G)) (f g : World G → Option (World G))
      → ((w : World G) → f w ≡ g w)
      → Through o f g
  go_on none f g h = refl
  go_on (some w) f g h = h w

  dc_same :
      (w : World G) (hops : List Hop)
      → deactivate_dc_tunnel_and_pdr G w hops ≡ deactivate_tunnel_and_pdr G w hops
  unfolding deactivate_dc_tunnel_and_pdr deactivate_tunnel_and_pdr deactivate_up_link_tunnel
      deactivate_down_link_tunnel deactivate_up_link_dc_tunnel deactivate_down_link_dc_tunnel
  dc_same w [] = refl
  dc_same w (hop ∷ hops) =
      go_on (deactivate_up_link_tunnel G w hop) _ _
        (λ w1. go_on (deactivate_down_link_tunnel G w1 hop) _ _ (λ w2. dc_same w2 hops))

  -- What `activate` leaves, deactivated.
  abbrev Restored : World G → World G → List Hop → Type 0
  Restored w after hops =
      (w' : World G) × (deactivate_tunnel_and_pdr G after hops ≡ some w')
      × ((u v : ℕ) → (w'.upfs u).pdrs.pool v ≡ (w.upfs u).pdrs.pool v)
      × ((u v : ℕ) → (w'.upfs u).fars.pool v ≡ (w.upfs u).fars.pool v)
      × ((u v : ℕ) → sessions_of G w' u v ≡ sessions_of G w u v)

  Took-Restored :
      (w w0 after : World G) (hops : List Hop)
      → Grows w w0
      → Took G w0 after (held_by G hops)
      → HasContexts G w0 hops
      → Restored w after hops
  Took-Restored w w0 after hops grown took has =
      let held = held_by G hops in
      let (w', e, gave) =
        deactivate_tunnel_and_pdr-Given G after hops
          (HasContexts-base G w0 after hops took.base has)
          (λ j. λ m. took.base.associated j ∙ took.on j m) in
      (
        w',
        e,
        λ u v.
            Covered-Cleared (pdrs_of G w0) (pdrs_of G after) (pdrs_of G w') (marks key_pdr held)
              took.pdrs gave.pdrs u v
            ∙ ap (λ f. (f u).pdrs.pool v) grown.upfs,
        λ u v.
            Covered-Cleared (fars_of G w0) (fars_of G after) (fars_of G w') (marks key_far held)
              took.fars gave.fars u v
            ∙ ap (λ f. (f u).fars.pool v) grown.upfs,
        λ u v.
            Covered-Cleared (sessions_of G w0) (sessions_of G after) (sessions_of G w')
              (marks key_pdr held) took.sessions gave.sessions u v
            ∙ grown.sessions u v,
      )

  -- Deactivating a path undoes its activation, whether the activation reached the end of the path or
  -- stopped at an error. The generator keeps its promises, the tables are tracked, the PFCP sessions
  -- name only PDRs that the UPFs hold, and the path has not been activated before. Then the
  -- deactivation does not panic, and every UPF holds the PDRs and the FARs that it held before, and
  -- every PFCP session names the PDRs that it named before.
  pub deactivate-activate :
      (w : World G) (hops : List Hop)
      → Sound G w
      → IsNew G hops
      → (w' : World G) × (deactivate_tunnel_and_pdr G
            (activate_tunnels G (allocate_local_seid_for_data_path G w hops) hops).0
            (activate_tunnels G (allocate_local_seid_for_data_path G w hops) hops).1
          ≡ some w')
        × ((u v : ℕ) → (w'.upfs u).pdrs.pool v ≡ (w.upfs u).pdrs.pool v)
        × ((u v : ℕ) → (w'.upfs u).fars.pool v ≡ (w.upfs u).fars.pool v)
        × ((u v : ℕ) → sessions_of G w' u v ≡ sessions_of G w u v)
  deactivate-activate w hops k new =
      let w0 = allocate_local_seid_for_data_path G w hops in
      let grown = allocate-Grows w hops in
      let has = allocate-HasContexts w hops in
      let r = activate_tunnels G w0 hops in
      Took-Restored w w0 r.0 r.1 grown
        (activate_tunnels-Took G w0 hops (Grows-Sound w w0 grown k) new has)
        (activate_tunnels-HasContexts w0 w0 hops has)

  -- Deactivating a path for dual connectivity undoes its activation, which goes on at an error. The generator keeps its promises, the tables are tracked, the PFCP sessions
  -- name only PDRs that the UPFs hold, and the path has not been activated before. Then the
  -- deactivation does not panic, and every UPF holds the PDRs and the FARs that it held before, and
  -- every PFCP session names the PDRs that it named before.
  pub deactivate_dc-activate_dc :
      (w : World G) (hops : List Hop)
      → Sound G w
      → IsNew G hops
      → (w' : World G) × (deactivate_dc_tunnel_and_pdr G
            (activate_dc_tunnels G (allocate_local_seid_for_data_path G w hops) hops).0
            (activate_dc_tunnels G (allocate_local_seid_for_data_path G w hops) hops).1
          ≡ some w')
        × ((u v : ℕ) → (w'.upfs u).pdrs.pool v ≡ (w.upfs u).pdrs.pool v)
        × ((u v : ℕ) → (w'.upfs u).fars.pool v ≡ (w.upfs u).fars.pool v)
        × ((u v : ℕ) → sessions_of G w' u v ≡ sessions_of G w u v)
  deactivate_dc-activate_dc w hops k new =
      let w0 = allocate_local_seid_for_data_path G w hops in
      let grown = allocate-Grows w hops in
      let has = allocate-HasContexts w hops in
      let r = activate_dc_tunnels G w0 hops in
      let (w', e, pdrs, fars, sessions) =
        Took-Restored w w0 r.0 r.1 grown
          (activate_dc_tunnels-Took G w0 hops (Grows-Sound w w0 grown k) new has)
          (activate_dc_tunnels-HasContexts w0 w0 hops has) in
      (w', dc_same r.0 r.1 ∙ e, pdrs, fars, sessions)
