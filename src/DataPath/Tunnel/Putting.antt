-- ===== src/DataPath/Tunnel/Putting.antt =====
-- The activation of one tunnel.
use smf_nwdaf_ext.Common.{
  ℕ, ◌≡◌, ◌≢◌, refl, sym, ap, ◌∙◌, subst, true, false, inl, inr, Option, none, some, [], ◌∷◌, ◌==◌,
  arith, Bool-cases, Option-cases, some_eq,
}
use smf_nwdaf_ext.Rules.{IdGenerator, Pdr, RuleTables}
use smf_nwdaf_ext.Rules.Handling.{add_pdr}
use smf_nwdaf_ext.Rules.Handling.Keeping.{AllTracked, add_pdr-AllTracked}
use smf_nwdaf_ext.Rules.Handling.Adding.{
  AddPdrOutcome, SameRules, GainsPdr, add_pdr_lem, add_pdr-associated,
}
use smf_nwdaf_ext.DataPath.Tunnel.{
  World, Tunnel, PfcpSessionContext, Activation, set_at, set_pdr, set_context, put_and_finish,
  activate_tunnel, put_pdr_to_pfcp_session,
}
use smf_nwdaf_ext.DataPath.Tunnel.Covering.{Covered-one}
use smf_nwdaf_ext.DataPath.Tunnel.Views.{
  pdrs_of, fars_of, sessions_of, Sound, Took, held_in, key_pdr, key_far, in_context, is_missing,
}

module _ (G : IdGenerator) where
  -- A fact about all places of a store, one of which has changed.
  pub at_each :
      {R : Type 0} (P : ℕ → R → Type 0) (f : ℕ → R) (u : ℕ) (r : R)
      → P u r
      → ((j : ℕ) → P j (f j))
      → (j : ℕ) → P j (set_at f u r j)
  at_each P f u r here there j = elim (Bool-cases (u == j)) [
    | inl same ↦ let at : u ≡ j = ground arith in rw same (subst (λ i. P i r) at here)
    | inr other ↦ rw other (there j)
  ]

  pub elsewhere : {R : Type 0} (f : ℕ → R) (u : ℕ) (r : R) (j : ℕ) → u ≢ j → set_at f u r j ≡ f j
  elsewhere f u r j other = ground arith

  pub here_is : {R : Type 0} (f : ℕ → R) (u : ℕ) (r : R) → set_at f u r u ≡ r
  here_is f u r = ground arith

  abbrev pub Outcome : World G → ℕ → Activation G → Type 0
  Outcome w u r = Took G w r.0 (held_in G u r.1.pdr)

  -- Without a PDR.
  put_none :
      (w : World G) (u : ℕ) (tables : RuleTables G)
      → Sound G w
      → AllTracked G tables
      → tables.associated ≡ (w.upfs u).associated
      → SameRules G (w.upfs u) tables
      → Took G w (record w { upfs = set_at w.upfs u tables }) []
  put_none w u tables k tr assoc same = record {
    sound = record {
      tracked = at_each (λ j r. AllTracked G r) w.upfs u tables tr k.tracked;
      known =
          at_each (λ j r. (v : ℕ) → r.pdrs.pool v ≡ none → sessions_of G w j v ≡ none) w.upfs u
            tables (λ v. λ h. k.known u v (sym (ap (λ f. f v) same.0) ∙ h)) k.known;
    };
    base = record {
      associated =
          at_each (λ j r. r.associated ≡ (w.upfs j).associated) w.upfs u tables assoc (λ j. refl);
      contexts = λ j. refl;
    };
    on = λ j. λ m. ground arith;
    pdrs = λ j v. (
      λ m. ground arith,
      λ m.
          at_each (λ i r. r.pdrs.pool v ≡ pdrs_of G w i v) w.upfs u tables (ap (λ f. f v) same.0)
            (λ i. refl) j,
    );
    fars = λ j v. (
      λ m. ground arith,
      λ m.
          at_each (λ i r. r.fars.pool v ≡ fars_of G w i v) w.upfs u tables (ap (λ f. f v) same.1)
            (λ i. refl) j,
    );
    sessions = λ j v. (λ m. ground arith, λ m. refl);
  }

  abbrev stored_in : World G → ℕ → RuleTables G → PfcpSessionContext → Pdr → World G
  stored_in w u tables c pdr =
      set_context G (record w { upfs = set_at w.upfs u tables }) u (set_pdr c pdr.pdr_id (some pdr))

  put_some :
      (w : World G) (u : ℕ) (tables : RuleTables G) (pdr : Pdr) (c : PfcpSessionContext)
      → Sound G w
      → w.pfcp_context u ≡ some c
      → AllTracked G tables
      → tables.associated ≡ (w.upfs u).associated
      → (w.upfs u).associated ≡ true
      → GainsPdr G (w.upfs u) tables pdr
      → Took G w (stored_in w u tables c pdr) ((u, pdr) ∷ [])
  put_some w u tables pdr c k there tr assoc on g = record {
    sound = record {
      tracked = at_each (λ j r. AllTracked G r) w.upfs u tables tr k.tracked;
      known = λ j v. λ h. elim (Bool-cases (u == j)) [
        | inr other ↦
            let ne : u ≢ j = ground arith in
            ap (λ o. in_context o v) (elsewhere w.pfcp_context u (some after) j ne)
            ∙ k.known j v (ap (λ r. r.pdrs.pool v) (sym (elsewhere w.upfs u tables j ne)) ∙ h)
        | inl same ↦
            let at : u ≡ j = ground arith in
            subst
              (λ i.
                pdrs_of G (stored_in w u tables c pdr) i v ≡ none
                → sessions_of G (stored_in w u tables c pdr) i v ≡ none)
              at
              (λ h'.
                ap (λ o. in_context o v) (here_is w.pfcp_context u (some after))
                ∙ named v (ap (λ r. r.pdrs.pool v) (sym (here_is w.upfs u tables)) ∙ h'))
              h
      ];
    };
    base = record {
      associated =
          at_each (λ j r. r.associated ≡ (w.upfs j).associated) w.upfs u tables assoc (λ j. refl);
      contexts =
          at_each (λ j o. is_missing o ≡ is_missing (w.pfcp_context j)) w.pfcp_context u
            (some after) (ap is_missing (sym there)) (λ j. refl);
    };
    on = λ j. λ m. let at : u ≡ j = ground arith in subst (λ i. (w.upfs i).associated ≡ true) at on;
    pdrs =
        Covered-one (pdrs_of G w) (pdrs_of G (stored_in w u tables c pdr)) key_pdr u pdr
          g.own.absent
          (λ v. λ ne. ap (λ r. r.pdrs.pool v) (here_is w.upfs u tables) ∙ g.own.others v ne)
          (λ j v. λ ne. ap (λ r. r.pdrs.pool v) (elsewhere w.upfs u tables j ne));
    fars =
        Covered-one (fars_of G w) (fars_of G (stored_in w u tables c pdr)) key_far u pdr
          g.action.absent
          (λ v. λ ne. ap (λ r. r.fars.pool v) (here_is w.upfs u tables) ∙ g.action.others v ne)
          (λ j v. λ ne. ap (λ r. r.fars.pool v) (elsewhere w.upfs u tables j ne));
    sessions =
        Covered-one (sessions_of G w) (sessions_of G (stored_in w u tables c pdr)) key_pdr u pdr
          (k.known u pdr.pdr_id g.own.absent)
          (λ v. λ ne.
            ap (λ o. in_context o v) (here_is w.pfcp_context u (some after))
            ∙ (elsewhere c.pdrs pdr.pdr_id (some pdr) v (λ e. ne (sym e))
                ∙ ap (λ o. in_context o v) (sym there)))
          (λ j v. λ ne. ap (λ o. in_context o v) (elsewhere w.pfcp_context u (some after) j ne));
  }
    where
      after : PfcpSessionContext
      after = set_pdr c pdr.pdr_id (some pdr)

      named : (v : ℕ) → tables.pdrs.pool v ≡ none → after.pdrs v ≡ none
      named v gone = elim (Bool-cases (pdr.pdr_id == v)) [
        | inl same ↦ let at : pdr.pdr_id ≡ v = ground arith in ground (arith, g.own.stored)
        | inr other ↦
            let ne : v ≢ pdr.pdr_id = ground arith in
            elsewhere c.pdrs pdr.pdr_id (some pdr) v (λ e. ne (sym e))
            ∙ (ap (λ o. in_context o v) (sym there) ∙ k.known u v (sym (g.own.others v ne) ∙ gone))
      ]

  put_lem :
      (w : World G) (u teid : ℕ) (t : Tunnel) (tables : RuleTables G) (o : Option Pdr)
      (c : PfcpSessionContext)
      → Sound G w
      → w.pfcp_context u ≡ some c
      → AllTracked G tables
      → tables.associated ≡ (w.upfs u).associated
      → AddPdrOutcome G (w.upfs u) (tables, o)
      → Outcome w u (put_and_finish G w u teid t (tables, o))
  unfolding put_and_finish put_pdr_to_pfcp_session
  put_lem w u teid t tables none c k there tr assoc (inr (on, (pdr, e, g))) = ground arith
  put_lem w u teid t tables none c k there tr assoc (inl (e, why, same)) =
      put_none w u tables k tr assoc same
  put_lem w u teid t tables (some pdr) c k there tr assoc (inl (e, why, same)) = ground arith
  put_lem w u teid t tables (some pdr) c k there tr assoc (inr (on, (pdr', e, g))) =
      let same : pdr' ≡ pdr = sym (some_eq e) in
      rw there (
        put_some w u tables pdr c k there tr assoc on
          (subst (λ r. GainsPdr G (w.upfs u) tables r) same g))

  -- The activation of one tunnel, where there is a context.
  pub activate_tunnel-Took :
      (w : World G) (u teid : ℕ) (t : Tunnel)
      → Sound G w
      → is_missing (w.pfcp_context u) ≡ false
      → Outcome w u (activate_tunnel G w u teid t)
  unfolding activate_tunnel
  activate_tunnel-Took w u teid t k present = elim (Option-cases (w.pfcp_context u)) [
    | inl missing ↦ absurd (ground arith)
    | inr (c, there) ↦
        put_lem w u teid t (add_pdr G (w.upfs u)).0 (add_pdr G (w.upfs u)).1 c k there
          (add_pdr-AllTracked G (w.upfs u) (k.tracked u)) (add_pdr-associated G (w.upfs u))
          (add_pdr_lem G (w.upfs u) (k.tracked u))
  ]
