-- ===== src/DataPath/Tunnel/Clearing.antt =====
-- That a step has given back some of the PDRs and FARs, and the removals that touch none of them.
use smf_nwdaf_ext.Common.{ℕ, ◌≡◌, refl, ◌∙◌, Bool, Option, none, some, List, [], ◌∷◌, ◌++◌, if_both}
use smf_nwdaf_ext.Rules.{IdGenerator, Pdr, Bar, Qer, Urr, RuleTables}
use smf_nwdaf_ext.Rules.Handling.{remove_bar, remove_qer, remove_urr}
use smf_nwdaf_ext.UrrTable.{
  RuleState, rule_initial, rule_create, rule_update, rule_remove, rule_query, get_urr_state,
}
use smf_nwdaf_ext.DataPath.Tunnel.{
  World, change_upf, remove_bar_of, remove_qers, free_if_removed, free_urrs,
}
use smf_nwdaf_ext.DataPath.Tunnel.Covering.{marks, Cleared, Cleared-append}
use smf_nwdaf_ext.DataPath.Tunnel.Views.{key_pdr, key_far, pdrs_of, fars_of, sessions_of, SameBase}
use smf_nwdaf_ext.DataPath.Tunnel.Putting.{at_each}

module _ (G : IdGenerator) where
  pub record Gave (w w' : World G) (held : List (ℕ × Pdr)) : Type 0 where
    pub base : SameBase G w w'
    pub pdrs : Cleared (pdrs_of G w) (pdrs_of G w') (marks key_pdr held)
    pub fars : Cleared (fars_of G w) (fars_of G w') (marks key_far held)
    pub sessions : Cleared (sessions_of G w) (sessions_of G w') (marks key_pdr held)

  pub base_trans : (a b c : World G) → SameBase G a b → SameBase G b c → SameBase G a c
  base_trans a b c p q = record {
    associated = λ u. q.associated u ∙ p.associated u;
    contexts = λ u. q.contexts u ∙ p.contexts u;
  }

  pub Gave-append :
      (a b c : World G) (s t : List (ℕ × Pdr)) → Gave a b s → Gave b c t → Gave a c (s ++ t)
  Gave-append a b c s t p q = record {
    base = base_trans a b c p.base q.base;
    pdrs = Cleared-append (pdrs_of G a) (pdrs_of G b) (pdrs_of G c) key_pdr s t p.pdrs q.pdrs;
    fars = Cleared-append (fars_of G a) (fars_of G b) (fars_of G c) key_far s t p.fars q.fars;
    sessions =
        Cleared-append (sessions_of G a) (sessions_of G b) (sessions_of G c) key_pdr s t p.sessions
          q.sessions;
  }

  pub Gave-nothing : (w : World G) → Gave w w []
  Gave-nothing w = record {
    base = record { associated = λ u. refl; contexts = λ u. refl };
    pdrs = λ u v. refl;
    fars = λ u v. refl;
    sessions = λ u v. refl;
  }

  -- The tables of PDRs and FARs and the contexts are left alone.
  abbrev Keeps : RuleTables G → RuleTables G → Type 0
  Keeps r r' = (r'.associated ≡ r.associated) × (r'.pdrs ≡ r.pdrs) × (r'.fars ≡ r.fars)

  abbrev pub Untouched : World G → World G → Type 0
  Untouched w w' = ((u : ℕ) → Keeps (w.upfs u) (w'.upfs u)) × (w'.pfcp_context ≡ w.pfcp_context)

  pub Untouched-trans : (a b c : World G) → Untouched a b → Untouched b c → Untouched a c
  Untouched-trans a b c p q =
      (λ u. ((q.0 u).0 ∙ (p.0 u).0, (q.0 u).1 ∙ (p.0 u).1, (q.0 u).2 ∙ (p.0 u).2), q.1 ∙ p.1)

  change_upf-Untouched :
      (w : World G) (u : ℕ) (f : RuleTables G → RuleTables G × Bool)
      → ((r : RuleTables G) → Keeps r (f r).0)
      → Untouched w (change_upf G w u f)
  change_upf-Untouched w u f h = (
    at_each G (λ j r. Keeps (w.upfs j) r) w.upfs u (f (w.upfs u)).0 (h (w.upfs u))
        (λ j. (refl, refl, refl)),
    refl,
  )

  remove_bar-Keeps : (bar : Bar) (r : RuleTables G) → Keeps r (remove_bar G r bar).0
  unfolding remove_bar
  remove_bar-Keeps bar r =
      if_both (λ (x : RuleTables G × Bool). Keeps r x.0) r.associated (refl, refl, refl)
        (refl, refl, refl)

  remove_qer-Keeps : (qer : Qer) (r : RuleTables G) → Keeps r (remove_qer G r qer).0
  unfolding remove_qer
  remove_qer-Keeps qer r =
      if_both (λ (x : RuleTables G × Bool). Keeps r x.0) r.associated (refl, refl, refl)
        (refl, refl, refl)

  remove_urr-Keeps : (urr : Urr) (r : RuleTables G) → Keeps r (remove_urr G r urr).0
  unfolding remove_urr
  remove_urr-Keeps urr r =
      if_both (λ (x : RuleTables G × Bool). Keeps r x.0) r.associated (refl, refl, refl)
        (refl, refl, refl)

  pub remove_bar_of-Untouched :
      (w : World G) (u : ℕ) (bar : Option Bar) → Untouched w (remove_bar_of G w u bar)
  remove_bar_of-Untouched w u none = (λ j. (refl, refl, refl), refl)
  remove_bar_of-Untouched w u (some bar) =
      change_upf-Untouched w u (λ upf. remove_bar G upf bar) (remove_bar-Keeps bar)

  pub remove_qers-Untouched :
      (w : World G) (u : ℕ) (qers : List (Option Qer)) → Untouched w (remove_qers G w u qers)
  remove_qers-Untouched w u [] = (λ j. (refl, refl, refl), refl)
  remove_qers-Untouched w u (none ∷ qers) = remove_qers-Untouched w u qers
  remove_qers-Untouched w u (some qer ∷ qers) =
      let w' = change_upf G w u (λ upf. remove_qer G upf qer) in
      Untouched-trans w w' (remove_qers G w' u qers)
        (change_upf-Untouched w u (λ upf. remove_qer G upf qer) (remove_qer-Keeps qer))
        (remove_qers-Untouched w' u qers)

  free_if_removed-Untouched :
      (w : World G) (u : ℕ) (urr : Urr) (s : RuleState) → Untouched w (free_if_removed G w u urr s)
  free_if_removed-Untouched w u urr rule_initial = (λ j. (refl, refl, refl), refl)
  free_if_removed-Untouched w u urr rule_create = (λ j. (refl, refl, refl), refl)
  free_if_removed-Untouched w u urr rule_update = (λ j. (refl, refl, refl), refl)
  free_if_removed-Untouched w u urr rule_remove =
      change_upf-Untouched w u (λ upf. remove_urr G upf urr) (remove_urr-Keeps urr)
  free_if_removed-Untouched w u urr rule_query = (λ j. (refl, refl, refl), refl)

  pub free_urrs-Untouched :
      (w : World G) (u : ℕ) (urrs : List Urr) → Untouched w (free_urrs G w u urrs)
  free_urrs-Untouched w u [] = (λ j. (refl, refl, refl), refl)
  free_urrs-Untouched w u (urr ∷ urrs) =
      let state = get_urr_state w.urr_table u urr.urr_id in
      let w' = free_if_removed G w u urr state in
      Untouched-trans w w' (free_urrs G w' u urrs) (free_if_removed-Untouched w u urr state)
        (free_urrs-Untouched w' u urrs)
