-- ===== src/DataPath/Tunnel/Removing.antt =====
-- The removal of a PDR with its FAR.
use smf_nwdaf_ext.Common.{
  ℕ, ◌||◌, ◌≡◌, ◌≢◌, refl, sym, ap, ◌∙◌, subst, Bool, true, false, Option, none, some, List, [],
  ◌∷◌, ◌==◌, if◌then◌else◌, arith, Bool-cases, inl, inr,
}
use smf_nwdaf_ext.Rules.{IdGenerator, Pdr, RuleTables}
use smf_nwdaf_ext.Rules.Handling.{remove_pdr, remove_far}
use smf_nwdaf_ext.DataPath.Tunnel.{
  World, PfcpSessionContext, set_at, set_pdr, set_context, change_upf,
}
use smf_nwdaf_ext.DataPath.Tunnel.Covering.{marks, Cleared}
use smf_nwdaf_ext.DataPath.Tunnel.Views.{
  key_pdr, key_far, in_context, is_missing, pdrs_of, fars_of, sessions_of,
}
use smf_nwdaf_ext.DataPath.Tunnel.Putting.{at_each, elsewhere, here_is}
use smf_nwdaf_ext.DataPath.Tunnel.Clearing.{Gave, Untouched}

module _ (G : IdGenerator) where
  if_on :
      {A : Type 0} (P : A → Type 0) (b : Bool) (x y : A) → b ≡ true → P x → P (if b then x else y)
  if_on P true x y on p = p
  if_on P false x y on p = ground arith

  Cleared-one :
      {X : Type 0} (f g : ℕ → ℕ → Option X) (key : Pdr → ℕ) (w : ℕ) (p : Pdr)
      → ((v : ℕ) → g w v ≡ (if key p == v then none else f w v))
      → ((u v : ℕ) → w ≢ u → g u v ≡ f u v)
      → Cleared f g (marks key ((w, p) ∷ []))
  Cleared-one f g key w p here there u v = elim (Bool-cases (w == u)) [
    | inl same ↦
        let at : w ≡ u = ground arith in
        rw same (
          subst (λ j. g j v ≡ (if (key p == v) || false then none else f j v)) at
            (here v ∙ narrow (key p == v)))
    | inr other ↦ rw other (there u v (ground arith))
  ]
    where
      narrow : (b : Bool) → (if b then none else f w v) ≡ (if b || false then none else f w v)
      narrow true = refl
      narrow false = refl

  -- The tables of an associated UPF without a PDR and its FAR.
  abbrev Without : RuleTables G → RuleTables G → Pdr → Type 0
  Without r r' p =
      (r'.associated ≡ r.associated)
      × ((v : ℕ) → r'.pdrs.pool v ≡ (if p.pdr_id == v then none else r.pdrs.pool v))
      × ((v : ℕ) → r'.fars.pool v ≡ (if p.far == v then none else r.fars.pool v))

  abbrev removed : RuleTables G → Pdr → RuleTables G
  removed r p = (remove_far G (remove_pdr G r p).0 (record { far_id = p.far })).0

  removed-Without : (r : RuleTables G) (p : Pdr) → r.associated ≡ true → Without r (removed r p) p
  unfolding remove_pdr remove_far
  removed-Without r p on =
      if_on
        (λ (x : RuleTables G × Bool). Without r (remove_far G x.0 (record { far_id = p.far })).0 p)
        r.associated _ _ on
        (if_on (λ (x : RuleTables G × Bool). Without r x.0 p) r.associated _ _ on
          (refl, λ v. refl, λ v. refl))

  set_again :
      {R : Type 0} (f : ℕ → R) (u : ℕ) (r s : R) (j : ℕ)
      → set_at (set_at f u r) u s j ≡ set_at f u s j
  set_again f u r s j = ground arith

  -- The world behind the removal of a PDR and its FAR.
  abbrev pub rules_gone : World G → ℕ → PfcpSessionContext → Pdr → World G
  rules_gone w u c p =
      let w1 =
        change_upf G (set_context G w u (set_pdr c p.pdr_id none)) u (λ upf. remove_pdr G upf p) in
      change_upf G w1 u (λ upf. remove_far G upf (record { far_id = p.far }))

  gone_at :
      (w : World G) (u : ℕ) (c : PfcpSessionContext) (p : Pdr) (j : ℕ)
      → (rules_gone w u c p).upfs j ≡ set_at w.upfs u (removed (w.upfs u) p) j
  gone_at w u c p j =
      set_again w.upfs u (remove_pdr G (w.upfs u) p).0
        (remove_far G (set_at w.upfs u (remove_pdr G (w.upfs u) p).0 u)
          (record { far_id = p.far })).0
        j
      ∙ ap (λ r. set_at w.upfs u (remove_far G r (record { far_id = p.far })).0 j)
          (here_is G w.upfs u (remove_pdr G (w.upfs u) p).0)

  pub rules_gone-Gave :
      (w : World G) (u : ℕ) (c : PfcpSessionContext) (p : Pdr)
      → w.pfcp_context u ≡ some c
      → (w.upfs u).associated ≡ true
      → Gave G w (rules_gone w u c p) ((u, p) ∷ [])
  rules_gone-Gave w u c p there on =
      let gone = removed-Without (w.upfs u) p on in
      let at : (rules_gone w u c p).upfs u ≡ removed (w.upfs u) p =
        gone_at w u c p u ∙ here_is G w.upfs u (removed (w.upfs u) p) in
      let away : (j : ℕ) → u ≢ j → (rules_gone w u c p).upfs j ≡ w.upfs j =
        λ j. λ ne. gone_at w u c p j ∙ elsewhere G w.upfs u (removed (w.upfs u) p) j ne in
      record {
        base = record {
          associated = λ j.
              ap (λ r. r.associated) (gone_at w u c p j)
              ∙ at_each G (λ i r. r.associated ≡ (w.upfs i).associated) w.upfs u
                  (removed (w.upfs u) p) gone.0 (λ i. refl) j;
          contexts =
              at_each G (λ j o. is_missing o ≡ is_missing (w.pfcp_context j)) w.pfcp_context u
                (some (set_pdr c p.pdr_id none)) (ap is_missing (sym there)) (λ j. refl);
        };
        pdrs =
            Cleared-one (pdrs_of G w) (pdrs_of G (rules_gone w u c p)) key_pdr u p
              (λ v. ap (λ r. r.pdrs.pool v) at ∙ gone.1 v)
              (λ j v. λ ne. ap (λ r. r.pdrs.pool v) (away j ne));
        fars =
            Cleared-one (fars_of G w) (fars_of G (rules_gone w u c p)) key_far u p
              (λ v. ap (λ r. r.fars.pool v) at ∙ gone.2 v)
              (λ j v. λ ne. ap (λ r. r.fars.pool v) (away j ne));
        sessions =
            Cleared-one (sessions_of G w) (sessions_of G (rules_gone w u c p)) key_pdr u p
              (λ v.
                ap (λ o. in_context o v)
                  (here_is G w.pfcp_context u (some (set_pdr c p.pdr_id none)))
                ∙ ap (λ o. if p.pdr_id == v then none else in_context o v) (sym there))
              (λ j v. λ ne.
                ap (λ o. in_context o v)
                  (elsewhere G w.pfcp_context u (some (set_pdr c p.pdr_id none)) j ne));
      }

  pub Untouched-Gave :
      (a b c : World G) (s : List (ℕ × Pdr)) → Gave G a b s → Untouched G b c → Gave G a c s
  Untouched-Gave a b c s g t = record {
    base = record {
      associated = λ u. (t.0 u).0 ∙ g.base.associated u;
      contexts = λ u. ap (λ f. is_missing (f u)) t.1 ∙ g.base.contexts u;
    };
    pdrs = λ u v. ap (λ q. q.pool v) (t.0 u).1 ∙ g.pdrs u v;
    fars = λ u v. ap (λ q. q.pool v) (t.0 u).2 ∙ g.fars u v;
    sessions = λ u v. ap (λ f. in_context (f u) v) t.1 ∙ g.sessions u v;
  }
