-- ===== src/DataPath/Tunnel/Views.antt =====
-- What a state holds of PDRs and FARs, and that a step has taken some of them.
use smf_nwdaf_ext.Common.{
  ℕ, ◌≡◌, refl, sym, ◌∙◌, Bool, true, false, inl, inr, Option, none, some, List, [], ◌∷◌, ◌++◌,
  arith, Bool-cases,
}
use smf_nwdaf_ext.Rules.{IdGenerator, Pdr, Far}
use smf_nwdaf_ext.Rules.Handling.Keeping.{AllTracked}
use smf_nwdaf_ext.DataPath.Tunnel.{World, TunnelPdr, PfcpSessionContext}
use smf_nwdaf_ext.DataPath.Tunnel.Covering.{Covered, marks, uses, uses-append, Covered-append}

abbrev pub key_pdr : Pdr → ℕ
key_pdr p = p.pdr_id

abbrev pub key_far : Pdr → ℕ
key_far p = p.far

abbrev pub in_context : Option PfcpSessionContext → ℕ → Option Pdr
in_context none v = none
in_context (some c) v = c.pdrs v

abbrev pub is_missing : Option PfcpSessionContext → Bool
is_missing none = true
is_missing (some c) = false

module _ (G : IdGenerator) where
  abbrev pub pdrs_of : World G → ℕ → ℕ → Option Pdr
  pdrs_of w u v = (w.upfs u).pdrs.pool v

  abbrev pub fars_of : World G → ℕ → ℕ → Option Far
  fars_of w u v = (w.upfs u).fars.pool v

  abbrev pub sessions_of : World G → ℕ → ℕ → Option Pdr
  sessions_of w u v = in_context (w.pfcp_context u) v

  -- Tables that are tracked, and sessions that name only PDRs of the UPFs.
  pub record Sound (w : World G) : Type 0 where
    pub tracked : (u : ℕ) → AllTracked G (w.upfs u)
    pub known : (u v : ℕ) → pdrs_of w u v ≡ none → sessions_of w u v ≡ none

  pub record SameBase (w w' : World G) : Type 0 where
    pub associated : (u : ℕ) → (w'.upfs u).associated ≡ (w.upfs u).associated
    pub contexts : (u : ℕ) → is_missing (w'.pfcp_context u) ≡ is_missing (w.pfcp_context u)

  pub record Took (w w' : World G) (held : List (ℕ × Pdr)) : Type 0 where
    pub sound : Sound w'
    pub base : SameBase w w'
    pub on : (u : ℕ) → uses held u ≡ true → (w.upfs u).associated ≡ true
    pub pdrs : Covered (pdrs_of w) (pdrs_of w') (marks key_pdr held)
    pub fars : Covered (fars_of w) (fars_of w') (marks key_far held)
    pub sessions : Covered (sessions_of w) (sessions_of w') (marks key_pdr held)

  abbrev pub held_in : ℕ → Option TunnelPdr → List (ℕ × Pdr)
  held_in u none = []
  held_in u (some p) = (u, p.pdr) ∷ []

  pub Took-append :
      (a b c : World G) (s t : List (ℕ × Pdr)) → Took a b s → Took b c t → Took a c (s ++ t)
  Took-append a b c s t p q = record {
    sound = q.sound;
    base = record {
      associated = λ u. q.base.associated u ∙ p.base.associated u;
      contexts = λ u. q.base.contexts u ∙ p.base.contexts u;
    };
    on = λ u. λ m. elim (Bool-cases (uses s u)) [
      | inl first ↦ p.on u first
      | inr other ↦ sym (p.base.associated u) ∙ q.on u (ground (arith, uses-append s t u))
    ];
    pdrs = Covered-append (pdrs_of a) (pdrs_of b) (pdrs_of c) key_pdr s t p.pdrs q.pdrs;
    fars = Covered-append (fars_of a) (fars_of b) (fars_of c) key_far s t p.fars q.fars;
    sessions =
        Covered-append (sessions_of a) (sessions_of b) (sessions_of c) key_pdr s t p.sessions
          q.sessions;
  }

  pub Took-nothing : (w : World G) → Sound w → Took w w []
  Took-nothing w k = record {
    sound = k;
    base = record { associated = λ u. refl; contexts = λ u. refl };
    on = λ u. λ m. ground arith;
    pdrs = λ u v. (λ m. ground arith, λ m. refl);
    fars = λ u v. (λ m. ground arith, λ m. refl);
    sessions = λ u v. (λ m. ground arith, λ m. refl);
  }
