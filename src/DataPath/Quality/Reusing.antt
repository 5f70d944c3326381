-- ===== src/DataPath/Quality/Reusing.antt =====
-- One QER for a UPF and a flow.
use smf_nwdaf_ext.Common.{
  ℕ, ◌≡◌, ◌≢◌, refl, ap, ◌∙◌, subst, Bool, true, false, ◌&&◌, ◌||◌, not, Option, none, some, List,
  [], ◌∷◌, ◌==◌, if◌then◌else◌, arith, Bool-cases, Option-cases, if_both, inl, inr,
}
use smf_nwdaf_ext.Rules.{IdGenerator, Qer, RuleTables}
use smf_nwdaf_ext.Rules.Handling.{add_qer}
use smf_nwdaf_ext.Pfcp.{Duplex}
use smf_nwdaf_ext.Qos.BitRate.{Text, bit_rate_to_kbps}
use smf_nwdaf_ext.Qos.Flow.{QosData, is_gbr_flow}
use smf_nwdaf_ext.DataPath.Tunnel.{Hop}
use smf_nwdaf_ext.DataPath.Forwarding.{Status, going, returned, crashed}
use smf_nwdaf_ext.DataPath.Quality.{
  QosState, Rates, rates, no_rates, pair_of, rates_of, Found, Added, new_qer, qer_for, behind,
  add_qos_from, add_qos, is_nil,
}

abbrev is_set : Option ℕ → Bool
is_set none = false
is_set (some id) = true

-- The path passes through the UPF.
abbrev pub passes : List Hop → ℕ → Bool
passes [] u = false
passes (hop ∷ hops) u = hop.upf == u || passes hops u

-- Every UPF of the one path is a UPF of the other.
abbrev pub Within : List Hop → List Hop → Type 0
Within [] hops = true ≡ true
Within (hop ∷ more) hops = (passes hops hop.upf ≡ true) × Within more hops

module _ (G : IdGenerator) where
  abbrev mapped : QosState G → ℕ → ℕ → Bool
  mapped s qfi u = is_set (s.qer_upf_map u qfi)

  -- What the search for a QER leaves.
  abbrev Finds : QosState G → ℕ → ℕ → Found G → Type 0
  Finds s qfi u f =
      ((v : ℕ) → mapped s qfi v ≡ true → mapped f.0 qfi v ≡ true)
      × (f.2 ≡ going → mapped f.0 qfi u ≡ true)

  new_qer-Finds :
      (s : QosState G) (u qfi : ℕ) (r : Rates) (tables : RuleTables G) (o : Option Qer)
      → ((status : Status) → r ≡ no_rates status → status ≢ going)
      → Finds s qfi u (new_qer G s u qfi r (tables, o))
  new_qer-Finds s u qfi r tables none fails = (λ v. λ m. m, λ e. ground arith)
  new_qer-Finds s u qfi (no_rates status) tables (some qer) fails =
      (λ v. λ m. m, λ e. absurd (fails status refl e))
  new_qer-Finds s u qfi (rates gbr mbr) tables (some qer) fails = (
    λ v. λ m. elim (Bool-cases (u == v)) [
      | inl same ↦ rw same (ground arith)
      | inr other ↦ rw other m
    ],
    λ e. ground arith,
  )

  qer_for-Finds :
      (s : QosState G) (u qfi : ℕ) (r : Rates) (o : Option ℕ)
      → s.qer_upf_map u qfi ≡ o
      → ((status : Status) → r ≡ no_rates status → status ≢ going)
      → Finds s qfi u (qer_for G s u qfi r o)
  qer_for-Finds s u qfi r none there fails =
      new_qer-Finds s u qfi r (add_qer G (s.upfs u)).0 (add_qer G (s.upfs u)).1 fails
  qer_for-Finds s u qfi r (some id) there fails = (λ v. λ m. m, λ e. ap is_set there)

  abbrev AllFound : QosState G → ℕ → List Hop → Added G → Type 0
  AllFound s qfi hops a =
      ((v : ℕ) → mapped s qfi v ≡ true → mapped a.0 qfi v ≡ true)
      × (a.2 ≡ going → (v : ℕ) → passes hops v ≡ true → mapped a.0 qfi v ≡ true)

  behind-AllFound :
      (s : QosState G) (qfi : ℕ) (hop : Hop) (hops : List Hop) (f : Found G) (a : Added G)
      → Finds s qfi hop.upf f
      → AllFound f.0 qfi hops a
      → AllFound s qfi (hop ∷ hops) (behind G hop hops f a)
  behind-AllFound s qfi hop hops (s1, qer, returned) a finds all = (finds.0, λ e. ground arith)
  behind-AllFound s qfi hop hops (s1, qer, crashed) a finds all = (finds.0, λ e. ground arith)
  behind-AllFound s qfi hop hops (s1, qer, going) (s2, more, status) finds all = (
    λ v. λ m. all.0 v (finds.0 v m),
    λ e. λ v. λ m. elim (Bool-cases (hop.upf == v)) [
      | inl same ↦
          let at : hop.upf ≡ v = ground arith in
          subst (λ u. mapped s2 qfi u ≡ true) at (all.0 hop.upf (finds.1 refl))
      | inr other ↦ all.1 e v (ground arith)
    ],
  )

  add_qos_from-AllFound :
      (qfi : ℕ) (r : Rates) (s : QosState G) (hops : List Hop)
      → ((status : Status) → r ≡ no_rates status → status ≢ going)
      → AllFound s qfi hops (add_qos_from G qfi r s hops)
  unfolding add_qos_from
  add_qos_from-AllFound qfi r s [] fails = (λ v. λ m. m, λ e. λ v. λ m. ground arith)
  add_qos_from-AllFound qfi r s (hop ∷ hops) fails =
      let found = qer_for G s hop.upf qfi r (s.qer_upf_map hop.upf qfi) in
      behind-AllFound s qfi hop hops found (add_qos_from G qfi r found.0 hops)
        (qer_for-Finds s hop.upf qfi r (s.qer_upf_map hop.upf qfi) refl fails)
        (add_qos_from-AllFound qfi r found.0 hops fails)

  -- Where all is mapped, nothing is made.
  reuses :
      (qfi : ℕ) (r : Rates) (s : QosState G) (hops : List Hop)
      → ((v : ℕ) → passes hops v ≡ true → mapped s qfi v ≡ true)
      → ((add_qos_from G qfi r s hops).0 ≡ s) × ((add_qos_from G qfi r s hops).2 ≡ going)
  unfolding add_qos_from
  reuses qfi r s [] all = (refl, refl)
  reuses qfi r s (hop ∷ hops) all = elim (Option-cases (s.qer_upf_map hop.upf qfi)) [
    | inl missing ↦ let set = all hop.upf (ground arith) in absurd (ground (arith, missing, set))
    | inr (id, there) ↦ rw there (reuses qfi r s hops (λ v. λ m. all v (ground arith)))
  ]

  abbrev Stops : Rates → Type 0
  Stops r = (status : Status) → r ≡ no_rates status → status ≢ going

  pair_of-Stops :
      (failed : Status) (k : Duplex → Rates) (ul dl : Option ℕ)
      → failed ≢ going
      → ((d : Duplex) → Stops (k d))
      → Stops (pair_of failed k ul dl)
  pair_of-Stops failed k none dl f h status e = λ g. f (rates_status failed status e ∙ g)
    where
      rates_status : (a b : Status) → no_rates a ≡ no_rates b → a ≡ b
      rates_status a b e = ground arith
  pair_of-Stops failed k (some ul) none f h status e = λ g. f (rates_status failed status e ∙ g)
    where
      rates_status : (a b : Status) → no_rates a ≡ no_rates b → a ≡ b
      rates_status a b e = ground arith
  pair_of-Stops failed k (some ul) (some dl) f h status e = h (record { ul = ul; dl = dl }) status e

  made-Stops : (gbr : Option Duplex) (mbr : Duplex) → Stops (rates gbr mbr)
  made-Stops gbr mbr status e = ground arith

  rates_of-Stops :
      (parse_float : Text → Option ℕ) (qos : Option QosData) → Stops (rates_of parse_float qos)
  rates_of-Stops parse_float none = λ status. λ e. ground arith
  rates_of-Stops parse_float (some qos) =
      let kbps = bit_rate_to_kbps parse_float in
      if_both Stops (is_gbr_flow (some qos))
        (pair_of-Stops crashed
          (λ gbr.
            pair_of crashed (λ mbr. rates (some gbr) mbr) (kbps qos.maxbr_ul) (kbps qos.maxbr_dl))
          (kbps qos.gbr_ul) (kbps qos.gbr_dl) (λ e. ground arith)
          (λ gbr.
            pair_of-Stops crashed (λ mbr. rates (some gbr) mbr) (kbps qos.maxbr_ul)
              (kbps qos.maxbr_dl) (λ e. ground arith) (λ mbr. made-Stops (some gbr) mbr)))
        (pair_of-Stops returned (λ mbr. rates none mbr) (kbps qos.maxbr_ul) (kbps qos.maxbr_dl)
          (λ e. ground arith) (λ mbr. made-Stops none mbr))

  Within-passes :
      (more hops : List Hop) (u : ℕ)
      → Within more hops
      → passes more u ≡ true
      → passes hops u ≡ true
  Within-passes [] hops u w m = ground arith
  Within-passes (hop ∷ more) hops u w m = elim (Bool-cases (hop.upf == u)) [
    | inl same ↦ let at : hop.upf ≡ u = ground arith in subst (λ v. passes hops v ≡ true) at w.0
    | inr other ↦ Within-passes more hops u w.1 (ground arith)
  ]

  -- `AddQoS` makes one QER for a UPF and a flow. Where it has gone through a path to its end, a call for
  -- the same flow and any path over UPFs of that one makes nothing: no UPF, and no entry of the
  -- session, changes, and the call too goes through to the end.
  pub add_qos-reuses :
      (parse_float : Text → Option ℕ) (s : QosState G) (hops more : List Hop) (qfi : ℕ)
      (qos : Option QosData)
      → (add_qos G parse_float s hops qfi qos).2 ≡ going
      → Within more hops
      → ((add_qos G parse_float (add_qos G parse_float s hops qfi qos).0 more qfi qos).0
          ≡ (add_qos G parse_float s hops qfi qos).0)
        × ((add_qos G parse_float (add_qos G parse_float s hops qfi qos).0 more qfi qos).2 ≡ going)
  unfolding add_qos
  add_qos-reuses parse_float s hops more qfi qos fine within =
      elim (Bool-cases (is_nil qos && not (qfi == 1))) [
        | inl skip ↦ rw skip (refl, refl)
        | inr on ↦
            let r = rates_of parse_float qos in
            let s1 = (add_qos_from G qfi r s hops).0 in
            let fine' : (add_qos_from G qfi r s hops).2 ≡ going =
              subst (λ b. (if b then (s, hops, going) else add_qos_from G qfi r s hops).2 ≡ going)
                on fine in
            let found = add_qos_from-AllFound qfi r s hops (rates_of-Stops parse_float qos) in
            rw on (
              reuses qfi r s1 more (λ v. λ m. found.1 fine' v (Within-passes more hops v within m)))
      ]
