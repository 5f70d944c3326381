-- ===== src/Pfcp/Requests/Repeats.antt =====
-- A modification that is sent again.
use smf_nwdaf_ext.Common.{
  ℕ, true, Option, List, [], ◌∷◌, ◌==◌, has, ◌≡◌, refl, ap, fun_ext, inl, inr, arith, Bool-cases,
}
use smf_nwdaf_ext.Net.{Ip}
use smf_nwdaf_ext.Pfcp.{Urr}
use smf_nwdaf_ext.Pfcp.Requests.{
  Order, update_at, send_each, Memory, RuleLists, pdr_order, pdr_sent, far_order, far_sent,
  bar_order, qer_order, qer_sent, build_pfcp_session_modification_request,
}

module _ {R A : Type 0} (emit : R → List (Order A)) (sent : R → R)
    (once : (r : R) → emit (sent r) ≡ []) where
  -- What was sent stays sent while the loop goes on.
  stays :
      (h : ℕ → R) (ks : List ℕ) (j : ℕ)
      → emit (h j) ≡ []
      → emit ((send_each emit sent h ks).0 j) ≡ []
  stays h [] j quiet = quiet
  stays h (k ∷ ks) j quiet =
      stays (update_at h k sent) ks j (elim (Bool-cases (k == j)) [
        | inl here ↦ rw here (once (h j))
        | inr there ↦ rw there quiet
      ])

  all_sent :
      (h : ℕ → R) (ks : List ℕ) (j : ℕ)
      → has j ks ≡ true
      → emit ((send_each emit sent h ks).0 j) ≡ []
  all_sent h [] j member = ground arith
  all_sent h (k ∷ ks) j member = elim (Bool-cases (k == j)) [
    | inl here ↦ stays (update_at h k sent) ks j (rw here (once (h j)))
    | inr there ↦ all_sent (update_at h k sent) ks j (ground arith)
  ]

  all_quiet :
      (h : ℕ → R) (ks : List ℕ)
      → ((j : ℕ) → has j ks ≡ true → emit (h j) ≡ [])
      → (send_each emit sent h ks).1 ≡ []
  all_quiet h [] quiet = refl
  all_quiet h (k ∷ ks) quiet =
      let first : emit (h k) ≡ [] = quiet k (ground arith) in
      rw first (
        all_quiet (update_at h k sent) ks (λ j. λ member. elim (Bool-cases (k == j)) [
          | inl here ↦ rw here (once (h j))
          | inr there ↦ rw there (quiet j (ground arith))
        ]))

  pub sent_once :
      (h : ℕ → R) (ks : List ℕ) → (send_each emit sent (send_each emit sent h ks).0 ks).1 ≡ []
  sent_once h ks = all_quiet (send_each emit sent h ks).0 ks (λ j. λ member. all_sent h ks j member)

-- A loop that leaves the rules alone sends the same again.
same_store : {R : Type 0} (h : ℕ → R) (k : ℕ) → update_at h k (λ r. r) ≡ h
same_store h k =
    fun_ext
      (λ j. elim (Bool-cases (k == j)) [ inl here ↦ rw here refl | inr there ↦ rw there refl ])

unchanged :
    {R A : Type 0} (emit : R → List (Order A)) (h : ℕ → R) (ks : List ℕ)
    → (send_each emit (λ r. r) h ks).0 ≡ h
unchanged emit h [] = refl
unchanged emit h (k ∷ ks) = rw (same_store h k) (unchanged emit h ks)

-- The same lists sent again, with nothing between: no order for a PDR, a FAR or a QER, and for the
-- BARs the orders that were sent already.
pub build_pfcp_session_modification_request-again :
    (qer_range : List ℕ → List ℕ) (urr_range : List Urr → List Urr) (self_ip : Option Ip)
    (seid upf : ℕ) (l : RuleLists) (m : Memory)
    → let first =
        build_pfcp_session_modification_request qer_range urr_range self_ip seid upf l m in
      let again =
        build_pfcp_session_modification_request qer_range urr_range self_ip seid upf l first.0 in
      (again.1.pdrs ≡ [])
      × (again.1.fars ≡ [])
      × (again.1.qers ≡ [])
      × (again.1.bars ≡ first.1.bars)
unfolding build_pfcp_session_modification_request
build_pfcp_session_modification_request-again qer_range urr_range self_ip seid upf l m = (
  sent_once pdr_order pdr_sent (λ r. refl) m.pdrs l.pdr_list,
  sent_once far_order far_sent (λ r. refl) m.fars l.far_list,
  sent_once qer_order qer_sent (λ r. refl) m.qers l.qer_list,
  ap (λ bars. (send_each bar_order (λ bar. bar) bars l.bar_list).1)
      (unchanged bar_order m.bars l.bar_list),
)
