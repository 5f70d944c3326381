-- ===== src/Rules/Handling.antt =====
-- The methods of a UPF that add, look up and remove its rules, of internal/context/upf.go. Each
-- returns `none`, or `false`, for an error.
pub mod Keeping
pub mod Histories
pub mod Adding
pub mod Examples
use smf_nwdaf_ext.Common.{
  ℕ, ◌+◌, ◌%◌, ◌≤◌, ◌≡◌, ◌≢◌, Bool, true, false, not, Option, none, some, List, [], ◌∷◌, ◌==◌,
  if◌then◌else◌,
}
use smf_nwdaf_ext.Rules.{
  IdGenerator, Table, take_id, store, remove, Pdr, Far, Bar, Qer, Urr, method_vol, UrrOpt,
  RuleTables,
}

module _ (G : IdGenerator) where
  pub pdr_id : RuleTables G → RuleTables G × Option ℕ
  pdr_id upf =
      let (t, id) = take_id G 65536 upf.pdrs in
      if upf.associated then (record upf { pdrs = t }, id) else (upf, none)

  pub far_id : RuleTables G → RuleTables G × Option ℕ
  far_id upf =
      let (t, id) = take_id G 4294967296 upf.fars in
      if upf.associated then (record upf { fars = t }, id) else (upf, none)

  pub bar_id : RuleTables G → RuleTables G × Option ℕ
  bar_id upf =
      let (t, id) = take_id G 256 upf.bars in
      if upf.associated then (record upf { bars = t }, id) else (upf, none)

  pub qer_id : RuleTables G → RuleTables G × Option ℕ
  qer_id upf =
      let (t, id) = take_id G 4294967296 upf.qers in
      if upf.associated then (record upf { qers = t }, id) else (upf, none)

  -- It does not ask for the association, unlike the others.
  pub urr_id : RuleTables G → RuleTables G × Option ℕ
  urr_id upf = let (t, id) = take_id G 4294967296 upf.urrs in (record upf { urrs = t }, id)

  abbrev pub store_far : RuleTables G × Option ℕ → RuleTables G × Option Far
  store_far (upf, none) = (upf, none)
  store_far (upf, some id) =
      let far : Far = record { far_id = id } in
      (record upf { fars = store G id far upf.fars }, some far)

  pub add_far : RuleTables G → RuleTables G × Option Far
  unfolding far_id
  add_far upf = if upf.associated then store_far (far_id upf) else (upf, none)

  -- Behind the call of `AddFAR`, which has given `far`.
  abbrev pub store_pdr : ℕ → RuleTables G × Option Far → RuleTables G × Option Pdr
  store_pdr id (upf, none) = (upf, none)
  store_pdr id (upf, some far) =
      let pdr : Pdr = record { pdr_id = id; far = far.far_id } in
      (record upf { pdrs = store G id pdr upf.pdrs }, some pdr)

  abbrev pub pdr_with_far : RuleTables G × Option ℕ → RuleTables G × Option Pdr
  unfolding add_far
  pdr_with_far (upf, none) = (upf, none)
  pdr_with_far (upf, some id) = store_pdr id (add_far upf)

  pub add_pdr : RuleTables G → RuleTables G × Option Pdr
  unfolding pdr_id pdr_with_far
  add_pdr upf = if upf.associated then pdr_with_far (pdr_id upf) else (upf, none)

  abbrev pub store_bar : RuleTables G × Option ℕ → RuleTables G × Option Bar
  store_bar (upf, none) = (upf, none)
  store_bar (upf, some id) =
      let bar : Bar = record { bar_id = id } in
      (record upf { bars = store G id bar upf.bars }, some bar)

  pub add_bar : RuleTables G → RuleTables G × Option Bar
  unfolding bar_id
  add_bar upf = if upf.associated then store_bar (bar_id upf) else (upf, none)

  abbrev pub store_qer : RuleTables G × Option ℕ → RuleTables G × Option Qer
  store_qer (upf, none) = (upf, none)
  store_qer (upf, some id) =
      let qer : Qer = record { qer_id = id } in
      (record upf { qers = store G id qer upf.qers }, some qer)

  unfoldable pub add_qer : RuleTables G → RuleTables G × Option Qer
  unfolding qer_id
  add_qer upf = if upf.associated then store_qer (qer_id upf) else (upf, none)

  abbrev pub apply_opts : List UrrOpt → Urr → Urr
  apply_opts [] urr = urr
  apply_opts (opt ∷ opts) urr = apply_opts opts (opt urr)

  pub initial_urr : ℕ → Urr
  initial_urr id = record {
    urr_id = id;
    measure_method = method_vol;
    reporting_trigger = record { perio = false; volth = false; volqu = false; start = false };
    measurement_period = 0;
    measurement_information = record { mnop = true; mbqe = false };
    volume_threshold = 0;
    volume_quota = 0;
  }

  abbrev pub store_urr : List UrrOpt → RuleTables G × Option ℕ → RuleTables G × Option Urr
  unfolding initial_urr
  store_urr opts (upf, none) = (upf, none)
  store_urr opts (upf, some id) =
      let urr = apply_opts opts (initial_urr id) in
      (record upf { urrs = store G urr.urr_id urr upf.urrs }, some urr)

  -- An identifier of zero stands for a fresh one.
  pub add_urr : ℕ → List UrrOpt → RuleTables G → RuleTables G × Option Urr
  unfolding urr_id
  add_urr id opts upf =
      if upf.associated
      then store_urr opts (if id == 0 then urr_id upf else (upf, some id))
      else (upf, none)

  pub get_qer_by_id : RuleTables G → ℕ → Option Qer
  get_qer_by_id upf id = upf.qers.pool id

  -- `false` is the error of an UPF that is not associated.
  unfoldable pub remove_pdr : RuleTables G → Pdr → RuleTables G × Bool
  remove_pdr upf pdr =
      if upf.associated
      then (record upf { pdrs = remove G pdr.pdr_id upf.pdrs }, true)
      else (upf, false)

  unfoldable pub remove_far : RuleTables G → Far → RuleTables G × Bool
  remove_far upf far =
      if upf.associated
      then (record upf { fars = remove G far.far_id upf.fars }, true)
      else (upf, false)

  unfoldable pub remove_bar : RuleTables G → Bar → RuleTables G × Bool
  remove_bar upf bar =
      if upf.associated
      then (record upf { bars = remove G bar.bar_id upf.bars }, true)
      else (upf, false)

  unfoldable pub remove_qer : RuleTables G → Qer → RuleTables G × Bool
  remove_qer upf qer =
      if upf.associated
      then (record upf { qers = remove G qer.qer_id upf.qers }, true)
      else (upf, false)

  unfoldable pub remove_urr : RuleTables G → Urr → RuleTables G × Bool
  remove_urr upf urr =
      if upf.associated
      then (record upf { urrs = remove G urr.urr_id upf.urrs }, true)
      else (upf, false)
