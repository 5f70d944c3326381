-- ===== src/DataPath/Quality.antt =====
-- `AddQoS` of internal/context/datapath.go: the QER of a QoS flow at each node of a path. A session
-- keeps one QER for a UPF and a flow, under the key that `getQosIdKey` makes of the two; here the map
-- has the two as its arguments. `parse_float` is the parameter of the conversion of rates.
pub mod Reusing
mod Examples
use smf_nwdaf_ext.Common.{
  ℕ, Bool, true, false, ◌&&◌, not, Option, none, some, List, [], ◌∷◌, ◌++◌, ◌==◌, if◌then◌else◌,
}
use smf_nwdaf_ext.Rules.{IdGenerator, Qer, RuleTables}
use smf_nwdaf_ext.Rules.Handling.{add_qer, get_qer_by_id}
use smf_nwdaf_ext.Pfcp.{Duplex}
use smf_nwdaf_ext.Qos.BitRate.{Text, bit_rate_to_kbps}
use smf_nwdaf_ext.Qos.Flow.{QosData, is_gbr_flow}
use smf_nwdaf_ext.DataPath.Tunnel.{Tunnel, TunnelPdr, Hop, set_at}
use smf_nwdaf_ext.DataPath.Forwarding.{Status, going, returned, crashed}

-- What `AddQoS` sets of a QER, whose gates are open.
pub record QerContents : Type 0 where
  pub qfi : ℕ
  pub gbr : Option Duplex
  pub mbr : Duplex

pub record QosState (G : IdGenerator) : Type 0 where
  pub upfs : ℕ → RuleTables G
  pub qer_upf_map : ℕ → ℕ → Option ℕ
  pub contents : ℕ → ℕ → Option QerContents

-- The rates, or what stands in their place: a return or a panic.
pub data Rates : Type 0 where
  rates : Option Duplex → Duplex → Rates
  no_rates : Status → Rates

abbrev pub pair_of : Status → (Duplex → Rates) → Option ℕ → Option ℕ → Rates
pair_of failed k none dl = no_rates failed
pair_of failed k (some ul) none = no_rates failed
pair_of failed k (some ul) (some dl) = k (record { ul = ul; dl = dl })

-- The fields of a nil `qos` are read where its flow is taken for one that is not GBR.
abbrev pub rates_of : (Text → Option ℕ) → Option QosData → Rates
rates_of parse_float none = no_rates crashed
rates_of parse_float (some qos) =
    let kbps = bit_rate_to_kbps parse_float in
    if is_gbr_flow (some qos)
    then pair_of crashed
        (λ gbr.
          pair_of crashed (λ mbr. rates (some gbr) mbr) (kbps qos.maxbr_ul) (kbps qos.maxbr_dl))
        (kbps qos.gbr_ul) (kbps qos.gbr_dl)
    else pair_of returned (λ mbr. rates none mbr) (kbps qos.maxbr_ul) (kbps qos.maxbr_dl)

abbrev pub is_nil : Option QosData → Bool
is_nil none = true
is_nil (some qos) = false

module _ (G : IdGenerator) where
  abbrev pub with_upf : QosState G → ℕ → RuleTables G → QosState G
  with_upf s u tables = record s { upfs = set_at s.upfs u tables }

  -- The state, the QER where there is one, and whether the loop goes on.
  abbrev pub Found : Type 0
  Found = (QosState G) × (Option Qer) × Status

  abbrev pub fill : QosState G → ℕ → ℕ → Qer → Rates → Found
  fill s u qfi qer (no_rates status) = (s, none, status)
  fill s u qfi qer (rates gbr mbr) = (
    record s {
      contents =
          set_at s.contents u
            (set_at (s.contents u) qer.qer_id (some (record { qfi = qfi; gbr = gbr; mbr = mbr })));
      qer_upf_map = set_at s.qer_upf_map u (set_at (s.qer_upf_map u) qfi (some qer.qer_id));
    },
    some qer,
    going,
  )

  abbrev pub new_qer : QosState G → ℕ → ℕ → Rates → RuleTables G × Option Qer → Found
  new_qer s u qfi r (tables, none) = (with_upf s u tables, none, returned)
  new_qer s u qfi r (tables, some qer) = fill (with_upf s u tables) u qfi qer r

  abbrev pub qer_for : QosState G → ℕ → ℕ → Rates → Option ℕ → Found
  qer_for s u qfi r none = new_qer s u qfi r (add_qer G (s.upfs u))
  qer_for s u qfi r (some id) = (s, get_qer_by_id G (s.upfs u) id, going)

  abbrev pub with_qer : Qer → TunnelPdr → TunnelPdr
  with_qer qer p = record p { qers = p.qers ++ (some qer ∷ []) }

  abbrev pub attach : Option Qer → Option TunnelPdr → Option TunnelPdr
  attach none p = p
  attach (some qer) none = none
  attach (some qer) (some p) = some (with_qer qer p)

  abbrev pub attach_to : Option Qer → Hop → Hop
  attach_to qer hop = record hop {
    up_link_tunnel = record (hop.up_link_tunnel) { pdr = attach qer hop.up_link_tunnel.pdr };
    down_link_tunnel = record (hop.down_link_tunnel) { pdr = attach qer hop.down_link_tunnel.pdr };
  }

  abbrev pub Added : Type 0
  Added = (QosState G) × List Hop × Status

  abbrev pub behind : Hop → List Hop → Found → Added → Added
  behind hop hops (s, qer, going) (s', more, status) = (s', attach_to qer hop ∷ more, status)
  behind hop hops (s, qer, returned) rest = (s, hop ∷ hops, returned)
  behind hop hops (s, qer, crashed) rest = (s, hop ∷ hops, crashed)

  pub add_qos_from : ℕ → Rates → QosState G → List Hop → Added
  add_qos_from qfi r s [] = (s, [], going)
  add_qos_from qfi r s (hop ∷ hops) =
      let found = qer_for s hop.upf qfi r (s.qer_upf_map hop.upf qfi) in
      let rest = add_qos_from qfi r found.0 hops in behind hop hops found rest

  pub add_qos : (Text → Option ℕ) → QosState G → List Hop → ℕ → Option QosData → Added
  unfolding add_qos_from
  add_qos parse_float s hops qfi qos =
      if is_nil qos && not (qfi == 1)
      then (s, hops, going)
      else add_qos_from qfi (rates_of parse_float qos) s hops
