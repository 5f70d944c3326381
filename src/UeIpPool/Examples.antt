-- ===== src/UeIpPool/Examples.antt =====
-- A pool of eight addresses, 10.0.0.0/29.
use smf_nwdaf_ext.Common.{
  ℕ, ◌≤◌, ◌≡◌, ◌↔◌, refl, false, ◌&&◌, leb, if◌then◌else◌, [], ◌∷◌, arith, none, some,
}
use smf_nwdaf_ext.Net.{IpNet, big_endian_uint32, put_uint32}
use smf_nwdaf_ext.Net.Bytes.{IsIp4, bytes}
use smf_nwdaf_ext.Pool.{new_pool, allocate}
use smf_nwdaf_ext.Pool.Contents.{copies, covers, count_free, IsDistinct}
use smf_nwdaf_ext.UeIpPool.{UeIpPool, address, new_ue_ip_pool, allocate_ip, release, is_overlap}
use smf_nwdaf_ext.UeIpPool.Creation.{IsAddressPool, IsMask, IsBlock, new_ue_ip_pool_lem}
use smf_nwdaf_ext.UeIpPool.Leases.{Outcome, Restores, allocate_ip_lem, release-allocate_ip}
use smf_nwdaf_ext.UeIpPool.Overlap.{owners, is_overlap-false_iff}

abbrev pub small_net : IpNet
small_net = record { ip = 10 ∷ 0 ∷ 0 ∷ 0 ∷ []; mask = 255 ∷ 255 ∷ 255 ∷ 248 ∷ [] }

abbrev pub small : UeIpPool
small = record {
  ue_sub_net = small_net;
  pool = record {
    segments = record { first = 167772160; last = 167772167 } ∷ [];
    first = 167772160;
    last = 167772167;
    remain = 8;
  };
}

new_small : new_ue_ip_pool (some small_net) ≡ some small
unfolding new_ue_ip_pool new_pool big_endian_uint32
new_small = refl

pub four :
    (a b c d : ℕ) → (a ≤ 255) × (b ≤ 255) × (c ≤ 255) × (d ≤ 255) → IsIp4 (a ∷ b ∷ c ∷ d ∷ [])
four a b c d h = bytes (omega arith) (omega arith) (omega arith) (omega arith)

small_mask : IsMask small_net.mask 3
unfolding big_endian_uint32
small_mask = (omega arith, refl)

new_ue_ip_pool_lem_example :
    (p : UeIpPool) × (base : ℕ) × (new_ue_ip_pool (some small_net) ≡ some p)
    × IsAddressPool p
    × (big_endian_uint32 small_net.ip ≡ some base)
    × IsBlock base 3 p.pool.first p.pool.last
    × (p.pool.remain ≡ 8)
    × ((v : ℕ)
        → copies p.pool.segments v ≡ (if leb p.pool.first v && leb v p.pool.last then 1 else 0))
new_ue_ip_pool_lem_example = new_ue_ip_pool_lem small_net 3 (four 10 0 0 0 (omega arith)) small_mask

pub small-IsAddressPool : IsAddressPool small
unfolding count_free
small-IsAddressPool = omega arith

allocate_ip_lem_example :
    Outcome small (some (10 ∷ 0 ∷ 0 ∷ 5 ∷ [])) (allocate_ip small (some (10 ∷ 0 ∷ 0 ∷ 5 ∷ [])))
allocate_ip_lem_example =
    allocate_ip_lem small (some (10 ∷ 0 ∷ 0 ∷ 5 ∷ [])) small-IsAddressPool
      (four 10 0 0 5 (omega arith))

pub small-IsDistinct : IsDistinct small.pool
unfolding copies covers
small-IsDistinct v = ground arith

abbrev leased : UeIpPool
leased = record {
  ue_sub_net = small_net;
  pool = record {
    segments = record { first = 167772161; last = 167772167 } ∷ [];
    first = 167772160;
    last = 167772167;
    remain = 7;
  };
}

allocate_first : allocate_ip small none ≡ (leased, address (10 ∷ 0 ∷ 0 ∷ 0 ∷ []))
unfolding allocate_ip allocate put_uint32
allocate_first = refl

release-allocate_ip_example :
    (r : UeIpPool) × (release leased (10 ∷ 0 ∷ 0 ∷ 0 ∷ []) ≡ some r) × Restores small r
release-allocate_ip_example =
    release-allocate_ip small leased none (10 ∷ 0 ∷ 0 ∷ 0 ∷ []) small-IsAddressPool small-IsDistinct
      tt allocate_first

is_overlap-false_iff_example :
    (is_overlap (small ∷ leased ∷ []) ≡ false) ↔ ((v : ℕ) → owners v (small ∷ leased ∷ []) ≤ 1)
is_overlap-false_iff_example = is_overlap-false_iff (small ∷ leased ∷ []) (omega arith)
