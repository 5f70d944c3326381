-- ===== src/UeIpPool/Creation.antt =====
-- The pool that a subnet makes.
use Prim.Native.Nat.{bit_and, bit_or}
use native.Mathlib.Nat.{pow-le-pow_right}
use smf_nwdaf_ext.Common.{
  ℕ, ◌+◌, ◌-◌, ◌*◌, ◌^◌, ◌≤◌, ◌<◌, ◌≡◌, refl, ap, ◌∙◌, ◌&&◌, leb, if◌then◌else◌, some, arith, List,
  [], ◌∷◌,
}
use smf_nwdaf_ext.Net.{IpNet, big_endian_uint32}
use smf_nwdaf_ext.Net.Bytes.{IsIp4, big_endian-IsIp4}
use smf_nwdaf_ext.Net.Bits.{bit_and-le, le-bit_or, bit_or-lt, mask_lem}
use smf_nwdaf_ext.Pool.{LazyReusePool, new_pool}
use smf_nwdaf_ext.Pool.Contents.{IsValid, copies}
use smf_nwdaf_ext.Pool.Accounting.{new_pool-IsValid}
use smf_nwdaf_ext.UeIpPool.{UeIpPool, calc_addr_range, new_ue_ip_pool, complement}

-- A pool that holds addresses of 32 bits.
pub record IsAddressPool (p : UeIpPool) : Type 0 where
  pub valid : IsValid p.pool
  pub bound : p.pool.last < 4294967296

-- A mask with `k` zeros at its end, after ones only.
abbrev pub IsMask : List ℕ → ℕ → Type 0
IsMask mask k = (k ≤ 32) × (big_endian_uint32 mask ≡ some (4294967296 - 2 ^ k))

-- The addresses that agree with `base` in all but the lowest `k` bits: `2 ^ k` in a row, from a multiple
-- of `2 ^ k` on.
abbrev pub IsBlock : ℕ → ℕ → ℕ → ℕ → Type 0
IsBlock base k lo hi =
    (lo ≤ base) × (base ≤ hi) × (hi + 1 ≡ lo + 2 ^ k) × ((q : ℕ) × (lo ≡ q * 2 ^ k))

complement_mask : (k : ℕ) → k ≤ 32 → complement (4294967296 - 2 ^ k) ≡ 2 ^ k - 1
complement_mask k h =
    let bound : 2 ^ k ≤ 2 ^ 32 = pow-le-pow_right {n = 2} (omega arith) h in omega (arith, bound)

pub calc_addr_range_lem :
    (net : IpNet) (k : ℕ)
    → IsIp4 net.ip
    → IsMask net.mask k
    → (base : ℕ) × (lo : ℕ) × (hi : ℕ) × (big_endian_uint32 net.ip ≡ some base)
      × (calc_addr_range net ≡ some (lo, hi))
      × IsBlock base k lo hi
      × (hi < 4294967296)
unfolding calc_addr_range
calc_addr_range_lem net k i (small, em) =
    let (base, eb, hb) = big_endian-IsIp4 i in
    let mask = 4294967296 - 2 ^ k in
    let low = bit_and-le base mask in
    let high = le-bit_or base (complement mask) in
    let wide = bit_or-lt 32 base (complement mask) (omega arith) (omega arith) in
    let (sum, (q, aligned)) = mask_lem k 32 base (omega (arith, hb)) small in
    let same : bit_or base (complement mask) ≡ bit_or base (2 ^ k - 1) =
      ap (bit_or base) (complement_mask k small) in
    (
      base,
      bit_and base mask,
      bit_or base (complement mask),
      eb,
      ground arith,
      (low, high, omega (arith, sum, same), (q, aligned)),
      omega arith,
    )

new_pool-some :
    (lo hi : ℕ)
    → lo ≤ hi
    → (q : LazyReusePool) × (new_pool lo hi ≡ some q) × (q.remain ≡ hi - lo + 1)
unfolding new_pool
new_pool-some lo hi h = (
  record {
    segments = record { first = lo; last = hi } ∷ [];
    first = lo;
    last = hi;
    remain = hi - lo + 1;
  },
  ground arith,
  refl,
)

-- A subnet of four-byte address and a mask of ones and then `k` zeros makes a pool. It is valid and its
-- addresses fit 32 bits. Its range is the subnet's: the `2 ^ k` addresses in a row, from a multiple of
-- `2 ^ k` on, that have the subnet's own address among them. Each of them is free once, and no other.
pub new_ue_ip_pool_lem :
    (net : IpNet) (k : ℕ)
    → IsIp4 net.ip
    → IsMask net.mask k
    → (p : UeIpPool) × (base : ℕ) × (new_ue_ip_pool (some net) ≡ some p)
      × IsAddressPool p
      × (big_endian_uint32 net.ip ≡ some base)
      × IsBlock base k p.pool.first p.pool.last
      × (p.pool.remain ≡ 2 ^ k)
      × ((v : ℕ)
          → copies p.pool.segments v ≡ (if leb p.pool.first v && leb v p.pool.last then 1 else 0))
unfolding new_ue_ip_pool
new_ue_ip_pool_lem net k i m =
    let (base, lo, hi, eb, range, (l, h, count, aligned), wide) = calc_addr_range_lem net k i m in
    let (q, made, left) = new_pool-some lo hi (omega arith) in
    let (valid, first, last, free_once) = new_pool-IsValid lo hi q made in
    (
      record { ue_sub_net = net; pool = q },
      base,
      rw (range, made),
      record { valid = valid; bound = omega arith },
      eb,
      (omega arith, omega arith, omega (arith, first, last, count), (aligned.0, first ∙ aligned.1)),
      omega (arith, left, l, h, count),
      λ v. rw (first, last) (free_once v),
    )
