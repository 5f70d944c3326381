-- ===== src/UeIpPool.antt =====
-- internal/context/ue_ip_pool.go: the addresses of one UE subnet. `net.ParseCIDR` is handed over as
-- its result, `none` for an error; what is logged is left out.
pub mod Creation
pub mod Leases
pub mod Overlap
pub mod Examples
use Prim.Native.Nat.{bit_and, bit_or}
use smf_nwdaf_ext.Common.{
  ℕ, suc, ◌-◌, ◌%◌, Bool, true, false, Option, none, some, List, [], ◌∷◌, ltb, if◌then◌else◌,
  length,
}
use smf_nwdaf_ext.Net.{Ip, IpNet, big_endian_uint32, put_uint32}
use smf_nwdaf_ext.Pool.{
  LazyReusePool, new_pool, allocate, use_value, free, reserve, Reserved, is_joint,
}

pub record UeIpPool : Type 0 where
  pub ue_sub_net : IpNet
  pub pool : LazyReusePool

infixl 5 ◌>>=◌
abbrev ◌>>=◌ {ℓ κ} : {A : Type ℓ} {B : Type κ} → Option A → (A → Option B) → Option B
none >>= f = none
some a >>= f = f a

-- `^` on a uint32.
abbrev complement : ℕ → ℕ
complement n = 4294967295 - n

-- `none` is the error "mask is invalid", or the panic on a short address or mask.
pub calc_addr_range : IpNet → Option (ℕ × ℕ)
calc_addr_range net = do
  mask ← big_endian_uint32 net.mask
  base ← big_endian_uint32 net.ip
  let min_addr = bit_and base mask
  let max_addr = bit_or base (complement mask)
  if ltb max_addr min_addr then none else some (min_addr, max_addr)

pub new_ue_ip_pool : Option IpNet → Option UeIpPool
unfolding calc_addr_range
new_ue_ip_pool parsed = do
  net ← parsed
  range ← calc_addr_range net
  pool ← new_pool range.0 range.1
  some (record { ue_sub_net = net; pool = pool })

-- What `Allocate` returns, and `crash` where it panics.
pub data Allocation : Type 0 where
  address : Ip → Allocation
  no_address crash : Allocation

-- `uint32ToIP` of a value, which is cut to its lowest 32 bits first.
pub uint32_to_ip : ℕ → Ip
uint32_to_ip n = put_uint32 (n % 4294967296)

pub allocate_requested : UeIpPool → ℕ → UeIpPool × Allocation
unfolding uint32_to_ip
allocate_requested p value =
    let (pool, ok) = use_value p.pool value in
    if ok
    then (record p { pool = pool }, address (uint32_to_ip value))
    else (record p { pool = pool }, no_address)

pub allocate_any : UeIpPool → LazyReusePool × Option ℕ → UeIpPool × Allocation
unfolding uint32_to_ip
allocate_any p (pool, none) = (record p { pool = pool }, no_address)
allocate_any p (pool, some value) = (record p { pool = pool }, address (uint32_to_ip value))

unfoldable pub allocate_ip : UeIpPool → Option Ip → UeIpPool × Allocation
unfolding allocate_requested allocate_any
allocate_ip p none = allocate_any p (allocate p.pool)
allocate_ip p (some request) = elim (big_endian_uint32 request) [
  | none ↦ (p, crash)
  | some value ↦ allocate_requested p value
]

-- `none` is the panic on a short address. A refused `Free` is only logged.
pub release : UeIpPool → Ip → Option UeIpPool
release p addr = do value ← big_endian_uint32 addr; some (record p { pool = (free p.pool value).0 })

-- `none` is the error of `Reserve`.
pub exclude : UeIpPool → UeIpPool → Reserved
exclude p excluded = reserve p.pool excluded.pool.first excluded.pool.last

joint_with : UeIpPool → List UeIpPool → Bool
joint_with p [] = false
joint_with p (q ∷ pools) = if is_joint p.pool q.pool then true else joint_with p pools

-- The loops over `i` and `j`.
overlap_from : List UeIpPool → Bool
unfolding joint_with
overlap_from [] = false
overlap_from (p ∷ pools) = if joint_with p pools then true else overlap_from pools

pub is_overlap : List UeIpPool → Bool
unfolding overlap_from
is_overlap pools = if ltb (length pools) 2 then false else overlap_from pools
