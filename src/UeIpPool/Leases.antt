-- ===== src/UeIpPool/Leases.antt =====
-- An address that is handed out is the one asked for, and comes back whole.
use smf_nwdaf_ext.Common.{
  ℕ, ◌≤◌, ◌<◌, ◌%◌, ◌≡◌, refl, subst₂, ◌⊎◌, inl, inr, Option, none, some, arith, true,
}
use smf_nwdaf_ext.Net.{Ip, big_endian_uint32, put_uint32}
use smf_nwdaf_ext.Net.Bytes.{
  IsIp4, put_uint32-big_endian, big_endian-put_uint32, big_endian-IsIp4, put_uint32-IsIp4,
}
use smf_nwdaf_ext.Pool.{LazyReusePool, allocate, use_value, free}
use smf_nwdaf_ext.Pool.Contents.{copies, IsDistinct, free-bounds}
use smf_nwdaf_ext.Pool.Accounting.{
  Takes, Gives, Allocated, Used, allocate_lem, use_value_lem, free_lem,
}
use smf_nwdaf_ext.UeIpPool.{
  UeIpPool, Allocation, address, no_address, uint32_to_ip, allocate_requested, allocate_any,
  allocate_ip, release,
}
use smf_nwdaf_ext.UeIpPool.Creation.{IsAddressPool}

abbrev pub IsRequest : Option Ip → Type 0
IsRequest none = Unit {0}
IsRequest (some ip) = IsIp4 ip

-- The address that a request names is the address that is meant.
abbrev pub Honours : Option Ip → Ip → Type 0
Honours none addr = Unit {0}
Honours (some ip) addr = addr ≡ ip

-- Nothing fits a request: the pool is empty, or the address that it names is not free.
abbrev pub Exhausted : UeIpPool → Option Ip → Type 0
Exhausted p none = p.pool.remain ≡ 0
Exhausted p (some ip) =
    (value : ℕ) × (big_endian_uint32 ip ≡ some value) × (copies p.pool.segments value ≡ 0)

pub record Leases (p : UeIpPool) (request : Option Ip) (q : UeIpPool) (addr : Ip) : Type 0 where
  pub value : ℕ
  pub encoded : big_endian_uint32 addr ≡ some value
  pub taken : Takes value p.pool q.pool
  pub same_net : q.ue_sub_net ≡ p.ue_sub_net
  pub four_bytes : IsIp4 addr
  pub honoured : Honours request addr

abbrev pub Outcome : UeIpPool → Option Ip → UeIpPool × Allocation → Type 0
Outcome p request result =
    ((result ≡ (p, no_address)) × Exhausted p request)
    ⊎ ((q : UeIpPool) × (addr : Ip) × (result ≡ (q, address addr)) × Leases p request q addr)

below_mod : (n : ℕ) → n < 4294967296 → uint32_to_ip n ≡ put_uint32 n
unfolding uint32_to_ip
below_mod n h = let e : n % 4294967296 ≡ n = omega arith in rw e

allocate_any-Outcome :
    (p : UeIpPool) (r : LazyReusePool × Option ℕ)
    → IsAddressPool p
    → Allocated p.pool r
    → Outcome p none (allocate_any p r)
unfolding allocate_any
allocate_any-Outcome p r a (inl (empty, e)) = inl (rw e, empty)
allocate_any-Outcome p r a (inr (value, q, e, t, _, h)) =
    let small : value < 4294967296 = omega (arith, a.bound) in
    inr (
      record p { pool = q },
      put_uint32 value,
      rw (e, below_mod value small),
      record {
        value = value;
        encoded = put_uint32-big_endian value small;
        taken = t;
        same_net = refl;
        four_bytes = put_uint32-IsIp4 value;
        honoured = tt;
      },
    )

allocate_requested-Outcome :
    (p : UeIpPool) (ip : Ip) (value : ℕ)
    → IsIp4 ip
    → big_endian_uint32 ip ≡ some value
    → value < 4294967296
    → Used p.pool value (use_value p.pool value)
    → Outcome p (some ip) (allocate_requested p value)
unfolding allocate_requested
allocate_requested-Outcome p ip value i e small (inl (absent, r)) =
    inl (rw (r, allocate_requested), (value, e, absent))
allocate_requested-Outcome p ip value i e small (inr (q, r, t)) = inr (
  record p { pool = q },
  ip,
  rw (r, below_mod value small, big_endian-put_uint32 value i e),
  record {
    value = value;
    encoded = e;
    taken = t;
    same_net = refl;
    four_bytes = i;
    honoured = refl;
  },
)

allocate_ip-some :
    (p : UeIpPool) (ip : Ip) (value : ℕ)
    → big_endian_uint32 ip ≡ some value
    → allocate_ip p (some ip) ≡ allocate_requested p value
unfolding allocate_ip
allocate_ip-some p ip value e = rw (e, allocate_ip)

-- `Allocate` never panics on a pool of 32-bit addresses and a request of four bytes. It returns no
-- address only when nothing fits, and then changes nothing; else it takes one address out of the
-- pool, the requested one where one is requested.
pub allocate_ip_lem :
    (p : UeIpPool) (request : Option Ip)
    → IsAddressPool p
    → IsRequest request
    → Outcome p request (allocate_ip p request)
unfolding allocate_ip
allocate_ip_lem p none a i =
    allocate_any-Outcome p (allocate p.pool) a (allocate_lem p.pool a.valid)
allocate_ip_lem p (some ip) a i =
    let (value, e, small) = big_endian-IsIp4 i in
    rw (allocate_ip-some p ip value e)
      (allocate_requested-Outcome p ip value i e small (use_value_lem p.pool value a.valid))

allocate_ip-Leases :
    (p q : UeIpPool) (request : Option Ip) (addr : Ip)
    → IsAddressPool p
    → IsRequest request
    → allocate_ip p request ≡ (q, address addr)
    → Leases p request q addr
allocate_ip-Leases p q request addr a i e = elim (allocate_ip_lem p request a i) [
  | inl (r, _) ↦ absurd (ground arith)
  | inr (q', addr', r, l) ↦
      let same_pool : q' ≡ q = ground arith in
      let same_addr : addr' ≡ addr = ground arith in
      subst₂ (λ x y. Leases p request x y) same_pool same_addr l
]

-- The value is in range and no longer free, so the pool takes it back.
freed_after :
    (p q : LazyReusePool) (value : ℕ)
    → IsDistinct p
    → p.first ≤ value
    → value ≤ p.last
    → Takes value p q
    → (r : LazyReusePool) × (free q value ≡ (r, true)) × Gives value q r
freed_after p q value d l h t = elim (free_lem q value t.valid) [
  | inl (inl below, _) ↦ absurd (omega (arith, t.same_first))
  | inl (inr (inl above), _) ↦ absurd (omega (arith, t.same_last))
  | inl (inr (inr twice), _) ↦ absurd (ground (arith, d value, t.held value))
  | inr (r, e, _, _, g) ↦ (r, e, g)
]

-- The pool is as it was before, address by address.
abbrev pub Restores : UeIpPool → UeIpPool → Type 0
Restores p r =
    ((v : ℕ) → copies r.pool.segments v ≡ copies p.pool.segments v)
    × (r.pool.remain ≡ p.pool.remain)

pub release-Leases :
    (p q : UeIpPool) (request : Option Ip) (addr : Ip)
    → IsAddressPool p
    → IsDistinct p.pool
    → Leases p request q addr
    → (r : UeIpPool) × (release q addr ≡ some r) × Restores p r
unfolding release
release-Leases p q request addr a d l =
    let there : 1 ≤ copies p.pool.segments l.value = ground (arith, l.taken.held l.value) in
    let (above, below) = free-bounds p.pool l.value a.valid there in
    let (r, done, g) = freed_after p.pool q.pool l.value d above below l.taken in
    (
      record q { pool = r },
      rw (l.encoded, done),
      (λ v. omega (arith, g.held v, l.taken.held v), omega (arith, g.remaining, l.taken.remaining)),
    )

-- Releasing an address that a pool of distinct addresses has handed out makes every address as free
-- as it was, and restores the count.
pub release-allocate_ip :
    (p q : UeIpPool) (request : Option Ip) (addr : Ip)
    → IsAddressPool p
    → IsDistinct p.pool
    → IsRequest request
    → allocate_ip p request ≡ (q, address addr)
    → (r : UeIpPool) × (release q addr ≡ some r) × Restores p r
release-allocate_ip p q request addr a d i e =
    release-Leases p q request addr a d (allocate_ip-Leases p q request addr a i e)
