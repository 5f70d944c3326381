-- ===== src/Net.antt =====
-- What internal/context uses of Go's net and encoding/binary: an address is its slice of bytes.
pub mod Bytes
pub mod Bits
use Prim.Native.Nat.{bit_and}
use smf_nwdaf_ext.Common.{
  ℕ, ◌+◌, ◌*◌, ◌/◌, ◌%◌, Bool, true, false, ◌&&◌, Option, none, some, List, [], ◌∷◌, ◌==◌,
  if◌then◌else◌,
}

-- `net.IP`; a nil address is the `none` of an `Option`.
abbrev pub Ip : Type 0
Ip = List ℕ

-- `binary.BigEndian.Uint32`: `none` is the panic on a slice of fewer than four bytes.
unfoldable pub big_endian_uint32 : List ℕ → Option ℕ
big_endian_uint32 (a ∷ b ∷ c ∷ d ∷ _) = some (a * 16777216 + b * 65536 + c * 256 + d)
big_endian_uint32 _ = none

-- `binary.BigEndian.PutUint32` into four bytes.
unfoldable pub put_uint32 : ℕ → List ℕ
put_uint32 n = n / 16777216 % 256 ∷ n / 65536 % 256 ∷ n / 256 % 256 ∷ n % 256 ∷ []

-- `net.IPNet`
pub record IpNet : Type 0 where
  pub ip : Ip
  pub mask : List ℕ

all_zero : List ℕ → Bool
all_zero [] = true
all_zero (b ∷ bytes) = b == 0 && all_zero bytes

-- `IP.To4`: four bytes, or the last four of an IPv4 address in its form of sixteen.
unfoldable pub to_4 : Ip → Option Ip
unfolding all_zero
to_4 (a ∷ b ∷ c ∷ d ∷ []) = some (a ∷ b ∷ c ∷ d ∷ [])
to_4 (z0 ∷ z1 ∷ z2 ∷ z3 ∷ z4 ∷ z5 ∷ z6 ∷ z7 ∷ z8 ∷ z9 ∷ f0 ∷ f1 ∷ a ∷ b ∷ c ∷ d ∷ []) =
    if all_zero (z0 ∷ z1 ∷ z2 ∷ z3 ∷ z4 ∷ z5 ∷ z6 ∷ z7 ∷ z8 ∷ z9 ∷ []) && f0 == 255 && f1 == 255
    then some (a ∷ b ∷ c ∷ d ∷ [])
    else none
to_4 _ = none

-- The bytes agree under the mask; `false` where the lengths differ.
unfoldable pub same_network : List ℕ → List ℕ → List ℕ → Bool
same_network [] [] [] = true
same_network (n ∷ net) (m ∷ mask) (b ∷ ip) = bit_and n m == bit_and b m && same_network net mask ip
same_network _ _ _ = false

-- `IPNet.Contains`
unfoldable pub net_contains : IpNet → Ip → Bool
unfolding same_network to_4
net_contains net ip = elim (to_4 ip) [
  | none ↦ same_network net.ip net.mask ip
  | some ip4 ↦ same_network net.ip net.mask ip4
]
