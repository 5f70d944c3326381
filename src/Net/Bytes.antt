-- ===== src/Net/Bytes.antt =====
-- Four bytes and the number that they stand for.
use smf_nwdaf_ext.Common.{ℕ, ◌<◌, ◌≡◌, refl, some, [], ◌∷◌, arith}
use smf_nwdaf_ext.Net.{Ip, big_endian_uint32, put_uint32}

pub data IsIp4 : Ip → Type 0 where
  bytes : {a b c d : ℕ} → a < 256 → b < 256 → c < 256 → d < 256 → IsIp4 (a ∷ b ∷ c ∷ d ∷ [])

pub put_uint32-big_endian : (n : ℕ) → n < 4294967296 → big_endian_uint32 (put_uint32 n) ≡ some n
unfolding big_endian_uint32 put_uint32
put_uint32-big_endian n h = ground arith

pub big_endian-put_uint32 :
    {ip : Ip} (n : ℕ) → IsIp4 ip → big_endian_uint32 ip ≡ some n → put_uint32 n ≡ ip
unfolding big_endian_uint32 put_uint32
big_endian-put_uint32 n (bytes a b c d) e = ground arith

pub big_endian-IsIp4 :
    {ip : Ip} → IsIp4 ip → (n : ℕ) × (big_endian_uint32 ip ≡ some n) × (n < 4294967296)
unfolding big_endian_uint32
big_endian-IsIp4 (bytes a b c d) = (_, refl, omega arith)

pub put_uint32-IsIp4 : (n : ℕ) → IsIp4 (put_uint32 n)
unfolding put_uint32
put_uint32-IsIp4 n = bytes (omega arith) (omega arith) (omega arith) (omega arith)
