-- ===== src/Qos/BitRate.antt =====
-- The conversions of a bit rate such as "10 Mbps", of internal/util/qos_convert.go. A text is its
-- bytes. `strings.Split` and `strconv.Atoi` are written out; the floating-point
-- `strconv.ParseFloat`, with the conversion to `uint64` behind it, is a parameter.
pub mod Units
use Prim.Native.Char.{code}
use Prim.Native.String.{String}
use smf_nwdaf_ext.Common.{
  ℕ, zero, suc, ◌+◌, ◌-◌, ◌*◌, ◌/◌, ◌%◌, Bool, true, false, ◌&&◌, Option, none, some, List, [], ◌∷◌,
  ◌==◌, ltb, leb, if◌then◌else◌,
}
use smf_nwdaf_ext.UrrTable.{ℤ, pos, negsuc}

abbrev pub Text : Type 0
Text = List ℕ

abbrev pub codes : String → Text
codes String.[] = []
codes (String.◌∷◌ c s) = code c ∷ codes s

abbrev pub same_text : Text → Text → Bool
same_text [] [] = true
same_text [] (d ∷ t) = false
same_text (c ∷ s) [] = false
same_text (c ∷ s) (d ∷ t) = c == d && same_text s t

abbrev pub put_first : ℕ → List Text → List Text
put_first c [] = (c ∷ []) ∷ []
put_first c (s ∷ ss) = (c ∷ s) ∷ ss

-- `strings.Split(s, " ")`.
pub split : Text → List Text
split [] = [] ∷ []
split (c ∷ s) = let rest = split s in if c == 32 then [] ∷ rest else put_first c rest

abbrev pub first_of : List Text → Text
first_of [] = []
first_of (s ∷ ss) = s

abbrev pub second_of : List Text → Option Text
second_of [] = none
second_of (s ∷ []) = none
second_of (s ∷ t ∷ ss) = some t

-- A Go `int` is 64 bits wide.
abbrev pub two_63 : ℕ
two_63 = 9223372036854775808

abbrev pub two_64 : ℕ
two_64 = 18446744073709551616

abbrev pub negated : ℕ → ℤ
negated zero = pos 0
negated (suc n) = negsuc n

-- A number cut to `int` and to `uint16`.
abbrev pub to_int : ℤ → ℤ
to_int (pos n) =
    let bits = n % two_64 in if ltb bits two_63 then pos bits else negsuc (two_64 - 1 - bits)
to_int (negsuc n) =
    let bits = n % two_64 in if ltb bits two_63 then negsuc bits else pos (two_64 - 1 - bits)

abbrev pub to_uint16 : ℤ → ℕ
to_uint16 (pos n) = n % 65536
to_uint16 (negsuc n) = 65535 - n % 65536

abbrev pub times : ℤ → ℕ → ℤ
times (pos n) k = to_int (pos (n * k))
times (negsuc n) k = to_int (negated (suc n * k))

-- Division towards zero.
abbrev pub quotient : ℤ → ℕ → ℤ
quotient (pos n) k = pos (n / k)
quotient (negsuc n) k = negated (suc n / k)

abbrev pub digits_from : ℕ → Text → Option ℕ
digits_from n [] = some n
digits_from n (c ∷ s) =
    let rest = digits_from (n * 10 + (c - 48)) s in if leb 48 c && leb c 57 then rest else none

abbrev pub digits : Text → Option ℕ
digits [] = none
digits (c ∷ s) = digits_from 0 (c ∷ s)

abbrev pub in_range : Option ℕ → Option ℤ
in_range none = none
in_range (some n) = if ltb n two_63 then some (pos n) else none

abbrev pub negative_in_range : Option ℕ → Option ℤ
negative_in_range none = none
negative_in_range (some n) = if leb n two_63 then some (negated n) else none

-- `strconv.Atoi`: one sign, decimal digits, and an error out of range.
unfoldable pub atoi : Text → Option ℤ
atoi [] = none
atoi (c ∷ s) =
    if c == 43
    then in_range (digits s)
    else if c == 45
    then negative_in_range (digits s)
    else in_range (digits (c ∷ s))

pub data RateUnit : Type 0 where
  bps kbps mbps gbps tbps : RateUnit

abbrev pub unit_name : RateUnit → Text
unit_name bps = codes "bps"
unit_name kbps = codes "Kbps"
unit_name mbps = codes "Mbps"
unit_name gbps = codes "Gbps"
unit_name tbps = codes "Tbps"

-- The cases of a switch on the unit.
pub unit_of : Text → Option RateUnit
unit_of s =
    if same_text s (unit_name bps)
    then some bps
    else if same_text s (unit_name kbps)
    then some kbps
    else if same_text s (unit_name mbps)
    then some mbps
    else if same_text s (unit_name gbps)
    then some gbps
    else if same_text s (unit_name tbps)
    then some tbps
    else none

-- A value, or a panic.
pub data Outcome (A : Type 0) : Type 0 where
  value : A → Outcome A
  panic : Outcome A

abbrev pub scale_to_mbps : ℤ → Option RateUnit → ℤ
scale_to_mbps digit none = pos 0
scale_to_mbps digit (some bps) = quotient digit 1000000
scale_to_mbps digit (some kbps) = quotient digit 1000
scale_to_mbps digit (some mbps) = digit
scale_to_mbps digit (some gbps) = times digit 1000
scale_to_mbps digit (some tbps) = times digit 1000000

-- `s[1]` panics where there is no space.
abbrev pub mbps_at : ℤ → Option Text → Outcome ℕ
mbps_at digit none = panic
mbps_at digit (some s) = value (to_uint16 (scale_to_mbps digit (unit_of s)))

abbrev pub mbps_of : Option ℤ → Option Text → Outcome ℕ
mbps_of none unit = value 0
mbps_of (some digit) unit = mbps_at digit unit

pub bit_rate_to_mbps : Text → Outcome ℕ
unfolding split atoi
bit_rate_to_mbps bitrate = mbps_of (atoi (first_of (split bitrate))) (second_of (split bitrate))

abbrev pub scale_to_bps : ℤ → Option RateUnit → ℤ
scale_to_bps digit none = digit
scale_to_bps digit (some bps) = digit
scale_to_bps digit (some kbps) = times digit 1000
scale_to_bps digit (some mbps) = times digit 1000000
scale_to_bps digit (some gbps) = times digit 1000000000
scale_to_bps digit (some tbps) = times digit 1000000000000

abbrev pub bps_at : ℤ → Option Text → Outcome ℤ
bps_at digit none = panic
bps_at digit (some s) = value (scale_to_bps digit (unit_of s))

abbrev pub bps_of : Option ℤ → Option Text → Outcome ℤ
bps_of none unit = value (pos 0)
bps_of (some digit) unit = bps_at digit unit

pub string_to_bit_rate : Text → Outcome ℤ
unfolding split atoi
string_to_bit_rate bitrate = bps_of (atoi (first_of (split bitrate))) (second_of (split bitrate))

-- A `uint64`; an unknown unit is logged, and the rate is zero.
abbrev pub scale_to_kbps : ℕ → Option RateUnit → ℕ
scale_to_kbps digit none = 0
scale_to_kbps digit (some bps) = digit / 1000
scale_to_kbps digit (some kbps) = digit
scale_to_kbps digit (some mbps) = digit * 1000 % two_64
scale_to_kbps digit (some gbps) = digit * 1000000 % two_64
scale_to_kbps digit (some tbps) = digit * 1000000000 % two_64

abbrev pub kbps_of : Option Text → Option ℕ → Option ℕ
kbps_of none digit = none
kbps_of (some s) none = none
kbps_of (some s) (some digit) = some (scale_to_kbps digit (unit_of s))

abbrev pub is_empty : Text → Bool
is_empty [] = true
is_empty (c ∷ s) = false

-- `none` is an error.
unfoldable pub bit_rate_to_kbps : (Text → Option ℕ) → Text → Option ℕ
unfolding split
bit_rate_to_kbps parse_float bitrate =
    if is_empty bitrate
    then some 0
    else kbps_of (second_of (split bitrate)) (parse_float (first_of (split bitrate)))
