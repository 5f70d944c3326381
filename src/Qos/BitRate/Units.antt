-- ===== src/Qos/BitRate/Units.antt =====
-- A rate with one of the five units, and a rate without a space.
use smf_nwdaf_ext.Common.{
  ℕ, ◌*◌, ◌/◌, ◌%◌, ◌<◌, ◌≡◌, refl, ap, ◌∙◌, false, Option, none, some, [], ◌∷◌, ◌++◌, ◌==◌, has,
  arith, Bool-cases, Option-cases, ◌⊎◌, inl, inr,
}
use smf_nwdaf_ext.UrrTable.{ℤ, pos}
use smf_nwdaf_ext.Qos.BitRate.{
  Text, split, atoi, RateUnit, bps, kbps, mbps, gbps, tbps, unit_name, unit_of, value, panic,
  two_63, to_uint16, scale_to_mbps, scale_to_bps, scale_to_kbps, is_empty, bit_rate_to_mbps,
  string_to_bit_rate, bit_rate_to_kbps,
}

-- How many bits in a second a unit stands for.
abbrev pub per_second : RateUnit → ℕ
per_second bps = 1
per_second kbps = 1000
per_second mbps = 1000000
per_second gbps = 1000000000
per_second tbps = 1000000000000

abbrev pub with_unit : Text → RateUnit → Text
with_unit number unit = number ++ (32 ∷ unit_name unit)

split-plain : (s : Text) → has 32 s ≡ false → split s ≡ s ∷ []
unfolding split
split-plain [] h = refl
split-plain (c ∷ s) h = elim (Bool-cases (c == 32)) [
  | inl space ↦ ground arith
  | inr other ↦ rw (other, split-plain s (ground arith)) refl
]

split-append : (s t : Text) → has 32 s ≡ false → split (s ++ (32 ∷ t)) ≡ s ∷ split t
unfolding split
split-append [] t h = refl
split-append (c ∷ s) t h = elim (Bool-cases (c == 32)) [
  | inl space ↦ ground arith
  | inr other ↦ rw (other, split-append s t (ground arith)) refl
]

split-unit_name : (unit : RateUnit) → split (unit_name unit) ≡ unit_name unit ∷ []
unfolding split
split-unit_name bps = refl
split-unit_name kbps = refl
split-unit_name mbps = refl
split-unit_name gbps = refl
split-unit_name tbps = refl

split-with_unit :
    (number : Text) (unit : RateUnit)
    → has 32 number ≡ false
    → split (with_unit number unit) ≡ number ∷ unit_name unit ∷ []
split-with_unit number unit h =
    split-append number (unit_name unit) h ∙ ap (λ ss. number ∷ ss) (split-unit_name unit)

unit_of-unit_name : (unit : RateUnit) → unit_of (unit_name unit) ≡ some unit
unfolding unit_of
unit_of-unit_name bps = refl
unit_of-unit_name kbps = refl
unit_of-unit_name mbps = refl
unit_of-unit_name gbps = refl
unit_of-unit_name tbps = refl

mbps_lem :
    (n : ℕ) (unit : RateUnit)
    → n * per_second unit < two_63
    → to_uint16 (scale_to_mbps (pos n) (some unit)) ≡ n * per_second unit / 1000000 % 65536
mbps_lem n bps h = ground arith
mbps_lem n kbps h = ground arith
mbps_lem n mbps h = ground arith
mbps_lem n gbps h = ground arith
mbps_lem n tbps h = ground arith

bps_lem :
    (n : ℕ) (unit : RateUnit)
    → n * per_second unit < two_63
    → scale_to_bps (pos n) (some unit) ≡ pos (n * per_second unit)
bps_lem n bps h = ground arith
bps_lem n kbps h = ground arith
bps_lem n mbps h = ground arith
bps_lem n gbps h = ground arith
bps_lem n tbps h = ground arith

kbps_lem :
    (n : ℕ) (unit : RateUnit)
    → n * per_second unit < two_63
    → scale_to_kbps n (some unit) ≡ n * per_second unit / 1000
kbps_lem n bps h = ground arith
kbps_lem n kbps h = ground arith
kbps_lem n mbps h = ground arith
kbps_lem n gbps h = ground arith
kbps_lem n tbps h = ground arith

is_empty-with_unit : (number : Text) (unit : RateUnit) → is_empty (with_unit number unit) ≡ false
is_empty-with_unit [] unit = refl
is_empty-with_unit (c ∷ s) unit = refl

-- The three conversions of a rate with a unit, of fewer than 2^63 bits in a second, agree.
-- `StringToBitRate` gives the bits in a second, `BitRateTokbps` its whole thousands, where
-- `ParseFloat` reads the number as `Atoi` does, and `BitRateTombps` its whole millions, of which it
-- keeps only what a `uint16` holds.
pub bit_rates_agree :
    (parse_float : Text → Option ℕ) (number : Text) (n : ℕ) (unit : RateUnit)
    → has 32 number ≡ false
    → atoi number ≡ some (pos n)
    → parse_float number ≡ some n
    → n * per_second unit < two_63
    → (string_to_bit_rate (with_unit number unit) ≡ value (pos (n * per_second unit)))
      × (bit_rate_to_kbps parse_float (with_unit number unit) ≡ some (n * per_second unit / 1000))
      × (bit_rate_to_mbps (with_unit number unit) ≡ value (n * per_second unit / 1000000 % 65536))
unfolding string_to_bit_rate bit_rate_to_kbps bit_rate_to_mbps
bit_rates_agree parse_float number n unit plain read parsed small =
    let parts = split-with_unit number unit plain in
    let known = unit_of-unit_name unit in
    (
      rw (parts, read, known, bps_lem n unit small) refl,
      rw (is_empty-with_unit number unit, parts, parsed, known, kbps_lem n unit small) refl,
      rw (parts, read, known, mbps_lem n unit small) refl,
    )

-- A number without a space behind it makes `BitRateTombps` and `StringToBitRate` panic, where
-- `BitRateTokbps` returns an error. A text that is no number gives zero.
pub no_unit_panics :
    (parse_float : Text → Option ℕ) (c : ℕ) (s : Text)
    → has 32 (c ∷ s) ≡ false
    → (bit_rate_to_kbps parse_float (c ∷ s) ≡ none)
      × (((atoi (c ∷ s) ≡ none)
            × (bit_rate_to_mbps (c ∷ s) ≡ value 0)
            × (string_to_bit_rate (c ∷ s) ≡ value (pos 0)))
          ⊎ ((n : ℤ) × (atoi (c ∷ s) ≡ some n)
              × (bit_rate_to_mbps (c ∷ s) ≡ panic)
              × (string_to_bit_rate (c ∷ s) ≡ panic)))
unfolding string_to_bit_rate bit_rate_to_kbps bit_rate_to_mbps
no_unit_panics parse_float c s plain =
    let parts = split-plain (c ∷ s) plain in
    (
      rw parts refl,
      elim (Option-cases (atoi (c ∷ s))) [
        | inl bad ↦ inl (bad, rw (parts, bad) refl, rw (parts, bad) refl)
        | inr (n, good) ↦ inr (n, good, rw (parts, good) refl, rw (parts, good) refl)
      ],
    )
