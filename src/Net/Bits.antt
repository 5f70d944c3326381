-- ===== src/Net/Bits.antt =====
-- Bounds on `&` and `|`, for every width, and what they give with a mask of ones and then zeros.
use Prim.Native.Nat.{bit_and, bit_or, digits, bit_and-bitwise, bit_or-bitwise, min, max}
use smf_nwdaf_ext.Common.{
  ℕ, zero, suc, ◌+◌, ◌-◌, ◌*◌, ◌%◌, ◌≡◌, refl, sym, ap, ◌∙◌, ◌/◌, ◌≤◌, arith, ◌<◌, ◌^◌,
}
use native.Mathlib.Nat.{pow-suc, mul_assoc}

and_digits-le : (n a b : ℕ) → digits (λ _. zero) min n a b ≤ a
and_digits-le zero a b = omega arith
and_digits-le (suc n) zero b = omega arith
and_digits-le (suc n) (suc a) b = omega (arith, and_digits-le n (suc a / 2) (b / 2))

pub bit_and-le : (a b : ℕ) → bit_and a b ≤ a
bit_and-le a b = omega (arith, bit_and-bitwise a b, and_digits-le a a b)

le-or_digits : (n a b : ℕ) → a ≤ n → a ≤ digits (λ b. b) max n a b
le-or_digits zero a b h = omega arith
le-or_digits (suc n) zero b h = omega arith
le-or_digits (suc n) (suc a) b h = omega (arith, le-or_digits n (suc a / 2) (b / 2) (omega arith))

pub le-bit_or : (a b : ℕ) → a ≤ bit_or a b
le-bit_or a b = omega (arith, bit_or-bitwise a b, le-or_digits a a b)

-- `|` stays within a width: the invariant holds of each digit.
or_digits-lt : (w n a b : ℕ) → a < 2 ^ w → b < 2 ^ w → digits (λ b. b) max n a b < 2 ^ w
or_digits-lt w zero a b h k = k
or_digits-lt w (suc n) zero b h k = k
or_digits-lt zero (suc n) (suc a) b h k = absurd (omega arith)
or_digits-lt (suc w) (suc n) (suc a) b h k =
    omega (arith, pow-suc 2 w, or_digits-lt w n (suc a / 2) (b / 2))

pub bit_or-lt : (w a b : ℕ) → a < 2 ^ w → b < 2 ^ w → bit_or a b < 2 ^ w
bit_or-lt w a b h k = omega (arith, bit_or-bitwise a b, or_digits-lt w a a b h k)

pow_positive : (w : ℕ) → 1 ≤ 2 ^ w
pow_positive zero = omega arith
pow_positive (suc w) = omega (arith, pow-suc 2 w, pow_positive w)

or_digits-zero : (n a : ℕ) → a ≤ n → digits (λ b. b) max n a 0 ≡ a
or_digits-zero zero a h = omega arith
or_digits-zero (suc n) zero h = refl
or_digits-zero (suc n) (suc a) h =
    let half : digits (λ b. b) max n (suc a / 2) 0 ≡ suc a / 2 =
      or_digits-zero n (suc a / 2) (omega arith) in
    omega (arith, half)

-- A mask of `w` ones.
and_digits-ones : (w n a : ℕ) → a ≤ n → a < 2 ^ w → digits (λ _. zero) min n a (2 ^ w - 1) ≡ a
and_digits-ones w zero a h k = omega arith
and_digits-ones w (suc n) zero h k = refl
and_digits-ones zero (suc n) (suc a) h k = absurd (omega arith)
and_digits-ones (suc w) (suc n) (suc a) h k =
    let size = pow-suc 2 w in
    let positive = pow_positive w in
    let half : (2 ^ suc w - 1) / 2 ≡ 2 ^ w - 1 = omega (arith, size, positive) in
    let rest : digits (λ _. zero) min n (suc a / 2) ((2 ^ suc w - 1) / 2) ≡ suc a / 2 =
      rw half (and_digits-ones w n (suc a / 2) (omega arith) (omega (arith, size))) in
    let odd : (2 ^ suc w - 1) % 2 ≡ 1 = omega (arith, size, positive) in omega (arith, rest, odd)

-- The lowest and the highest number with the digits of `a` above the lowest `k`.
mask_digits :
    (k w n a : ℕ)
    → a ≤ n
    → a < 2 ^ w
    → k ≤ w
    → (digits (λ b. b) max n a (2 ^ k - 1) + 1 ≡ digits (λ _. zero) min n a (2 ^ w - 2 ^ k) + 2 ^ k)
      × ((q : ℕ) × (digits (λ _. zero) min n a (2 ^ w - 2 ^ k) ≡ q * 2 ^ k))
mask_digits k w zero a h l m =
    let positive = pow_positive k in (omega (arith, positive), (0, omega arith))
mask_digits k w (suc n) zero h l m =
    let positive = pow_positive k in (omega (arith, positive), (0, omega arith))
mask_digits zero w (suc n) (suc a) h l m =
    let whole = or_digits-zero (suc n) (suc a) h in
    let ones = and_digits-ones w (suc n) (suc a) h l in
    (omega (arith, whole, ones), (suc a, omega (arith, ones)))
mask_digits (suc k) zero (suc n) (suc a) h l m = absurd (omega arith)
mask_digits (suc k) (suc w) (suc n) (suc a) h l m =
    let size = pow-suc 2 w in
    let block = pow-suc 2 k in
    let positive = pow_positive k in
    let or_half : (2 ^ suc k - 1) / 2 ≡ 2 ^ k - 1 = omega (arith, block, positive) in
    let or_last : (2 ^ suc k - 1) % 2 ≡ 1 = omega (arith, block, positive) in
    let and_half : (2 ^ suc w - 2 ^ suc k) / 2 ≡ 2 ^ w - 2 ^ k = omega (arith, size, block) in
    let and_last : (2 ^ suc w - 2 ^ suc k) % 2 ≡ 0 = omega (arith, size, block) in
    let (sum, (q, aligned)) =
      mask_digits k w n (suc a / 2) (omega arith) (omega (arith, size)) (omega arith) in
    let product : q * 2 ^ suc k ≡ q * 2 ^ k * 2 = ap (q *◌) block ∙ sym (mul_assoc q (2 ^ k) 2) in
    rw (or_half, or_last, and_half, and_last)
      (omega (arith, sum, block), (q, omega (arith, aligned, product)))

-- The lowest and the highest address of the block of `2 ^ k` numbers of width `w` that has `a`.
pub mask_lem :
    (k w a : ℕ)
    → a < 2 ^ w
    → k ≤ w
    → (bit_or a (2 ^ k - 1) + 1 ≡ bit_and a (2 ^ w - 2 ^ k) + 2 ^ k)
      × ((q : ℕ) × (bit_and a (2 ^ w - 2 ^ k) ≡ q * 2 ^ k))
mask_lem k w a h m =
    let (sum, (q, aligned)) = mask_digits k w a a (omega arith) h m in
    let low = bit_and-bitwise a (2 ^ w - 2 ^ k) in
    let high = bit_or-bitwise a (2 ^ k - 1) in
    (omega (arith, sum, low, high), (q, omega (arith, aligned, low)))
