-- ===== src/Prelude/Bits.antt =====
-- `&`, `|` and `!` on words: the lowest digit of each, and masks read as sets of bits.
use Prim.Native.Nat.{
  ℕ, zero, suc, ◌+◌, ◌-◌, ◌*◌, ◌/◌, ◌%◌, ◌^◌, ◌≤◌, ◌<◌, min, max, bit_and, bit_or, digits,
  bit_and-bitwise, bit_or-bitwise,
}
use mathlib.Core.Path.{◌≡◌, refl, ap}
use native.Mathlib.Nat.{
  pow-suc, one-le-pow, div-div-eq-div-mul, mul_assoc, mul_comm, pow-le-pow_right,
}
use native.Mathlib.Omega.{arith}

-- Fuel beyond the first number adds no digit.
digits-more_fuel :
    (z : ℕ → ℕ) (f : ℕ → ℕ → ℕ) (k l a b : ℕ) → a ≤ k → a ≤ l → digits z f k a b ≡ digits z f l a b
digits-more_fuel z f zero zero zero b hk hl = refl
digits-more_fuel z f zero (suc l) zero b hk hl = refl
digits-more_fuel z f (suc k) zero zero b hk hl = refl
digits-more_fuel z f (suc k) (suc l) zero b hk hl = refl
digits-more_fuel z f (suc k) (suc l) (suc a) b hk hl =
    omega (arith, digits-more_fuel z f k l (suc a / 2) (b / 2) (omega arith) (omega arith))
digits-more_fuel z f zero l (suc a) b hk hl = absurd (omega arith)
digits-more_fuel z f (suc k) zero (suc a) b hk hl = absurd (omega arith)

zero-and : (b : ℕ) → bit_and 0 b ≡ 0
zero-and b = bit_and-bitwise 0 b

pub and_low_digit : (a b : ℕ) → bit_and a b ≡ bit_and (a / 2) (b / 2) * 2 + min (a % 2) (b % 2)
and_low_digit zero b = omega (arith, bit_and-bitwise 0 b, bit_and-bitwise 0 (b / 2))
and_low_digit (suc a) b = omega (
  arith,
  bit_and-bitwise (suc a) b,
  bit_and-bitwise (suc a / 2) (b / 2),
  digits-more_fuel (λ _. 0) min a (suc a / 2) (suc a / 2) (b / 2) (omega arith) (omega arith),
)

pub or_low_digit : (a b : ℕ) → bit_or a b ≡ bit_or (a / 2) (b / 2) * 2 + max (a % 2) (b % 2)
or_low_digit zero b = omega (arith, bit_or-bitwise 0 b, bit_or-bitwise 0 (b / 2))
or_low_digit (suc a) b = omega (
  arith,
  bit_or-bitwise (suc a) b,
  bit_or-bitwise (suc a / 2) (b / 2),
  digits-more_fuel (λ y. y) max a (suc a / 2) (suc a / 2) (b / 2) (omega arith) (omega arith),
)

and-zero_below : (k b : ℕ) → b ≤ k → bit_and b 0 ≡ 0
and-zero_below k zero h = zero-and 0
and-zero_below zero (suc b) h = absurd (omega arith)
and-zero_below (suc k) (suc b) h =
    omega (arith, and_low_digit (suc b) 0, and-zero_below k (suc b / 2) (omega arith))

pub and-zero : (b : ℕ) → bit_and b 0 ≡ 0
and-zero b = and-zero_below b b (omega arith)

-- `!x` of a word of `w` bits.
abbrev pub complement : ℕ → ℕ → ℕ
complement w x = 2 ^ w - 1 - x

complement_low :
    (w b : ℕ)
    → b < 2 ^ suc w
    → (complement (suc w) b / 2 ≡ complement w (b / 2)) × (complement (suc w) b % 2 ≡ 1 - b % 2)
complement_low w b h =
    (omega (arith, pow-suc 2 w, one-le-pow w 2), omega (arith, pow-suc 2 w, one-le-pow w 2))

and-complement_low :
    (w a b : ℕ)
    → b < 2 ^ suc w
    → bit_and a (complement (suc w) b)
      ≡ bit_and (a / 2) (complement w (b / 2)) * 2 + min (a % 2) (1 - b % 2)
and-complement_low w a b h =
    let (half, low) = complement_low w b h in rw (and_low_digit a (complement (suc w) b), half, low)

-- No bit of `a` lies outside `b` exactly when `b` keeps all of `a`.
pub and-complement_zero :
    (w a b : ℕ) → a < 2 ^ w → b < 2 ^ w → bit_and a (complement w b) ≡ 0 → bit_and a b ≡ a
and-complement_zero zero a b ha hb h = let e : a ≡ 0 = omega arith in rw e (zero-and b)
and-complement_zero (suc w) a b ha hb h = omega (
  arith,
  pow-suc 2 w,
  and-complement_low w a b hb,
  and_low_digit a b,
  and-complement_zero w (a / 2) (b / 2),
)

pub and_zero-complement :
    (w a b : ℕ) → a < 2 ^ w → b < 2 ^ w → bit_and a b ≡ a → bit_and a (complement w b) ≡ 0
and_zero-complement zero a b ha hb h =
    let e : a ≡ 0 = omega arith in rw e (zero-and (complement 0 b))
and_zero-complement (suc w) a b ha hb h = omega (
  arith,
  pow-suc 2 w,
  and-complement_low w a b hb,
  and_low_digit a b,
  and_zero-complement w (a / 2) (b / 2),
)

-- If `b` keeps all of `a` and `a` keeps all of `p`, then `b` keeps all of `p`.
pub and_keeps_trans :
    (w p a b : ℕ) → p < 2 ^ w → bit_and a b ≡ a → bit_and a p ≡ p → bit_and b p ≡ p
and_keeps_trans zero p a b hp hab hap = let e : p ≡ 0 = omega arith in rw e (and-zero b)
and_keeps_trans (suc w) p a b hp hab hap = omega (
  arith,
  pow-suc 2 w,
  and_low_digit a b,
  and_low_digit a p,
  and_low_digit b p,
  and_keeps_trans w (p / 2) (a / 2) (b / 2),
)

-- A bit that `b` keeps of `a` is a bit of both.
pub and-le : (w a b : ℕ) → a < 2 ^ w → (bit_and a b ≤ a) × (bit_and a b ≤ b)
and-le zero a b h = let e : a ≡ 0 = omega arith in rw (e, zero-and b) (omega arith, omega arith)
and-le (suc w) a b h = omega (arith, pow-suc 2 w, and_low_digit a b, and-le w (a / 2) (b / 2))

pub and_self : (w a : ℕ) → a < 2 ^ w → bit_and a a ≡ a
and_self zero a h = let e : a ≡ 0 = omega arith in rw e (zero-and 0)
and_self (suc w) a h = omega (arith, pow-suc 2 w, and_low_digit a a, and_self w (a / 2))

-- If `b` keeps all of `a` and `c` keeps all of `b`, then `c` keeps all of `a`.
pub and_subset_trans :
    (w a b c : ℕ) → a < 2 ^ w → bit_and a b ≡ a → bit_and b c ≡ b → bit_and a c ≡ a
and_subset_trans zero a b c h p q = let e : a ≡ 0 = omega arith in rw e (zero-and c)
and_subset_trans (suc w) a b c h p q = omega (
  arith,
  pow-suc 2 w,
  and_low_digit a b,
  and_low_digit b c,
  and_low_digit a c,
  and_subset_trans w (a / 2) (b / 2) (c / 2),
)

and_full : (w a : ℕ) → a < 2 ^ w → bit_and a (2 ^ w - 1) ≡ a
and_full w a h = and-complement_zero w a (2 ^ w - 1) h (omega (arith, one-le-pow w 2)) (
    let none_left : complement w (2 ^ w - 1) ≡ 0 = omega (arith, one-le-pow w 2) in
    rw none_left (and-zero a))

-- Clearing the lowest `k` bits rounds down to a multiple of `2 ^ k`.
pub and-clear_low :
    (k w a : ℕ) → k ≤ w → a < 2 ^ w → bit_and a (complement w (2 ^ k - 1)) ≡ a / 2 ^ k * 2 ^ k
and-clear_low zero w a h ha =
    let all : complement w (2 ^ 0 - 1) ≡ 2 ^ w - 1 = omega arith in
    let same : bit_and a (complement w (2 ^ 0 - 1)) ≡ a = rw all (and_full w a ha) in
    omega (arith, same)
and-clear_low (suc k) zero a h ha = absurd (omega arith)
and-clear_low (suc k) (suc w) a h ha =
    let half : (2 ^ suc k - 1) / 2 ≡ 2 ^ k - 1 = omega (arith, pow-suc 2 k, one-le-pow k 2) in
    let low : (2 ^ suc k - 1) % 2 ≡ 1 = omega (arith, pow-suc 2 k, one-le-pow k 2) in
    let rest = and-clear_low k w (a / 2) (omega arith) (omega (arith, pow-suc 2 w)) in
    let halves : bit_and (a / 2) (complement w ((2 ^ suc k - 1) / 2)) ≡ a / 2 / 2 ^ k * 2 ^ k =
      rw half rest in
    let quotient : a / 2 / 2 ^ k ≡ a / 2 ^ suc k =
      rw (pow-suc 2 k, mul_comm (2 ^ k) 2) (div-div-eq-div-mul a 2 (2 ^ k)) in
    let product : a / 2 ^ suc k * 2 ^ k * 2 ≡ a / 2 ^ suc k * 2 ^ suc k =
      rw (pow-suc 2 k) (mul_assoc (a / (2 ^ k * 2)) (2 ^ k) 2) in
    let below : 2 ^ suc k - 1 < 2 ^ suc w = omega (
      arith,
      one-le-pow (suc k) 2,
      pow-le-pow_right {n = 2} (omega arith) {i = suc k} {j = suc w} h,
    ) in
    omega (
      arith,
      and-complement_low w a (2 ^ suc k - 1) below,
      halves,
      low,
      ap (λ (x : ℕ). x * 2 ^ k * 2) quotient,
      product,
    )
