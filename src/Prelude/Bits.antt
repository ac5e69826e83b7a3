-- ===== src/Prelude/Bits.antt =====
-- `bit_and` with a byte mask and `bit_or` of parts that share no bit, as arithmetic.
use Prim.Native.Nat.{
  ℕ, zero, suc, ◌+◌, ◌*◌, ◌/◌, ◌%◌, ◌^◌, ◌≤◌, ◌<◌, min, max, bit_and, bit_or, bit_xor,
}
use Prim.Native.Nat.{digits, differ, bit_and-bitwise, bit_or-bitwise, bit_xor-bitwise}
use mathlib.Core.Path.{◌≡◌, refl, ap}
use native.Mathlib.Omega.{arith}
use native.Mathlib.Nat.{pow-suc}

-- Two counts that both cover the digits of `a` give one result.
module _ (z : ℕ → ℕ) (f : ℕ → ℕ → ℕ) where
  count_irrelevant : (a b n m : ℕ) → a ≤ n → a ≤ m → digits z f n a b ≡ digits z f m a b
  count_irrelevant zero b zero zero hn hm = refl
  count_irrelevant zero b zero (suc m) hn hm = refl
  count_irrelevant zero b (suc n) zero hn hm = refl
  count_irrelevant zero b (suc n) (suc m) hn hm = refl
  count_irrelevant (suc a) b zero m hn hm = elim hn [ ]
  count_irrelevant (suc a) b (suc n) zero hn hm = elim hm [ ]
  count_irrelevant (suc a) b (suc n) (suc m) hn hm =
      omega (arith, count_irrelevant (suc a / 2) (b / 2) n m (omega arith) (omega arith))

or_halves : (a b : ℕ) → bit_or a b ≡ bit_or (a / 2) (b / 2) * 2 + max (a % 2) (b % 2)
or_halves zero b = simp bit_or-bitwise (omega arith)
or_halves (suc a) b = simp bit_or-bitwise (
    omega (
      arith,
      count_irrelevant (λ y. y) max (suc a / 2) (b / 2) a (suc a / 2) (omega arith) (omega arith),
    ))

and_halves : (a b : ℕ) → bit_and a b ≡ bit_and (a / 2) (b / 2) * 2 + min (a % 2) (b % 2)
and_halves zero b = simp bit_and-bitwise (omega arith)
and_halves (suc a) b = simp bit_and-bitwise (
    omega (
      arith,
      count_irrelevant (λ y. zero) min (suc a / 2) (b / 2) a (suc a / 2) (omega arith)
          (omega arith),
    ))

xor_halves : (a b : ℕ) → bit_xor a b ≡ bit_xor (a / 2) (b / 2) * 2 + differ (a % 2) (b % 2)
xor_halves zero b = simp bit_xor-bitwise (omega arith)
xor_halves (suc a) b = simp bit_xor-bitwise (
    omega (
      arith,
      count_irrelevant (λ y. y) differ (suc a / 2) (b / 2) a (suc a / 2) (omega arith)
          (omega arith),
    ))

differ_digit : (x y : ℕ) → x < 2 → y < 2 → (differ x y < 2) × (differ (differ x y) y ≡ x)
differ_digit zero zero h k = (omega arith, refl)
differ_digit zero (suc zero) h k = (omega arith, refl)
differ_digit (suc zero) zero h k = (omega arith, refl)
differ_digit (suc zero) (suc zero) h k = (omega arith, refl)
differ_digit (suc (suc x)) y h k = absurd (omega arith)
differ_digit zero (suc (suc y)) h k = absurd (omega arith)
differ_digit (suc zero) (suc (suc y)) h k = absurd (omega arith)

-- Two numbers of which the second is put on the first twice.
xor_twice_below : (n a b : ℕ) → a ≤ n → b ≤ n → bit_xor (bit_xor a b) b ≡ a
xor_twice_below zero zero zero h k = refl
xor_twice_below zero (suc a) b h k = elim h [ ]
xor_twice_below zero zero (suc b) h k = elim k [ ]
xor_twice_below (suc n) a b h k =
    let (low, back) = differ_digit (a % 2) (b % 2) (omega arith) (omega arith) in
    let x = bit_xor a b in
    let whole = xor_halves a b in
    let half : x / 2 ≡ bit_xor (a / 2) (b / 2) = omega (arith, whole, low) in
    let rest : x % 2 ≡ differ (a % 2) (b % 2) = omega (arith, whole, low) in
    let ih = xor_twice_below n (a / 2) (b / 2) (omega arith) (omega arith) in
    rw (xor_halves x b, half, rest, back, ih) (omega arith)

pub bit_xor_twice : (a b : ℕ) → bit_xor (bit_xor a b) b ≡ a
bit_xor_twice a b = xor_twice_below (a + b) a b (omega arith) (omega arith)

or_nothing_below : (n a : ℕ) → a ≤ n → bit_or a 0 ≡ a
or_nothing_below n zero h = refl
or_nothing_below zero (suc a) h = elim h [ ]
or_nothing_below (suc n) (suc a) h =
    omega (arith, or_halves (suc a) 0, or_nothing_below n (suc a / 2) (omega arith))

pub or_nothing : (a : ℕ) → bit_or (bit_or a 0) 0 ≡ a
or_nothing a = omega (arith, or_nothing_below (bit_or a 0) (bit_or a 0), or_nothing_below a a)

and_nothing_below : (n a : ℕ) → a ≤ n → bit_and a 0 ≡ 0
and_nothing_below n zero h = refl
and_nothing_below zero (suc a) h = elim h [ ]
and_nothing_below (suc n) (suc a) h =
    omega (arith, and_halves (suc a) 0, and_nothing_below n (suc a / 2) (omega arith))

-- A mask whose lowest digit is set keeps the lowest digit.
and_odd : (m n a : ℕ) → n ≡ m * 2 + 1 → bit_and a n ≡ bit_and (a / 2) m * 2 + a % 2
and_odd m n a e = let half : n / 2 ≡ m = omega arith in rw (and_halves a n, half) (omega arith)

-- The eight digits under the mask 0xff are the remainder by 256.
pub bit_and_byte : (a : ℕ) → bit_and a 0xff ≡ a % 256
bit_and_byte a = omega (
  arith,
  and_odd 127 255 a refl,
  and_odd 63 127 (a / 2) refl,
  and_odd 31 63 (a / 2 / 2) refl,
  and_odd 15 31 (a / 2 / 2 / 2) refl,
  and_odd 7 15 (a / 2 / 2 / 2 / 2) refl,
  and_odd 3 7 (a / 2 / 2 / 2 / 2 / 2) refl,
  and_odd 1 3 (a / 2 / 2 / 2 / 2 / 2 / 2) refl,
  and_odd 0 1 (a / 2 / 2 / 2 / 2 / 2 / 2 / 2) refl,
  and_nothing_below (a / 256) (a / 2 / 2 / 2 / 2 / 2 / 2 / 2 / 2) (omega arith),
)

-- `|` of a number whose `k` low digits are clear and one of `k` digits is their sum.
pub bit_or_low : (k x b : ℕ) → b < 2 ^ k → bit_or (x * 2 ^ k) b ≡ x * 2 ^ k + b
bit_or_low zero x b h = ground (arith, or_nothing_below x x)
bit_or_low (suc k) x b h = ground (
  arith,
  pow-suc 2 k,
  ap (λ (t : ℕ). x * t) (pow-suc 2 k),
  or_halves (x * 2 ^ suc k) b,
  bit_or_low k x (b / 2),
)
