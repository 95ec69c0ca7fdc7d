-- ===== src/Base/Bits.antt =====
-- Masks: `x & (2^k - 1)` is `x % 2^k`, and the power-of-two test `c & (c - 1) == 0`.
use Prim.Native.Nat.{bit_and, digits, bit_and-bitwise}
use native.Mathlib.Nat.{two-pow-succ, one-le-pow, mod_self}
use native.Mathlib.Decide.{dec_lt}
use Prim.Native.Nat.{ℕ, zero, suc, ◌+◌, ◌-◌, ◌*◌, ◌/◌, ◌%◌, ◌^◌, ◌≤◌, ◌<◌, min}
use mathlib.Core.Path.{◌≡◌, refl, ap}
use native.Mathlib.Omega.{arith}

-- The digit recursion that `bit_and` stands for, with its fuel open.
abbrev conj : ℕ → ℕ → ℕ → ℕ
conj fuel a b = digits (λ b. zero) min fuel a b

-- More fuel than the left operand makes no difference.
conj_stable : (f g a b : ℕ) → a ≤ f → a ≤ g → conj f a b ≡ conj g a b
conj_stable zero zero a b p q = refl
conj_stable (suc f) zero zero b p q = refl
conj_stable zero (suc g) zero b p q = refl
conj_stable (suc f) (suc g) zero b p q = refl
conj_stable zero g (suc a) b p q = absurd (omega arith)
conj_stable (suc f) zero (suc a) b p q = absurd (omega arith)
conj_stable (suc f) (suc g) (suc a) b p q =
    omega (arith, conj_stable f g (suc a / 2) (b / 2) (omega arith) (omega arith))

bit_and_zero_left : (b : ℕ) → bit_and 0 b ≡ 0
bit_and_zero_left b = bit_and-bitwise 0 b

-- One binary digit at a time.
pub bit_and_digit : (a b : ℕ) → bit_and a b ≡ bit_and (a / 2) (b / 2) * 2 + min (a % 2) (b % 2)
bit_and_digit zero b = omega (arith, bit_and_zero_left b, bit_and_zero_left (b / 2))
bit_and_digit (suc a) b =
    let half : ℕ = suc a / 2 in
    omega (
      arith,
      bit_and-bitwise (suc a) b,
      bit_and-bitwise half (b / 2),
      conj_stable a half half (b / 2) (omega arith) (omega arith),
    )

bit_and_zero_right : (fuel a : ℕ) → a ≤ fuel → bit_and a 0 ≡ 0
bit_and_zero_right zero zero h = refl
bit_and_zero_right zero (suc a) h = absurd (omega arith)
bit_and_zero_right (suc f) a h =
    omega (arith, bit_and_digit a 0, bit_and_zero_right f (a / 2) (omega arith))

pow_pos : (k : ℕ) → 0 < 2 ^ k
pow_pos k = one-le-pow k 2 (omega arith)

mod_double : (a p : ℕ) → 0 < p → a % (p + p) ≡ a / 2 % p * 2 + a % 2
mod_double a p h = grind arith

pub bit_and-mask : (k a : ℕ) → bit_and a (2 ^ k - 1) ≡ a % 2 ^ k
bit_and-mask zero a = omega (arith, bit_and_zero_right a a (omega arith))
bit_and-mask (suc k) a = rw (two-pow-succ k) (
    rw (mod_double a (2 ^ k) (pow_pos k)) (
      let q : (2 ^ k + 2 ^ k - 1) / 2 ≡ 2 ^ k - 1 = omega (arith, pow_pos k) in
      let d : bit_and a (2 ^ k + 2 ^ k - 1)
          ≡ bit_and (a / 2) (2 ^ k - 1) * 2 + min (a % 2) ((2 ^ k + 2 ^ k - 1) % 2) =
        rw (← q) (bit_and_digit a (2 ^ k + 2 ^ k - 1)) in
      omega (arith, d, bit_and-mask k (a / 2), pow_pos k)))

pub bit_and_self : (fuel a : ℕ) → a ≤ fuel → bit_and a a ≡ a
bit_and_self zero zero h = refl
bit_and_self zero (suc a) h = absurd (omega arith)
bit_and_self (suc f) a h = omega (arith, bit_and_digit a a, bit_and_self f (a / 2) (omega arith))

-- `c & (c - 1)` in terms of `c / 2`, for an odd and an even `c`.
bit_and_pred_odd : (c : ℕ) → 0 < c % 2 → bit_and c (c - 1) ≡ c / 2 * 2
bit_and_pred_odd c odd =
    let e : (c - 1) / 2 ≡ c / 2 = omega arith in
    omega (
      arith,
      bit_and_digit c (c - 1),
      ap (λ (t : ℕ). bit_and (c / 2) t) e,
      bit_and_self (c / 2) (c / 2) (omega arith),
    )

bit_and_pred_even :
    (c : ℕ) → 0 < c → c % 2 ≡ 0 → bit_and c (c - 1) ≡ bit_and (c / 2) (c / 2 - 1) * 2
bit_and_pred_even c pos even =
    let e : (c - 1) / 2 ≡ c / 2 - 1 = omega arith in
    omega (arith, bit_and_digit c (c - 1), ap (λ (t : ℕ). bit_and (c / 2) t) e)

-- `c & (c - 1)` is zero for powers of two alone.
pub pow_of_bit_and : (fuel c : ℕ) → c ≤ fuel → 0 < c → bit_and c (c - 1) ≡ 0 → (k : ℕ) × (c ≡ 2 ^ k)
pow_of_bit_and zero c le pos h = absurd (omega arith)
pow_of_bit_and (suc f) c le pos h = elim (dec_lt 0 (c % 2)) [
  | yes odd ↦ (0, omega (arith, bit_and_pred_odd c odd))
  | no even ↦
      let r : (k : ℕ) × (c / 2 ≡ 2 ^ k) =
        pow_of_bit_and f (c / 2) (omega arith) (omega arith)
          (omega (arith, bit_and_pred_even c pos (omega arith))) in
      (suc r.0, omega (arith, two-pow-succ r.0, r.1))
]

pub bit_and_pred-pow : (k : ℕ) → bit_and (2 ^ k) (2 ^ k - 1) ≡ 0
bit_and_pred-pow k = rw (bit_and-mask k) (mod_self (2 ^ k))
