-- ===== src/Prelude/BitOps.antt =====
-- `|` on words: setting one bit, and joining fields that do not overlap.
use Prim.Native.Nat.{
  ℕ, zero, suc, ◌+◌, ◌*◌, ◌/◌, ◌%◌, ◌^◌, ◌≤◌, ◌<◌, max, bit_or, digits, bit_or-bitwise,
}
use mathlib.Core.Path.{◌≡◌, refl, sym, ◌∙◌}
use native.Mathlib.Omega.{arith}
use native.Mathlib.Nat.{div-div-eq-div-mul, mod-add-div'}
use Prim.Native.Nat.pow

abbrev or_digits : ℕ → ℕ → ℕ → ℕ
or_digits n a b = digits (λ b. b) max n a b

or_digits_fuel : (n m a b : ℕ) → a ≤ n → a ≤ m → or_digits n a b ≡ or_digits m a b
or_digits_fuel zero zero a b p q = refl
or_digits_fuel zero (suc m) zero b p q = refl
or_digits_fuel zero (suc m) (suc a) b p q = absurd (omega arith)
or_digits_fuel (suc n) zero zero b p q = refl
or_digits_fuel (suc n) zero (suc a) b p q = absurd (omega arith)
or_digits_fuel (suc n) (suc m) zero b p q = refl
or_digits_fuel (suc n) (suc m) (suc a) b p q =
    omega (arith, or_digits_fuel n m (suc a / 2) (b / 2) (omega arith) (omega arith))

pub zero-bit_or : (b : ℕ) → bit_or 0 b ≡ b
zero-bit_or b = bit_or-bitwise 0 b

-- The lowest digit of `a | b`.
pub bit_or_step : (a b : ℕ) → bit_or a b ≡ bit_or (a / 2) (b / 2) * 2 + max (a % 2) (b % 2)
bit_or_step zero b = omega (arith, zero-bit_or b, zero-bit_or (b / 2))
bit_or_step (suc a) b = omega (
  arith,
  bit_or-bitwise (suc a) b,
  bit_or-bitwise (suc a / 2) (b / 2),
  or_digits_fuel a (suc a / 2) (suc a / 2) (b / 2) (omega arith) (omega arith),
)

bit_or-zero_fuel : (n a : ℕ) → a ≤ n → bit_or a 0 ≡ a
bit_or-zero_fuel n zero h = refl
bit_or-zero_fuel zero (suc a) h = absurd (omega arith)
bit_or-zero_fuel (suc n) (suc a) h =
    omega (arith, bit_or_step (suc a) 0, bit_or-zero_fuel n (suc a / 2) (omega arith))

pub bit_or-zero : (a : ℕ) → bit_or a 0 ≡ a
bit_or-zero a = bit_or-zero_fuel a a (omega arith)

bit_or_double : (a m : ℕ) → bit_or (a / 2) m ≡ a / 2 + m → bit_or a (m * 2) ≡ a + m * 2
bit_or_double a m h =
    let e : m * 2 / 2 ≡ m = omega arith in
    let s : bit_or a (m * 2) ≡ bit_or (a / 2) m * 2 + max (a % 2) (m * 2 % 2) =
      rw e at (bit_or_step a (m * 2)) in
    omega (arith, s, h)

-- A field of any width joined above the low `k` bits.
pub bit_or-shift : (k a v : ℕ) → a < 2 ^ k → bit_or a (v * 2 ^ k) ≡ a + v * 2 ^ k
bit_or-shift zero a v h = let e : a ≡ 0 = omega arith in rw (e, zero-bit_or) (omega arith)
bit_or-shift (suc k) a v h =
    let b : 2 ^ suc k ≡ 2 ^ k * 2 = grind (arith, pow.suc) in
    let e : v * 2 ^ suc k ≡ v * 2 ^ k * 2 = rw b (omega arith) in
    rw e (bit_or_double a (v * 2 ^ k) (bit_or-shift k (a / 2) v (omega (arith, b))))

-- Setting a bit that is clear adds its value.
pub set_bit-eq-add : (k a : ℕ) → a / 2 ^ k % 2 ≡ 0 → bit_or a (2 ^ k) ≡ a + 2 ^ k
set_bit-eq-add zero a h =
    let s : bit_or a 1 ≡ bit_or (a / 2) (1 / 2) * 2 + max (a % 2) (1 % 2) = bit_or_step a 1 in
    let z : bit_or (a / 2) 0 ≡ a / 2 = bit_or-zero (a / 2) in omega (arith, s, z)
set_bit-eq-add (suc k) a h =
    let b : 2 ^ suc k ≡ 2 ^ k * 2 = grind (arith, pow.suc) in
    rw b (bit_or_double a (2 ^ k) (set_bit-eq-add k (a / 2) hk))
  where
    hk : a / 2 / 2 ^ k % 2 ≡ 0
    hk =
        let b : 2 ^ suc k ≡ 2 * 2 ^ k = grind (arith, pow.suc) in
        rw (div-div-eq-div-mul a 2 (2 ^ k), ← b) h

-- Setting a bit that is set changes nothing.
pub set_bit_again : (k a : ℕ) → a / 2 ^ k % 2 ≡ 1 → bit_or a (2 ^ k) ≡ a
set_bit_again zero a h =
    let s : bit_or a 1 ≡ bit_or (a / 2) (1 / 2) * 2 + max (a % 2) (1 % 2) = bit_or_step a 1 in
    let z : bit_or (a / 2) 0 ≡ a / 2 = bit_or-zero (a / 2) in omega (arith, s, z)
set_bit_again (suc k) a h =
    let b : 2 ^ suc k ≡ 2 ^ k * 2 = grind (arith, pow.suc) in
    let e : 2 ^ k * 2 / 2 ≡ 2 ^ k = omega arith in
    let s : bit_or a (2 ^ k * 2) ≡ bit_or (a / 2) (2 ^ k) * 2 + max (a % 2) (2 ^ k * 2 % 2) =
      rw e at (bit_or_step a (2 ^ k * 2)) in
    rw b (omega (arith, s, set_bit_again k (a / 2) hk))
  where
    hk : a / 2 / 2 ^ k % 2 ≡ 1
    hk =
        let b : 2 ^ suc k ≡ 2 * 2 ^ k = grind (arith, pow.suc) in
        rw (div-div-eq-div-mul a 2 (2 ^ k), ← b) h

bit_or_comm_fuel : (n a b : ℕ) → a ≤ n → b ≤ n → bit_or a b ≡ bit_or b a
bit_or_comm_fuel n zero b p q = zero-bit_or b ∙ sym (bit_or-zero b)
bit_or_comm_fuel n (suc a) zero p q = bit_or-zero (suc a) ∙ sym (zero-bit_or (suc a))
bit_or_comm_fuel zero (suc a) (suc b) p q = absurd (omega arith)
bit_or_comm_fuel (suc n) (suc a) (suc b) p q = omega (
  arith,
  bit_or_step (suc a) (suc b),
  bit_or_step (suc b) (suc a),
  bit_or_comm_fuel n (suc a / 2) (suc b / 2) (omega arith) (omega arith),
)

pub bit_or_comm : (a b : ℕ) → bit_or a b ≡ bit_or b a
bit_or_comm a b = bit_or_comm_fuel (a + b) a b (omega arith) (omega arith)

bit_or-low : (w a v : ℕ) → a % 2 ^ w ≡ 0 → v < 2 ^ w → bit_or a v ≡ a + v
bit_or-low w a v h l =
    let e : a / 2 ^ w * 2 ^ w ≡ a = omega (arith, mod-add-div' a (2 ^ w), h) in
    bit_or_comm a v ∙ rw e at (bit_or-shift w v (a / 2 ^ w) l) ∙ omega arith

-- A field of `w` bits joined at bit `k`, where the word has none set.
pub bit_or-field :
    (k w a v : ℕ) → a / 2 ^ k % 2 ^ w ≡ 0 → v < 2 ^ w → bit_or a (v * 2 ^ k) ≡ a + v * 2 ^ k
bit_or-field zero w a v h l =
    let d : a / 2 ^ 0 ≡ a = omega arith in
    let e : v * 2 ^ 0 ≡ v = omega arith in rw e (bit_or-low w a v (rw d at h) l)
bit_or-field (suc k) w a v h l =
    let b : 2 ^ suc k ≡ 2 ^ k * 2 = grind (arith, pow.suc) in
    let e : v * 2 ^ suc k ≡ v * 2 ^ k * 2 = rw b (omega arith) in
    rw e (bit_or_double a (v * 2 ^ k) (bit_or-field k w (a / 2) v hk l))
  where
    hk : a / 2 / 2 ^ k % 2 ^ w ≡ 0
    hk =
        let b : 2 ^ suc k ≡ 2 * 2 ^ k = grind (arith, pow.suc) in
        rw (div-div-eq-div-mul a 2 (2 ^ k), ← b) h
