-- ===== src/Bits.antt =====
-- The bit operations on native numbers, as arithmetic on fields of bits.
mod Digits
pub use Digits.{bit_and_low, bit_or_low}
use Prim.Native.Nat.{bit_and-bitwise, bit_or-bitwise}
use rustsbi_hifive_unmatched.Base.{
  ℕ, zero, suc, ◌+◌, ◌*◌, ◌-◌, ◌/◌, ◌%◌, ◌^◌, ◌≤◌, ◌<◌, bit_and, bit_or, ◌≡◌, refl, arith, ap,
}
use native.Mathlib.Nat.{pow-suc, one-le-pow}
use Digits.{bit_and_low, bit_or_low}

double_field : (q k : ℕ) → q * 2 ^ suc k ≡ q * 2 ^ k * 2
double_field q k = omega (arith, ap (λ (t : ℕ). q * t) (pow-suc 2 k))

zero-bit_and : (b : ℕ) → bit_and 0 b ≡ 0
zero-bit_and b = bit_and-bitwise 0 b

zero-bit_or : (b : ℕ) → bit_or 0 b ≡ b
zero-bit_or b = bit_or-bitwise 0 b

-- Two numbers of two fields each: the operation works on the fields.
pub bit_and_split :
    (k q r p s : ℕ)
    → r < 2 ^ k
    → s < 2 ^ k
    → bit_and (q * 2 ^ k + r) (p * 2 ^ k + s) ≡ bit_and q p * 2 ^ k + bit_and r s
bit_and_split zero q r p s hr hs = ground arith
bit_and_split (suc k) q r p s hr hs = ground (
  arith,
  bit_and_low (q * 2 ^ suc k + r) (p * 2 ^ suc k + s),
  bit_and_low r s,
  bit_and_split k q (r / 2) p (s / 2),
  double_field q k,
  double_field p k,
  double_field (bit_and q p) k,
  pow-suc 2 k,
)

pub bit_or_split :
    (k q r p s : ℕ)
    → r < 2 ^ k
    → s < 2 ^ k
    → bit_or (q * 2 ^ k + r) (p * 2 ^ k + s) ≡ bit_or q p * 2 ^ k + bit_or r s
bit_or_split zero q r p s hr hs = ground arith
bit_or_split (suc k) q r p s hr hs = ground (
  arith,
  bit_or_low (q * 2 ^ suc k + r) (p * 2 ^ suc k + s),
  bit_or_low r s,
  bit_or_split k q (r / 2) p (s / 2),
  double_field q k,
  double_field p k,
  double_field (bit_or q p) k,
  pow-suc 2 k,
)

-- A mask of `k` ones keeps a number of `k` bits, and a mask of none keeps nothing.
pub bit_and_ones : (k r : ℕ) → r < 2 ^ k → bit_and r (2 ^ k - 1) ≡ r
bit_and_ones zero r h = ground arith
bit_and_ones (suc k) r h =
    ground
      (arith, bit_and_low r (2 ^ suc k - 1), bit_and_ones k (r / 2), pow-suc 2 k, one-le-pow k 2)

bit_and-zero_upto : (bound a : ℕ) → a ≤ bound → bit_and a 0 ≡ 0
bit_and-zero_upto bound zero h = zero-bit_and 0
bit_and-zero_upto zero (suc a) h = absurd (omega arith)
bit_and-zero_upto (suc bound) (suc a) h =
    omega (arith, bit_and_low (suc a) 0, bit_and-zero_upto bound (suc a / 2) (omega arith))

pub bit_and-zero : (a : ℕ) → bit_and a 0 ≡ 0
bit_and-zero a = bit_and-zero_upto a a (omega arith)

bit_or-zero_upto : (bound a : ℕ) → a ≤ bound → bit_or a 0 ≡ a
bit_or-zero_upto bound zero h = zero-bit_or 0
bit_or-zero_upto zero (suc a) h = absurd (omega arith)
bit_or-zero_upto (suc bound) (suc a) h =
    omega (arith, bit_or_low (suc a) 0, bit_or-zero_upto bound (suc a / 2) (omega arith))

pub bit_or-zero : (a : ℕ) → bit_or a 0 ≡ a
bit_or-zero a = bit_or-zero_upto a a (omega arith)

-- The low field alone, and the union of a high and a low field.
pub bit_and_low_field : (k q r : ℕ) → r < 2 ^ k → bit_and (q * 2 ^ k + r) (2 ^ k - 1) ≡ r
bit_and_low_field k q r h =
    ground
      (arith, bit_and_split k q r 0 (2 ^ k - 1), bit_and_ones k r, bit_and-zero q, one-le-pow k 2)

pub bit_or_fields : (k q r : ℕ) → r < 2 ^ k → bit_or (q * 2 ^ k) r ≡ q * 2 ^ k + r
bit_or_fields k q r h =
    ground (arith, bit_or_split k q 0 0 r, bit_or-zero q, zero-bit_or r, one-le-pow k 2)
