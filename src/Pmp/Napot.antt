-- ===== src/Pmp/Napot.antt =====
-- Naturally aligned regions: how main.rs encodes them, what the hardware makes of that, and what
-- hart_csr_utils.rs prints.
use rustsbi_hifive_unmatched.Base.{
  ℕ, zero, suc, ◌+◌, ◌-◌, ◌*◌, ◌/◌, ◌^◌, ◌<◌, ◌≤◌, ◌≡◌, arith, ap, ◌∙◌, ◌==◌, ap₂, bit_or, Bool,
  true, ◌↔◌, leb, ltb, ◌&&◌,
}
use native.Mathlib.Nat.{pow-suc, one-le-pow}
use rustsbi_hifive_unmatched.Bits.{bit_or_fields}
use rustsbi_hifive_unmatched.Pmp.{calc_pmpaddr, trailing_ones, napot_pmpaddr_cfg}

-- The number of a region of 2 ^ (k + 3) bytes, the `q`th of that size: `k` ones, a zero, and `q`.
abbrev pub encoded : ℕ → ℕ → ℕ
encoded q k = q * 2 ^ suc k + (2 ^ k - 1)

abbrev pub size : ℕ → ℕ
size k = 8 * 2 ^ k

div_range : (x d q : ℕ) → 0 < d → (x / d ≡ q) ↔ ((q * d ≤ x) × (x < q * d + d))
div_range x d q h = (λ e. grind arith, λ p. grind arith)

field-div : (q d r : ℕ) → r < d → (q * d + r) / d ≡ q
field-div q d r h = (div_range (q * d + r) d q (omega arith)).1 (omega arith)

twice : (q k : ℕ) → q * 2 ^ suc k ≡ 2 * (q * 2 ^ k)
twice q k = omega (arith, ap (λ (t : ℕ). q * t) (pow-suc 2 k))

eight : (q k : ℕ) → q * size k ≡ 8 * (q * 2 ^ k)
eight q k = omega arith

calc_pmpaddr-encoded : (q k : ℕ) → calc_pmpaddr (q * size k) (size k) ≡ encoded q k
unfolding calc_pmpaddr
calc_pmpaddr-encoded q k =
    ap₂ bit_or {x = q * size k / 2 ^ 2} {y = q * 2 ^ suc k} (omega (arith, eight q k, twice q k))
      (omega arith)
    ∙ bit_or_fields (suc k) q (2 ^ k - 1) (omega (arith, pow-suc 2 k, one-le-pow k 2))

encoded-zero : (q : ℕ) → encoded q 0 ≡ 2 * q
encoded-zero q = omega arith

encoded-suc : (q k : ℕ) → encoded q (suc k) ≡ 2 * encoded q k + 1
encoded-suc q k = omega (arith, twice q (suc k), pow-suc 2 k, one-le-pow k 2)

trailing_ones-encoded : (width q k : ℕ) → k < width → trailing_ones width (encoded q k) ≡ k
unfolding trailing_ones
trailing_ones-encoded zero q k h = absurd (omega arith)
trailing_ones-encoded (suc width) q zero h = ground (arith, encoded-zero q)
trailing_ones-encoded (suc width) q (suc k) h = ground (
  arith,
  encoded-suc q k,
  trailing_ones-encoded width q k (omega arith),
  ap (trailing_ones width) (half q k),
)
  where
    half : (q k : ℕ) → encoded q (suc k) / 2 ≡ encoded q k
    half q k = omega (arith, encoded-suc q k)

-- What the hardware makes of an address register in this mode: the address agrees with it above
-- the lowest zero.
unfoldable pub napot_matches : ℕ → ℕ → Bool
napot_matches pmpaddr address =
    let k = trailing_ones 64 pmpaddr in address / size k == pmpaddr / 2 ^ suc k

encoded-div : (q k : ℕ) → encoded q k / 2 ^ suc k ≡ q
encoded-div q k = field-div q (2 ^ suc k) (2 ^ k - 1) (omega (arith, pow-suc 2 k, one-le-pow k 2))

-- The register that `set_pmp` computes for a naturally aligned region of 2 ^ (k + 3) bytes, with k
-- below 64, matches exactly the addresses of that region.
pub calc_pmpaddr-matches :
    (q k address : ℕ)
    → k < 64
    → (napot_matches (calc_pmpaddr (q * size k) (size k)) address ≡ true)
      ↔ ((q * size k ≤ address) × (address < q * size k + size k))
unfolding napot_matches
calc_pmpaddr-matches q k address h = ground (
  arith,
  calc_pmpaddr-encoded q k,
  trailing_ones-encoded 64 q k h,
  encoded-div q k,
  div_range address (size k) q,
  one-le-pow k 2,
)

-- The same as an equation of tests.
pub matches-range :
    (q k address : ℕ)
    → k < 64
    → napot_matches (calc_pmpaddr (q * size k) (size k)) address
      ≡ (leb (q * size k) address && ltb address (q * size k + size k))
matches-range q k address h = ground (arith, calc_pmpaddr-matches q k address h)

-- For a naturally aligned region of 2 ^ (k + 4) bytes, of at least sixteen, in the 64-bit addresses,
-- the range that is printed for the register that `set_pmp` computes starts with the region and ends
-- in its middle.
pub napot_pmpaddr_cfg-calc_pmpaddr :
    (q k : ℕ)
    → suc k < 62
    → q * size (suc k) + size (suc k) ≤ 2 ^ 64
    → napot_pmpaddr_cfg (calc_pmpaddr (q * size (suc k)) (size (suc k)))
      ≡ (q * size (suc k), q * size (suc k) + size k - 1)
unfolding napot_pmpaddr_cfg
napot_pmpaddr_cfg-calc_pmpaddr q k h fits = ground (
  arith,
  calc_pmpaddr-encoded q (suc k),
  trailing_ones-encoded 128 q (suc k) (omega arith),
  twice q (suc k),
  pow-suc 2 k,
  one-le-pow k 2,
)
