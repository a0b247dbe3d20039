-- ===== src/Pmp.antt =====
-- Physical memory protection: `set_pmp` of rustsbi-jh7100/src/main.rs, and the reading of the registers
-- for the console in rustsbi-jh7100/src/hart_csr_utils.rs.
pub mod Napot
pub mod Grants
pub mod Dump
use rustsbi_hifive_unmatched.Base.{
  ℕ, zero, suc, ◌+◌, ◌-◌, ◌*◌, ◌/◌, ◌%◌, ◌^◌, bit_or, ◌==◌, if◌then◌else◌, Bool, true, false, List,
  [], ◌∷◌, Option, some, none,
}

-- main.rs: `|start_addr, length| (start_addr >> 2) | ((length >> 3) - 1)`. A length below 8, for which
-- the subtraction would panic, does not occur.
unfoldable pub calc_pmpaddr : ℕ → ℕ → ℕ
calc_pmpaddr start_addr length = bit_or (start_addr / 2 ^ 2) (length / 2 ^ 3 - 1)

-- The registers that are written.
pub record Pmp : Type 0 where
  pub pmpcfg0 : ℕ
  pub pmpaddr : List ℕ

unfoldable pub set_pmp : Pmp
set_pmp = record {
  pmpcfg0 =
      bit_or
        (bit_or
          (bit_or
            (bit_or
              (bit_or (bit_or (bit_or (bit_or 0 0b11011) (0b11011 * 2 ^ 8)) (0b11111 * 2 ^ 16))
                (0b11111 * 2 ^ 24))
              (0b11111 * 2 ^ 32))
            (0b11111 * 2 ^ 40))
          (0b11111 * 2 ^ 48))
        (0b11111 * 2 ^ 56);
  pmpaddr =
      calc_pmpaddr 0x1000_0000 0x800_0000
      ∷ calc_pmpaddr 0x200_0000 0x200_0000
      ∷ calc_pmpaddr 0x2000_0000 0x2000_0000
      ∷ calc_pmpaddr 0x8000_0000 0x8000_0000
      ∷ calc_pmpaddr 0x1_0000_0000 0x1_0000_0000
      ∷ calc_pmpaddr 0x2_0000_0000 0x8000_0000
      ∷ calc_pmpaddr 0xc00_0000 0x400_0000
      ∷ calc_pmpaddr 0x1800_0000 0x800_0000
      ∷ [];
}

-- hart_csr_utils.rs: `PmpCfg`, a byte.
pub data AddressMatching : Type 0 where
  off tor na4 napot : AddressMatching

abbrev pub get_bit : ℕ → ℕ → Bool
get_bit bits k = bits / 2 ^ k % 2 == 1

abbrev pub r : ℕ → Bool
r bits = get_bit bits 0

abbrev pub w : ℕ → Bool
w bits = get_bit bits 1

abbrev pub x : ℕ → Bool
x bits = get_bit bits 2

-- `get_bits(3..5)` has no value but these four.
abbrev pub a : ℕ → AddressMatching
a bits =
    let field = bits / 2 ^ 3 % 4 in
    if field == 0 then off else if field == 1 then tor else if field == 2 then na4 else napot

abbrev pub l : ℕ → Bool
l bits = get_bit bits 7

-- `trailing_ones` of a number of `width` bits.
unfoldable pub trailing_ones : ℕ → ℕ → ℕ
trailing_ones zero n = 0
trailing_ones (suc width) n =
    let more = trailing_ones width (n / 2) in if n % 2 == 1 then suc more else 0

-- On `u128`: a shift loses the high bits, and the subtraction wraps as in a release build.
unfoldable pub napot_pmpaddr_cfg : ℕ → ℕ × ℕ
napot_pmpaddr_cfg input =
    let ones = trailing_ones 128 input in
    let mask = 2 ^ ones - 1 in
    if ones == 0
    then (input, input)
    else ((input - mask) * 2 ^ 2 % 2 ^ 128, ((input + 1) * 2 ^ 2 % 2 ^ 128 + 2 ^ 128 - 1) % 2 ^ 128)
