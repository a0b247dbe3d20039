-- ===== src/HartCsrs.antt =====
-- rustsbi-jh7100/src/hart_csr_utils.rs: the text about `misa` and about the delegation registers. A
-- register is read by the numbers of its bits.
pub mod Names
use Prim.Native.String.{String}
use rustsbi_hifive_unmatched.Base.{
  ℕ, zero, suc, ◌+◌, ◌-◌, ◌*◌, if◌then◌else◌, Bool, List, [], ◌∷◌, ◌++◌, Option, some, none,
}

-- The bits that are tested, in the order of the tests, each with the name that is pushed for it.
abbrev pub Table : Type 0
Table = List (ℕ × String)

abbrev pub mideleg_table : Table
mideleg_table =
    (0, "usoft") ∷ (4, "utimer") ∷ (8, "uext") ∷ (1, "ssoft") ∷ (5, "stimer") ∷ (9, "sext") ∷ []

abbrev pub medeleg_table : Table
medeleg_table =
    (0, "ima")
    ∷ (1, "ia")
    ∷ (2, "illinsn")
    ∷ (3, "bkpt")
    ∷ (4, "lma")
    ∷ (5, "la")
    ∷ (6, "sma")
    ∷ (7, "sa")
    ∷ (8, "uecall")
    ∷ (9, "secall")
    ∷ (11, "mecall")
    ∷ (12, "ipage")
    ∷ (13, "lpage")
    ∷ (15, "spage")
    ∷ []

-- `if … { delegs.push(…) }`, one after the other.
unfoldable pub push_names : Table → (ℕ → Bool) → List String
push_names [] reads = []
push_names ((bit, name) ∷ t) reads =
    let rest = push_names t reads in if reads bit then name ∷ rest else rest

-- `delegs`, which the text joins with commas.
unfoldable pub print_mideleg : (ℕ → Bool) → List String
unfolding push_names
print_mideleg mideleg = push_names mideleg_table mideleg

unfoldable pub print_medeleg : (ℕ → Bool) → List String
unfolding push_names
print_medeleg medeleg = push_names medeleg_table medeleg

-- `riscv::register::misa::MXL`
pub data Mxl : Type 0 where
  xlen32 xlen64 xlen128 : Mxl

abbrev pub mxl_str : Mxl → List ℕ
mxl_str xlen32 = b'R' ∷ b'V' ∷ b'3' ∷ b'2' ∷ []
mxl_str xlen64 = b'R' ∷ b'V' ∷ b'6' ∷ b'4' ∷ []
mxl_str xlen128 = b'R' ∷ b'V' ∷ b'1' ∷ b'2' ∷ b'8' ∷ []

-- `for ext in 'A'..='Z'`, from `ext` on with `left` letters left.
unfoldable pub push_extensions : (ℕ → Bool) → ℕ → ℕ → List ℕ
push_extensions has_extension zero ext = []
push_extensions has_extension (suc left) ext =
    let rest = push_extensions has_extension left (ext + 1) in
    if has_extension ext then ext ∷ rest else rest

-- The text of `misa`, by its characters, if the register is there.
unfoldable pub print_misa : Option (Mxl × (ℕ → Bool)) → Option (List ℕ)
unfolding push_extensions
print_misa none = none
print_misa (some (mxl, has_extension)) = some (mxl_str mxl ++ push_extensions has_extension 26 b'A')
