-- ===== src/Execute/Fetch.antt =====
-- rustsbi-jh7100/src/execute.rs: `get_vaddr_u32`, instruction by instruction: the read of an
-- instruction of the supervisor through its own address translation.
pub mod Translated
use rustsbi_hifive_unmatched.Base.{
  ℕ, ◌*◌, ◌/◌, ◌%◌, ◌^◌, bit_or, ◌==◌, Bool, true, false, List, [], ◌∷◌,
}

-- The hart: the two registers of the sequence, and `mstatus` as a number.
pub record Hart : Type 0 where
  pub tmp : ℕ
  pub ans : ℕ
  pub mstatus : ℕ

-- Bit 17 of `mstatus`, MPRV: loads go through the translation and the protection of the mode in MPP.
abbrev pub mprv : ℕ → Bool
mprv status = status / 2 ^ 17 % 2 == 1

-- `translated` is the word at an address as the supervisor reads it, `direct` as machine mode does.
pub record Memory : Type 0 where
  pub translated : ℕ → ℕ
  pub direct : ℕ → ℕ

pub data Instr : Type 0 where
  li : ℕ → Instr  -- li tmp, value
  csrrs : Instr  -- csrrs tmp, mstatus, tmp
  lwu : ℕ → Instr  -- lwu ans, 0(vaddr)
  csrw : Instr  -- csrw mstatus, tmp

abbrev pub load : Memory → Bool → ℕ → ℕ
load mem through vaddr = elim through [ true ↦ mem.translated vaddr | false ↦ mem.direct vaddr ]

abbrev pub step : Memory → Instr → Hart → Hart
step mem (li v) h = record h { tmp = v }
step mem csrrs h = record h { tmp = h.mstatus; mstatus = bit_or h.mstatus h.tmp }
step mem (lwu vaddr) h = record h { ans = load mem (mprv h.mstatus) vaddr % 2 ^ 32 }
step mem csrw h = record h { mstatus = h.tmp }

unfoldable pub exec : Memory → List Instr → Hart → Hart
exec mem [] h = h
exec mem (i ∷ is) h = exec mem is (step mem i h)

unfoldable pub get_vaddr_u32 : ℕ → List Instr
get_vaddr_u32 vaddr = li (1 * 2 ^ 17) ∷ csrrs ∷ lwu vaddr ∷ csrw ∷ []
