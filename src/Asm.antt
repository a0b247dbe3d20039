-- ===== src/Asm.antt =====
-- The instructions of the RV64 privileged architecture in which the context switches of
-- rustsbi-jh7100/src/runtime.rs and early_trap.rs are written. A program is the list of the
-- instructions that one entry executes up to its last jump; `j` between two parts joins the lists.
pub mod Tables
use rustsbi_hifive_unmatched.Base.{
  ℕ, ◌+◌, ◌-◌, ◌*◌, ◌/◌, ◌%◌, ◌^◌, ◌==◌, if◌then◌else◌, update, List, [], ◌∷◌,
}

-- x1 is ra, x2 sp, x3 gp, x4 tp, x5 to x7 t0 to t2, x8 and x9 s0 and s1, x10 to x17 a0 to a7, x18 to
-- x27 s2 to s11, x28 to x31 t3 to t6.
pub record Cpu : Type 0 where
  pub x : ℕ → ℕ
  pub mem : ℕ → ℕ  -- the double word at an address; the programs only use aligned ones
  pub mscratch : ℕ
  pub mstatus : ℕ
  pub mepc : ℕ
  pub pc : ℕ  -- where the last jump leads

pub data Csr : Type 0 where
  mscratch mstatus mepc : Csr

pub data Instr : Type 0 where
  sd : (src word base : ℕ) → Instr  -- sd src, word*8(base)
  ld : (dst word base : ℕ) → Instr  -- ld dst, word*8(base)
  grow : (words : ℕ) → Instr  -- addi sp, sp, -words*8
  shrink : (words : ℕ) → Instr  -- addi sp, sp, words*8
  mv : (dst src : ℕ) → Instr
  csrr : (dst : ℕ) → Csr → Instr
  csrw : Csr → (src : ℕ) → Instr
  csrrw : (dst : ℕ) → Csr → (src : ℕ) → Instr
  jr : (src : ℕ) → Instr
  mret : Instr

abbrev pub word_at : ℕ → ℕ → ℕ
word_at base k = (base + 8 * k) % 2 ^ 64

abbrev pub read_csr : Csr → Cpu → ℕ
read_csr mscratch c = c.mscratch
read_csr mstatus c = c.mstatus
read_csr mepc c = c.mepc

abbrev pub write_csr : Csr → ℕ → Cpu → Cpu
write_csr mscratch v c = record c { mscratch = v }
write_csr mstatus v c = record c { mstatus = v }
write_csr mepc v c = record c { mepc = v }

abbrev pub write_x : ℕ → ℕ → Cpu → Cpu
write_x r v c = record c { x = update c.x r v }

-- What `mret` leaves of the status, in version 1.11 of the architecture: MIE (bit 3) takes the value of
-- MPIE (bit 7), which is set, MPP (bits 11 and 12) becomes user mode, and the rest stays.
unfoldable pub after_mret : ℕ → ℕ
after_mret s =
    s / 2 ^ 13 * 2 ^ 13
    + s / 2 ^ 8 % 2 ^ 3 * 2 ^ 8
    + 2 ^ 7
    + s / 2 ^ 4 % 2 ^ 3 * 2 ^ 4
    + s / 2 ^ 7 % 2 * 2 ^ 3
    + s % 2 ^ 3

abbrev pub step : Instr → Cpu → Cpu
step (sd r k b) c = record c { mem = update c.mem (word_at (c.x b) k) (c.x r) }
step (ld r k b) c = write_x r (c.mem (word_at (c.x b) k)) c
step (grow n) c = write_x 2 ((c.x 2 + 2 ^ 64 - 8 * n) % 2 ^ 64) c
step (shrink n) c = write_x 2 ((c.x 2 + 8 * n) % 2 ^ 64) c
step (mv r s) c = write_x r (c.x s) c
step (csrr r k) c = write_x r (read_csr k c) c
step (csrw k r) c = write_csr k (c.x r) c
step (csrrw r k s) c = write_x r (read_csr k c) (write_csr k (c.x s) c)
step (jr r) c = record c { pc = c.x r }
step mret c = record c { pc = c.mepc; mstatus = after_mret c.mstatus }

unfoldable pub exec : List Instr → Cpu → Cpu
exec [] c = c
exec (i ∷ is) c = exec is (step i c)
