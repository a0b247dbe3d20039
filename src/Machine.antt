-- ===== src/Machine.antt =====
-- What the code of one hart reads and writes: the registers of the hart, the device registers, and
-- the state that all harts share.
use rustsbi_hifive_unmatched.Base.{ℕ}
use rustsbi_hifive_unmatched.Csr.{Csr}
use rustsbi_hifive_unmatched.Clint.{Mmio}
use rustsbi_hifive_unmatched.Hsm.Data.{U74Hsm}

pub record Machine : Type 0 where
  pub hart_id : ℕ  -- mhartid
  pub csr : Csr
  pub mmio : Mmio
  pub hsm : U74Hsm
