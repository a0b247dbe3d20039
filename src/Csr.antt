-- ===== src/Csr.antt =====
-- The control and status registers that the firmware reads and writes through the crate `riscv`
-- (rustsbi-jh7100/src uses `riscv::register`), as the privileged architecture documents them.
use rustsbi_hifive_unmatched.Base.{ℕ, ◌-◌, ◌%◌, Bool, true, false}

-- `riscv::register::mstatus::MPP`
pub data Mpp : Type 0 where
  machine supervisor user : Mpp

-- `riscv::register::mstatus::SPP`
pub data Spp : Type 0 where
  supervisor user : Spp

-- `mstatus`, by the fields that the firmware touches; `rest` holds the other bits.
pub record Mstatus : Type 0 where
  pub sie : Bool
  pub spie : Bool
  pub spp : Spp
  pub mpp : Mpp
  pub rest : ℕ

pub data Exception : Type 0 where
  supervisor_env_call illegal_instruction : Exception
  other_exception : ℕ → Exception

pub data Interrupt : Type 0 where
  machine_timer machine_soft supervisor_soft : Interrupt
  other_interrupt : ℕ → Interrupt

pub data Trap : Type 0 where
  exception : Exception → Trap
  interrupt : Interrupt → Trap

-- The registers of one hart.
pub record Csr : Type 0 where
  pub mstatus : Mstatus
  pub mie_msoft : Bool
  pub mie_mtimer : Bool
  pub mip_msoft : Bool
  pub mip_stimer : Bool
  pub mcause : Trap
  pub mtval : ℕ
  pub satp : ℕ
  pub scause : Trap
  pub stval : ℕ
  pub sepc : ℕ
  pub stvec : ℕ

-- `stvec::read().address()`: the base, without the two mode bits.
abbrev pub address : ℕ → ℕ
address v = v - v % 4

-- `MPP != MPP::Machine`, and so on: `==` derived for the enumeration.
abbrev pub is_machine : Mpp → Bool
is_machine Mpp.machine = true
is_machine _ = false

abbrev pub is_supervisor : Mpp → Bool
is_supervisor Mpp.supervisor = true
is_supervisor _ = false

abbrev pub is_user : Mpp → Bool
is_user Mpp.user = true
is_user _ = false
