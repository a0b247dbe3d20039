-- ===== src/Context.antt =====
-- rustsbi-jh7100/src/runtime.rs: `SupervisorContext`, the registers of the supervisor between a trap
-- and the return from it, and `Runtime`.
use rustsbi_hifive_unmatched.Base.{ℕ, update, false, Outcome, ok, panicked}
use rustsbi_hifive_unmatched.Csr.{
  Mpp, Spp, Mstatus, supervisor_env_call, illegal_instruction, machine_timer, machine_soft, Trap,
  exception, interrupt,
}
use rustsbi_hifive_unmatched.Machine.{Machine}

-- The struct is `repr(C)`: `regs k` is its `k`th word, which holds the register x(k + 1), for k
-- below 31. The words 31 to 33 are the other fields.
pub record SupervisorContext : Type 0 where
  pub regs : ℕ → ℕ
  pub mstatus : Mstatus
  pub mepc : ℕ
  pub machine_stack : ℕ

-- The words of the registers that the Rust code names.
abbrev pub a0 : ℕ
a0 = 9

abbrev pub a1 : ℕ
a1 = 10

abbrev pub a2 : ℕ
a2 = 11

abbrev pub a6 : ℕ
a6 = 15

abbrev pub a7 : ℕ
a7 = 16

abbrev pub set_reg : ℕ → ℕ → SupervisorContext → SupervisorContext
set_reg k v c = record c { regs = update c.regs k v }

pub data MachineTrap : Type 0 where
  sbi_call illegal machine_timer_trap machine_soft_trap : MachineTrap

-- `Runtime::reset`: the machine with the previous mode set, and the context.
unfoldable pub reset : SupervisorContext → Machine → SupervisorContext × Machine
reset c m =
    let status = record (m.csr.mstatus) { mpp = Mpp.supervisor } in
    (
      record c { mstatus = status; machine_stack = 0x2333333366666666 },
      record m { csr = record (m.csr) { mstatus = status } },
    )

unfoldable pub prepare_supervisor : ℕ → SupervisorContext → Machine → SupervisorContext × Machine
unfolding reset
prepare_supervisor new_mepc c m = let (c', m') = reset c m in (record c' { mepc = new_mepc }, m')

-- `MaybeUninit::zeroed()`
abbrev pub zeroed : SupervisorContext
zeroed = record {
  regs = λ k. 0;
  mstatus = record { sie = false; spie = false; spp = Spp.user; mpp = Mpp.user; rest = 0 };
  mepc = 0;
  machine_stack = 0;
}

unfoldable pub new_sbi_supervisor : ℕ → ℕ → ℕ → Machine → SupervisorContext × Machine
unfolding prepare_supervisor
new_sbi_supervisor supervisor_mepc x y m =
    let (c, m') = prepare_supervisor supervisor_mepc zeroed m in (set_reg a1 y (set_reg a0 x c), m')

-- The traps that `Runtime::resume` knows; all others panic.
unfoldable pub trap_of : Trap → Outcome MachineTrap
trap_of (exception supervisor_env_call) = ok sbi_call
trap_of (exception illegal_instruction) = ok illegal
trap_of (interrupt machine_timer) = ok machine_timer_trap
trap_of (interrupt machine_soft) = ok machine_soft_trap
trap_of _ = panicked
