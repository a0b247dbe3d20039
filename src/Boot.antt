-- ===== src/Boot.antt =====
-- rustsbi-jh7100/src/main.rs, early_trap.rs and runtime.rs: what each hart does from its reset to the
-- first `mret`.
pub mod Stacks
pub mod Delegation
pub mod Main
pub mod Memory
pub mod Pause
use rustsbi_hifive_unmatched.Stacks.{entry_loop, entry_loop-sum}
use rustsbi_hifive_unmatched.Base.{
  ℕ, zero, suc, ◌+◌, ◌-◌, ◌*◌, ◌%◌, ◌^◌, bit_and, ◌==◌, if◌then◌else◌, Bool, true, false, not,
  update, Outcome, ok, ◌>>=◌,
}
use rustsbi_hifive_unmatched.Machine.{Machine}
use rustsbi_hifive_unmatched.Pmp.{Pmp, set_pmp}
use rustsbi_hifive_unmatched.Hsm.Calls.{Env, pause}
use rustsbi_hifive_unmatched.Execute.{World, State, execute_supervisor}

-- Where the linker puts things, and where the boot image lies.
pub record Layout : Type 0 where
  pub sbi_stack : ℕ
  pub early_trap_fail : ℕ
  pub from_supervisor_save : ℕ
  pub device_tree : ℕ

-- The hart, with the registers that only the start-up writes. A bit of a delegation register is read
-- by the number of its cause.
pub record Boot : Type 0 where
  pub machine : Machine
  pub mtvec : ℕ
  pub mscratch : ℕ
  pub medeleg : ℕ → Bool
  pub mideleg : ℕ → Bool
  pub pmp : Pmp

abbrev pub per_hart_stack_size : ℕ
per_hart_stack_size = 4 * 4096

abbrev pub sbi_stack_size : ℕ
sbi_stack_size = 2 * per_hart_stack_size

-- The stack pointer with which `rust_main` is entered.
unfoldable pub entry : Layout → ℕ → ℕ
entry at hart_id = entry_loop per_hart_stack_size hart_id at.sbi_stack

-- `if addr & 0x2 != 0 { addr += 0x2 }`
unfoldable pub align_entry : ℕ → ℕ
align_entry addr = if not (bit_and addr 0x2 == 0) then addr + 0x2 else addr

-- early_trap.rs: `init`
unfoldable pub early_trap_init : Layout → ℕ → Boot → Boot
early_trap_init at hart_id b = record b {
  mscratch = at.sbi_stack + (hart_id + 1) * per_hart_stack_size;
  mtvec = align_entry at.early_trap_fail;
}

-- runtime.rs: `init`
unfoldable pub runtime_init : Layout → Boot → Boot
runtime_init at b = record b { mtvec = align_entry at.from_supervisor_save }

-- The bits that are set, one after the other.
abbrev pub set_bit : ℕ → (ℕ → Bool) → ℕ → Bool
set_bit k f = update f k true

unfoldable pub delegate_interrupt_exception : Boot → Boot
delegate_interrupt_exception b = record b {
  mideleg = set_bit 0 (set_bit 4 (set_bit 8 (set_bit 1 (set_bit 5 (set_bit 9 b.mideleg)))));
  medeleg = set_bit 7 (
      set_bit 5 (
        set_bit 1
          (set_bit 15 (set_bit 13 (set_bit 12 (set_bit 8 (set_bit 3 (set_bit 0 b.medeleg))))))));
  machine = let m = b.machine in record m { csr = record (m.csr) { mie_msoft = true } };
}

abbrev pub kernel_address : ℕ
kernel_address = 0x8020_0000

-- What `rust_main` does before the loop. Hart 0 sets up memory, the console and `rustsbi`, which is
-- not modelled; every other hart pauses.
unfoldable pub prepare : Layout → Env → ℕ → ℕ → Boot → Outcome Boot
prepare at env fuel hart_id b =
    let b₁ = early_trap_init at hart_id b in
    let rest = λ (m : Machine).
      runtime_init at (delegate_interrupt_exception (record b₁ { machine = m; pmp = set_pmp })) in
    if hart_id == 0 then ok (rest b₁.machine) else (pause env fuel b₁.machine >>= λ m. ok (rest m))

unfoldable pub rust_main : Layout → Env → World → ℕ → ℕ → Boot → Outcome State
rust_main at env w rounds hart_id b = prepare at env w.fuel hart_id b >>= λ b'.
    execute_supervisor w rounds kernel_address hart_id at.device_tree b'.machine
