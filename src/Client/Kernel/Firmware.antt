-- ===== src/Client/Kernel/Firmware.antt =====
-- test-kernel/src/main.rs on top of rustsbi-jh7100/: the tests with the clock that the firmware
-- emulates and the illegal instruction that it hands on.
use rustsbi_hifive_unmatched.Base.{
  ℕ, ◌-◌, ◌<◌, Outcome, ok, waiting, ◌>>=◌, ◌==◌, if◌then◌else◌, Bool, true, false,
}
use rustsbi_hifive_unmatched.Csr.{Mpp, Spp}
use rustsbi_hifive_unmatched.Clint
use rustsbi_hifive_unmatched.Sbi.{Sbi}
use rustsbi_hifive_unmatched.Machine.{Machine}
use rustsbi_hifive_unmatched.Hsm.Calls
use rustsbi_hifive_unmatched.Feature.{next_instruction}
use rustsbi_hifive_unmatched.Execute.{State, handle_illegal_instruction}
use rustsbi_hifive_unmatched.Client.{Instruction}
use rustsbi_hifive_unmatched.Client.Kernel.{Clock, rust_trap_exception}
use rustsbi_hifive_unmatched.Client.Kernel.Illegal.{sret}

-- A trap from supervisor mode at `pc`, as the firmware finds it in the context.
abbrev pub trap_at : ℕ → State → State
trap_at pc (ctx, m) =
    (record ctx { mepc = pc; mstatus = record (ctx.mstatus) { mpp = Mpp.supervisor } }, m)

-- What is left once control has come to `pc`; control that has gone anywhere else never comes back.
abbrev pub at : ℕ → State → Outcome State
at pc (ctx, m) = if ctx.mepc == pc then ok (ctx, m) else waiting

-- `rdtime rd` at `pc`, once the time has gone on, up to the next instruction.
abbrev pub rdtime_clock : (fetch : ℕ → ℕ) (pc rd : ℕ) → (Machine → Machine) → Clock
rdtime_clock fetch pc rd later (ctx, m) =
    handle_illegal_instruction fetch (trap_at pc (ctx, later m))
    >>= at (next_instruction pc)
    >>= λ t. ok (t.0.regs (rd - 1), t)

-- The device counts the time.
abbrev mtime : Machine → ℕ
mtime m = Clint.get_mtime (Clint.new 0x2000000) m.mmio

pub record Advances (later : Machine → Machine) : Type 0 where
  pub advances : (m : Machine) → mtime m < mtime (later m)

abbrev is_supervisor : Spp → Bool
is_supervisor Spp.supervisor = true
is_supervisor Spp.user = false

-- The `sret` of the handler: the kernel has to go on in supervisor mode.
abbrev pub after_sret : State → Outcome State
after_sret (ctx, m) =
    let (pc, mode, m') = sret m in
    if is_supervisor mode then ok (record ctx { mepc = pc }, m') else waiting

-- An illegal instruction at `pc`, through the firmware, which has to enter the handler `start_trap`,
-- and the handler with its `sret`, up to the next instruction.
abbrev pub illegal_at : (fetch : ℕ → ℕ) (pc start_trap : ℕ) → Instruction → Instruction
illegal_at fetch pc start_trap ecall s =
    handle_illegal_instruction fetch (trap_at pc s)
    >>= at start_trap
    >>= rust_trap_exception ecall
    >>= after_sret
    >>= at (next_instruction pc)
