-- ===== src/Tests/Registers.antt =====
-- The context switches, the memory protection, the stacks and the serial port.
use rustsbi_hifive_unmatched.Base.{
  ℕ, ◌+◌, ◌≤◌, ◌<◌, ◌≡◌, ◌≢◌, ◌↔◌, ◌⊎◌, refl, inl, true, false, ok, panicked, arith, ltb, ◌==◌,
  if◌then◌else◌, List, [], ◌∷◌, ◌++◌, map, update,
}
use rustsbi_hifive_unmatched.Csr.{exception, interrupt}
use rustsbi_hifive_unmatched.Context.{trap_of}
use rustsbi_hifive_unmatched.Asm.{Cpu, exec, after_mret}
use rustsbi_hifive_unmatched.Runtime.{do_resume, handle_trap}
use rustsbi_hifive_unmatched.Runtime.Words.{callee_saved}
use rustsbi_hifive_unmatched.Runtime.Resume.{Holds}
use rustsbi_hifive_unmatched.Runtime.Switch.{do_resume_returns, trap_then_resume}
use rustsbi_hifive_unmatched.EarlyTrap.{early_trap_fail}
use rustsbi_hifive_unmatched.EarlyTrap.Saved.{Saves, early_trap_fail-Saves}
use rustsbi_hifive_unmatched.Pmp.{calc_pmpaddr, set_pmp, napot_pmpaddr_cfg}
use rustsbi_hifive_unmatched.Pmp.Napot.{napot_pmpaddr_cfg-calc_pmpaddr}
use rustsbi_hifive_unmatched.Pmp.Grants.{grants, memory_map, all_rights, grants-set_pmp}
use rustsbi_hifive_unmatched.Pmp.Dump.{Registers, Entries, pmps}
use rustsbi_hifive_unmatched.Pmp.Dump.Filled.{entry_of, pmps_filled}
use rustsbi_hifive_unmatched.Boot.{
  Layout, Boot, entry, early_trap_init, per_hart_stack_size, delegate_interrupt_exception,
}
use rustsbi_hifive_unmatched.Boot.Stacks.{entry_stacks}
use rustsbi_hifive_unmatched.Boot.Delegation.{
  exception_of, interrupt_of, unhandled_exceptions, unhandled_interrupts,
}
use rustsbi_hifive_unmatched.Uart.{Uart, preloaded_uart0, write_all}
use rustsbi_hifive_unmatched.Uart.Lines.{
  to_holding_register, no_bare_feed, without, length, bare_feeds, write_all_lines,
}
use rustsbi_hifive_unmatched.Hsm.Data.{new}
use rustsbi_hifive_unmatched.Tests.Values.{machine}

-- The firmware at its call, with its stack below 0x10078 and the context at 0x20000.
abbrev firmware : Cpu
firmware = record {
  x = λ r. if r == 2 then 0x10078 else if r == 10 then 0x20000 else r;
  mem = λ a. a;
  mscratch = 0;
  mstatus = 0;
  mepc = 0;
  pc = 0;
}

-- The supervisor at its trap, with other values in all registers.
abbrev supervisor : Cpu
supervisor = record (exec do_resume firmware) { x = λ r. 1000 + r; mepc = 0x8020_0100; mstatus = 5 }

do_resume_returns_example :
    let c' = exec handle_trap supervisor in
    ((r : ℕ) → r < 32 → callee_saved r ≡ true → c'.x r ≡ firmware.x r)
    × (c'.x 2 ≡ 0x10078)
    × (c'.pc ≡ 1)
    × Holds 0x20000 supervisor.x 5 0x8020_0100 c'.mem
do_resume_returns_example =
    do_resume_returns firmware supervisor (omega arith) (omega arith)
      (record { context = omega arith; frame = omega arith; apart = inl (omega arith) })
      (record { scratch = refl; stack = refl; frames = λ k h. refl })

-- A supervisor whose context at 0x20000 knows the frame at 0x10000.
abbrev trapping : Cpu
trapping = record {
  x = λ r. 1000 + r;
  mem = update (λ a. a) 0x20108 0x10000;
  mscratch = 0x20000;
  mstatus = 5;
  mepc = 0x8020_0100;
  pc = 0;
}

abbrev resuming : Cpu
resuming = record firmware { mem = (exec handle_trap trapping).mem }

trap_then_resume_example :
    let s' = exec do_resume resuming in
    ((r : ℕ) → 0 < r → r < 32 → s'.x r ≡ trapping.x r)
    × (s'.mstatus ≡ after_mret 5)
    × (s'.pc ≡ 0x8020_0100)
    × (s'.mscratch ≡ 0x20000)
trap_then_resume_example =
    trap_then_resume trapping resuming
      (record { context = omega arith; frame = omega arith; apart = inl (omega arith) }) refl
      (record { context = omega arith; frame = omega arith; apart = inl (omega arith) })
      (λ k h. refl)

early_trap_fail-Saves_example : Saves trapping (exec early_trap_fail trapping)
early_trap_fail-Saves_example = early_trap_fail-Saves trapping (omega arith) (omega arith)

napot_pmpaddr_cfg-calc_pmpaddr_example :
    napot_pmpaddr_cfg (calc_pmpaddr 0x1000_0000 0x800_0000) ≡ (0x1000_0000, 0x13ff_ffff)
napot_pmpaddr_cfg-calc_pmpaddr_example =
    napot_pmpaddr_cfg-calc_pmpaddr 2 23 (omega arith) (omega arith)

grants-set_pmp_example : grants set_pmp 0x8020_0000 ≡ memory_map all_rights 0x8020_0000
grants-set_pmp_example = grants-set_pmp 0x8020_0000

abbrev registers : Registers
registers = record { pmpcfg = λ i. 0x1f1f_1f1f_1f1f_1b1b; pmpaddr = λ i. 100 + i }

pmps_filled_example :
    (ans : Entries) × (pmps registers 8 ≡ ok ans)
    × ((k : ℕ) → ans k ≡ (if ltb k 8 then entry_of registers k else (0, 0)))
pmps_filled_example = pmps_filled registers 8 (omega arith)

abbrev layout : Layout
layout = record {
  sbi_stack = 0x8000_0000;
  early_trap_fail = 0x8001_0002;
  from_supervisor_save = 0x8001_0100;
  device_tree = 0x8002_0000;
}

abbrev fresh : Boot
fresh = record {
  machine = machine 1 new;
  mtvec = 0;
  mscratch = 0;
  medeleg = λ c. false;
  mideleg = λ c. false;
  pmp = set_pmp;
}

abbrev second : ℕ
second = 1

entry_stacks_example :
    (entry layout 0 ≡ 0x8000_4000)
    × (entry layout 0 ≤ 0x8000_8000)
    × ((early_trap_init layout 0 fresh).mscratch ≡ entry layout 0)
    × (0 ≢ second
        → (entry layout 0 + per_hart_stack_size ≤ entry layout 1)
          ⊎ (entry layout 1 + per_hart_stack_size ≤ entry layout 0))
entry_stacks_example = entry_stacks layout 0 1 fresh (omega arith) (omega arith) (omega arith)

unhandled_exceptions_example :
    (((delegate_interrupt_exception fresh).medeleg 4 ≡ false)
      × (trap_of (exception (exception_of 4)) ≡ panicked))
    ↔ ((second + 3 ≡ 4)
        ⊎ (second + 3 ≡ 6)
        ⊎ (second + 3 ≡ 10)
        ⊎ (second + 3 ≡ 11)
        ⊎ (second + 3 ≡ 14))
unhandled_exceptions_example = unhandled_exceptions fresh 4 (λ c. (refl, refl)) (omega arith)

unhandled_interrupts_example :
    (((delegate_interrupt_exception fresh).mideleg 11 ≡ false)
      × (trap_of (interrupt (interrupt_of 11)) ≡ panicked))
    ↔ ((second + 10 ≡ 2) ⊎ (second + 10 ≡ 6) ⊎ (second + 10 ≡ 10) ⊎ (second + 10 ≡ 11))
unhandled_interrupts_example = unhandled_interrupts fresh 11 (λ c. (refl, refl)) (omega arith)

-- The text "a\nb\r\n".
abbrev text : List ℕ
text = 97 ∷ 10 ∷ 98 ∷ 13 ∷ 10 ∷ []

abbrev port : Uart
port = preloaded_uart0 (λ a. 0)

write_all_lines_example :
    (line : List ℕ) × ((write_all text port).written ≡ ([] ++ map to_holding_register line))
    × (no_bare_feed 0 line ≡ true)
    × (without 13 line ≡ 97 ∷ 10 ∷ 98 ∷ 10 ∷ [])
    × (length line ≡ length text + bare_feeds 0 text)
write_all_lines_example = write_all_lines text port
