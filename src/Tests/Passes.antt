-- ===== src/Tests/Passes.antt =====
-- The tests of the test kernel on the firmware.
use rustsbi_hifive_unmatched.Base.{
  ℕ, ◌+◌, ◌≡◌, refl, false, true, ◌||◌, ok, arith, ◌==◌, if◌then◌else◌,
}
use rustsbi_hifive_unmatched.Csr.{Spp, address}
use rustsbi_hifive_unmatched.Feature.{next_instruction}
use rustsbi_hifive_unmatched.Feature.Rdtime.{rdtime}
use rustsbi_hifive_unmatched.Execute.{Ecall, State, handle_illegal_instruction}
use rustsbi_hifive_unmatched.Client.{extension_base, extension_ipi}
use rustsbi_hifive_unmatched.Client.Kernel.{rust_trap_exception}
use rustsbi_hifive_unmatched.Client.Kernel.Illegal.{sret, illegal_resumes}
use rustsbi_hifive_unmatched.Machine.{Machine}
use rustsbi_hifive_unmatched.Tests.Values.{context, machine, one_started}
use rustsbi_hifive_unmatched.Tests.Loop.{dispatch}

-- The calls of the base extension and of interrupts besides those of the monitor.
abbrev answering : Ecall
answering extension f p m =
    if extension == extension_base
    then ok (m, record { error = 0; value = f + 1 })
    else if extension == extension_ipi
    then ok (m, record { error = 0; value = 0 })
    else dispatch extension f p m

-- The device clock goes on by one tick.
abbrev later : Machine → Machine
later m = record m { mmio = λ a. m.mmio a + 1 }

abbrev booted : State
booted = (context, machine 0 one_started)

-- `rdtime a0` at one address, `csrw mcycle, x0` at another.
abbrev kernel : ℕ → ℕ
kernel a = if a == 0x8020_0200 then rdtime 10 else 0xB000_1073

-- The instruction `csrw mcycle, x0`.
abbrev fetch : ℕ → ℕ
fetch a = 0xB000_1073

illegal_resumes_example :
    (s s' : State) × (handle_illegal_instruction fetch booted ≡ ok s)
    × (s.0.mepc ≡ address 0x8020_1001)
    × (s.0.regs ≡ context.regs)
    × (rust_trap_exception (λ s. ok s) s ≡ ok s')
    × (s'.0.regs ≡ context.regs)
    × (let (pc, mode, m') = sret s'.1 in
        (pc ≡ next_instruction 0x8020_0100)
        × (mode ≡ Spp.supervisor)
        × (m'.csr.mstatus.sie ≡ (true || false)))
illegal_resumes_example =
    illegal_resumes (λ s. ok s) fetch context (machine 0 one_started) refl (omega arith)
      (λ rd h e. omega arith)
