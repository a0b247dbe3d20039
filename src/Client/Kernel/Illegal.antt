-- ===== src/Client/Kernel/Illegal.antt =====
-- An illegal instruction of the test kernel, through the firmware (execute.rs, transfer_trap.rs) to the
-- handler of the kernel and back.
use rustsbi_hifive_unmatched.Base.{ℕ, ◌^◌, ◌<◌, ◌≡◌, ◌≢◌, true, ◌||◌, ok, arith, refl}
use rustsbi_hifive_unmatched.Csr.{Mpp, Spp, address, exception, illegal_instruction}
use rustsbi_hifive_unmatched.Machine.{Machine}
use rustsbi_hifive_unmatched.Context.{SupervisorContext}
use rustsbi_hifive_unmatched.Feature.{next_instruction, should_transfer_trap, do_transfer_trap}
use rustsbi_hifive_unmatched.Feature.Rdtime.{rdtime, emulate_rdtime_other}
use rustsbi_hifive_unmatched.Execute.{State, handle_illegal_instruction}
use rustsbi_hifive_unmatched.Client.{Instruction}
use rustsbi_hifive_unmatched.Client.Kernel.{rust_trap_exception}

-- The instruction `sret`, by the privileged architecture: where it leads, in which mode, and what it
-- leaves of the status.
abbrev pub sret : Machine → ℕ × Spp × Machine
sret m =
    let status = m.csr.mstatus in
    (
      m.csr.sepc,
      status.spp,
      record m {
        csr = record (m.csr) {
          mstatus = record status { sie = status.spie; spie = true; spp = Spp.user };
        };
      },
    )

-- An illegal instruction in supervisor mode, of 32 bits and no `rdtime`: the firmware enters the
-- handler of the kernel with the registers as they were, the handler accepts the trap, and its `sret`
-- goes on in supervisor mode at the next instruction, with interrupts enabled if they were, or if the
-- previous enable bit was set.
pub illegal_resumes :
    (ecall : Instruction) (fetch : ℕ → ℕ) (ctx : SupervisorContext) (m : Machine)
    → ctx.mstatus.mpp ≡ Mpp.supervisor
    → fetch ctx.mepc < 2 ^ 32
    → ((rd : ℕ) → rd < 32 → fetch ctx.mepc ≢ rdtime rd)
    → (s s' : State) × (handle_illegal_instruction fetch (ctx, m) ≡ ok s)
      × (s.0.mepc ≡ address m.csr.stvec)
      × (s.0.regs ≡ ctx.regs)
      × (rust_trap_exception ecall s ≡ ok s')
      × (s'.0.regs ≡ ctx.regs)
      × (let (pc, mode, m') = sret s'.1 in
          (pc ≡ next_instruction ctx.mepc)
          × (mode ≡ Spp.supervisor)
          × (m'.csr.mstatus.sie ≡ (m.csr.mstatus.sie || m.csr.mstatus.spie)))
unfolding handle_illegal_instruction should_transfer_trap do_transfer_trap rust_trap_exception
illegal_resumes ecall fetch ctx m p l n = (
  do_transfer_trap ctx (exception illegal_instruction) m,
  _,
  ground (arith, emulate_rdtime_other ctx (fetch ctx.mepc) m l n),
  refl,
  refl,
  refl,
  refl,
  (refl, refl, ground arith),
)
