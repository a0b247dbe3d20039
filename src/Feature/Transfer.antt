-- ===== src/Feature/Transfer.antt =====
-- transfer_trap.rs, against what the hardware does when it takes a trap in supervisor mode.
use rustsbi_hifive_unmatched.Base.{
  ℕ, ◌+◌, ◌*◌, ◌%◌, ◌==◌, refl, ◌≡◌, ◌≢◌, ◌↔◌, ◌⊎◌, true, false, if◌then◌else◌, arith,
}
use rustsbi_hifive_unmatched.Csr.{
  Mpp, Spp, Trap, exception, interrupt, Interrupt, machine_timer, machine_soft, supervisor_soft,
  other_interrupt, address, is_user,
}
use rustsbi_hifive_unmatched.Machine.{Machine}
use rustsbi_hifive_unmatched.Context.{SupervisorContext}
use rustsbi_hifive_unmatched.Feature.{do_transfer_trap}

abbrev pub interrupt_code : Interrupt → ℕ
interrupt_code supervisor_soft = 1
interrupt_code machine_soft = 3
interrupt_code machine_timer = 7
interrupt_code (other_interrupt n) = n

-- How far behind the base of `stvec` a trap enters: in vectored mode (1), an interrupt has an entry
-- of its own.
abbrev pub vector_offset : ℕ → Trap → ℕ
vector_offset stvec (exception e) = 0
vector_offset stvec (interrupt i) = if stvec % 4 == 1 then 4 * interrupt_code i else 0

-- A trap taken in supervisor mode, by the privileged architecture: the interrupt enable moves to the
-- previous one, and the previous privilege is the one trapped from.
abbrev pub trap_entry : SupervisorContext → Trap → Machine → SupervisorContext × Machine
trap_entry ctx cause m =
    let csr = m.csr in
    let status = csr.mstatus in
    let status' = record status {
      mpp = Mpp.supervisor;
      spp = if is_user status.mpp then Spp.user else Spp.supervisor;
      spie = status.sie;
      sie = false;
    } in
    (
      record ctx { mstatus = status'; mepc = address csr.stvec + vector_offset csr.stvec cause },
      record m {
        csr = record csr { scause = cause; stval = csr.mtval; sepc = ctx.mepc; mstatus = status' };
      },
    )

entry_cases :
    (ctx : SupervisorContext) (cause : Trap) (m : Machine) (offset : ℕ)
    → vector_offset m.csr.stvec cause ≡ offset
    → (do_transfer_trap ctx cause m ≡ trap_entry ctx cause m) ↔ (
        (m.csr.mstatus.mpp ≢ Mpp.user)
        × ((m.csr.mstatus.sie ≡ true) ⊎ (m.csr.mstatus.spie ≡ false))
        × (offset ≡ 0))
unfolding do_transfer_trap
entry_cases ctx cause m offset e = ground (arith, e)

-- Handing a trap on is the same as the hardware's entry exactly when the trap did not come from user
-- mode, supervisor interrupts were enabled, or were not and the previous enable was clear too, and the
-- hardware enters at the base of `stvec`: it is an exception, or an interrupt of number 0, or the mode
-- is not the vectored one.
pub do_transfer_trap-eq-trap_entry :
    (ctx : SupervisorContext) (cause : Trap) (m : Machine)
    → (do_transfer_trap ctx cause m ≡ trap_entry ctx cause m) ↔ (
        (m.csr.mstatus.mpp ≢ Mpp.user)
        × ((m.csr.mstatus.sie ≡ true) ⊎ (m.csr.mstatus.spie ≡ false))
        × (vector_offset m.csr.stvec cause ≡ 0))
do_transfer_trap-eq-trap_entry ctx cause m =
    entry_cases ctx cause m (vector_offset m.csr.stvec cause) refl
