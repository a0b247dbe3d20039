-- ===== src/Feature.antt =====
-- rustsbi-jh7100/src/feature/{emulate_rdtime,transfer_trap}.rs: an instruction that the firmware
-- emulates, and traps that it hands on to the supervisor.
pub mod Rdtime
pub mod Transfer
use rustsbi_hifive_unmatched.Base.{
  ℕ, ◌+◌, ◌-◌, ◌/◌, ◌%◌, ◌^◌, bit_and, ◌==◌, leb, if◌then◌else◌, Bool, true, false, not, Outcome,
  ok, panicked, ◌>>=◌,
}
use rustsbi_hifive_unmatched.Csr.{Mpp, Spp, Trap, address, is_machine}
use rustsbi_hifive_unmatched.Clint
use rustsbi_hifive_unmatched.Machine.{Machine}
use rustsbi_hifive_unmatched.Context.{SupervisorContext, set_reg}

-- `assert!(i <= 31)`; x0 is not modified.
unfoldable pub set_register_xi : SupervisorContext → ℕ → ℕ → Outcome SupervisorContext
set_register_xi ctx i value =
    if not (leb i 31) then panicked else if i == 0 then ok ctx else ok (set_reg (i - 1) value ctx)

-- `wrapping_add(4)` on a 64-bit `usize`
abbrev pub next_instruction : ℕ → ℕ
next_instruction pc = (pc + 4) % 2 ^ 64

-- With the context, whether the instruction was an `rdtime`.
unfoldable pub emulate_rdtime : SupervisorContext → ℕ → Machine → Outcome (SupervisorContext × Bool)
emulate_rdtime ctx ins m =
    let rd = bit_and (ins / 2 ^ 7) 0x1F % 2 ^ 8 in
    let time_usize = Clint.get_mtime (Clint.new 0x2000000) m.mmio in
    if bit_and ins 0xFFFFF07F == 0xC0102073
    then (set_register_xi ctx rd time_usize >>= λ ctx'.
        ok (record ctx' { mepc = next_instruction ctx'.mepc }, true))
    else ok (ctx, false)

unfoldable pub should_transfer_trap : SupervisorContext → Bool
should_transfer_trap ctx = not (is_machine ctx.mstatus.mpp)

unfoldable pub do_transfer_trap : SupervisorContext → Trap → Machine → SupervisorContext × Machine
do_transfer_trap ctx cause m =
    let csr = m.csr in
    let status = csr.mstatus in
    let status' = record status {
      mpp = Mpp.supervisor;
      spp = Spp.supervisor;
      spie = if status.sie then true else status.spie;
      sie = false;
    } in
    (
      record ctx { mstatus = status'; mepc = address csr.stvec },
      record m {
        csr = record csr { scause = cause; stval = csr.mtval; sepc = ctx.mepc; mstatus = status' };
      },
    )
