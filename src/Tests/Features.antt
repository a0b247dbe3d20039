-- ===== src/Tests/Features.antt =====
-- The emulated instruction, and traps that are handed on.
use rustsbi_hifive_unmatched.Base.{◌≡◌, ◌≢◌, ◌↔◌, ◌⊎◌, true, false, ok, arith}
use rustsbi_hifive_unmatched.Csr.{Mpp, interrupt, supervisor_soft}
use rustsbi_hifive_unmatched.Clint
use rustsbi_hifive_unmatched.Machine.{Machine}
use rustsbi_hifive_unmatched.Feature.{emulate_rdtime, do_transfer_trap}
use rustsbi_hifive_unmatched.Feature.Rdtime.{rdtime, written, emulate_rdtime-written}
use rustsbi_hifive_unmatched.Feature.Transfer.{
  vector_offset, trap_entry, do_transfer_trap-eq-trap_entry,
}
use rustsbi_hifive_unmatched.Tests.Values.{context, machine, one_started}

abbrev caller : Machine
caller = machine 0 one_started

emulate_rdtime-written_example :
    emulate_rdtime context (rdtime 10) caller
    ≡ ok (record context { regs = written context.regs 10 42; mepc = 0x8020_0104 }, true)
unfolding Clint.get_mtime
emulate_rdtime-written_example = emulate_rdtime-written context 10 caller (omega arith)

do_transfer_trap-eq-trap_entry_example :
    let cause = interrupt supervisor_soft in
    (do_transfer_trap context cause caller ≡ trap_entry context cause caller) ↔ (
      (Mpp.supervisor ≢ Mpp.user)
      × ((true ≡ true) ⊎ (false ≡ false))
      × (vector_offset 0x8020_1001 cause ≡ 0))
do_transfer_trap-eq-trap_entry_example =
    do_transfer_trap-eq-trap_entry context (interrupt supervisor_soft) caller
