-- ===== src/Lib.antt =====
-- RustSBI for the JH7100: the firmware of rustsbi-jh7100/ runs in machine mode below a supervisor, and gives
-- it the services of the SBI; test-kernel/ is a supervisor that calls them.
--
-- The parts, their files, and how they interact:
-- - Base, Bits: shared names, tests, maps, outcomes, and bit operations as arithmetic on fields.
-- - Csr, Machine: the registers of a hart that the firmware uses through the crate `riscv`, and the
--   machine that one hart sees: its number, its registers, the device registers and the shared
--   monitor. Sbi: what is used of the crate `rustsbi` (`SbiRet` and its constructors), as a parameter
--   with its documented laws.
-- - Hsm (rustsbi-jh7100/src/hsm.rs): the hart state monitor. Data holds the states, the commands and the
--   two maps, Calls the functions (`hart_start`, `hart_stop`, `hart_get_status`, `hart_suspend`, `pause`).
--   A map behind a lock is its content. System puts all harts over one monitor: each locked section is
--   a step, in any interleaving. Refine shows calls and traps of one hart, from the first instruction of
--   the handler to the last, as runs of these steps, while the other harts go on (`Story`).
-- - Clint, Uart (rustsbi-jh7100/src/peripheral/): the interruptor and the serial port. Device registers
--   are a map from addresses to values, the serial port a log of the writes.
-- - Context, Runtime, Asm (rustsbi-jh7100/src/runtime.rs): the saved registers of the supervisor, the
--   decoding of its traps, and the context switch as the list of its instructions over registers and
--   memory. EarlyTrap (rustsbi-jh7100/src/early_trap.rs): the handler before the supervisor runs.
-- - Feature (rustsbi-jh7100/src/feature/): the emulation of `rdtime`, and traps handed on.
-- - Execute (rustsbi-jh7100/src/execute.rs): the loop `execute_supervisor`, which takes a trap from Context
--   and answers it with Hsm and Feature. `handle` is the match over the four traps. Execute.Fetch is
--   `get_vaddr_u32`, instruction by instruction; Execute.Board puts the calls, the traps and the
--   loop on the board.
-- - Pmp (`set_pmp` of rustsbi-jh7100/src/main.rs, and rustsbi-jh7100/src/hart_csr_utils.rs): the memory
--   protection that is set, and how it is read back and printed. HartCsrs
--   (rustsbi-jh7100/src/hart_csr_utils.rs): the text about `misa` and the delegation registers.
-- - Boot (rustsbi-jh7100/src/main.rs): `entry`, `rust_main`, the delegation of traps; Boot.Memory is what
--   hart 0 does to memory (`init_bss`, `init_heap`, `init_rustsbi_stdio`, the copy of the kernel),
--   Boot.Pause the `pause` of main.rs. Stacks is the loop of `entry`, here and in the test kernel. DeviceTree
--   (rustsbi-jh7100/src/device_tree.rs): `parse_device_tree`.
-- - Client (test-kernel/src/sbi.rs): the calls of a supervisor, on top of Execute; Client.Debug is the
--   text of a result. Client.Trap (test-kernel/src/main.rs): `start_trap`, with the call in its middle
--   as a parameter. Client.Kernel (test-kernel/src/main.rs): the tests, and the handler of the trap;
--   Client.Kernel.Firmware runs them on the firmware. Client.Entry: the stacks. Client.Console
--   (test-kernel/src/console.rs): `write_str`.
-- - Mutex (test-kernel/src/util.rs): `AmoMutex`, one instruction of one hart at a time, for any schedule.
-- - Xtask (xtask/src/main.rs): the build tool. A subcommand is the list of the commands it runs; what a
--   command comes to is a parameter.
-- - Tests: the theorems at concrete inputs.
--
-- Parameters: `rustsbi::ecall` (with the dispatch of the monitor's functions, or the answers of the other
-- extensions, as a hypothesis where it is needed), its `init_legacy_stdio_embedded_hal`,
-- `HartMask::has_bit`, the crates `r0`, `buddy_system_allocator`, `serde_device_tree` and `clap`, the encoding of characters, the memory that an
-- instruction is read from, what the rest of the board does while a hart sleeps (`Env`), and the
-- supervisor itself between two traps.
--
-- Fuel and bounds: the loops around `wfi` run on fuel, the number of rounds that a hart may sleep; when
-- the interrupt is found pending within the fuel the wait ends, and otherwise the outcome is
-- `waiting`, which is not a result. The loop of `execute_supervisor` is run for a given number of
-- traps. Additions of `usize` and of the registers wrap at 2 ^ 64; a pointer into the device registers,
-- which the source may not move out of the address space, is a sum. A count of the stacks or of the
-- registers is written out.
--
-- Not modelled: what the firmware and the tests print but for the registers, the copies of the code for
-- other widths than 64 bits, and the fault that the read of an instruction may take (the code has a
-- note on it): a page that the supervisor can execute is taken to be one that it can read.
mod Base
mod Tests
pub mod Csr
pub mod Sbi
pub mod Clint
pub mod Machine
pub mod Hsm
pub mod Bits
pub mod Context
pub mod Feature
pub mod Execute
pub mod Asm
pub mod Runtime
pub mod EarlyTrap
pub mod Pmp
pub mod HartCsrs
pub mod Stacks
pub mod DeviceTree
pub mod Boot
pub mod Client
pub mod Mutex
pub mod Xtask
pub mod Uart
