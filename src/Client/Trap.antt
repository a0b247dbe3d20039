-- ===== src/Client/Trap.antt =====
-- test-kernel/src/main.rs: `start_trap`, instruction by instruction, on a 64-bit machine.
pub mod Transparent
use rustsbi_hifive_unmatched.Base.{List, [], ◌∷◌, ◌++◌}
use rustsbi_hifive_unmatched.Asm.{Cpu, Instr, grow, shrink, mv, exec}
use rustsbi_hifive_unmatched.Asm.Tables.{Table, saves, restores}

-- The registers that the calling convention lets a function change, in the frame of 16 words.
abbrev pub trap_words : Table
trap_words =
    (1, 0)
    ∷ (5, 1)
    ∷ (6, 2)
    ∷ (7, 3)
    ∷ (28, 4)
    ∷ (29, 5)
    ∷ (30, 6)
    ∷ (31, 7)
    ∷ (10, 8)
    ∷ (11, 9)
    ∷ (12, 10)
    ∷ (13, 11)
    ∷ (14, 12)
    ∷ (15, 13)
    ∷ (16, 14)
    ∷ (17, 15)
    ∷ []

-- Before the call, and behind it up to the `sret`.
unfoldable pub trap_entry : List Instr
trap_entry = grow 16 ∷ (saves trap_words ++ (mv 10 2 ∷ []))

unfoldable pub trap_exit : List Instr
trap_exit = restores trap_words ++ (shrink 16 ∷ [])

-- The whole, with what the call of `rust_trap_exception` does.
unfoldable pub start_trap : (Cpu → Cpu) → Cpu → Cpu
unfolding trap_entry trap_exit
start_trap rust_trap_exception c = exec trap_exit (rust_trap_exception (exec trap_entry c))
