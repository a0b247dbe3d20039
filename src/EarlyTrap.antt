-- ===== src/EarlyTrap.antt =====
-- rustsbi-jh7100/src/early_trap.rs: the handler of traps before the supervisor runs, instruction by
-- instruction, up to the jump to `rust_fail`.
pub mod Saved
use rustsbi_hifive_unmatched.Base.{List, [], ◌∷◌, ◌++◌}
use rustsbi_hifive_unmatched.Asm.{mscratch, mstatus, mepc, Instr, sd, grow, mv, csrr, csrrw}
use rustsbi_hifive_unmatched.Asm.Tables.{Table, saves}

-- All registers but x0 and sp, in the `SupervisorContext` of early_trap.rs, of 33 words.
abbrev pub context_words : Table
context_words =
    (1, 0)
    ∷ (3, 2)
    ∷ (4, 3)
    ∷ (5, 4)
    ∷ (6, 5)
    ∷ (7, 6)
    ∷ (8, 7)
    ∷ (9, 8)
    ∷ (10, 9)
    ∷ (11, 10)
    ∷ (12, 11)
    ∷ (13, 12)
    ∷ (14, 13)
    ∷ (15, 14)
    ∷ (16, 15)
    ∷ (17, 16)
    ∷ (18, 17)
    ∷ (19, 18)
    ∷ (20, 19)
    ∷ (21, 20)
    ∷ (22, 21)
    ∷ (23, 22)
    ∷ (24, 23)
    ∷ (25, 24)
    ∷ (26, 25)
    ∷ (27, 26)
    ∷ (28, 27)
    ∷ (29, 28)
    ∷ (30, 29)
    ∷ (31, 30)
    ∷ []

unfoldable pub early_trap_fail : List Instr
early_trap_fail =
    csrrw 2 mscratch 2
    ∷ grow 33
    ∷ (saves context_words
        ++ (csrr 5 mstatus
            ∷ sd 5 31 2
            ∷ csrr 6 mepc
            ∷ sd 6 32 2
            ∷ csrr 7 mscratch
            ∷ sd 7 1 2
            ∷ mv 10 2
            ∷ []))
