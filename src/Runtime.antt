-- ===== src/Runtime.antt =====
-- rustsbi-jh7100/src/runtime.rs: the four parts of the context switch between the firmware and the
-- supervisor, instruction by instruction. The first two run from the call of `do_resume` to the
-- `mret`, the other two from a trap to the return of `do_resume`.
pub mod Words
pub mod Resume
pub mod Trap
pub mod Switch
use rustsbi_hifive_unmatched.Base.{ℕ, List, [], ◌∷◌, ◌++◌}
use rustsbi_hifive_unmatched.Asm.{
  Cpu, Csr, mscratch, mstatus, mepc, Instr, sd, ld, grow, shrink, mv, csrr, csrw, csrrw, jr, mret,
}
use rustsbi_hifive_unmatched.Asm.Tables.{Table, saves, restores}

-- The callee-saved registers ra, gp, tp, s0 to s11, on the stack of the firmware.
abbrev pub machine_words : Table
machine_words =
    (1, 0)
    ∷ (3, 1)
    ∷ (4, 2)
    ∷ (8, 3)
    ∷ (9, 4)
    ∷ (18, 5)
    ∷ (19, 6)
    ∷ (20, 7)
    ∷ (21, 8)
    ∷ (22, 9)
    ∷ (23, 10)
    ∷ (24, 11)
    ∷ (25, 12)
    ∷ (26, 13)
    ∷ (27, 14)
    ∷ []

-- All registers but x0 and sp, in `SupervisorContext`.
abbrev pub supervisor_words : Table
supervisor_words =
    (1, 0)
    ∷ (3, 2)
    ∷ (4, 3)
    ∷ (5, 4)
    ∷ (6, 5)
    ∷ (7, 6)
    ∷ (8, 7)
    ∷ (9, 8)
    ∷ (10, 9)
    ∷ (11, 10)
    ∷ (12, 11)
    ∷ (13, 12)
    ∷ (14, 13)
    ∷ (15, 14)
    ∷ (16, 15)
    ∷ (17, 16)
    ∷ (18, 17)
    ∷ (19, 18)
    ∷ (20, 19)
    ∷ (21, 20)
    ∷ (22, 21)
    ∷ (23, 22)
    ∷ (24, 23)
    ∷ (25, 24)
    ∷ (26, 25)
    ∷ (27, 26)
    ∷ (28, 27)
    ∷ (29, 28)
    ∷ (30, 29)
    ∷ (31, 30)
    ∷ []

unfoldable pub from_machine_save : List Instr
from_machine_save = grow 15 ∷ saves machine_words

unfoldable pub to_supervisor_restore : List Instr
to_supervisor_restore =
    sd 2 33 10
    ∷ csrw mscratch 10
    ∷ mv 2 10
    ∷ ld 5 31 2
    ∷ ld 6 32 2
    ∷ csrw mstatus 5
    ∷ csrw mepc 6
    ∷ (restores supervisor_words ++ (ld 2 1 2 ∷ mret ∷ []))

-- The call, up to the `mret`.
unfoldable pub do_resume : List Instr
unfolding from_machine_save to_supervisor_restore
do_resume = from_machine_save ++ to_supervisor_restore

unfoldable pub from_supervisor_save : List Instr
from_supervisor_save =
    csrrw 2 mscratch 2
    ∷ (saves supervisor_words
        ++ (csrr 5 mstatus
            ∷ sd 5 31 2
            ∷ csrr 6 mepc
            ∷ sd 6 32 2
            ∷ csrrw 7 mscratch 2
            ∷ sd 7 1 2
            ∷ []))

unfoldable pub to_machine_restore : List Instr
to_machine_restore =
    csrr 2 mscratch ∷ ld 2 33 2 ∷ (restores machine_words ++ (shrink 15 ∷ jr 1 ∷ []))

-- The trap, up to the return from the call.
unfoldable pub handle_trap : List Instr
unfolding from_supervisor_save to_machine_restore
handle_trap = from_supervisor_save ++ to_machine_restore
