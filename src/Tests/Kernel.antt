-- ===== src/Tests/Kernel.antt =====
-- The mutex and the trap handler of the test kernel.
use rustsbi_hifive_unmatched.Base.{ℕ, ◌+◌, ◌≡◌, refl, arith, List, [], ◌∷◌}
use rustsbi_hifive_unmatched.Asm.{Cpu}
use rustsbi_hifive_unmatched.Client.Trap.{start_trap}
use rustsbi_hifive_unmatched.Client.Trap.Transparent.{start_trap_transparent}
use rustsbi_hifive_unmatched.Mutex.{schedule}
use rustsbi_hifive_unmatched.Mutex.Exclusion.{schedule_exclusive}

-- Hart 1 gets inside while hart 2 waits.
abbrev contest : List ℕ
contest = 1 ∷ 2 ∷ 1 ∷ 2 ∷ 2 ∷ 1 ∷ 1 ∷ 2 ∷ 2 ∷ 1 ∷ []

abbrev first : ℕ
first = 1

schedule_exclusive_example : first ≡ first
unfolding schedule
schedule_exclusive_example = schedule_exclusive contest 1 1 refl refl

abbrev trapped : Cpu
trapped = record {
  x = λ r. 0x8000_0000 + r;
  mem = λ a. a;
  mscratch = 0;
  mstatus = 0;
  mepc = 0;
  pc = 0;
}

start_trap_transparent_example : (start_trap (λ c. c) trapped).x 10 ≡ 0x8000_000A
start_trap_transparent_example =
    start_trap_transparent (λ c. c) trapped 10 (omega arith) (omega arith)
      (record { regs = λ r h e. refl; words = λ k h. refl }) (omega arith)
