-- ===== src/Execute/Persist.antt =====
-- execute.rs and hsm.rs: commands are never taken out of the map, and what this means for a later
-- machine software interrupt.
use rustsbi_hifive_unmatched.Base.{ℕ, ◌≡◌, ◌≢◌, none, some, panicked, arith}
use rustsbi_hifive_unmatched.Csr.{Csr}
use rustsbi_hifive_unmatched.Clint.{Mmio}
use rustsbi_hifive_unmatched.Sbi.{Sbi}
use rustsbi_hifive_unmatched.Hsm.Data.{started, code}
use rustsbi_hifive_unmatched.Hsm.Calls.{
  Env, hart_start, hart_stop, record_current_start_finished, record_current_stop_finished,
  last_command,
}
use rustsbi_hifive_unmatched.Hsm.System.{
  running, Board, hart, Step, ask_start, ask_stop, leave, Reach,
}
use rustsbi_hifive_unmatched.Hsm.Invariant.{Reach-Inv}
use rustsbi_hifive_unmatched.Hsm.Diagram.{Run, here, then}
use rustsbi_hifive_unmatched.Hsm.Refine.Story.{Reach-Run}
use rustsbi_hifive_unmatched.Context.{SupervisorContext}
use rustsbi_hifive_unmatched.Execute.{handle_machine_soft}

abbrev pub HasCommand : Board → ℕ → Type 0
HasCommand b j = b.hsm.last_command j ≢ none

Step-HasCommand : {sbi : Sbi} {b c : Board} (j : ℕ) → Step sbi b c → HasCommand b j → HasCommand c j
unfolding hart_start hart_stop record_current_start_finished record_current_stop_finished
Step-HasCommand j (ask_start i k a o csr mmio p) h = ground arith
Step-HasCommand j (ask_stop i k csr mmio p) h = ground arith
Step-HasCommand j (leave i a o p) h = ground arith
Step-HasCommand j s h = ground arith

Run-HasCommand : {sbi : Sbi} {b c : Board} (j : ℕ) → Run sbi b c → HasCommand b j → HasCommand c j
Run-HasCommand j here h = h
Run-HasCommand j (then r s) h = Step-HasCommand j s (Run-HasCommand j r h)

-- Once a hart of a reachable board has been given a command, it panics on every machine software
-- interrupt that finds it running and recorded as started, after whatever further steps.
pub commanded_panics :
    {sbi : Sbi} {b c : Board} (j : ℕ) (csr : Csr) (mmio : Mmio) (ctx : SupervisorContext)
    (env : Env) (fuel : ℕ)
    → Reach sbi b
    → HasCommand b j
    → Run sbi b c
    → c.place j ≡ running
    → c.hsm.state j ≡ some (code started)
    → handle_machine_soft env fuel j (ctx, hart c j csr mmio) ≡ panicked
unfolding handle_machine_soft last_command
commanded_panics j csr mmio ctx env fuel r h q p s =
    ground (arith, Reach-Inv (Reach-Run r q) j, Run-HasCommand j q h)
