-- ===== src/Tests/Boards.antt =====
-- Runs of the board from its start.
use rustsbi_hifive_unmatched.Base.{ℕ, ◌≡◌, refl, panicked, arith}
use rustsbi_hifive_unmatched.Sbi.{spec_sbi}
use rustsbi_hifive_unmatched.Hsm.Data.{suspended, resume_pending, start, set_state, set_command}
use rustsbi_hifive_unmatched.Hsm.Calls.{hart_start, record_current_start_finished}
use rustsbi_hifive_unmatched.Hsm.Sleep.{begun}
use rustsbi_hifive_unmatched.Hsm.System.{
  running, suspending, sleeping, waking, resuming, Board, hart, moved, ask_start, begin, sleep,
  wake, leave, resume, booted, Reach, boot, next,
}
use rustsbi_hifive_unmatched.Hsm.Invariant.{Inv, Reach-Inv}
use rustsbi_hifive_unmatched.Hsm.Diagram.{Edge, status, Reach-Edge, here}
use rustsbi_hifive_unmatched.Execute.{handle_machine_soft}
use rustsbi_hifive_unmatched.Execute.Persist.{commanded_panics}
use rustsbi_hifive_unmatched.Tests.Values.{csr, context, ringing}

abbrev mmio : ℕ → ℕ
mmio a = 0

-- Hart 0 asks for a start of hart 1.
abbrev asked : Board
asked = record booted { hsm = (hart_start spec_sbi 1 0x8030_0000 7 (hart booted 0 csr mmio)).0.hsm }

abbrev asked-Reach : Reach spec_sbi asked
asked-Reach = next boot (ask_start 0 1 0x8030_0000 7 csr mmio refl)

Reach-Edge_example : Edge (status booted 1) (status asked 1)
Reach-Edge_example = Reach-Edge {sbi = spec_sbi} 1 boot (ask_start 0 1 0x8030_0000 7 csr mmio refl)

Reach-Inv_example : Inv asked
Reach-Inv_example = Reach-Inv asked-Reach

-- Hart 0 suspends without keeping its registers, and is resumed.
abbrev accepted : Board
accepted = moved booted 0 suspending (begun (hart booted 0 csr mmio)).hsm

abbrev asleep : Board
asleep = moved accepted 0 sleeping (set_state 0 suspended accepted.hsm)

abbrev awake : Board
awake = moved asleep 0 waking (set_state 0 resume_pending asleep.hsm)

abbrev left : Board
left = moved awake 0 resuming (set_command 0 (start 0x8030_0000 7) awake.hsm)

abbrev resumed : Board
resumed = moved left 0 running (record_current_start_finished (hart left 0 csr mmio)).hsm

resumed-Reach : Reach spec_sbi resumed
resumed-Reach =
    next
      (next (next (next (next boot (begin 0 csr mmio refl refl)) (sleep 0 refl)) (wake 0 refl))
        (leave 0 0x8030_0000 7 refl))
      (resume 0 csr mmio refl)

commanded_panics_example :
    handle_machine_soft ringing 3 0 (context, hart resumed 0 csr mmio) ≡ panicked
unfolding record_current_start_finished
commanded_panics_example =
    commanded_panics 0 csr mmio context ringing 3 resumed-Reach (λ e. ground arith) here refl refl
