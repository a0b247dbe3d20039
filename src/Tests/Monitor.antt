-- ===== src/Tests/Monitor.antt =====
-- The monitor of the harts on the board of the examples.
use rustsbi_hifive_unmatched.Base.{update, ℕ, ◌<◌, ◌≡◌, ◌≢◌, ◌↔◌, refl, some, arith}
use rustsbi_hifive_unmatched.Sbi.{spec_sbi, spec_sbi-IsSbi}
use rustsbi_hifive_unmatched.Machine.{Machine}
use rustsbi_hifive_unmatched.Hsm.Data.{
  started, stopped, start_pending, stop_pending, code, start, stop,
}
use rustsbi_hifive_unmatched.Hsm.Calls.{hart_start, hart_stop, hart_get_status}
use rustsbi_hifive_unmatched.Hsm.Answers.{
  Finds, Same, SameTimer, IsBelowMachine, hart_start-table, hart_stop-table, hart_start_succeeds,
  hart_get_status-hart_start,
}
use rustsbi_hifive_unmatched.Tests.Values.{machine, one_started}

abbrev caller : Machine
caller = machine 0 one_started

abbrev second : ℕ
second = 1

hart_start-table_example :
    let (m', r) = hart_start spec_sbi 1 0x8030_0000 7 caller in
    (r ≡ spec_sbi.ok 0)
    × (m'.hsm.state 1 ≡ some (code start_pending))
    × (m'.hsm.last_command 1 ≡ some (start 0x8030_0000 7))
    × (m'.mmio ≡ update caller.mmio 0x200_0004 1)
    × ((j : ℕ) → j < 4096 → j ≢ 1 → Same j caller m')
    × ((j : ℕ) → j < 4096 → SameTimer j caller m')
hart_start-table_example =
    hart_start-table spec_sbi 1 0x8030_0000 7 caller stopped (omega arith) (λ e. ground arith) refl

hart_stop-table_example :
    let (m', r) = hart_stop spec_sbi 0 caller in
    (r ≡ spec_sbi.ok 0)
    × (m'.hsm.state 0 ≡ some (code stop_pending))
    × (m'.hsm.last_command 0 ≡ some stop)
    × (m'.mmio ≡ update caller.mmio 0x200_0000 1)
    × ((j : ℕ) → j ≢ 0 → Same j caller m')
hart_stop-table_example = hart_stop-table spec_sbi 0 caller started refl

hart_start_succeeds_example :
    ((hart_start spec_sbi 0 0x8030_0000 7 caller).1.error ≡ 0)
    ↔ (IsBelowMachine caller × Finds one_started 0 stopped)
hart_start_succeeds_example = hart_start_succeeds spec_sbi 0 0x8030_0000 7 caller spec_sbi-IsSbi

hart_get_status-hart_start_example :
    hart_get_status spec_sbi 5 (hart_start spec_sbi 5 0x8030_0000 7 caller).0 ≡ spec_sbi.ok 2
hart_get_status-hart_start_example =
    hart_get_status-hart_start spec_sbi 5 0x8030_0000 7 caller stopped (λ e. ground arith) refl
