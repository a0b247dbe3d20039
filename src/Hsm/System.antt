-- ===== src/Hsm/System.antt =====
-- hsm.rs, and the calls of it in execute.rs and main.rs: all harts of the board over one monitor. What
-- a hart does while it holds the locks is one step, and the steps of the harts interleave in any
-- order. A paused hart wakes only for a request to start it.
use rustsbi_hifive_unmatched.Base.{ℕ, ◌==◌, if◌then◌else◌, ◌≡◌, ◌≢◌, some, update}
use rustsbi_hifive_unmatched.Csr.{Csr}
use rustsbi_hifive_unmatched.Clint.{Mmio}
use rustsbi_hifive_unmatched.Sbi.{Sbi}
use rustsbi_hifive_unmatched.Machine.{Machine}
use rustsbi_hifive_unmatched.Hsm.Data.{
  started, start_pending, suspended, resume_pending, code, start, stop, U74Hsm, set_state,
  set_command, new,
}
use rustsbi_hifive_unmatched.Hsm.Calls.{
  hart_start, hart_stop, record_current_start_finished, record_current_stop_finished,
}
use rustsbi_hifive_unmatched.Hsm.Sleep.{begun}

-- Where a hart stands.
pub data Place : Type 0 where
  parked : Place  -- in `pause`
  woken : Place  -- behind it, before its start is recorded
  running : Place  -- in supervisor code, or in a call of the monitor that is not a suspension
  suspending : Place  -- `hart_suspend` has accepted
  sleeping : Place  -- in the loop of `suspend_current_hart`
  waking : Place  -- behind it
  resuming : Place  -- the private number is on its way to `execute_supervisor`
  stopping : Place  -- a software interrupt has found the command to stop

pub record Board : Type 0 where
  pub hsm : U74Hsm
  pub place : ℕ → Place

-- Hart `i` of the board, with any registers of its own.
abbrev pub hart : Board → ℕ → Csr → Mmio → Machine
hart b i csr mmio = record { hart_id = i; csr = csr; mmio = mmio; hsm = b.hsm }

abbrev pub moved : Board → ℕ → Place → U74Hsm → Board
moved b i p h = record { hsm = h; place = update b.place i p }

-- One locked section of hart `i`. The board has no interrupts: a step tells what a hart does once it
-- has found one, and a hart that finds none takes no such step. That a request raises the interrupt
-- of the hart is told of the calls themselves.
pub data Step (sbi : Sbi) (b : Board) : Board → Type 0 where
  ask_start :
      (i k a o : ℕ) (csr : Csr) (mmio : Mmio)
      → b.place i ≡ running
      → Step sbi b (record b { hsm = (hart_start sbi k a o (hart b i csr mmio)).0.hsm })
  ask_stop :
      (i k : ℕ) (csr : Csr) (mmio : Mmio)
      → b.place i ≡ running
      → Step sbi b (record b { hsm = (hart_stop sbi k (hart b i csr mmio)).0.hsm })
  begin :
      (i : ℕ) (csr : Csr) (mmio : Mmio)
      → b.place i ≡ running
      → b.hsm.state i ≡ some (code started)
      → Step sbi b (moved b i suspending (begun (hart b i csr mmio)).hsm)
  refuse :
      (i : ℕ) (csr : Csr) (mmio : Mmio)
      → b.place i ≡ running
      → b.hsm.state i ≢ some (code started)
      → Step sbi b (record b { hsm = (begun (hart b i csr mmio)).hsm })
  sleep :
      (i : ℕ)
      → b.place i ≡ suspending
      → Step sbi b (moved b i sleeping (set_state i suspended b.hsm))
  wake :
      (i : ℕ)
      → b.place i ≡ sleeping
      → Step sbi b (moved b i waking (set_state i resume_pending b.hsm))
  return : (i : ℕ) → b.place i ≡ waking → Step sbi b (moved b i running (set_state i started b.hsm))
  leave :
      (i a o : ℕ)
      → b.place i ≡ waking
      → Step sbi b (moved b i resuming (set_command i (start a o) b.hsm))
  resume :
      (i : ℕ) (csr : Csr) (mmio : Mmio)
      → b.place i ≡ resuming
      → Step sbi b (moved b i running (record_current_start_finished (hart b i csr mmio)).hsm)
  take_stop :
      (i : ℕ)
      → b.place i ≡ running
      → b.hsm.last_command i ≡ some stop
      → Step sbi b (moved b i stopping b.hsm)
  park :
      (i : ℕ) (csr : Csr) (mmio : Mmio)
      → b.place i ≡ stopping
      → Step sbi b (moved b i parked (record_current_stop_finished (hart b i csr mmio)).hsm)
  rise :
      (i : ℕ)
      → b.place i ≡ parked
      → b.hsm.state i ≡ some (code start_pending)
      → Step sbi b (moved b i woken b.hsm)
  enter :
      (i : ℕ) (csr : Csr) (mmio : Mmio)
      → b.place i ≡ woken
      → Step sbi b (moved b i running (record_current_start_finished (hart b i csr mmio)).hsm)

-- The board when hart 0 has entered `execute_supervisor` and the others are paused.
abbrev pub first : ℕ → Place
first i = if i == 0 then running else parked

abbrev pub booted : Board
booted = record { hsm = set_state 0 started new; place = first }

pub data Reach (sbi : Sbi) : Board → Type 0 where
  boot : Reach sbi booted
  next : {b c : Board} → Reach sbi b → Step sbi b c → Reach sbi c
