-- ===== src/Tests/Refine.antt =====
-- Sleeps of a hart while the rest of the board goes on.
use rustsbi_hifive_unmatched.Base.{ℕ, zero, suc, ◌≡◌, refl, some, true, ok, arith, ap, sym}
use rustsbi_hifive_unmatched.Sbi.{spec_sbi}
use rustsbi_hifive_unmatched.Machine.{Machine}
use rustsbi_hifive_unmatched.Hsm.Data.{start, U74Hsm}
use rustsbi_hifive_unmatched.Hsm.Calls.{
  Env, hart_start, hart_stop, record_current_start_finished, record_current_stop_finished,
}
use rustsbi_hifive_unmatched.Hsm.Wait.{after}
use rustsbi_hifive_unmatched.Hsm.Sleep.{IsEnv, asleep, begun}
use rustsbi_hifive_unmatched.Hsm.System.{
  running, sleeping, parked, woken, first, Board, hart, moved, ask_start, ask_stop, rise, enter,
  booted, Reach, boot, next,
}
use rustsbi_hifive_unmatched.Hsm.Diagram.{Run, here, then}
use rustsbi_hifive_unmatched.Hsm.Refine.Story.{Story}
use rustsbi_hifive_unmatched.Hsm.Refine.Suspend.{board, slept}
use rustsbi_hifive_unmatched.Hsm.Refine.Stop.{halted_board, handle_machine_soft-Run}
use rustsbi_hifive_unmatched.Execute.{State, handle_machine_soft, handle_sbi_call}
use rustsbi_hifive_unmatched.Execute.Board.{handle_suspend_non_retentive-Run}
use rustsbi_hifive_unmatched.Tests.Loop.{dispatch, dispatch-CallsHsm, leaving}
use rustsbi_hifive_unmatched.Execute.Soft.{halted, StartedAt}
use rustsbi_hifive_unmatched.Tests.Values.{
  csr, context, machine, one_started, ringing, ringing-IsEnv, Woken_once,
}

abbrev mmio : ℕ → ℕ
mmio a = 0

quiet-after : (n i : ℕ) (m : Machine) → (after ringing i n m).hsm ≡ m.hsm
quiet-after zero i m = refl
quiet-after (suc n) i m = quiet-after n (suc i) (ringing i m)

abbrev caller : Machine
caller = machine 0 one_started

-- Nothing happens while hart 0 sleeps.
quiet : Story spec_sbi ringing 0 sleeping (slept first caller) (asleep (begun caller))
quiet = record {
  boards = λ t. slept first caller;
  starts = refl;
  runs = λ t. here;
  stays = λ t. refl;
  shared = λ t. sym (quiet-after t 0 (asleep (begun caller)));
}

-- Hart 0 has started hart 1 and told it to stop.
abbrev asked : Board
asked = record booted { hsm = (hart_start spec_sbi 1 0x8030_0000 7 (hart booted 0 csr mmio)).0.hsm }

abbrev risen : Board
risen = moved asked 1 woken asked.hsm

abbrev entered : Board
entered = moved risen 1 running (record_current_start_finished (hart risen 1 csr mmio)).hsm

abbrev told : Board
told = record entered { hsm = (hart_stop spec_sbi 1 (hart entered 0 csr mmio)).0.hsm }

told-Reach : Reach spec_sbi told
unfolding hart_start
told-Reach =
    next
      (next (next (next boot (ask_start 0 1 0x8030_0000 7 csr mmio refl)) (rise 1 refl refl))
        (enter 1 csr mmio refl))
      (ask_stop 0 1 csr mmio refl)

-- Hart 1 at its trap.
abbrev stopping : Machine
stopping = machine 1 told.hsm

-- Hart 0 asks for another start of hart 1, once it sleeps.
abbrev requesting : Machine → U74Hsm
requesting m = (hart_start spec_sbi 1 0x8040_0000 8 (machine 0 m.hsm)).0.hsm

abbrev calling : Env
calling zero m = record m { csr = record (m.csr) { mip_msoft = true }; hsm = requesting m }
calling (suc i) m = record m { csr = record (m.csr) { mip_msoft = true } }

calling-IsEnv : IsEnv calling
unfolding hart_start
calling-IsEnv = record { hart = hart_kept; listens = listens; leaves = leaves }
  where
    hart_kept : (i : ℕ) (m : Machine) → (calling i m).hart_id ≡ m.hart_id
    hart_kept zero m = refl
    hart_kept (suc i) m = refl

    listens : (i : ℕ) (m : Machine) → (calling i m).csr.mie_msoft ≡ m.csr.mie_msoft
    listens zero m = refl
    listens (suc i) m = refl

    leaves :
        (i : ℕ) (m : Machine)
        → m.hsm.state m.hart_id ≡ some 4
        → (calling i m).hsm.state m.hart_id ≡ some 4
    leaves zero m s = ground arith
    leaves (suc i) m s = s

calling-after : (n i : ℕ) (m : Machine) → (after calling (suc i) n m).hsm ≡ m.hsm
calling-after zero i m = refl
calling-after (suc n) i m = calling-after n (suc i) (calling (suc i) m)

abbrev resting : Board
resting = halted_board told.place stopping

abbrev called : Board
called = record resting { hsm = requesting (record stopping { hsm = resting.hsm }) }

abbrev boards : ℕ → Board
boards zero = resting
boards (suc t) = called

busy : Story spec_sbi calling 1 parked resting (halted stopping)
unfolding record_current_stop_finished hart_start
busy = record { boards = boards; starts = refl; runs = runs; stays = stays; shared = shared }
  where
    runs : (t : ℕ) → Run spec_sbi (boards t) (boards (suc t))
    runs zero = then here (ask_start 0 1 0x8040_0000 8 csr mmio refl)
    runs (suc t) = here

    stays : (t : ℕ) → (boards t).place 1 ≡ parked
    stays zero = refl
    stays (suc t) = refl

    shared : (t : ℕ) → (boards t).hsm ≡ (after calling 0 t (halted stopping)).hsm
    shared zero = refl
    shared (suc t) = sym (calling-after t 0 (calling 0 (halted stopping)))

handle_machine_soft-Run_example :
    (s' : State) × (d : Board) × (a o : ℕ) × (handle_machine_soft calling 3 1 (context, stopping)
      ≡ ok s')
    × Run spec_sbi (board told.place stopping) d
    × (d.hsm ≡ s'.1.hsm)
    × (d.place 1 ≡ running)
    × (s'.1.hart_id ≡ 1)
    × (d.hsm.last_command 1 ≡ some (start a o))
    × StartedAt 1 a o s'
unfolding record_current_stop_finished hart_start hart_stop record_current_start_finished
handle_machine_soft-Run_example =
    handle_machine_soft-Run {n = 0} calling-IsEnv (omega arith) told.place context stopping
      told-Reach refl refl refl (λ w k. ap (λ (v : Machine). v.hsm.state 1) (Woken_once k)) busy

handle_suspend_non_retentive-Run_example :
    (s' : State) × (c : Board) × (handle_sbi_call dispatch 0 (leaving, caller) ≡ ok s')
    × Run spec_sbi (board first caller) c
    × (c.hsm ≡ s'.1.hsm)
    × (c.place 0 ≡ running)
    × StartedAt 0 0x8030_0000 7 s'
handle_suspend_non_retentive-Run_example =
    handle_suspend_non_retentive-Run {n = 0} dispatch-CallsHsm ringing-IsEnv (omega arith) leaving
      caller refl refl first refl refl refl quiet refl
