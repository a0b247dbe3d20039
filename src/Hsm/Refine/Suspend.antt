-- ===== src/Hsm/Refine/Suspend.antt =====
-- hsm.rs: `hart_suspend`, from the call to the return, as steps of the board.
use rustsbi_hifive_unmatched.Base.{
  ℕ, suc, ◌<◌, ◌≡◌, some, true, Outcome, ok, ◌>>=◌, arith, ◌∙◌, ap, sym,
}
use rustsbi_hifive_unmatched.Sbi.{Sbi}
use rustsbi_hifive_unmatched.Machine.{Machine}
use rustsbi_hifive_unmatched.Hsm.Data.{
  started, suspended, resume_pending, code, start, set_state, set_command,
}
use rustsbi_hifive_unmatched.Hsm.Calls.{
  Env, hart_suspend, suspend_retentive, suspend_non_retentive, resume_elsewhere,
}
use rustsbi_hifive_unmatched.Hsm.Wait.{after, Woken}
use rustsbi_hifive_unmatched.Hsm.Sleep.{
  IsEnv, asleep, awake, begun, retentive, non_retentive, hart_suspend_accepts,
  hart_suspend_accepts_non_retentive,
}
use rustsbi_hifive_unmatched.Hsm.Suspend.{suspend_returns}
use rustsbi_hifive_unmatched.Hsm.System.{
  Place, running, suspending, sleeping, waking, resuming, Board, moved, begin, sleep, wake, return,
  leave,
}
use rustsbi_hifive_unmatched.Hsm.Diagram.{Run-append, Run, here, then}
use rustsbi_hifive_unmatched.Hsm.Refine.Story.{Story, Story-Run}

-- The board around a machine, by the places of the harts.
abbrev pub board : (ℕ → Place) → Machine → Board
board place m = record { hsm = m.hsm; place = place }

-- The board when the hart has begun to sleep.
abbrev pub slept : (ℕ → Place) → Machine → Board
slept place m =
    let i = m.hart_id in
    moved (moved (board place m) i suspending (begun m).hsm) i sleeping
      (set_state i suspended (begun m).hsm)

-- The shared state at the end of a sleep is that of the board.
pub Woken-shared :
    {sbi : Sbi} {env : Env} {i n : ℕ} {p : Place} {b : Board} {m w : Machine}
    → (y : Story sbi env i p b m) → (k : Woken env 0 n m w) → (y.boards (suc k.rounds)).hsm ≡ w.hsm
Woken-shared y k = y.shared (suc k.rounds) ∙ ap (λ (v : Machine). v.hsm) (sym k.reached)

awake-hsm : (m w : Machine) → (awake m w).hsm ≡ set_state m.hart_id resume_pending w.hsm
awake-hsm m w = ground arith

module _ {sbi : Sbi} {env : Env} {n fuel : ℕ} (e : IsEnv env) (h : n < fuel) (place : ℕ → Place)
    (m : Machine) (runs : place m.hart_id ≡ running)
    (s : m.hsm.state m.hart_id ≡ some (code started))
    (r : (after env 0 (suc n) (asleep (begun m))).csr.mip_msoft ≡ true)
    (y : Story sbi env m.hart_id sleeping (slept place m) (asleep (begun m))) where
  -- The steps up to the end of the sleep.
  steps_to_sleep : Run sbi (board place m) (slept place m)
  steps_to_sleep =
      then (then here (begin m.hart_id m.csr m.mmio runs s)) (sleep m.hart_id (ground arith))

  abbrev last : ℕ
  last = suc (suspend_returns e h m r).2.rounds

  abbrev woken_board : Board
  woken_board =
      moved (y.boards last) m.hart_id waking
        (set_state m.hart_id resume_pending (y.boards last).hsm)

  steps_to_wake : Run sbi (board place m) woken_board
  steps_to_wake =
      then (Run-append steps_to_sleep (Story-Run y last)) (wake m.hart_id (y.stays last))

  same : (y.boards last).hsm ≡ (suspend_returns e h m r).0.hsm
  same = Woken-shared y (suspend_returns e h m r).2

  woken_hsm : woken_board.hsm ≡ (awake m (suspend_returns e h m r).0).hsm
  woken_hsm =
      ap (set_state m.hart_id resume_pending) same ∙ sym (awake-hsm m (suspend_returns e h m r).0)

  pub hart_suspend_retentive-Run :
      (a o : ℕ)
      → (m' : Machine) × (c : Board) × (hart_suspend sbi env fuel suspend_retentive a o m
          ≡ ok (m', sbi.ok 0))
        × Run sbi (board place m) c
        × (c.hsm ≡ m'.hsm)
        × (c.place m.hart_id ≡ running)
        × (m'.hart_id ≡ m.hart_id)
  hart_suspend_retentive-Run a o =
      let (w, q, _, restored) = suspend_returns e h m r in
      let m' = awake m w in
      (
        record m' { hsm = set_state m.hart_id started m'.hsm },
        moved woken_board m.hart_id running (set_state m.hart_id started woken_board.hsm),
        hart_suspend_accepts sbi env fuel a o m s
            ∙ ap (λ (x : Outcome Machine). x >>= retentive sbi m.hart_id) q,
        then steps_to_wake (return m.hart_id (ground arith)),
        ap (set_state m.hart_id started) woken_hsm,
        ground arith,
        ground arith,
      )

  -- A non-retentive suspension of a running hart, under the same conditions, is one too, up to the
  -- return with the private number.
  pub hart_suspend_non_retentive-Run :
      (a o : ℕ)
      → (m' : Machine) × (c : Board) × (hart_suspend sbi env fuel suspend_non_retentive a o m
          ≡ ok (m', resume_elsewhere))
        × Run sbi (board place m) c
        × (c.hsm ≡ m'.hsm)
        × (c.place m.hart_id ≡ resuming)
        × (m'.hart_id ≡ m.hart_id)
        × (m'.hsm.last_command m.hart_id ≡ some (start a o))
  hart_suspend_non_retentive-Run a o =
      let (w, q, _, restored) = suspend_returns e h m r in
      let m' = awake m w in
      (
        record m' { hsm = set_command m.hart_id (start a o) m'.hsm },
        moved woken_board m.hart_id resuming (set_command m.hart_id (start a o) woken_board.hsm),
        hart_suspend_accepts_non_retentive sbi env fuel a o m s
            ∙ ap (λ (x : Outcome Machine). x >>= non_retentive m.hart_id a o) q,
        then steps_to_wake (leave m.hart_id a o (ground arith)),
        ap (set_command m.hart_id (start a o)) woken_hsm,
        ground arith,
        ground arith,
        ground arith,
      )
