-- ===== src/Hsm/Refine/Stop.antt =====
-- execute.rs: a machine software interrupt that stops the hart, up to its next start, as steps of the
-- board.
use rustsbi_hifive_unmatched.Base.{
  ℕ, suc, ◌<◌, ◌≡◌, refl, Option, some, none, true, ok, arith, ◌∙◌, ap, ap₂, sym,
}
use rustsbi_hifive_unmatched.Sbi.{Sbi}
use rustsbi_hifive_unmatched.Machine.{Machine}
use rustsbi_hifive_unmatched.Hsm.Data.{
  HsmCommand, started, stopped, start_pending, code, start, stop, set_state,
}
use rustsbi_hifive_unmatched.Hsm.Calls.{
  Env, record_current_stop_finished, record_current_start_finished,
}
use rustsbi_hifive_unmatched.Hsm.Wait.{after, Woken}
use rustsbi_hifive_unmatched.Hsm.Sleep.{IsEnv}
use rustsbi_hifive_unmatched.Hsm.System.{
  Place, running, stopping, parked, Board, moved, Reach, take_stop, park, rise, enter,
}
use rustsbi_hifive_unmatched.Hsm.Invariant.{IsStart, Reach-Inv}
use rustsbi_hifive_unmatched.Hsm.Diagram.{Run-append, Run, here, then}
use rustsbi_hifive_unmatched.Hsm.Refine.Story.{Story, Story-Run, Reach-Run}
use rustsbi_hifive_unmatched.Hsm.Refine.Suspend.{board, Woken-shared}
use rustsbi_hifive_unmatched.Context.{SupervisorContext}
use rustsbi_hifive_unmatched.Execute.{State, handle_machine_soft, start_if_told}
use rustsbi_hifive_unmatched.Execute.Soft.{
  halted, stop_returns, StartedAt, start_if_told-StartedAt, start_if_told-hsm,
  start_if_told-hart_id,
}

-- A command to start has an address and a parameter.
IsStart-some : (c : Option HsmCommand) → IsStart c → (a o : ℕ) × (c ≡ some (start a o))
IsStart-some (some (start a o)) h = (a, o, refl)
IsStart-some (some stop) h = absurd h
IsStart-some none h = absurd h

-- The board when the hart has stopped.
abbrev pub halted_board : (ℕ → Place) → Machine → Board
halted_board place m =
    let i = m.hart_id in
    moved (moved (board place m) i stopping m.hsm) i parked (set_state i stopped m.hsm)

parked_starts :
    {sbi : Sbi} {b : Board} (i : ℕ)
    → Reach sbi b
    → b.place i ≡ parked
    → b.hsm.state i ≡ some (code start_pending)
    → IsStart (b.hsm.last_command i)
parked_starts {b} i r p s = ground (arith, Reach-Inv r i)

module _ {sbi : Sbi} {env : Env} {n fuel : ℕ} (e : IsEnv env) (h : n < fuel) (place : ℕ → Place)
    (ctx : SupervisorContext) (m : Machine) (reached : Reach sbi (board place m))
    (runs : place m.hart_id ≡ running) (c : m.hsm.last_command m.hart_id ≡ some stop)
    (r : (after env 0 (suc n) (halted m)).csr.mip_msoft ≡ true)
    (asked : (w : Machine)
      → Woken env 0 n (halted m) w
      → w.hsm.state m.hart_id ≡ some (code start_pending))
    (y : Story sbi env m.hart_id parked (halted_board place m) (halted m)) where
  steps_to_halt : Run sbi (board place m) (halted_board place m)
  unfolding record_current_stop_finished
  steps_to_halt =
      then (then here (take_stop m.hart_id runs c)) (park m.hart_id m.csr m.mmio (ground arith))

  abbrev pause_end : Machine
  pause_end = (stop_returns e h m.hart_id ctx m c r).1

  ended : Woken env 0 n (halted m) pause_end
  ended = (stop_returns e h m.hart_id ctx m c r).3

  abbrev last : ℕ
  last = suc ended.rounds

  steps_to_wake : Run sbi (board place m) (y.boards last)
  steps_to_wake = Run-append steps_to_halt (Story-Run y last)

  same : (y.boards last).hsm ≡ pause_end.hsm
  same = Woken-shared y ended

  link : (y.boards last).hsm ≡ (stop_returns e h m.hart_id ctx m c r).0.hsm
  link = same ∙ sym (stop_returns e h m.hart_id ctx m c r).5

  pending : (y.boards last).hsm.state m.hart_id ≡ some (code start_pending)
  pending = ap (λ g. g.state m.hart_id) same ∙ asked pause_end ended

  command : (a o : ℕ) × ((y.boards last).hsm.last_command m.hart_id ≡ some (start a o))
  command =
      IsStart-some _
        (parked_starts m.hart_id (Reach-Run reached steps_to_wake) (y.stays last) pending)

  -- A machine software interrupt at a running hart of a reachable board that has the command to stop,
  -- where the hart is woken within the fuel by a request to start it, while the board goes on with
  -- steps of its own, is a run of the board: from the state at the trap to the state in which the
  -- hart runs again, as the command to start says that is then stored for it.
  pub handle_machine_soft-Run :
      (s' : State) × (d : Board) × (a o : ℕ) × (handle_machine_soft env fuel m.hart_id (ctx, m)
        ≡ ok s')
      × Run sbi (board place m) d
      × (d.hsm ≡ s'.1.hsm)
      × (d.place m.hart_id ≡ running)
      × (s'.1.hart_id ≡ m.hart_id)
      × (d.hsm.last_command m.hart_id ≡ some (start a o))
      × StartedAt m.hart_id a o s'
  unfolding record_current_start_finished
  handle_machine_soft-Run =
      let (a, o, told) = command in
      let (w, _, q, _, restored, _) = stop_returns e h m.hart_id ctx m c r in
      let told_w : w.hsm.last_command w.hart_id ≡ some (start a o) =
        ap₂ (λ i g. g.last_command i) restored.hart (sym link) ∙ told in
      (
        start_if_told m.hart_id (ctx, w),
        _,
        a,
        o,
        q,
        then (then steps_to_wake (rise m.hart_id (y.stays last) pending))
            (enter m.hart_id m.csr m.mmio (ground arith)),
        sym (
            start_if_told-hsm m.hart_id a o ctx w told_w
            ∙ ap₂ (λ i g. set_state i started g) restored.hart (sym link)),
        ground arith,
        start_if_told-hart_id m.hart_id a o ctx w told_w ∙ restored.hart,
        told,
        start_if_told-StartedAt m.hart_id a o ctx w told_w,
      )
