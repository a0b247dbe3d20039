-- ===== src/Execute/Board/Traps.antt =====
-- execute.rs: every trap of a running hart, from the match to the end of its arm, on the board.
use rustsbi_hifive_unmatched.Base.{
  ℕ, arith, Bool-cases, if◌then◌else◌, Option-cases, ◌≡◌, refl, some, Outcome, ok, waiting,
  panicked, inl, inr, ◌⊎◌, sym,
}
use rustsbi_hifive_unmatched.Sbi.{Sbi, IsSbi}
use rustsbi_hifive_unmatched.Machine.{Machine}
use rustsbi_hifive_unmatched.Hsm.Data.{start_pending, code, start, stop}
use rustsbi_hifive_unmatched.Hsm.Calls.{Env}
use rustsbi_hifive_unmatched.Hsm.Wait.{Woken, wait_msoft-cases}
use rustsbi_hifive_unmatched.Hsm.Sleep.{IsEnv, asleep, begun}
use rustsbi_hifive_unmatched.Hsm.System.{Place, running, sleeping, parked, Reach}
use rustsbi_hifive_unmatched.Hsm.Diagram.{here}
use rustsbi_hifive_unmatched.Hsm.Refine.Story.{Story}
use rustsbi_hifive_unmatched.Hsm.Refine.Suspend.{board, slept}
use rustsbi_hifive_unmatched.Hsm.Refine.Stop.{halted_board, handle_machine_soft-Run}
use rustsbi_hifive_unmatched.Context.{
  SupervisorContext, MachineTrap, sbi_call, illegal, machine_timer_trap, machine_soft_trap,
}
use rustsbi_hifive_unmatched.Execute.{
  State, World, handle_illegal_instruction, handle_machine_soft, handle, handle_machine_timer,
}
use rustsbi_hifive_unmatched.Execute.Soft.{halted, soft_delegated, soft_started, stop_waits}
use rustsbi_hifive_unmatched.Execute.Calls.{CallsHsm}
use rustsbi_hifive_unmatched.Csr.{is_machine, exception, illegal_instruction}
use rustsbi_hifive_unmatched.Feature.{should_transfer_trap, do_transfer_trap}
use rustsbi_hifive_unmatched.Feature.Rdtime.{emulate_rdtime-cases}
use rustsbi_hifive_unmatched.Execute.Board.Settles.{
  Blame, commanded, from_machine, Settles, waits_on, panics, goes_on, AnswersOthers,
  handle_sbi_call-Settles,
}

pub Outcome-cases :
    {A : Type 0} (x : Outcome A) → (x ≡ waiting) ⊎ (x ≡ panicked) ⊎ ((a : A) × (x ≡ ok a))
Outcome-cases (ok a) = inr (inr (a, refl))
Outcome-cases waiting = inl refl
Outcome-cases panicked = inr (inl refl)

module _ {sbi : Sbi} (place : ℕ → Place) (ctx : SupervisorContext) (m : Machine)
    (runs : place m.hart_id ≡ running) where
  -- An arm that leaves the monitor alone.
  still-Settles :
      {x : Outcome State} (s' : State)
      → x ≡ ok s'
      → s'.1.hsm ≡ m.hsm
      → s'.1.hart_id ≡ m.hart_id
      → Settles sbi place m x
  still-Settles s' q same hart = goes_on s' (board place m) q here (sym same) runs hart

  blamed-Settles : {x : Outcome State} → x ≡ panicked → Blame (ctx, m) → Settles sbi place m x
  blamed-Settles q b = panics (ctx, m) (board place m) q here refl runs refl b

  if_transferred :
      (s' : State)
      → s'.1.hsm ≡ m.hsm
      → s'.1.hart_id ≡ m.hart_id
      → Settles sbi place m (if should_transfer_trap ctx then ok s' else panicked)
  unfolding should_transfer_trap
  if_transferred s' same hart = elim (Bool-cases (is_machine ctx.mstatus.mpp)) [
    | inl y ↦ blamed-Settles (rw y refl) (from_machine (ground (arith, y)))
    | inr n ↦ still-Settles s' (rw n refl) same hart
  ]

  handle_illegal_instruction-Settles :
      (fetch : ℕ → ℕ) → Settles sbi place m (handle_illegal_instruction fetch (ctx, m))
  unfolding handle_illegal_instruction do_transfer_trap
  handle_illegal_instruction-Settles fetch = elim (emulate_rdtime-cases ctx (fetch ctx.mepc) m) [
    | inl (c, e) ↦ still-Settles (c, m) (rw e refl) refl refl
    | inr e ↦
        rw e (if_transferred (do_transfer_trap ctx (exception illegal_instruction) m) refl refl)
  ]

  module _ {env : Env} (fuel : ℕ) (e : IsEnv env) (reached : Reach sbi (board place m))
      (asked : (n : ℕ) (w : Machine)
        → Woken env 0 n (halted m) w
        → w.hsm.state m.hart_id ≡ some (code start_pending))
      (y : Story sbi env m.hart_id parked (halted_board place m) (halted m)) where
    stop-Settles :
        m.hsm.last_command m.hart_id ≡ some stop
        → Settles sbi place m (handle_machine_soft env fuel m.hart_id (ctx, m))
    stop-Settles c = elim (wait_msoft-cases env fuel 0 (halted m)) [
      | inl w ↦ waits_on (stop_waits env fuel m.hart_id ctx m c w)
      | inr (n, h, r) ↦
          let (s', d, a, o, q, run, same, at, hart, _, _) =
            handle_machine_soft-Run e h place ctx m reached runs c r (asked n) y in
          goes_on s' d q run same at hart
    ]

    handle_machine_soft-Settles :
        Settles sbi place m (handle_machine_soft env fuel m.hart_id (ctx, m))
    unfolding do_transfer_trap
    handle_machine_soft-Settles = elim (Option-cases (m.hsm.last_command m.hart_id)) [
      | inl c ↦ rw (soft_delegated env fuel m.hart_id ctx m c) (if_transferred _ refl refl)
      | inr (start a o, c) ↦
          blamed-Settles (soft_started env fuel m.hart_id a o ctx m c) (commanded a o c)
      | inr (stop, c) ↦ stop-Settles c
    ]

-- One trap of a running hart, whichever of the four and for every SBI call, with the board around it as
-- the hypotheses say.
pub handle-Settles :
    {sbi : Sbi} {env : Env} {fuel : ℕ} (w : World) (t : ℕ) (trap : MachineTrap) (place : ℕ → Place)
    (s : State)
    → let m = s.1 in
      CallsHsm w.ecall sbi env fuel
      → AnswersOthers w.ecall
      → IsEnv env
      → IsEnv (w.env t)
      → IsSbi sbi
      → Reach sbi (board place m)
      → place m.hart_id ≡ running
      → Story sbi env m.hart_id sleeping (slept place m) (asleep (begun m))
      → Story sbi (w.env t) m.hart_id parked (halted_board place m) (halted m)
      → ((n : ℕ) (v : Machine)
          → Woken (w.env t) 0 n (halted m) v
          → v.hsm.state m.hart_id ≡ some (code start_pending))
      → Settles sbi place m (handle w t m.hart_id trap s)
unfolding handle handle_machine_timer
handle-Settles w t sbi_call place (ctx, m) d others e _ i reached runs sleeps parks asked =
    handle_sbi_call-Settles d others e i place ctx m runs sleeps
handle-Settles w t illegal place (ctx, m) d others _ e i reached runs sleeps parks asked =
    handle_illegal_instruction-Settles place ctx m runs w.fetch
handle-Settles w t machine_timer_trap place (ctx, m) d others _ e i reached runs sleeps parks
      asked =
    still-Settles place ctx m runs _ refl refl refl
handle-Settles w t machine_soft_trap place (ctx, m) d others _ e i reached runs sleeps parks asked =
    handle_machine_soft-Settles place ctx m runs w.fuel e reached asked parks
