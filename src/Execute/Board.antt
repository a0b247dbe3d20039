-- ===== src/Execute/Board.antt =====
-- execute.rs on hsm.rs: the SBI calls of one hart to the monitor, as steps of the board.
pub mod Settles
pub mod Traps
pub mod Rounds
use rustsbi_hifive_unmatched.Base.{
  ℕ, suc, ◌%◌, ◌^◌, ◌<◌, ◌≡◌, some, true, ok, refl, arith, ◌∙◌, ap, sym, ap₂, ◌⊎◌, inl, inr,
}
use rustsbi_hifive_unmatched.Sbi.{Sbi, IsSbi}
use rustsbi_hifive_unmatched.Machine.{Machine}
use rustsbi_hifive_unmatched.Hsm.Data.{started, code, start, set_state}
use rustsbi_hifive_unmatched.Hsm.Calls.{
  Env, hart_start, hart_stop, hart_suspend, suspend_non_retentive, record_current_start_finished,
}
use rustsbi_hifive_unmatched.Hsm.Wait.{after}
use rustsbi_hifive_unmatched.Hsm.Sleep.{IsEnv, asleep, begun}
use rustsbi_hifive_unmatched.Hsm.System.{
  Place, running, sleeping, Board, moved, ask_start, ask_stop, resume,
}
use rustsbi_hifive_unmatched.Hsm.Diagram.{Run, here, then}
use rustsbi_hifive_unmatched.Hsm.Refine.Story.{Story}
use rustsbi_hifive_unmatched.Hsm.Refine.Suspend.{board, slept, hart_suspend_non_retentive-Run}
use rustsbi_hifive_unmatched.Context.{SupervisorContext, a0, a1, a2, a6, a7}
use rustsbi_hifive_unmatched.Execute.{Ecall, State, start_if_told, handle_sbi_call}
use rustsbi_hifive_unmatched.Execute.Soft.{StartedAt, start_if_told-StartedAt, start_if_told-hsm}
use rustsbi_hifive_unmatched.Execute.Calls.{
  CallsHsm, extension_hsm, called, handle_sbi_call_resumed, handle_requests,
}

below_three : (f : ℕ) → f < 3 → (f ≡ 0) ⊎ (f ≡ 1) ⊎ (f ≡ 2)
below_three f h = ground arith

hart_start-hart_id :
    (sbi : Sbi) (k a o : ℕ) (m : Machine) → (hart_start sbi k a o m).0.hart_id ≡ m.hart_id
unfolding hart_start
hart_start-hart_id sbi k a o m = ground arith

hart_stop-hart_id : (sbi : Sbi) (k : ℕ) (m : Machine) → (hart_stop sbi k m).0.hart_id ≡ m.hart_id
unfolding hart_stop
hart_stop-hart_id sbi k m = ground arith

module _ {ecall : Ecall} {sbi : Sbi} {env : Env} {fuel : ℕ} (d : CallsHsm ecall sbi env fuel)
    (i : IsSbi sbi) (ctx : SupervisorContext) (m : Machine) (ext : ctx.regs a7 ≡ extension_hsm)
    (place : ℕ → Place) (runs : place m.hart_id ≡ running) where
  -- With the documented dispatch of the calls and the error codes told apart: a call of a running hart
  -- for a start, a stop or a report is answered, and is a run of the board from the state at the
  -- call to the state behind it, with every hart where it was.
  pub handle_requests-Run :
      ctx.regs a6 < 3
      → (s' : State) × (handle_sbi_call ecall m.hart_id (ctx, m) ≡ ok s')
        × Run sbi (board place m) (board place s'.1)
        × (s'.1.hart_id ≡ m.hart_id)
  handle_requests-Run f =
      let h = handle_requests d m.hart_id ctx m ext i in
      elim (below_three (ctx.regs a6) f) [
        | inl e ↦ (
          _,
          h.0 e,
          then here (ask_start m.hart_id _ _ _ m.csr m.mmio runs),
          hart_start-hart_id sbi _ _ _ m,
        )
        | inr (inl e) ↦ (
          _,
          h.1 e,
          then here (ask_stop m.hart_id _ m.csr m.mmio runs),
          hart_stop-hart_id sbi _ m,
        )
        | inr (inr e) ↦ (_, h.2 e, here, refl)
      ]

module _ {ecall : Ecall} {sbi : Sbi} {env : Env} {n fuel : ℕ} (d : CallsHsm ecall sbi env fuel)
    (e : IsEnv env) (h : n < fuel) (ctx : SupervisorContext) (m : Machine)
    (ext : ctx.regs a7 ≡ extension_hsm) (asks : ctx.regs a6 ≡ 3) (place : ℕ → Place)
    (runs : place m.hart_id ≡ running) (s : m.hsm.state m.hart_id ≡ some (code started))
    (r : (after env 0 (suc n) (asleep (begun m))).csr.mip_msoft ≡ true)
    (y : Story sbi env m.hart_id sleeping (slept place m) (asleep (begun m))) where
  -- With the documented dispatch: a call for a non-retentive suspension by a running hart that is
  -- recorded as started, and is woken within the fuel by a board that leaves it alone and goes on
  -- with steps of its own, is a run of the board: from the state at the call to the state in which
  -- the hart runs again, at the address and with the parameter of the call.
  pub handle_suspend_non_retentive-Run :
      ctx.regs a0 ≡ suspend_non_retentive
      → (s' : State) × (c : Board) × (handle_sbi_call ecall m.hart_id (ctx, m) ≡ ok s')
        × Run sbi (board place m) c
        × (c.hsm ≡ s'.1.hsm)
        × (c.place m.hart_id ≡ running)
        × StartedAt m.hart_id (ctx.regs a1) (ctx.regs a2) s'
  unfolding record_current_start_finished
  handle_suspend_non_retentive-Run t =
      let (m', c, q, run, same, at, here_still, told) =
        hart_suspend_non_retentive-Run e h place m runs s r y (ctx.regs a1) (ctx.regs a2) in
      let told_m : m'.hsm.last_command m'.hart_id ≡ some (start (ctx.regs a1) (ctx.regs a2)) =
        ap (λ j. m'.hsm.last_command j) here_still ∙ told in
      (
        start_if_told m.hart_id (ctx, m'),
        moved c m.hart_id running (set_state m.hart_id started c.hsm),
        handle_sbi_call_resumed ecall m.hart_id ctx m m' (
            called d m.hart_id ctx m ext 3 asks (
              d.suspends _ m
              ∙ ap (λ t. hart_suspend sbi env fuel (t % 2 ^ 32) (ctx.regs a1) (ctx.regs a2) m) t
              ∙ q)),
        then run (resume m.hart_id m.csr m.mmio at),
        ap₂ (λ j g. set_state j started g) (sym here_still) same
            ∙ sym (start_if_told-hsm m.hart_id (ctx.regs a1) (ctx.regs a2) ctx m' told_m),
        ground arith,
        start_if_told-StartedAt m.hart_id (ctx.regs a1) (ctx.regs a2) ctx m' told_m,
      )
