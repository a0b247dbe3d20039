-- ===== src/Execute/Board/Settles.antt =====
-- execute.rs: what a trap of a running hart comes to on the board, and every SBI call.
use rustsbi_hifive_unmatched.Base.{
  ℕ, ◌+◌, ◌%◌, ◌^◌, ◌<◌, ◌≤◌, ◌≡◌, ◌≢◌, refl, some, Outcome, ok, waiting, panicked, arith, ◌∙◌, ap,
  ap₂, inl, inr, ◌⊎◌, sym,
}
use rustsbi_hifive_unmatched.Sbi.{Sbi, SbiRet, IsSbi}
use rustsbi_hifive_unmatched.Machine.{Machine}
use rustsbi_hifive_unmatched.Hsm.Data.{started, start, set_state}
use rustsbi_hifive_unmatched.Hsm.Calls.{Env, record_current_start_finished}
use rustsbi_hifive_unmatched.Hsm.Sleep.{IsEnv, asleep, begun}
use rustsbi_hifive_unmatched.Hsm.System.{Place, running, sleeping, Board, moved, resume}
use rustsbi_hifive_unmatched.Hsm.Diagram.{Run, here, then}
use rustsbi_hifive_unmatched.Hsm.Refine.Story.{Story}
use rustsbi_hifive_unmatched.Hsm.Refine.Suspend.{board, slept}
use rustsbi_hifive_unmatched.Hsm.Refine.Total.{sleeps_on, answers, resumes, hart_suspend-SuspendRun}
use rustsbi_hifive_unmatched.Csr.{Mpp}
use rustsbi_hifive_unmatched.Context.{SupervisorContext, a0, a1, a2, a6, a7, trap_of}
use rustsbi_hifive_unmatched.Execute.{Ecall, State, handle_sbi_call, start_if_told}
use rustsbi_hifive_unmatched.Execute.Soft.{start_if_told-hsm, start_if_told-hart_id}
use rustsbi_hifive_unmatched.Execute.Calls.{
  CallsHsm, answered, extension_hsm, called, handle_sbi_call-answered, handle_sbi_call_resumed,
}
use rustsbi_hifive_unmatched.Execute.Board.{handle_requests-Run}

-- Why a hart panics in a trap: it has been commanded to start already, the trap came from machine mode,
-- or it is none of the four.
pub data Blame (s : State) : Type 0 where
  commanded : (a o : ℕ) → s.1.hsm.last_command s.1.hart_id ≡ some (start a o) → Blame s
  from_machine : s.0.mstatus.mpp ≡ Mpp.machine → Blame s
  unknown : trap_of s.1.csr.mcause ≡ panicked → Blame s

-- What a trap comes to on a board: the hart waits on, or panics, or the board has run to a state in
-- which the hart runs again.
pub data Settles (sbi : Sbi) (place : ℕ → Place) (m : Machine) (x : Outcome State) : Type 0 where
  waits_on : x ≡ waiting → Settles sbi place m x
  panics :
      (s : State) (c : Board)
      → x ≡ panicked
      → Run sbi (board place m) c
      → c.hsm ≡ s.1.hsm
      → c.place m.hart_id ≡ running
      → s.1.hart_id ≡ m.hart_id
      → Blame s
      → Settles sbi place m x
  goes_on :
      (s' : State) (c : Board)
      → x ≡ ok s'
      → Run sbi (board place m) c
      → c.hsm ≡ s'.1.hsm
      → c.place m.hart_id ≡ running
      → s'.1.hart_id ≡ m.hart_id
      → Settles sbi place m x

-- What `rustsbi::ecall` makes of all other calls: it does not return, as that of a shutdown, or it
-- answers by a code of its own, with the monitor left alone.
pub record AnswersOthers (ecall : Ecall) : Type 0 where
  pub others :
      (x f : ℕ) (p : ℕ → ℕ) (m : Machine)
      → (x ≢ extension_hsm) ⊎ (4 ≤ f)
      → (ecall x f p m ≡ waiting)
        ⊎ ((m' : Machine) × (r : SbiRet) × (ecall x f p m ≡ ok (m', r))
            × (r.error ≢ 0x233)
            × (m'.hsm ≡ m.hsm)
            × (m'.hart_id ≡ m.hart_id))

call-cases :
    (x f : ℕ)
    → ((x ≡ extension_hsm) × (f < 3))
      ⊎ ((x ≡ extension_hsm) × (f ≡ 3))
      ⊎ ((x ≢ extension_hsm) ⊎ (4 ≤ f))
call-cases x f = ground arith

module _ {ecall : Ecall} {sbi : Sbi} {env : Env} {fuel : ℕ} (d : CallsHsm ecall sbi env fuel)
    (others : AnswersOthers ecall) (e : IsEnv env) (i : IsSbi sbi) (place : ℕ → Place)
    (ctx : SupervisorContext) (m : Machine) (runs : place m.hart_id ≡ running) where
  handle_sbi_call_waits :
      ecall (ctx.regs a7) (ctx.regs a6) (λ i. ctx.regs (a0 + i)) m ≡ waiting
      → handle_sbi_call ecall m.hart_id (ctx, m) ≡ waiting
  unfolding handle_sbi_call
  handle_sbi_call_waits h = rw h refl

  suspend-Settles :
      ctx.regs a7 ≡ extension_hsm
      → ctx.regs a6 ≡ 3
      → Story sbi env m.hart_id sleeping (slept place m) (asleep (begun m))
      → Settles sbi place m (handle_sbi_call ecall m.hart_id (ctx, m))
  unfolding record_current_start_finished
  suspend-Settles x f y =
      let t = ctx.regs a0 % 2 ^ 32 in
      let a = ctx.regs a1 in
      let o = ctx.regs a2 in
      elim (hart_suspend-SuspendRun fuel e i place m runs y a o t) [
        | sleeps_on q ↦
            waits_on (handle_sbi_call_waits (called d m.hart_id ctx m x 3 f (d.suspends _ m ∙ q)))
        | answers m' r c q ne run same at hart ↦
            goes_on (answered ctx r, m') c
              (handle_sbi_call-answered ecall m.hart_id ctx m m' r
                (called d m.hart_id ctx m x 3 f (d.suspends _ m ∙ q)) ne)
              run same at hart
        | resumes m' c q run same at hart told ↦
            let told_m : m'.hsm.last_command m'.hart_id ≡ some (start a o) =
              ap (λ j. m'.hsm.last_command j) hart ∙ told in
            goes_on (start_if_told m.hart_id (ctx, m'))
              (moved c m.hart_id running (set_state m.hart_id started c.hsm))
              (handle_sbi_call_resumed ecall m.hart_id ctx m m'
                (called d m.hart_id ctx m x 3 f (d.suspends _ m ∙ q)))
              (then run (resume m.hart_id m.csr m.mmio at))
              (ap₂ (λ j g. set_state j started g) (sym hart) same
                ∙ sym (start_if_told-hsm m.hart_id a o ctx m' told_m))
              (ground arith) (start_if_told-hart_id m.hart_id a o ctx m' told_m ∙ hart)
      ]

  other-Settles :
      (ctx.regs a7 ≢ extension_hsm) ⊎ (4 ≤ ctx.regs a6)
      → Settles sbi place m (handle_sbi_call ecall m.hart_id (ctx, m))
  other-Settles n = elim (others.others (ctx.regs a7) (ctx.regs a6) (λ i. ctx.regs (a0 + i)) m n) [
    | inl q ↦ waits_on (handle_sbi_call_waits q)
    | inr (m', r, q, ne, same, hart) ↦
        goes_on (answered ctx r, m') (board place m)
          (handle_sbi_call-answered ecall m.hart_id ctx m m' r q ne) here (sym same) runs hart
  ]

  -- Every call.
  pub handle_sbi_call-Settles :
      Story sbi env m.hart_id sleeping (slept place m) (asleep (begun m))
      → Settles sbi place m (handle_sbi_call ecall m.hart_id (ctx, m))
  handle_sbi_call-Settles y = elim (call-cases (ctx.regs a7) (ctx.regs a6)) [
    | inl (x, f) ↦
        let (s', q, run, hart) = handle_requests-Run d i ctx m x place runs f in
        goes_on s' (board place s'.1) q run refl runs hart
    | inr (inl (x, f)) ↦ suspend-Settles x f y
    | inr (inr n) ↦ other-Settles n
  ]
