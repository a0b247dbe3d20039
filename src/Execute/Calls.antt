-- ===== src/Execute/Calls.antt =====
-- execute.rs: an SBI call of the supervisor, with the dispatch that `rustsbi` documents for the
-- functions of the hart state monitor.
use rustsbi_hifive_unmatched.Base.{
  ℕ, suc, ◌%◌, ◌^◌, ◌+◌, ◌<◌, ◌≡◌, ◌≢◌, some, true, Outcome, ok, arith, ◌∙◌, ap, ap₂, Option-cases,
  inl, inr,
}
use rustsbi_hifive_unmatched.Sbi.{Sbi, SbiRet, IsSbi}
use rustsbi_hifive_unmatched.Machine.{Machine}
use rustsbi_hifive_unmatched.Hsm.Data.{started, code}
use rustsbi_hifive_unmatched.Hsm.Calls.{
  Env, hart_start, hart_stop, hart_get_status, hart_suspend, suspend_retentive,
  suspend_non_retentive, resume_elsewhere,
}
use rustsbi_hifive_unmatched.Hsm.Wait.{after}
use rustsbi_hifive_unmatched.Hsm.Sleep.{IsEnv, asleep, begun}
use rustsbi_hifive_unmatched.Hsm.Suspend.{hart_suspend_retentive, hart_suspend_non_retentive}
use rustsbi_hifive_unmatched.Context.{SupervisorContext, a0, a1, a2, a6, a7, set_reg}
use rustsbi_hifive_unmatched.Feature.{next_instruction}
use rustsbi_hifive_unmatched.Execute.{Ecall, State, handle_sbi_call, start_if_told}
use rustsbi_hifive_unmatched.Execute.Soft.{StartedAt, start_if_told-StartedAt}

abbrev pub extension_hsm : ℕ
extension_hsm = 0x48534D

-- What `rustsbi::ecall` makes of a call of the extension, once `init_hsm` has registered the monitor:
-- the first parameters go to the function of that number, the kind of a suspension as 32 bits.
pub record CallsHsm (ecall : Ecall) (sbi : Sbi) (env : Env) (fuel : ℕ) : Type 0 where
  pub starts :
      (p : ℕ → ℕ) (m : Machine)
      → ecall extension_hsm 0 p m ≡ ok (hart_start sbi (p 0) (p 1) (p 2) m)
  pub stops : (p : ℕ → ℕ) (m : Machine) → ecall extension_hsm 1 p m ≡ ok (hart_stop sbi (p 0) m)
  pub reports :
      (p : ℕ → ℕ) (m : Machine) → ecall extension_hsm 2 p m ≡ ok (m, hart_get_status sbi (p 0) m)
  pub suspends :
      (p : ℕ → ℕ) (m : Machine)
      → ecall extension_hsm 3 p m ≡ hart_suspend sbi env fuel (p 0 % 2 ^ 32) (p 1) (p 2) m

-- The context after a call that is answered.
abbrev pub answered : SupervisorContext → SbiRet → SupervisorContext
answered ctx r = record (set_reg a1 r.value (set_reg a0 r.error ctx)) {
  mepc = next_instruction ctx.mepc;
}

pub handle_sbi_call-answered :
    (ecall : Ecall) (k : ℕ) (ctx : SupervisorContext) (m m' : Machine) (r : SbiRet)
    → ecall (ctx.regs a7) (ctx.regs a6) (λ i. ctx.regs (a0 + i)) m ≡ ok (m', r)
    → r.error ≢ 0x233
    → handle_sbi_call ecall k (ctx, m) ≡ ok (answered ctx r, m')
unfolding handle_sbi_call
handle_sbi_call-answered ecall k ctx m m' r h ne = rw h (ground arith)

pub handle_sbi_call_resumed :
    (ecall : Ecall) (k : ℕ) (ctx : SupervisorContext) (m m' : Machine)
    → ecall (ctx.regs a7) (ctx.regs a6) (λ i. ctx.regs (a0 + i)) m ≡ ok (m', resume_elsewhere)
    → handle_sbi_call ecall k (ctx, m) ≡ ok (start_if_told k (ctx, m'))
unfolding handle_sbi_call
handle_sbi_call_resumed ecall k ctx m m' h = rw h

-- `hart_start` never answers with the number that the firmware keeps for itself.
hart_start-ne-resume :
    (sbi : Sbi) (k a o : ℕ) (m : Machine) → IsSbi sbi → (hart_start sbi k a o m).1.error ≢ 0x233
unfolding hart_start
hart_start-ne-resume sbi k a o m i = ground (arith, i.ok_error 0)

hart_stop-ne-resume :
    (sbi : Sbi) (k : ℕ) (m : Machine) → IsSbi sbi → (hart_stop sbi k m).1.error ≢ 0x233
unfolding hart_stop
hart_stop-ne-resume sbi k m i = ground (arith, i.ok_error 0)

hart_get_status-ne-resume :
    (sbi : Sbi) (k : ℕ) (m : Machine) → IsSbi sbi → (hart_get_status sbi k m).error ≢ 0x233
unfolding hart_get_status
hart_get_status-ne-resume sbi k m i = elim (Option-cases (m.hsm.state k)) [
  | inl e ↦ ground arith
  | inr (a, e) ↦ ground (arith, i.ok_error a)
]

module _ {ecall : Ecall} {sbi : Sbi} {env : Env} {fuel : ℕ} (d : CallsHsm ecall sbi env fuel)
    (k : ℕ) (ctx : SupervisorContext) (m : Machine) (ext : ctx.regs a7 ≡ extension_hsm) where
  pub called :
      (f : ℕ) {r : Outcome (Machine × SbiRet)}
      → ctx.regs a6 ≡ f
      → ecall extension_hsm f (λ i. ctx.regs (a0 + i)) m ≡ r
      → ecall (ctx.regs a7) (ctx.regs a6) (λ i. ctx.regs (a0 + i)) m ≡ r
  called f e q = ap₂ (λ x y. ecall x y (λ i. ctx.regs (a0 + i)) m) ext e ∙ q

  -- A call of the supervisor to start a hart, to stop one or to report on one runs that function on
  -- the parameters, and goes on behind the call with its answer in a0 and a1.
  pub handle_requests :
      IsSbi sbi
      → (ctx.regs a6 ≡ 0
          → let (m', r) = hart_start sbi (ctx.regs a0) (ctx.regs a1) (ctx.regs a2) m in
            handle_sbi_call ecall k (ctx, m) ≡ ok (answered ctx r, m'))
        × (ctx.regs a6 ≡ 1
            → let (m', r) = hart_stop sbi (ctx.regs a0) m in
              handle_sbi_call ecall k (ctx, m) ≡ ok (answered ctx r, m'))
        × (ctx.regs a6 ≡ 2
            → handle_sbi_call ecall k (ctx, m)
              ≡ ok (answered ctx (hart_get_status sbi (ctx.regs a0) m), m))
  handle_requests i = (
    λ f.
        handle_sbi_call-answered ecall k ctx m _ _ (called 0 f (d.starts _ m))
          (hart_start-ne-resume sbi _ _ _ m i),
    λ f.
        handle_sbi_call-answered ecall k ctx m _ _ (called 1 f (d.stops _ m))
          (hart_stop-ne-resume sbi _ m i),
    λ f.
        handle_sbi_call-answered ecall k ctx m _ _ (called 2 f (d.reports _ m))
          (hart_get_status-ne-resume sbi _ m i),
  )

  module _ {n : ℕ} (e : IsEnv env) (h : n < fuel) (asks : ctx.regs a6 ≡ 3)
      (s : m.hsm.state m.hart_id ≡ some (code started))
      (r : (after env 0 (suc n) (asleep (begun m))).csr.mip_msoft ≡ true) where
    -- A retentive suspension of the calling hart, which is started and is woken within the fuel,
    -- goes on behind the call with success in a0, on a hart that is recorded as started.
    pub handle_suspend_retentive :
        IsSbi sbi
        → ctx.regs a0 ≡ suspend_retentive
        → (m' : Machine) × (handle_sbi_call ecall k (ctx, m) ≡ ok (answered ctx (sbi.ok 0), m'))
          × (m'.hsm.state m.hart_id ≡ some (code started))
    handle_suspend_retentive i t =
        let (m', q, st, _) = hart_suspend_retentive e h sbi (ctx.regs a1) (ctx.regs a2) m s r in
        (
          m',
          handle_sbi_call-answered ecall k ctx m m' (sbi.ok 0)
              (called 3 asks (
                d.suspends _ m
                ∙ ap (λ t. hart_suspend sbi env fuel (t % 2 ^ 32) (ctx.regs a1) (ctx.regs a2) m) t
                ∙ q))
              (ground (arith, i.ok_error 0)),
          st,
        )

    -- With the documented dispatch of the calls: a non-retentive suspension of the calling hart,
    -- which is started and is woken within the fuel by a board that leaves it alone, goes on at the
    -- address that the call gave, with the number of the hart in a0 and the parameter of the call in
    -- a1, without translation and interrupts, on a hart that is recorded as started.
    pub handle_suspend_non_retentive :
        ctx.regs a0 ≡ suspend_non_retentive
        → (s' : State) × (handle_sbi_call ecall k (ctx, m) ≡ ok s')
          × StartedAt k (ctx.regs a1) (ctx.regs a2) s'
    handle_suspend_non_retentive t =
        let (m', q, _, told, slept) =
          hart_suspend_non_retentive e h sbi (ctx.regs a1) (ctx.regs a2) m s r in
        (
          start_if_told k (ctx, m'),
          handle_sbi_call_resumed ecall k ctx m m' (
              called 3 asks (
                d.suspends _ m
                ∙ ap (λ t. hart_suspend sbi env fuel (t % 2 ^ 32) (ctx.regs a1) (ctx.regs a2) m) t
                ∙ q)),
          start_if_told-StartedAt k (ctx.regs a1) (ctx.regs a2) ctx m'
              (ground (arith, told, slept.restored.hart)),
        )
