-- ===== src/Execute/Loop.antt =====
-- execute.rs: the loop over traps, its start and its ends.
use rustsbi_hifive_unmatched.Base.{
  ℕ, zero, suc, ◌+◌, ◌/◌, ◌%◌, ◌^◌, ◌<◌, ◌≡◌, ◌≢◌, ◌↔◌, ◌⊎◌, refl, inl, inr, some, none, Outcome,
  ok, waiting, panicked, ◌>>=◌, arith, ◌∙◌, ap, ap₂, ℕ_discrete, sym, fun_ext,
}
use native.Mathlib.Nat.{suc-add}
use rustsbi_hifive_unmatched.Csr.{Mpp}
use rustsbi_hifive_unmatched.Machine.{Machine}
use rustsbi_hifive_unmatched.Hsm.Data.{started, code}
use rustsbi_hifive_unmatched.Hsm.Calls.{
  Env, wait_msoft, listen, pause, last_command, record_current_start_finished,
  record_current_stop_finished,
}
use rustsbi_hifive_unmatched.Hsm.Invariant.{IsStart}
use rustsbi_hifive_unmatched.Context.{SupervisorContext, a0, a1, new_sbi_supervisor}
use rustsbi_hifive_unmatched.Feature.{should_transfer_trap}
use rustsbi_hifive_unmatched.Feature.Rdtime.{rdtime, emulate_rdtime-written, emulate_rdtime_other}
use rustsbi_hifive_unmatched.Execute.{
  State, World, handle_machine_soft, handle_illegal_instruction, run, round, execute_supervisor,
}

>>=-assoc :
    (x : Outcome State) (f g : State → Outcome State) → (x >>= f >>= g) ≡ (x >>= λ s. f s >>= g)
>>=-assoc (ok s) f g = refl
>>=-assoc waiting f g = refl
>>=-assoc panicked f g = refl

-- The loop after `a + b` traps is the loop after `a` traps, run for `b` more, from the trap that comes
-- next.
pub run_add :
    (w : World) (k a b t : ℕ) (s : State)
    → run w k (a + b) t s ≡ (run w k a t s >>= run w k b (t + a))
unfolding run
run_add w k zero b t s = ap₂ (λ (x : ℕ) y. run w k x y s) (omega arith) (omega arith)
run_add w k (suc a) b t s =
    ap (λ (x : ℕ). run w k x t s) (suc-add a b)
    ∙ ap (λ (f : State → Outcome State). round w t k s >>= f) (fun_ext (run_add w k a b (suc t)))
    ∙ sym (>>=-assoc (round w t k s) (run w k a (suc t)) (run w k b (suc t + a)))
    ∙ ap (λ (y : ℕ). round w t k s >>= run w k a (suc t) >>= run w k b y) (omega arith)

-- The loop starts in supervisor mode at the given address, with the number of the hart in a0, the
-- parameter in a1 and zero in every other register, on a hart that is recorded as started.
pub execute_supervisor_enters :
    (w : World) (rounds pc k o : ℕ) (m : Machine)
    → (s : State) × (execute_supervisor w rounds pc k o m ≡ run w k rounds 0 s)
      × (s.0.mepc ≡ pc)
      × (s.0.regs a0 ≡ k)
      × (s.0.regs a1 ≡ o)
      × ((i : ℕ) → i ≢ a0 → i ≢ a1 → s.0.regs i ≡ 0)
      × (s.0.mstatus.mpp ≡ Mpp.supervisor)
      × (s.0.mstatus ≡ s.1.csr.mstatus)
      × (s.1.hsm.state m.hart_id ≡ some (code started))
unfolding execute_supervisor new_sbi_supervisor record_current_start_finished
execute_supervisor_enters w rounds pc k o m =
    (_, refl, refl, refl, refl, (λ i p q. ground arith), refl, refl, ground arith)

wait_msoft-ne-panicked : (env : Env) (fuel i : ℕ) (m : Machine) → wait_msoft env fuel i m ≢ panicked
unfolding wait_msoft
wait_msoft-ne-panicked env zero i m = ground arith
wait_msoft-ne-panicked env (suc fuel) i m =
    ground (arith, wait_msoft-ne-panicked env fuel (suc i) (env i m))

pause-ne-panicked : (env : Env) (fuel : ℕ) (m : Machine) → pause env fuel m ≢ panicked
unfolding pause
pause-ne-panicked env fuel m = ground (arith, wait_msoft-ne-panicked env fuel 0 (listen m))

-- A machine software interrupt panics exactly when the hart has a command to start, or has none and
-- the trap came from machine mode.
pub soft_panics_iff :
    (env : Env) (fuel k : ℕ) (ctx : SupervisorContext) (m : Machine)
    → (handle_machine_soft env fuel k (ctx, m) ≡ panicked) ↔ (
        IsStart (m.hsm.last_command m.hart_id)
        ⊎ ((m.hsm.last_command m.hart_id ≡ none) × (ctx.mstatus.mpp ≡ Mpp.machine)))
unfolding handle_machine_soft last_command should_transfer_trap
soft_panics_iff env fuel k ctx m =
    ground (arith, pause-ne-panicked env fuel (record_current_stop_finished m))

-- A 32-bit instruction is an `rdtime` into some register, or into none.
rdtime-cases :
    (ins : ℕ) → ((rd : ℕ) × (rd < 32) × (ins ≡ rdtime rd)) ⊎ ((rd : ℕ) → rd < 32 → ins ≢ rdtime rd)
rdtime-cases ins = elim (ℕ_discrete ins (rdtime (ins / 2 ^ 7 % 32))) [
  | yes e ↦ inl (ins / 2 ^ 7 % 32, omega arith, e)
  | no n ↦ inr (λ rd h e. n (omega arith))
]

module _ (fetch : ℕ → ℕ) (ctx : SupervisorContext) (m : Machine) where
  illegal_rdtime :
      (rd : ℕ)
      → rd < 32
      → fetch ctx.mepc ≡ rdtime rd
      → handle_illegal_instruction fetch (ctx, m) ≢ panicked
  unfolding handle_illegal_instruction
  illegal_rdtime rd h e = ground (arith, e, emulate_rdtime-written ctx rd m h)

  illegal_other :
      fetch ctx.mepc < 2 ^ 32
      → ((rd : ℕ) → rd < 32 → fetch ctx.mepc ≢ rdtime rd)
      → (handle_illegal_instruction fetch (ctx, m) ≡ panicked) ↔ (ctx.mstatus.mpp ≡ Mpp.machine)
  unfolding handle_illegal_instruction should_transfer_trap
  illegal_other h n = ground (arith, emulate_rdtime_other ctx (fetch ctx.mepc) m h n)

  -- A 32-bit illegal instruction panics exactly when it is not an `rdtime` and came from machine mode.
  pub illegal_panics_iff :
      fetch ctx.mepc < 2 ^ 32
      → (handle_illegal_instruction fetch (ctx, m) ≡ panicked)
        ↔ (((rd : ℕ) → rd < 32 → fetch ctx.mepc ≢ rdtime rd) × (ctx.mstatus.mpp ≡ Mpp.machine))
  illegal_panics_iff h = elim (rdtime-cases (fetch ctx.mepc)) [
    | inl (rd, l, e) ↦ (λ p. absurd (illegal_rdtime rd l e p), λ (n, _). absurd (n rd l e))
    | inr n ↦ (λ p. (n, (illegal_other h n).0 p), λ (_, q). (illegal_other h n).1 q)
  ]
