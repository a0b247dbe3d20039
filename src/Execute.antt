-- ===== src/Execute.antt =====
-- rustsbi-jh7100/src/execute.rs: the loop that runs the supervisor and handles its traps.
pub mod Calls
pub mod Soft
pub mod Persist
pub mod Loop
pub mod Fetch
pub mod Board
use rustsbi_hifive_unmatched.Base.{
  ℕ, zero, suc, ◌+◌, ◌==◌, if◌then◌else◌, Bool, true, false, Option, some, none, Outcome, ok,
  panicked, ◌>>=◌,
}
use rustsbi_hifive_unmatched.Csr.{
  Exception, illegal_instruction, Interrupt, supervisor_soft, Trap, exception, interrupt,
}
use rustsbi_hifive_unmatched.Clint
use rustsbi_hifive_unmatched.Sbi.{SbiRet}
use rustsbi_hifive_unmatched.Machine.{Machine}
use rustsbi_hifive_unmatched.Hsm.Data.{HsmCommand, start, stop}
use rustsbi_hifive_unmatched.Hsm.Calls.{
  Env, last_command, pause, record_current_start_finished, record_current_stop_finished,
}
use rustsbi_hifive_unmatched.Context.{
  SupervisorContext, a0, a1, a6, a7, set_reg, MachineTrap, sbi_call, illegal, machine_timer_trap,
  machine_soft_trap, new_sbi_supervisor, trap_of,
}
use rustsbi_hifive_unmatched.Feature.{
  emulate_rdtime, next_instruction, should_transfer_trap, do_transfer_trap,
}

-- `rustsbi::ecall`: the extension, the function and the words that hold the parameters a0 to a5.
abbrev pub Ecall : Type 0
Ecall = ℕ → ℕ → (ℕ → ℕ) → Machine → Outcome (Machine × SbiRet)

abbrev pub State : Type 0
State = SupervisorContext × Machine

-- The hart goes on in supervisor mode at `start_paddr`, with address translation and supervisor
-- interrupts off, its number in a0 and `opaque` in a1.
unfoldable pub start_at : ℕ → ℕ → ℕ → State → State
unfolding record_current_start_finished
start_at hart_id start_paddr opaque (ctx, m) =
    let status = record (m.csr.mstatus) { sie = false } in
    let m' = record m { csr = record (m.csr) { satp = 0; mstatus = status } } in
    let ctx' = set_reg a1 opaque (set_reg a0 hart_id ctx) in
    (record ctx' { mstatus = status; mepc = start_paddr }, record_current_start_finished m')

-- `if let Some(HsmCommand::Start(start_paddr, opaque)) = hsm.last_command()`
unfoldable pub start_if_told : ℕ → State → State
unfolding last_command start_at
start_if_told hart_id (ctx, m) = elim (last_command m) [
  | none ↦ (ctx, m)
  | some c ↦ elim c [
    | start start_paddr opaque ↦ start_at hart_id start_paddr opaque (ctx, m)
    | stop ↦ (ctx, m)
  ]
]

unfoldable pub handle_sbi_call : Ecall → ℕ → State → Outcome State
handle_sbi_call ecall hart_id (ctx, m) =
    ecall (ctx.regs a7) (ctx.regs a6) (λ i. ctx.regs (a0 + i)) m >>= λ (m', ans).
    if ans.error == 0x233
    then ok (start_if_told hart_id (ctx, m'))
    else ok (
      record (set_reg a1 ans.value (set_reg a0 ans.error ctx)) { mepc = next_instruction ctx.mepc },
      m',
    )

abbrev pub emulate_illegal_instruction :
    SupervisorContext → ℕ → Machine → Outcome (SupervisorContext × Bool)
emulate_illegal_instruction ctx ins m = emulate_rdtime ctx ins m >>= λ (ctx', emulated).
    if emulated then ok (ctx', true) else ok (ctx', false)

abbrev pub fail_illegal_instruction : Outcome State
fail_illegal_instruction = panicked

-- `fetch` is the word of memory at an address, read with the translation of the supervisor.
unfoldable pub handle_illegal_instruction : (ℕ → ℕ) → State → Outcome State
handle_illegal_instruction fetch (ctx, m) =
    emulate_illegal_instruction ctx (fetch ctx.mepc) m >>= λ (ctx', emulated).
    if emulated
    then ok (ctx', m)
    else if should_transfer_trap ctx'
    then ok (do_transfer_trap ctx' (exception illegal_instruction) m)
    else fail_illegal_instruction

unfoldable pub handle_machine_timer : State → State
handle_machine_timer (ctx, m) =
    (ctx, record m { csr = record (m.csr) { mip_stimer = true; mie_mtimer = false } })

unfoldable pub handle_machine_soft : Env → ℕ → ℕ → State → Outcome State
handle_machine_soft env fuel hart_id (ctx, m) = elim (last_command m) [
  | none ↦
      let m' = record m { mmio = Clint.clear_soft (Clint.new 0x2000000) hart_id m.mmio } in
      if should_transfer_trap ctx
      then ok (do_transfer_trap ctx (interrupt supervisor_soft) m')
      else panicked
  | some c ↦ elim c [
    | start start_paddr opaque ↦ panicked
    | stop ↦ pause env fuel (record_current_stop_finished m) >>= λ m'.
        ok (start_if_told hart_id (ctx, m'))
  ]
]

-- What the code takes from elsewhere: the SBI implementation, memory, the rest of the board during
-- the `t`th trap, and the supervisor, which runs on a context until it traps.
pub record World : Type 0 where
  pub ecall : Ecall
  pub fetch : ℕ → ℕ
  pub env : ℕ → Env
  pub fuel : ℕ
  pub supervisor : State → State

-- One round of the loop: `Runtime::resume`, then the handler of the trap.
unfoldable pub handle : World → ℕ → ℕ → MachineTrap → State → Outcome State
handle w t hart_id sbi_call s = handle_sbi_call w.ecall hart_id s
handle w t hart_id illegal s = handle_illegal_instruction w.fetch s
handle w t hart_id machine_timer_trap s = ok (handle_machine_timer s)
handle w t hart_id machine_soft_trap s = handle_machine_soft (w.env t) w.fuel hart_id s

unfoldable pub round : World → ℕ → ℕ → State → Outcome State
round w t hart_id s =
    let s' = w.supervisor s in trap_of s'.1.csr.mcause >>= λ trap. handle w t hart_id trap s'

-- The loop never ends by itself; these are its first `rounds` rounds, from the `t`th trap on.
unfoldable pub run : World → ℕ → ℕ → ℕ → State → Outcome State
run w hart_id zero t s = ok s
run w hart_id (suc rounds) t s = round w t hart_id s >>= run w hart_id rounds (suc t)

unfoldable pub execute_supervisor : World → ℕ → ℕ → ℕ → ℕ → Machine → Outcome State
execute_supervisor w rounds supervisor_mepc hart_id opaque m =
    let (ctx, m') = new_sbi_supervisor supervisor_mepc hart_id opaque m in
    run w hart_id rounds 0 (ctx, record_current_start_finished m')
