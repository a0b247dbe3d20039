-- ===== src/Execute/Soft.antt =====
-- execute.rs: machine software interrupts, by the command that the hart finds.
use rustsbi_hifive_unmatched.Base.{
  ℕ, zero, refl, suc, ◌<◌, ◌≡◌, some, none, true, false, Outcome, ok, waiting, panicked, ◌>>=◌,
  arith, ◌∙◌, ap, if◌then◌else◌,
}
use rustsbi_hifive_unmatched.Csr.{supervisor_soft, interrupt}
use rustsbi_hifive_unmatched.Clint.{clear_soft}
use rustsbi_hifive_unmatched.Machine.{Machine}
use rustsbi_hifive_unmatched.Hsm.Data.{start, stop, started, stopped, code, set_state}
use rustsbi_hifive_unmatched.Hsm.Calls.{
  clint, Env, last_command, listen, pause, wait_msoft, record_current_start_finished,
  record_current_stop_finished,
}
use rustsbi_hifive_unmatched.Hsm.Wait.{after, Woken}
use rustsbi_hifive_unmatched.Hsm.Sleep.{IsEnv, Restored}
use rustsbi_hifive_unmatched.Hsm.Suspend.{pause_returns}
use rustsbi_hifive_unmatched.Context.{SupervisorContext, a0, a1}
use rustsbi_hifive_unmatched.Feature.{do_transfer_trap, should_transfer_trap}
use rustsbi_hifive_unmatched.Execute.{State, start_at, start_if_told, handle_machine_soft}

-- A supervisor that goes on where a command to start says: at the address, with the number of the
-- hart and the parameter, without translation and interrupts, on a hart that is recorded as started.
pub record StartedAt (hart_id start_paddr opaque : ℕ) (s : State) : Type 0 where
  pub pc : s.0.mepc ≡ start_paddr
  pub number : s.0.regs a0 ≡ hart_id
  pub parameter : s.0.regs a1 ≡ opaque
  pub translation : s.1.csr.satp ≡ 0
  pub interrupts : s.1.csr.mstatus.sie ≡ false
  pub status : s.0.mstatus ≡ s.1.csr.mstatus
  pub recorded : s.1.hsm.state s.1.hart_id ≡ some (code started)

pub start_at-StartedAt : (k a o : ℕ) (s : State) → StartedAt k a o (start_at k a o s)
unfolding start_at
start_at-StartedAt k a o (ctx, m) = ground arith

pub start_if_told-StartedAt :
    (k a o : ℕ) (ctx : SupervisorContext) (m : Machine)
    → m.hsm.last_command m.hart_id ≡ some (start a o)
    → StartedAt k a o (start_if_told k (ctx, m))
unfolding start_if_told
start_if_told-StartedAt k a o ctx m h = ground arith

pub start_if_told-hart_id :
    (k a o : ℕ) (ctx : SupervisorContext) (m : Machine)
    → m.hsm.last_command m.hart_id ≡ some (start a o)
    → (start_if_told k (ctx, m)).1.hart_id ≡ m.hart_id
unfolding start_if_told start_at record_current_start_finished
start_if_told-hart_id k a o ctx m h = ground arith

pub start_if_told-hsm :
    (k a o : ℕ) (ctx : SupervisorContext) (m : Machine)
    → m.hsm.last_command m.hart_id ≡ some (start a o)
    → (start_if_told k (ctx, m)).1.hsm ≡ set_state m.hart_id started m.hsm
unfolding start_if_told start_at
start_if_told-hsm k a o ctx m h = ground arith

start_if_told_stop :
    (k : ℕ) (ctx : SupervisorContext) (m : Machine)
    → m.hsm.last_command m.hart_id ≡ some stop
    → start_if_told k (ctx, m) ≡ (ctx, m)
unfolding start_if_told
start_if_told_stop k ctx m h = ground arith

-- The machine on which a stopped hart waits.
abbrev pub halted : Machine → Machine
halted m = listen (record_current_stop_finished m)

go_on : ℕ → SupervisorContext → Machine → Outcome State
go_on k ctx m = ok (start_if_told k (ctx, m))

soft_stop_pauses :
    (env : Env) (fuel k : ℕ) (ctx : SupervisorContext) (m : Machine)
    → m.hsm.last_command m.hart_id ≡ some stop
    → handle_machine_soft env fuel k (ctx, m)
      ≡ (pause env fuel (record_current_stop_finished m) >>= go_on k ctx)
unfolding handle_machine_soft last_command go_on
soft_stop_pauses env fuel k ctx m h = rw (h, handle_machine_soft)

after-hsm :
    (env : Env)
    → ((i : ℕ) (w : Machine) → (env i w).hsm ≡ w.hsm)
    → (n i : ℕ) (m : Machine) → (after env i n m).hsm ≡ m.hsm
after-hsm env still zero i m = refl
after-hsm env still (suc n) i m = after-hsm env still n (suc i) (env i m) ∙ still i m

-- A hart that stops and is not woken within the fuel waits on.
pub stop_waits :
    (env : Env) (fuel k : ℕ) (ctx : SupervisorContext) (m : Machine)
    → m.hsm.last_command m.hart_id ≡ some stop
    → wait_msoft env fuel 0 (halted m) ≡ waiting
    → handle_machine_soft env fuel k (ctx, m) ≡ waiting
unfolding pause
stop_waits env fuel k ctx m h w = soft_stop_pauses env fuel k ctx m h ∙ rw w

module _ {env : Env} {n fuel : ℕ} (e : IsEnv env) (f : n < fuel) (k : ℕ) (ctx : SupervisorContext)
    (m : Machine) (h : m.hsm.last_command m.hart_id ≡ some stop)
    (r : (after env 0 (suc n) (halted m)).csr.mip_msoft ≡ true) where
  -- What a hart that stops, and is woken within the fuel, comes to: the shared state is as the
  -- others have left it at the end of the pause.
  pub stop_returns :
      (w w₀ : Machine) × (handle_machine_soft env fuel k (ctx, m) ≡ ok (start_if_told k (ctx, w)))
      × Woken env 0 n (halted m) w₀
      × Restored m w
      × (w.hsm ≡ w₀.hsm)
  unfolding record_current_stop_finished go_on
  stop_returns =
      let (w, w₀, q, woken, restored, same) =
        pause_returns e f (record_current_stop_finished m) r in
      (
        w,
        w₀,
        soft_stop_pauses env fuel k ctx m h ∙ ap (λ (x : Outcome Machine). x >>= go_on k ctx) q,
        woken,
        record { hart = restored.hart; listening = restored.listening; cleared = restored.cleared },
        same,
      )

  -- A hart that finds the command to stop, in a surrounding that wakes it within the fuel and has
  -- stored a command to start for it by then, goes on as that command says.
  pub stop_then_start :
      (a o : ℕ)
      → ((w : Machine)
          → Woken env 0 n (halted m) w
          → w.hsm.last_command m.hart_id ≡ some (start a o))
      → (s : State) × (handle_machine_soft env fuel k (ctx, m) ≡ ok s) × StartedAt k a o s
  stop_then_start a o told =
      let (w, w₀, q, woken, restored, same) = stop_returns in
      (
        start_if_told k (ctx, w),
        q,
        start_if_told-StartedAt k a o ctx w (ground (arith, told w₀ woken, same, restored.hart)),
      )

  -- A hart that finds the command to stop, and is woken within the fuel by an interrupt while nobody
  -- touches the monitor, goes on with the supervisor where it was: its registers and its program
  -- counter are those of the trap, and it is recorded as stopped from then on, with the command still
  -- in place.
  pub stop_then_wake :
      ((i : ℕ) (w : Machine) → (env i w).hsm ≡ w.hsm)
      → (m' : Machine) × (handle_machine_soft env fuel k (ctx, m) ≡ ok (ctx, m'))
        × (m'.hsm.state m.hart_id ≡ some (code stopped))
        × (m'.hsm.last_command m.hart_id ≡ some stop)
  unfolding record_current_stop_finished
  stop_then_wake still =
      let (w, w₀, q, woken, restored, same) = stop_returns in
      let kept : w.hsm ≡ (halted m).hsm =
        same
        ∙ ap (λ (v : Machine). v.hsm) woken.reached
        ∙ after-hsm env still (suc woken.rounds) 0 (halted m) in
      (
        w,
        q ∙ ap ok (start_if_told_stop k ctx w (ground (arith, kept, h, restored.hart))),
        ap (λ g. g.state m.hart_id) kept ∙ ground arith,
        ap (λ g. g.last_command m.hart_id) kept ∙ h,
      )

-- Without a command the interrupt is cleared and handed on to the supervisor as a supervisor
-- software interrupt, unless the trap came from machine mode.
pub soft_delegated :
    (env : Env) (fuel k : ℕ) (ctx : SupervisorContext) (m : Machine)
    → m.hsm.last_command m.hart_id ≡ none
    → handle_machine_soft env fuel k (ctx, m) ≡ (
        if should_transfer_trap ctx
        then ok (
            do_transfer_trap ctx
              (interrupt supervisor_soft)
              (record m { mmio = clear_soft clint k m.mmio }))
        else panicked)
unfolding handle_machine_soft last_command
soft_delegated env fuel k ctx m h = rw (h, handle_machine_soft)

-- With a command to start it panics.
pub soft_started :
    (env : Env) (fuel k a o : ℕ) (ctx : SupervisorContext) (m : Machine)
    → m.hsm.last_command m.hart_id ≡ some (start a o)
    → handle_machine_soft env fuel k (ctx, m) ≡ panicked
unfolding handle_machine_soft last_command
soft_started env fuel k a o ctx m h = rw (h, handle_machine_soft)
