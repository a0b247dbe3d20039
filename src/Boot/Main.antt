-- ===== src/Boot/Main.antt =====
-- main.rs: `rust_main` on the harts that wait for a command.
use rustsbi_hifive_unmatched.Base.{ℕ, suc, ◌<◌, ◌≡◌, ◌≢◌, refl, some, true, ok, arith, ap, Outcome}
use rustsbi_hifive_unmatched.Machine.{Machine}
use rustsbi_hifive_unmatched.Pmp.{set_pmp}
use rustsbi_hifive_unmatched.Hsm.Data.{started, code}
use rustsbi_hifive_unmatched.Hsm.Calls.{Env, listen, pause, record_current_start_finished}
use rustsbi_hifive_unmatched.Hsm.Wait.{after, Woken}
use rustsbi_hifive_unmatched.Hsm.Sleep.{IsEnv}
use rustsbi_hifive_unmatched.Hsm.Suspend.{pause_returns}
use rustsbi_hifive_unmatched.Context.{a0, a1, new_sbi_supervisor}
use rustsbi_hifive_unmatched.Execute.{State, World, run, execute_supervisor}
use rustsbi_hifive_unmatched.Boot.{
  Layout, Boot, early_trap_init, runtime_init, delegate_interrupt_exception, kernel_address,
  prepare, rust_main,
}

-- What stands behind `pause`.
abbrev launch : Layout → World → ℕ → ℕ → Boot → Machine → Outcome State
launch at w rounds k b m = execute_supervisor w rounds kernel_address k at.device_tree (
    (delegate_interrupt_exception
      (record (early_trap_init at k b) { machine = m; pmp = set_pmp })).machine)

rust_main-pause :
    (at : Layout) (env : Env) (w : World) (rounds k : ℕ) (b : Boot) (m : Machine)
    → k ≢ 0
    → pause env w.fuel b.machine ≡ ok m
    → rust_main at env w rounds k b ≡ launch at w rounds k b m
unfolding rust_main prepare early_trap_init runtime_init
rust_main-pause at env w rounds k b m ne h = ground (arith, h)

-- A hart other than 0, woken within the fuel by a board that leaves its number and its enable bit
-- alone: it enters the supervisor at 0x80200000 with the device tree in a1, recorded as started,
-- whichever command was stored for it in the meantime; the commands are those that the others left
-- when it woke.
pub rust_main_secondary :
    {env : Env} {n : ℕ} (at : Layout) (w : World) (rounds k : ℕ) (b : Boot)
    → IsEnv env
    → n < w.fuel
    → k ≢ 0
    → b.machine.hart_id ≡ k
    → (after env 0 (suc n) (listen b.machine)).csr.mip_msoft ≡ true
    → (s : State) × (v : Machine) × (rust_main at env w rounds k b ≡ run w k rounds 0 s)
      × (s.0.mepc ≡ kernel_address)
      × (s.0.regs a0 ≡ k)
      × (s.0.regs a1 ≡ at.device_tree)
      × (s.1.hsm.state k ≡ some (code started))
      × Woken env 0 n (listen b.machine) v
      × (s.1.hsm.last_command ≡ v.hsm.last_command)
unfolding execute_supervisor new_sbi_supervisor record_current_start_finished
    delegate_interrupt_exception
rust_main_secondary at w rounds k b e h ne i r =
    let (m, v, q, woken, restored, shared) = pause_returns e h b.machine r in
    (
      _,
      v,
      rust_main-pause at _ w rounds k b m ne q,
      refl,
      refl,
      refl,
      ground (arith, restored.hart, i),
      woken,
      ap (λ g. g.last_command) shared,
    )
