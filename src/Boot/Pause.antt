-- ===== src/Boot/Pause.antt =====
-- main.rs: its own `pause`, which no code calls, against the one of hsm.rs.
use rustsbi_hifive_unmatched.Base.{ℕ, true, false, ◌≡◌, refl, if◌then◌else◌, Outcome, ok, ◌>>=◌}
use rustsbi_hifive_unmatched.Clint.{Clint, clear_soft}
use rustsbi_hifive_unmatched.Machine.{Machine}
use rustsbi_hifive_unmatched.Hsm.Calls.{Env, wait_msoft, clint}
use rustsbi_hifive_unmatched.Hsm.Calls

unfoldable pub pause : Clint → Env → ℕ → Machine → Outcome Machine
pause c env fuel m =
    let hartid = m.hart_id in
    let prev_msoft = m.csr.mie_msoft in
    let m₁ = record m {
      mmio = clear_soft c hartid m.mmio;
      csr = record (m.csr) { mip_msoft = false; mie_msoft = true };
    } in
    wait_msoft env fuel 0 m₁ >>= λ m₂.
    let m₃ = if prev_msoft then m₂ else record m₂ { csr = record (m₂.csr) { mie_msoft = false } } in
    ok (record m₃ { mmio = clear_soft c hartid m₃.mmio })

-- At the address of the board's interruptor, the two do the same.
pub pause-eq :
    (env : Env) (fuel : ℕ) (m : Machine) → pause clint env fuel m ≡ Calls.pause env fuel m
unfolding pause Calls.pause
pause-eq env fuel m = refl
