-- ===== src/Clint/Registers.antt =====
-- clint.rs: which device register each access goes to.
use rustsbi_hifive_unmatched.Base.{ℕ, ◌≡◌, ◌≢◌, ◌<◌, arith}
use rustsbi_hifive_unmatched.Clint.{
  Clint, Mmio, msip_address, mtimecmp_address, send_soft, clear_soft, set_timer, get_mtime,
}

-- A software interrupt that is sent to one hart is pending there, and clearing it gives back what
-- every other register of the device holds.
pub msip-send_soft :
    (c : Clint) (i j : ℕ) (m : Mmio)
    → (send_soft c i m (msip_address c i) ≡ 1)
      × (clear_soft c i (send_soft c i m) (msip_address c i) ≡ 0)
      × (i ≢ j → send_soft c i m (msip_address c j) ≡ m (msip_address c j))
      × (i ≢ j → clear_soft c i (send_soft c i m) (msip_address c j) ≡ m (msip_address c j))
unfolding send_soft clear_soft
msip-send_soft c i j m = ground arith

-- Below 4096 harts (4095 for the clock), arming the timer of one hart touches neither an interrupt
-- bit, nor the clock, nor the timer of another hart.
pub set_timer_frame :
    (c : Clint) (i j t : ℕ) (m : Mmio)
    → i < 4095
    → j < 4096
    → (set_timer c i t m (mtimecmp_address c i) ≡ t)
      × (set_timer c i t m (msip_address c j) ≡ m (msip_address c j))
      × (get_mtime c (set_timer c i t m) ≡ get_mtime c m)
      × (i ≢ j → set_timer c i t m (mtimecmp_address c j) ≡ m (mtimecmp_address c j))
unfolding set_timer get_mtime
set_timer_frame c i j t m hi hj = ground arith
