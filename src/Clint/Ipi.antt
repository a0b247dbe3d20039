-- ===== src/Clint/Ipi.antt =====
-- clint.rs: inter-processor interrupts to the harts of a mask.
use rustsbi_hifive_unmatched.Base.{ℕ, ◌≡◌, Bool, arith, leb, ◌&&◌, if◌then◌else◌}
use rustsbi_hifive_unmatched.Sbi.{Sbi}
use rustsbi_hifive_unmatched.Clint.{
  Clint, Mmio, msip_address, send_ipi_many, send_loop, max_hart_id,
}

-- `send_ipi_many` always succeeds; it raises the interrupt of every hart of the mask that the
-- board has, and leaves those of all others.
pub msip-send_ipi_many :
    (sbi : Sbi) (c : Clint) (has_bit : ℕ → Bool) (j : ℕ) (m : Mmio)
    → ((send_ipi_many sbi c has_bit m).1 ≡ sbi.ok 0)
      × ((send_ipi_many sbi c has_bit m).0 (msip_address c j)
          ≡ (if leb j max_hart_id && has_bit j then 1 else m (msip_address c j)))
unfolding send_ipi_many send_loop
msip-send_ipi_many sbi c has_bit j m = ground arith
