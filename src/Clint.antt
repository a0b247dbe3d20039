-- ===== src/Clint.antt =====
-- rustsbi-jh7100/src/peripheral/clint.rs: the core-local interruptor. A volatile access of a device
-- register is a read or write of the map from its address to its value; the registers do not
-- overlap (four bytes for an interrupt bit, eight for a timer).
pub mod Registers
pub mod Ipi
use rustsbi_hifive_unmatched.Base.{ℕ, zero, suc, ◌+◌, ◌*◌, ◌-◌, Bool, update, if◌then◌else◌}
use rustsbi_hifive_unmatched.Sbi.{Sbi, SbiRet}

pub record Clint : Type 0 where
  pub base : ℕ

abbrev pub Mmio : Type 0
Mmio = ℕ → ℕ

abbrev pub new : ℕ → Clint
new base = record { base = base }

-- `self.base.offset(0xbff8)`
abbrev pub mtime_address : Clint → ℕ
mtime_address c = c.base + 0xbff8

-- `(self.base.offset(0x4000) as *mut u64).add(hart_id)`
abbrev pub mtimecmp_address : Clint → ℕ → ℕ
mtimecmp_address c hart_id = c.base + 0x4000 + 8 * hart_id

-- `(self.base as *mut u32).add(hart_id)`. The pointer may not leave the address space, which it does
-- from 2 ^ 62 harts on: such a call has no meaning in the source, and its address here lies beyond
-- all.
abbrev pub msip_address : Clint → ℕ → ℕ
msip_address c hart_id = c.base + 4 * hart_id

unfoldable pub get_mtime : Clint → Mmio → ℕ
get_mtime c m = m (mtime_address c)

unfoldable pub set_timer : Clint → ℕ → ℕ → Mmio → Mmio
set_timer c hart_id instant m = update m (mtimecmp_address c hart_id) instant

unfoldable pub send_soft : Clint → ℕ → Mmio → Mmio
send_soft c hart_id m = update m (msip_address c hart_id) 1

unfoldable pub clear_soft : Clint → ℕ → Mmio → Mmio
clear_soft c hart_id m = update m (msip_address c hart_id) 0

-- `rustsbi::Ipi for Clint`
abbrev pub max_hart_id : ℕ
max_hart_id = 1

-- `for i in 0..=max`, from `i` on with `left` rounds left. `has_bit` is the crate's
-- `HartMask::has_bit`.
unfoldable pub send_loop : Clint → (ℕ → Bool) → ℕ → ℕ → Mmio → Mmio
unfolding send_soft
send_loop c has_bit zero i m = m
send_loop c has_bit (suc left) i m =
    send_loop c has_bit left (i + 1) (if has_bit i then send_soft c i m else m)

unfoldable pub send_ipi_many : Sbi → Clint → (ℕ → Bool) → Mmio → Mmio × SbiRet
send_ipi_many sbi c has_bit m = (send_loop c has_bit (max_hart_id + 1) 0 m, sbi.ok 0)

-- `rustsbi::Timer for Clint`: the timer of the hart that runs.
unfoldable pub set_timer_current : Clint → ℕ → ℕ → Mmio → Mmio
set_timer_current c this_mhartid time_value m = set_timer c this_mhartid time_value m
