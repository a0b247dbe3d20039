-- ===== src/Boot/Stacks.antt =====
-- main.rs and early_trap.rs: the stacks of the harts, and the alignment of the trap entries.
use rustsbi_hifive_unmatched.Stacks.{entry_loop-sum}
use rustsbi_hifive_unmatched.Base.{
  ℕ, ◌+◌, ◌*◌, ◌/◌, ◌%◌, ◌^◌, ◌≤◌, ◌<◌, ◌≡◌, ◌≢◌, ◌⊎◌, bit_and, arith,
}
use rustsbi_hifive_unmatched.Bits.{bit_and_split, bit_and_low_field, bit_and-zero}
use rustsbi_hifive_unmatched.Boot.{
  Layout, Boot, entry, align_entry, early_trap_init, per_hart_stack_size, sbi_stack_size,
}

-- A hart of the board enters `rust_main` with its stack pointer at the end of a stack of its own: the
-- stacks of two harts do not overlap, both lie in the memory that is set aside, and the scratch
-- register for early traps holds the same address. That memory ends below the end of the addresses.
pub entry_stacks :
    (at : Layout) (i j : ℕ) (b : Boot)
    → at.sbi_stack + sbi_stack_size < 2 ^ 64
    → i < 2
    → j < 2
    → (entry at i ≡ at.sbi_stack + (i + 1) * per_hart_stack_size)
      × (entry at i ≤ at.sbi_stack + sbi_stack_size)
      × ((early_trap_init at i b).mscratch ≡ entry at i)
      × (i ≢ j
          → (entry at i + per_hart_stack_size ≤ entry at j)
            ⊎ (entry at j + per_hart_stack_size ≤ entry at i))
unfolding entry early_trap_init
entry_stacks at i j b h hi hj = ground (
  arith,
  entry_loop-sum per_hart_stack_size i at.sbi_stack,
  entry_loop-sum per_hart_stack_size j at.sbi_stack,
)

bit_and-two : (n : ℕ) → bit_and n 2 ≡ n / 2 % 2 * 2
bit_and-two n = ground (
  arith,
  bit_and_split 1 (n / 2) (n % 2) 1 0,
  bit_and_low_field 1 (n / 2 / 2) (n / 2 % 2),
  bit_and-zero (n % 2),
)

-- The entry of a trap handler, which lies at an even address, is moved up to a multiple of four.
pub align_entry-aligned :
    (addr : ℕ)
    → addr % 2 ≡ 0
    → (align_entry addr % 4 ≡ 0) × (addr ≤ align_entry addr) × (align_entry addr < addr + 4)
unfolding align_entry
align_entry-aligned addr h = ground (arith, bit_and-two addr)
