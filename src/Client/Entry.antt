-- ===== src/Client/Entry.antt =====
-- test-kernel/src/main.rs: the stacks of the test kernel.
use rustsbi_hifive_unmatched.Stacks.{entry_loop, entry_loop-sum}
use rustsbi_hifive_unmatched.Base.{ℕ, ◌+◌, ◌*◌, ◌^◌, ◌≤◌, ◌<◌, ◌≢◌, ◌⊎◌, arith}

abbrev pub per_hart_stack_size : ℕ
per_hart_stack_size = 0x10000

abbrev pub boot_stack_size : ℕ
boot_stack_size = per_hart_stack_size * 2

-- The stack pointer with which `rust_main` is entered, where a0 holds the number of the hart.
unfoldable pub entry : (boot_stack a0 : ℕ) → ℕ
entry boot_stack a0 = entry_loop per_hart_stack_size a0 boot_stack

-- A hart of the test kernel is given a stack of its own in the memory that is set aside.
pub entry_disjoint :
    (boot_stack i j : ℕ)
    → boot_stack + boot_stack_size < 2 ^ 64
    → i < 2
    → j < 2
    → (boot_stack + per_hart_stack_size ≤ entry boot_stack i)
      × (entry boot_stack i ≤ boot_stack + boot_stack_size)
      × (i ≢ j
          → (entry boot_stack i + per_hart_stack_size ≤ entry boot_stack j)
            ⊎ (entry boot_stack j + per_hart_stack_size ≤ entry boot_stack i))
unfolding entry
entry_disjoint b i j h hi hj =
    ground (arith, entry_loop-sum per_hart_stack_size i b, entry_loop-sum per_hart_stack_size j b)
