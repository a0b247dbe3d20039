-- ===== src/Boot/Memory.antt =====
-- main.rs: what the calls of `rust_main` do to memory on hart 0 before the supervisor is entered. What
-- compiled code keeps on the stack of the hart is not part of it.
pub mod Kept
use rustsbi_hifive_unmatched.Base.{ℕ, ◌+◌, ◌-◌, ◌*◌, leb, ltb, ◌&&◌, Bool, if◌then◌else◌}
use rustsbi_hifive_unmatched.Uart.{Uart}
use rustsbi_hifive_unmatched.Boot.{kernel_address}

-- Memory, by bytes.
abbrev pub Memory : Type 0
Memory = ℕ → ℕ

-- What the linker places, and the length of the kernel.
pub record Sections : Type 0 where
  pub sbss : ℕ
  pub ebss : ℕ
  pub sdata : ℕ
  pub edata : ℕ
  pub sidata : ℕ
  pub heap_space : ℕ
  pub heap_allocator : ℕ
  pub kernel : ℕ
  pub kernel_len : ℕ

-- What is used of the crates `r0`, `buddy_system_allocator` and `rustsbi`: their functions, the size of
-- a `LockedHeap`, and where `rustsbi` keeps the console that it was given.
pub record Crates : Type 0 where
  pub zero_bss : (sbss ebss : ℕ) → Memory → Memory
  pub init_data : (sdata edata sidata : ℕ) → Memory → Memory
  pub heap_init : (self start size : ℕ) → Memory → Memory
  pub init_legacy_stdio : Uart → Memory → Memory
  pub locked_heap_size : ℕ
  pub stdio : ℕ
  pub stdio_end : ℕ

abbrev pub sbi_heap_size : ℕ
sbi_heap_size = 64 * 1024

unfoldable pub init_bss : Crates → Sections → Memory → Memory
init_bss r at mem = r.init_data at.sdata at.edata at.sidata (r.zero_bss at.sbss at.ebss mem)

unfoldable pub init_heap : Crates → Sections → Memory → Memory
init_heap r at mem = r.heap_init at.heap_allocator at.heap_space sbi_heap_size mem

-- The console is kept in a box, which is taken from the heap.
unfoldable pub init_rustsbi_stdio : Crates → Uart → Memory → Memory
init_rustsbi_stdio r uart mem = r.init_legacy_stdio uart mem

-- `core::ptr::copy(src, dst, len)`, as if through a buffer.
unfoldable pub copy : (src dst len : ℕ) → Memory → Memory
copy src dst len mem a = if leb dst a && ltb a (dst + len) then mem (src + (a - dst)) else mem a

-- The part of `rust_main` for hart 0, up to the first text on the console.
unfoldable pub prepare_memory : Crates → Sections → Uart → Memory → Memory
unfolding init_bss init_heap init_rustsbi_stdio copy
prepare_memory r at uart mem =
    copy at.kernel kernel_address at.kernel_len
      (init_rustsbi_stdio r uart (init_heap r at (init_bss r at mem)))
