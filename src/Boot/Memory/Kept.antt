-- ===== src/Boot/Memory/Kept.antt =====
-- main.rs: which memory the start of hart 0 changes, and what the supervisor finds at its entry.
use rustsbi_hifive_unmatched.Base.{ℕ, ◌+◌, ◌-◌, ◌≤◌, ◌<◌, ◌≡◌, ◌⊎◌, inl, inr, arith, ◌∙◌, ap}
use rustsbi_hifive_unmatched.Uart.{Uart}
use rustsbi_hifive_unmatched.Boot.{kernel_address}
use rustsbi_hifive_unmatched.Boot.Memory.{
  Memory, Sections, Crates, sbi_heap_size, init_bss, init_heap, init_rustsbi_stdio, copy,
  prepare_memory,
}

abbrev pub Within : (start end a : ℕ) → Type 0
Within start end a = (start ≤ a) × (a < end)

abbrev pub Outside : (start end a : ℕ) → Type 0
Outside start end a = (a < start) ⊎ (end ≤ a)

-- A byte that neither the heap and its allocator nor the console of `rustsbi` takes.
pub record Unused (r : Crates) (at : Sections) (a : ℕ) : Type 0 where
  pub heap : Outside at.heap_space (at.heap_space + sbi_heap_size) a
  pub allocator : Outside at.heap_allocator (at.heap_allocator + r.locked_heap_size) a
  pub console : Outside r.stdio r.stdio_end a

-- What the crates document: each function of `r0` writes its range and nothing else, the start of the
-- heap writes the heap and the allocator, and the console is put in a box on the heap, by means of the
-- allocator, and in the static of `rustsbi`.
pub record IsCrates (r : Crates) (at : Sections) : Type 0 where
  pub zeroed : (s e a : ℕ) (mem : Memory) → Within s e a → r.zero_bss s e mem a ≡ 0
  pub zero_outside : (s e a : ℕ) (mem : Memory) → Outside s e a → r.zero_bss s e mem a ≡ mem a
  pub copied :
      (s e i a : ℕ) (mem : Memory) → Within s e a → r.init_data s e i mem a ≡ mem (i + (a - s))
  pub data_outside : (s e i a : ℕ) (mem : Memory) → Outside s e a → r.init_data s e i mem a ≡ mem a
  pub heap_outside :
      (a : ℕ) (mem : Memory)
      → Unused r at a
      → r.heap_init at.heap_allocator at.heap_space sbi_heap_size mem a ≡ mem a
  pub stdio_outside :
      (uart : Uart) (a : ℕ) (mem : Memory) → Unused r at a → r.init_legacy_stdio uart mem a ≡ mem a

-- The linker script: `.data` is loaded where it runs, and `.bss` lies behind it.
pub record IsLinked (at : Sections) : Type 0 where
  pub in_place : at.sidata ≡ at.sdata
  pub order : at.edata ≤ at.sbss

range-cases : (s e a : ℕ) → Within s e a ⊎ Outside s e a
range-cases s e a = ground arith

module _ {r : Crates} {at : Sections} (c : IsCrates r at) (l : IsLinked at) (mem : Memory) where
  bss_kept : (a : ℕ) → Outside at.sbss at.ebss a → init_bss r at mem a ≡ mem a
  unfolding init_bss
  bss_kept a o =
      let zeroed = r.zero_bss at.sbss at.ebss mem in
      elim (range-cases at.sdata at.edata a) [
        | inl w ↦
            c.copied at.sdata at.edata at.sidata a zeroed w
            ∙ ap zeroed (omega (arith, l.in_place, w.0))
            ∙ c.zero_outside at.sbss at.ebss a mem o
        | inr q ↦
            c.data_outside at.sdata at.edata at.sidata a zeroed q
            ∙ c.zero_outside at.sbss at.ebss a mem o
      ]

  bss_zeroed : (a : ℕ) → Within at.sbss at.ebss a → init_bss r at mem a ≡ 0
  unfolding init_bss
  bss_zeroed a w =
      c.data_outside at.sdata at.edata at.sidata a (r.zero_bss at.sbss at.ebss mem)
        (inr (omega (arith, l.order, w.0)))
      ∙ c.zeroed at.sbss at.ebss a mem w

  -- With the documented functions of the crates and the sections as the linker script places them,
  -- and bytes called unused that neither the heap, its allocator nor the console of `rustsbi` takes:
  -- the kernel stands at 0x80200000 as it stands in the image, if the image of it is unused and lies
  -- outside the zeroed section; every unused byte outside that section and the place of the kernel is
  -- as it was; and an unused byte of the zeroed section, outside the place of the kernel, is zero.
  pub prepare_memory_places :
      (uart : Uart) (i a z : ℕ)
      → i < at.kernel_len
      → Outside at.sbss at.ebss (at.kernel + i)
      → Unused r at (at.kernel + i)
      → Outside at.sbss at.ebss a
      → Unused r at a
      → Outside kernel_address (kernel_address + at.kernel_len) a
      → Within at.sbss at.ebss z
      → Unused r at z
      → Outside kernel_address (kernel_address + at.kernel_len) z
      → (prepare_memory r at uart mem (kernel_address + i) ≡ mem (at.kernel + i))
        × (prepare_memory r at uart mem a ≡ mem a)
        × (prepare_memory r at uart mem z ≡ 0)
  unfolding prepare_memory init_heap init_rustsbi_stdio copy
  prepare_memory_places uart i a z h kb kh ab ah ak zb zh zk =
      let bss = init_bss r at mem in
      let heap = r.heap_init at.heap_allocator at.heap_space sbi_heap_size bss in
      let kept : (x : ℕ) → Unused r at x → r.init_legacy_stdio uart heap x ≡ bss x =
        λ x o. c.stdio_outside uart x heap o ∙ c.heap_outside x bss o in
      (
        ground (arith, kept (at.kernel + i) kh, bss_kept (at.kernel + i) kb),
        ground (arith, kept a ah, bss_kept a ab),
        ground (arith, kept z zh, bss_zeroed z zb),
      )
