-- ===== src/Tests/Tools.antt =====
-- Memory at the start, the read of an instruction, the printed registers and the build tool.
use rustsbi_hifive_unmatched.Base.{
  ℕ, ◌+◌, ◌-◌, ◌≡◌, ◌⊎◌, ◌<◌, ◌≤◌, ◌^◌, ◌%◌, refl, inl, inr, Bool, true, false, not, ◌==◌, leb, ltb,
  ◌&&◌, if◌then◌else◌, List, [], ◌∷◌, ◌++◌, none, arith,
}
use rustsbi_hifive_unmatched.Boot.{kernel_address}
use rustsbi_hifive_unmatched.Uart.{Uart, preloaded_uart0}
use rustsbi_hifive_unmatched.Boot.Memory.{Memory, Sections, Crates, prepare_memory}
use rustsbi_hifive_unmatched.Boot.Memory.Kept.{IsCrates, Unused, prepare_memory_places}
use rustsbi_hifive_unmatched.Execute.Fetch
use rustsbi_hifive_unmatched.HartCsrs.{print_medeleg}
use rustsbi_hifive_unmatched.HartCsrs.Names.{contains, page_fault, on_fetch, print_medeleg-contains}
use rustsbi_hifive_unmatched.Xtask.{Command, Runner, ended}
use rustsbi_hifive_unmatched.Xtask.Main.{image, main}
use rustsbi_hifive_unmatched.Xtask.Plan.{plan}
use rustsbi_hifive_unmatched.Xtask.Ends.{
  all_accepted, all_succeed, is_asm, commands, ran_of, Ends, main-Ends,
}

abbrev inside : ℕ → ℕ → ℕ → Bool
inside s e a = leb s a && ltb a e

abbrev crates : Crates
crates = record {
  zero_bss = λ s e mem a. if inside s e a then 0 else mem a;
  init_data = λ s e i mem a. if inside s e a then mem (i + (a - s)) else mem a;
  heap_init = λ self s n mem a.
      if inside s (s + n) a then 7 else if inside self (self + 256) a then 8 else mem a;
  init_legacy_stdio = λ uart mem a.
      if a == 0x8001_8000
      then uart.pre_byte
      else if inside 0x8001_0200 0x8001_0218 a
      then 9
      else mem a;
  locked_heap_size = 256;
  stdio = 0x8001_0200;
  stdio_end = 0x8001_0218;
}

abbrev sections : Sections
sections = record {
  sbss = 0x8001_0000;
  ebss = 0x8003_0000;
  sdata = 0x8000_f000;
  edata = 0x8001_0000;
  sidata = 0x8000_f000;
  heap_allocator = 0x8001_0010;
  heap_space = 0x8001_8000;
  kernel = 0x8000_8000;
  kernel_len = 0x1000;
}

crates-IsCrates : IsCrates crates sections
crates-IsCrates = record {
  zeroed = λ s e a mem w. ground arith;
  zero_outside = λ s e a mem o. ground arith;
  copied = λ s e i a mem w. ground arith;
  data_outside = λ s e i a mem o. ground arith;
  heap_outside = λ a mem o. ground (arith, o.heap, o.allocator);
  stdio_outside = λ uart a mem o. ground (arith, o.heap, o.console);
}

below_bss-Unused : (a : ℕ) → a < 0x8001_0010 → Unused crates sections a
below_bss-Unused a l = record {
  heap = inl (omega (arith, l));
  allocator = inl (omega (arith, l));
  console = inl (omega (arith, l));
}

above_bss-Unused : (a : ℕ) → 0x8003_0000 ≤ a → Unused crates sections a
above_bss-Unused a l = record {
  heap = inr (omega (arith, l));
  allocator = inr (omega (arith, l));
  console = inr (omega (arith, l));
}

abbrev mem : Memory
mem a = a % 256

abbrev port : Uart
port = preloaded_uart0 (λ a. 0)

prepare_memory_places_example :
    (prepare_memory crates sections port mem (kernel_address + 3) ≡ 3)
    × (prepare_memory crates sections port mem 0x8004_0001 ≡ 1)
    × (prepare_memory crates sections port mem 0x8001_0005 ≡ 0)
prepare_memory_places_example =
    prepare_memory_places crates-IsCrates (record { in_place = refl; order = omega arith }) mem port
      3 0x8004_0001 0x8001_0005 (omega arith) (inl (omega arith))
      (below_bss-Unused 0x8000_8003 (omega arith)) (inr (omega arith))
      (above_bss-Unused 0x8004_0001 (omega arith)) (inl (omega arith)) (omega arith, omega arith)
      (below_bss-Unused 0x8001_0005 (omega arith)) (inl (omega arith))

abbrev hart : Fetch.Hart
hart = record { tmp = 1; ans = 2; mstatus = 0x1800 }

abbrev words : Fetch.Memory
words = record { translated = λ a. a + 2 ^ 32; direct = λ a. 0 }

abbrev pages : ℕ → Bool
pages bit = 12 == bit

print_medeleg-contains_example : contains (print_medeleg pages) "ipage" ≡ true
print_medeleg-contains_example = print_medeleg-contains pages (page_fault on_fetch)

abbrev no_d : ℕ → Bool
no_d c = not (c == b'D')

-- The first command succeeds, and what follows does not.
abbrev failing : Runner
failing [] c = ended 0
failing (d ∷ ds) c = ended 3

main-Ends_example :
    Ends
      (all_accepted failing (plan none (image none false)) [])
      (main failing none (image none false))
      (commands (plan none (image none false)))
    × ((is_asm (image none false) ≡ true)
        ⊎ (all_accepted failing (plan none (image none false)) []
            ≡ all_succeed failing (commands (plan none (image none false))) []))
    × (rest : List Command) × (commands (plan none (image none false))
        ≡ ran_of (main failing none (image none false)) ++ rest)
main-Ends_example = main-Ends failing none (image none false)
