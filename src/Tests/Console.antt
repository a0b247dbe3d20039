-- ===== src/Tests/Console.antt =====
-- Text of the test kernel on the console, and its stacks.
use rustsbi_hifive_unmatched.Base.{
  ℕ, zero, suc, ◌≤◌, ◌%◌, ◌^◌, ◌≡◌, refl, ◌∙◌, ap, List, [], ◌∷◌, ◌++◌, ok, arith, ◌==◌,
  if◌then◌else◌, ap₂,
}
use rustsbi_hifive_unmatched.Uart.{Uart, preloaded_uart0, write_all}
use rustsbi_hifive_unmatched.Uart.Lines.{write_all-append}
use rustsbi_hifive_unmatched.Machine.{Machine}
use rustsbi_hifive_unmatched.Execute.{Ecall, State, handle_sbi_call}
use rustsbi_hifive_unmatched.Client.Console.{Puts, write_str, write_str-Writes}
use rustsbi_hifive_unmatched.Tests.Values.{context, machine, one_started}

-- A console in memory: the number of its bytes at 0, and the bytes behind.
abbrev bytes : (ℕ → ℕ) → ℕ → List ℕ
bytes f zero = []
bytes f (suc n) = bytes f n ++ (f (suc n) ∷ [])

abbrev put : ℕ → (ℕ → ℕ) → ℕ → ℕ
put b f a = if a == 0 then suc (f 0) else if a == suc (f 0) then b else f a

bytes-put : (b : ℕ) (f : ℕ → ℕ) (n : ℕ) → n ≤ f 0 → bytes (put b f) n ≡ bytes f n
bytes-put b f zero h = refl
bytes-put b f (suc n) h =
    ap₂ (λ (xs : List ℕ) (x : ℕ). xs ++ (x ∷ [])) (bytes-put b f n (omega (arith, h)))
      (ground (arith, h))

-- The serial port that has been given those bytes.
abbrev console : Machine → Uart
console m = write_all (bytes m.mmio (m.mmio 0)) (preloaded_uart0 (λ a. 0))

abbrev putting : Ecall
putting extension f p m =
    ok (record m { mmio = put (p 0 % 2 ^ 8) m.mmio }, record { error = 0; value = 0 })

bytes_grow : (b : ℕ) (f : ℕ → ℕ) → bytes (put b f) (suc (f 0)) ≡ bytes f (f 0) ++ (b ∷ [])
bytes_grow b f =
    ap₂ (λ (xs : List ℕ) (x : ℕ). xs ++ (x ∷ [])) (bytes-put b f (f 0) (omega arith)) (ground arith)

putting-Puts : Puts putting console
unfolding write_all
putting-Puts = record {
  puts = λ f p m. (
    _,
    _,
    refl,
    omega arith,
    ap (λ (xs : List ℕ). write_all xs (preloaded_uart0 (λ a. 0))) (bytes_grow (p 0 % 2 ^ 8) m.mmio)
        ∙ write_all-append (bytes m.mmio (m.mmio 0)) (p 0 % 2 ^ 8 ∷ []) (preloaded_uart0 (λ a. 0)),
  );
}

-- An encoding of the first 128 characters.
abbrev ascii : ℕ → List ℕ
ascii c = c % 2 ^ 7 ∷ []

write_str-Writes_example :
    (t : State) × (write_str
        (handle_sbi_call putting 0)
        ascii
        (72 ∷ 105 ∷ 10 ∷ [])
        (context, machine 0 one_started)
      ≡ ok t)
    × (console t.1 ≡ write_all (72 ∷ 105 ∷ 10 ∷ []) (preloaded_uart0 (λ a. 0)))
unfolding write_all
write_str-Writes_example =
    write_str-Writes 0 putting-Puts ascii (72 ∷ 105 ∷ 10 ∷ []) (context, machine 0 one_started)
      (λ c. ground arith)
