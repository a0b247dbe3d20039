-- ===== src/Client/Console.antt =====
-- test-kernel/src/console.rs: text on the console, byte by byte through calls of the firmware.
use rustsbi_hifive_unmatched.Base.{
  ℕ, ◌+◌, ◌%◌, ◌^◌, ◌<◌, ◌≡◌, ◌≢◌, refl, ltb, ◌&&◌, Bool, true, arith, List, [], ◌∷◌, ◌++◌, Outcome,
  ok, ◌>>=◌, ◌∙◌, ap, sym,
}
use rustsbi_hifive_unmatched.Uart.{Uart, write, write_all}
use rustsbi_hifive_unmatched.Uart.Lines.{write_all-append}
use rustsbi_hifive_unmatched.Sbi.{SbiRet}
use rustsbi_hifive_unmatched.Machine.{Machine}
use rustsbi_hifive_unmatched.Context.{a0, a1, a2, a6, a7, set_reg}
use rustsbi_hifive_unmatched.Execute.{Ecall, State, handle_sbi_call}
use rustsbi_hifive_unmatched.Execute.Calls.{answered, handle_sbi_call-answered}
use rustsbi_hifive_unmatched.Client.{Instruction, console_putchar}

-- The inner loop, over the bytes of a character.
unfoldable pub write_bytes : Instruction → List ℕ → State → Outcome State
write_bytes ecall [] s = ok s
write_bytes ecall (code_point ∷ bytes) s =
    console_putchar ecall code_point s >>= write_bytes ecall bytes

-- `write_str`; `encode_utf8` gives the bytes of a character.
unfoldable pub write_str : Instruction → (ℕ → List ℕ) → List ℕ → State → Outcome State
unfolding write_bytes
write_str ecall encode_utf8 [] s = ok s
write_str ecall encode_utf8 (c ∷ chars) s =
    write_bytes ecall (encode_utf8 c) s >>= write_str ecall encode_utf8 chars

-- The bytes of a text.
abbrev pub encoded : (ℕ → List ℕ) → List ℕ → List ℕ
encoded encode_utf8 [] = []
encoded encode_utf8 (c ∷ chars) = encode_utf8 c ++ encoded encode_utf8 chars

-- What `rustsbi::ecall` makes of the call for a byte: it gives the low byte of the parameter to the
-- serial port of the firmware.
pub record Puts (ecall : Ecall) (console : Machine → Uart) : Type 0 where
  pub puts :
      (f : ℕ) (p : ℕ → ℕ) (m : Machine)
      → (m' : Machine) × (r : SbiRet) × (ecall 1 f p m ≡ ok (m', r))
        × (r.error ≢ 0x233)
        × (console m' ≡ write (p 0 % 2 ^ 8) (console m))

abbrev pub all_bytes : List ℕ → Bool
all_bytes [] = true
all_bytes (b ∷ bs) = ltb b (2 ^ 8) && all_bytes bs

-- The instruction goes on with some bytes more given to the serial port.
abbrev Writes : (Machine → Uart) → List ℕ → State → Outcome State → Type 0
Writes console bytes s x = (t : State) × (x ≡ ok t) × (console t.1 ≡ write_all bytes (console s.1))

module _ {ecall : Ecall} {console : Machine → Uart} (k : ℕ) (d : Puts ecall console) where
  putchar-Writes :
      (c : ℕ) (s : State)
      → c < 2 ^ 8
      → Writes console (c ∷ []) s (console_putchar (handle_sbi_call ecall k) c s)
  unfolding console_putchar write_all
  putchar-Writes c (ctx, m) h =
      let given = set_reg a7 1 (set_reg a2 0 (set_reg a1 0 (set_reg a0 c ctx))) in
      let (m', r, e, ne, l) = d.puts (given.regs a6) (λ i. given.regs (a0 + i)) m in
      let small : c % 2 ^ 8 ≡ c = omega (arith, h) in
      (
        (answered given r, m'),
        ap (λ (x : Outcome State). (x >>= λ t. ok (t.0.regs a0, t)) >>= λ (r, t). ok t)
            (handle_sbi_call-answered ecall k given m m' r e ne),
        l ∙ ap (λ b. write b (console m)) small,
      )

  write_bytes-Writes :
      (bytes : List ℕ) (s : State)
      → all_bytes bytes ≡ true
      → Writes console bytes s (write_bytes (handle_sbi_call ecall k) bytes s)
  unfolding write_bytes write_all
  write_bytes-Writes [] s h = (s, refl, refl)
  write_bytes-Writes (c ∷ bytes) s h =
      let small : c < 2 ^ 8 = ground (arith, h) in
      let rest : all_bytes bytes ≡ true = ground (arith, h) in
      let (t, e, l) = putchar-Writes c s small in
      let (u, q, n) = write_bytes-Writes bytes t rest in
      (
        u,
        ap (λ x. x >>= write_bytes (handle_sbi_call ecall k) bytes) e ∙ q,
        n ∙ ap (write_all bytes) l,
      )

  -- Where the characters are encoded in bytes, and the call for a byte gives its low byte to the serial
  -- port: a text is written in full and in order, the serial port gets the bytes of its characters one
  -- after the other, by writes of its own, and the instruction goes on.
  pub write_str-Writes :
      (encode_utf8 : ℕ → List ℕ) (chars : List ℕ) (s : State)
      → ((c : ℕ) → all_bytes (encode_utf8 c) ≡ true)
      → (t : State) × (write_str (handle_sbi_call ecall k) encode_utf8 chars s ≡ ok t)
        × (console t.1 ≡ write_all (encoded encode_utf8 chars) (console s.1))
  unfolding write_str write_all
  write_str-Writes encode_utf8 [] s h = (s, refl, refl)
  write_str-Writes encode_utf8 (c ∷ chars) s h =
      let (t, e, l) = write_bytes-Writes (encode_utf8 c) s (h c) in
      let (u, q, n) = write_str-Writes encode_utf8 chars t h in
      (
        u,
        ap (λ x. x >>= write_str (handle_sbi_call ecall k) encode_utf8 chars) e ∙ q,
        n
            ∙ ap (write_all (encoded encode_utf8 chars)) l
            ∙ sym (write_all-append (encode_utf8 c) (encoded encode_utf8 chars) (console s.1)),
      )
