-- ===== src/Feature/Rdtime.antt =====
-- emulate_rdtime.rs
use rustsbi_hifive_unmatched.Base.{
  ℕ, ◌+◌, ◌*◌, ◌-◌, ◌/◌, ◌%◌, ◌^◌, ◌<◌, bit_and, ◌≡◌, ◌≢◌, ◌⊎◌, inl, inr, Bool-cases, true, false,
  ok, arith, ◌==◌, if◌then◌else◌, update, fun_ext, ℕ_discrete,
}
use rustsbi_hifive_unmatched.Clint
use rustsbi_hifive_unmatched.Machine.{Machine}
use rustsbi_hifive_unmatched.Context.{SupervisorContext}
use rustsbi_hifive_unmatched.Feature.{emulate_rdtime, set_register_xi, next_instruction}
use rustsbi_hifive_unmatched.Bits.{bit_and_split, bit_and_ones, bit_and_low_field}

-- `rdtime rd`, which the assembler writes as `csrrs rd, time, x0`.
abbrev pub rdtime : ℕ → ℕ
rdtime rd = 0xC0102073 + rd * 2 ^ 7

-- The fields of an instruction: above bit 12, the destination, and the opcode.
mask_fields :
    (hi rd lo : ℕ)
    → hi < 2 ^ 20
    → rd < 2 ^ 5
    → lo < 2 ^ 7
    → bit_and (hi * 2 ^ 12 + (rd * 2 ^ 7 + lo)) 0xFFFFF07F ≡ hi * 2 ^ 12 + lo
mask_fields hi rd lo hh hr hl = ground (
  arith,
  bit_and_split 12 hi (rd * 2 ^ 7 + lo) 0xFFFFF 0x7F,
  bit_and_ones 20 hi,
  bit_and_low_field 7 rd lo,
)

rd_field : (rest rd : ℕ) → rd < 2 ^ 5 → bit_and (rest * 2 ^ 5 + rd) 0x1F ≡ rd
rd_field rest rd h = bit_and_low_field 5 rest rd h

-- Every 32-bit instruction is of this form.
fields : (ins : ℕ) → ins ≡ ins / 2 ^ 12 * 2 ^ 12 + (ins / 2 ^ 7 % 2 ^ 5 * 2 ^ 7 + ins % 2 ^ 7)
fields ins = omega arith

masked : (ins : ℕ) → ins < 2 ^ 32 → bit_and ins 0xFFFFF07F ≡ ins / 2 ^ 12 * 2 ^ 12 + ins % 2 ^ 7
masked ins h =
    ground (arith, fields ins, mask_fields (ins / 2 ^ 12) (ins / 2 ^ 7 % 2 ^ 5) (ins % 2 ^ 7))

destination : (ins : ℕ) → bit_and (ins / 2 ^ 7) 0x1F ≡ ins / 2 ^ 7 % 2 ^ 5
destination ins = ground (arith, rd_field (ins / 2 ^ 7 / 2 ^ 5) (ins / 2 ^ 7 % 2 ^ 5))

-- The words of the context once register `rd` is written; x0 has none.
abbrev pub written : (ℕ → ℕ) → ℕ → ℕ → ℕ → ℕ
written f rd v k = if k + 1 == rd then v else f k

written-zero : (f : ℕ → ℕ) (v : ℕ) → written f 0 v ≡ f
written-zero f v = fun_ext λ k. ground arith

written-suc : (f : ℕ → ℕ) (rd v : ℕ) → 0 < rd → written f rd v ≡ update f (rd - 1) v
written-suc f rd v h = fun_ext λ k. ground arith

set_register_xi-written :
    (ctx : SupervisorContext) (rd v : ℕ)
    → rd < 32
    → set_register_xi ctx rd v ≡ ok (record ctx { regs = written ctx.regs rd v })
unfolding set_register_xi
set_register_xi-written ctx rd v h = elim (ℕ_discrete rd 0) [
  | yes e ↦ ground (arith, e, written-zero ctx.regs v)
  | no e ↦ ground (arith, written-suc ctx.regs rd v)
]

masked_rdtime : (rd : ℕ) → rd < 32 → bit_and (rdtime rd) 0xFFFFF07F ≡ 0xC0102073
masked_rdtime rd h = ground (arith, masked (rdtime rd))

-- `rdtime rd` is emulated for every register: the clock goes to register `rd` (nowhere, if that is
-- x0), no other register changes, and the program goes on at the next instruction.
pub emulate_rdtime-written :
    (ctx : SupervisorContext) (rd : ℕ) (m : Machine)
    → rd < 32
    → emulate_rdtime ctx (rdtime rd) m
      ≡ ok (
        record ctx {
          regs = written ctx.regs rd (Clint.get_mtime (Clint.new 0x2000000) m.mmio);
          mepc = next_instruction ctx.mepc;
        },
        true,
      )
unfolding emulate_rdtime
emulate_rdtime-written ctx rd m h = ground (
  arith,
  masked_rdtime rd h,
  destination (rdtime rd),
  set_register_xi-written ctx rd (Clint.get_mtime (Clint.new 0x2000000) m.mmio) h,
)

-- A 32-bit instruction that is no `rdtime` into any register is not emulated, and the context stays as
-- it is.
pub emulate_rdtime_other :
    (ctx : SupervisorContext) (ins : ℕ) (m : Machine)
    → ins < 2 ^ 32
    → ((rd : ℕ) → rd < 32 → ins ≢ rdtime rd)
    → emulate_rdtime ctx ins m ≡ ok (ctx, false)
unfolding emulate_rdtime
emulate_rdtime_other ctx ins m h n = ground (arith, masked ins h, n (ins / 2 ^ 7 % 2 ^ 5))

-- Whatever the instruction, the emulation comes to an end, and changes the context only where it is
-- one that is emulated.
pub emulate_rdtime-cases :
    (ctx : SupervisorContext) (ins : ℕ) (m : Machine)
    → ((c : SupervisorContext) × (emulate_rdtime ctx ins m ≡ ok (c, true)))
      ⊎ (emulate_rdtime ctx ins m ≡ ok (ctx, false))
unfolding emulate_rdtime
emulate_rdtime-cases ctx ins m = elim (Bool-cases (bit_and ins 0xFFFFF07F == 0xC0102073)) [
  | inl t ↦
      let rd = bit_and (ins / 2 ^ 7) 0x1F % 2 ^ 8 in
      let v = Clint.get_mtime (Clint.new 0x2000000) m.mmio in
      let l : rd < 32 = omega (arith, destination ins) in
      inl (
        record ctx { regs = written ctx.regs rd v; mepc = next_instruction ctx.mepc },
        ground (arith, t, set_register_xi-written ctx rd v l),
      )
  | inr f ↦ inr (ground (arith, f))
]
