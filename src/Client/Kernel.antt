-- ===== src/Client/Kernel.antt =====
-- test-kernel/src/main.rs: what the test kernel does on each hart. Text output is left out.
pub mod Illegal
pub mod Passes
pub mod Firmware
use rustsbi_hifive_unmatched.Base.{
  ℕ, ◌+◌, ◌%◌, ◌^◌, ◌==◌, ltb, if◌then◌else◌, Bool, true, false, Outcome, ok, panicked, ◌>>=◌,
}
use rustsbi_hifive_unmatched.Csr.{Spp, Trap, exception, illegal_instruction}
use rustsbi_hifive_unmatched.Machine.{Machine}
use rustsbi_hifive_unmatched.Execute.{State}
use rustsbi_hifive_unmatched.Client.{
  Instruction, extension_base, extension_srst, sbi_call_2, reset, probe_extension, get_spec_version,
  get_sbi_impl_id, get_sbi_impl_version, get_mvendorid, get_marchid, get_mimpid, hart_get_status,
  hart_suspend, send_ipi,
}

-- The panic handler: it asks for a shutdown, and loops for ever.
unfoldable pub panic : Instruction → State → Outcome State
unfolding reset
panic ecall s = reset ecall 0x0 0x1 s >>= λ _. panicked

-- `shutdown`: the call does not return, or the code panics.
unfoldable pub shutdown : Instruction → State → Outcome State
unfolding sbi_call_2 panic
shutdown ecall s = sbi_call_2 ecall extension_srst 0x0 0x0 0x0 s >>= λ (_, t). panic ecall t

unfoldable pub test_base_extension : Instruction → State → Outcome State
unfolding probe_extension shutdown
test_base_extension ecall s = probe_extension ecall extension_base s >>= λ (base_version, t).
    if base_version == 0
    then shutdown ecall t
    else (get_spec_version ecall t >>= λ (_, t). get_sbi_impl_id ecall t >>= λ (_, t).
        get_sbi_impl_version ecall t >>= λ (_, t). get_mvendorid ecall t >>= λ (_, t).
        get_marchid ecall t >>= λ (_, t). get_mimpid ecall t >>= λ (_, t). ok t)

-- The `time` register, which an `rdtime` reads.
abbrev pub Clock : Type 0
Clock = State → Outcome (ℕ × State)

unfoldable pub test_sbi_ins_emulation : Instruction → Clock → State → Outcome State
unfolding shutdown
test_sbi_ins_emulation ecall read64 s = read64 s >>= λ (time_start, t).
    read64 t >>= λ (time_end, u). if ltb time_start time_end then ok u else shutdown ecall u

abbrev pub is_illegal_instruction : Trap → Bool
is_illegal_instruction (exception illegal_instruction) = true
is_illegal_instruction _ = false

unfoldable pub rust_trap_exception : Instruction → State → Outcome State
unfolding shutdown
rust_trap_exception ecall (ctx, m) =
    if is_illegal_instruction m.csr.scause
    then ok (ctx, record m { csr = record (m.csr) { sepc = (m.csr.sepc + 4) % 2 ^ 64 } })
    else shutdown ecall (ctx, m)

-- `stvec::write(start_trap, TrapMode::Direct)`, where the handler is aligned to four bytes.
abbrev pub write_stvec : ℕ → State → State
write_stvec start_trap (ctx, m) = (ctx, record m { csr = record (m.csr) { stvec = start_trap } })

-- `rust_main`, up to the loop at its end. `illegal` is the instruction `csrw mcycle, x0`, with all that
-- follows from it until the next instruction; `mask` is the address of the mask of harts.
unfoldable pub rust_main :
    Instruction → Clock → Instruction → (start_trap mask hartid : ℕ) → State → Outcome State
unfolding test_base_extension test_sbi_ins_emulation hart_get_status hart_suspend send_ipi panic
rust_main ecall read64 illegal start_trap mask hartid s =
    if hartid == 0
    then (test_base_extension ecall s >>= test_sbi_ins_emulation ecall read64 >>= λ t.
        illegal (write_stvec start_trap t) >>= λ t. hart_get_status ecall 0 t >>= λ (_, t).
        hart_get_status ecall 1 t >>= λ (_, t). send_ipi ecall mask hartid t >>= λ (_, t). ok t)
    else (hart_suspend ecall 0 0 0 s >>= λ (_, t). panic ecall t)
