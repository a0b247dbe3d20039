-- ===== src/Client.antt =====
-- test-kernel/src/sbi.rs: the SBI calls of the supervisor.
pub mod Requests
pub mod Trap
pub mod Kernel
pub mod Debug
pub mod Entry
pub mod Console
use rustsbi_hifive_unmatched.Base.{ℕ, ◌+◌, ◌-◌, ◌^◌, Outcome, ok, ◌>>=◌}
use rustsbi_hifive_unmatched.Sbi.{SbiRet}
use rustsbi_hifive_unmatched.Context.{SupervisorContext, a0, a1, a2, a6, a7, set_reg}
use rustsbi_hifive_unmatched.Execute.{State}

-- The instruction `ecall`: what becomes of the registers and of the machine until the next instruction.
abbrev pub Instruction : Type 0
Instruction = State → Outcome State

-- A call, with its result.
abbrev pub Call : Type 0
Call = State → Outcome (SbiRet × State)

abbrev pub extension_base : ℕ
extension_base = 0x10

abbrev pub extension_ipi : ℕ
extension_ipi = 0x735049

abbrev pub extension_hsm : ℕ
extension_hsm = 0x48534D

abbrev pub extension_srst : ℕ
extension_srst = 0x53525354

-- `lateout("a0") error, lateout("a1") value`
abbrev pub results : State → SbiRet × State
results s = (record { error = s.0.regs a0; value = s.0.regs a1 }, s)

abbrev pub with_registers : (SupervisorContext → SupervisorContext) → State → State
with_registers f (ctx, m) = (f ctx, m)

unfoldable pub sbi_call_0 : Instruction → ℕ → ℕ → Call
sbi_call_0 ecall extension function s =
    ecall (with_registers (λ c. set_reg a7 extension (set_reg a6 function c)) s) >>= λ t.
    ok (results t)

unfoldable pub sbi_call_1 : Instruction → ℕ → ℕ → ℕ → Call
sbi_call_1 ecall extension function arg0 s =
    ecall (with_registers (λ c. set_reg a7 extension (set_reg a6 function (set_reg a0 arg0 c))) s)
    >>= λ t. ok (results t)

unfoldable pub sbi_call_2 : Instruction → ℕ → ℕ → ℕ → ℕ → Call
sbi_call_2 ecall extension function arg0 arg1 s =
    ecall (
      with_registers
        (λ c. set_reg a7 extension (set_reg a6 function (set_reg a1 arg1 (set_reg a0 arg0 c)))) s)
    >>= λ t. ok (results t)

unfoldable pub sbi_call_3 : Instruction → ℕ → ℕ → ℕ → ℕ → ℕ → Call
sbi_call_3 ecall extension function arg0 arg1 arg2 s =
    ecall (
      with_registers
        (λ c.
          set_reg a7 extension
            (set_reg a6 function (set_reg a2 arg2 (set_reg a1 arg1 (set_reg a0 arg0 c)))))
        s)
    >>= λ t. ok (results t)

-- `sbi_call_legacy`: there is no function number, and one result.
unfoldable pub sbi_call_legacy : Instruction → ℕ → ℕ → ℕ → ℕ → State → Outcome (ℕ × State)
sbi_call_legacy ecall which arg0 arg1 arg2 s =
    ecall (
      with_registers (λ c. set_reg a7 which (set_reg a2 arg2 (set_reg a1 arg1 (set_reg a0 arg0 c))))
        s)
    >>= λ t. ok (t.0.regs a0, t)

unfoldable pub hart_start : Instruction → ℕ → ℕ → ℕ → Call
unfolding sbi_call_3
hart_start ecall hartid start_addr opaque =
    sbi_call_3 ecall extension_hsm 0x0 hartid start_addr opaque

unfoldable pub hart_stop : Instruction → ℕ → Call
unfolding sbi_call_1
hart_stop ecall hartid = sbi_call_1 ecall extension_hsm 0x1 hartid

unfoldable pub hart_get_status : Instruction → ℕ → Call
unfolding sbi_call_1
hart_get_status ecall hartid = sbi_call_1 ecall extension_hsm 0x2 hartid

unfoldable pub hart_suspend : Instruction → ℕ → ℕ → ℕ → Call
unfolding sbi_call_3
hart_suspend ecall suspend_type resume_addr opaque =
    sbi_call_3 ecall extension_hsm 0x3 suspend_type resume_addr opaque

unfoldable pub send_ipi : Instruction → ℕ → ℕ → Call
unfolding sbi_call_2
send_ipi ecall hart_mask hart_mask_base =
    sbi_call_2 ecall extension_ipi 0x0 hart_mask hart_mask_base

unfoldable pub reset : Instruction → ℕ → ℕ → Call
unfolding sbi_call_2
reset ecall reset_type reset_reason = sbi_call_2 ecall extension_srst 0x0 reset_type reset_reason

unfoldable pub probe_extension : Instruction → ℕ → State → Outcome (ℕ × State)
unfolding sbi_call_1
probe_extension ecall extension_id s =
    sbi_call_1 ecall extension_base 0x3 extension_id s >>= λ (r, t). ok (r.value, t)

unfoldable pub set_timer : Instruction → ℕ → State → Outcome State
unfolding sbi_call_legacy
set_timer ecall time s = sbi_call_legacy ecall 0 time 0 0 s >>= λ (r, t). ok t

unfoldable pub console_putchar : Instruction → ℕ → State → Outcome State
unfolding sbi_call_legacy
console_putchar ecall c s = sbi_call_legacy ecall 1 c 0 0 s >>= λ (r, t). ok t

unfoldable pub console_getchar : Instruction → State → Outcome (ℕ × State)
unfolding sbi_call_legacy
console_getchar ecall s = sbi_call_legacy ecall 2 0 0 0 s

-- The getters of the base extension, by the number of the function.
unfoldable pub get_base : ℕ → Instruction → State → Outcome (ℕ × State)
unfolding sbi_call_0
get_base function ecall s = sbi_call_0 ecall extension_base function s >>= λ (r, t). ok (r.value, t)

abbrev pub get_spec_version : Instruction → State → Outcome (ℕ × State)
get_spec_version = get_base 0x0

abbrev pub get_sbi_impl_id : Instruction → State → Outcome (ℕ × State)
get_sbi_impl_id = get_base 0x1

abbrev pub get_sbi_impl_version : Instruction → State → Outcome (ℕ × State)
get_sbi_impl_version = get_base 0x2

abbrev pub get_mvendorid : Instruction → State → Outcome (ℕ × State)
get_mvendorid = get_base 0x4

abbrev pub get_marchid : Instruction → State → Outcome (ℕ × State)
get_marchid = get_base 0x5

abbrev pub get_mimpid : Instruction → State → Outcome (ℕ × State)
get_mimpid = get_base 0x6
