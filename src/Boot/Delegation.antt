-- ===== src/Boot/Delegation.antt =====
-- main.rs and runtime.rs: which traps reach the firmware, and which of those it knows.
use rustsbi_hifive_unmatched.Base.{
  ℕ, ◌<◌, ◌≡◌, ◌↔◌, ◌⊎◌, ◌==◌, if◌then◌else◌, false, panicked, arith,
}
use rustsbi_hifive_unmatched.Csr.{
  Exception, supervisor_env_call, illegal_instruction, other_exception, Interrupt, machine_timer,
  machine_soft, other_interrupt, supervisor_soft, exception, interrupt,
}
use rustsbi_hifive_unmatched.Context.{trap_of}
use rustsbi_hifive_unmatched.Boot.{Boot, delegate_interrupt_exception}

-- The causes by their numbers in `mcause`.
abbrev pub exception_of : ℕ → Exception
exception_of c =
    if c == 2
    then illegal_instruction
    else if c == 9
    then supervisor_env_call
    else other_exception c

abbrev pub interrupt_of : ℕ → Interrupt
interrupt_of c =
    if c == 1
    then supervisor_soft
    else if c == 3
    then machine_soft
    else if c == 7
    then machine_timer
    else other_interrupt c

abbrev pub NothingDelegated : Boot → Type 0
NothingDelegated b = (c : ℕ) → (b.medeleg c ≡ false) × (b.mideleg c ≡ false)

-- After the delegation, on a hart where nothing was delegated before, the exceptions with a number
-- below 16 that come to the firmware and make it panic are just 4 and 6 (a misaligned load, a
-- misaligned store), 11 (a call from machine mode) and the reserved 10 and 14.
pub unhandled_exceptions :
    (b : Boot) (c : ℕ)
    → NothingDelegated b
    → c < 16
    → (((delegate_interrupt_exception b).medeleg c ≡ false)
        × (trap_of (exception (exception_of c)) ≡ panicked))
      ↔ ((c ≡ 4) ⊎ (c ≡ 6) ⊎ (c ≡ 10) ⊎ (c ≡ 11) ⊎ (c ≡ 14))
unfolding delegate_interrupt_exception trap_of
unhandled_exceptions b c h l = ground (arith, h c)

-- After the delegation, on a hart where nothing was delegated before, the interrupts with a number
-- below 12 that come to the firmware and make it panic are just 11 (the external interrupt of
-- machine mode) and the reserved 2, 6 and 10.
pub unhandled_interrupts :
    (b : Boot) (c : ℕ)
    → NothingDelegated b
    → c < 12
    → (((delegate_interrupt_exception b).mideleg c ≡ false)
        × (trap_of (interrupt (interrupt_of c)) ≡ panicked))
      ↔ ((c ≡ 2) ⊎ (c ≡ 6) ⊎ (c ≡ 10) ⊎ (c ≡ 11))
unfolding delegate_interrupt_exception trap_of
unhandled_interrupts b c h l = ground (arith, h c)
