-- ===== src/Client/Kernel/Passes.antt =====
-- test-kernel/src/main.rs on top of the firmware: whether the tests pass.
use rustsbi_hifive_unmatched.Base.{ℕ, ◌+◌, ◌<◌, ◌≡◌, ◌≢◌, refl, Outcome, ok, ◌>>=◌, arith, ◌∙◌, ap}
use rustsbi_hifive_unmatched.Sbi.{Sbi, SbiRet, IsSbi}
use rustsbi_hifive_unmatched.Machine.{Machine}
use rustsbi_hifive_unmatched.Hsm.Calls
use rustsbi_hifive_unmatched.Context.{a0, a1, a6, a7, set_reg}
use rustsbi_hifive_unmatched.Execute.{Ecall, State, handle_sbi_call}
use rustsbi_hifive_unmatched.Execute.Calls.{CallsHsm, answered, handle_sbi_call-answered}
use rustsbi_hifive_unmatched.Client.{
  Instruction, extension_base, extension_ipi, results, get_base, probe_extension, hart_get_status,
  send_ipi,
}
use rustsbi_hifive_unmatched.Client.Requests.{requests}
use rustsbi_hifive_unmatched.Client.Kernel.{
  Clock, panic, test_base_extension, test_sbi_ins_emulation, write_stvec, rust_main,
}

-- What `rustsbi::ecall` makes of a call of the base extension: an answer without error, which names the
-- base extension as present, and no change of the machine.
pub record AnswersBase (ecall : Ecall) : Type 0 where
  pub value : ℕ → ℕ
  pub present : value 3 ≢ 0
  pub answers :
      (f : ℕ) (p : ℕ → ℕ) (m : Machine)
      → ecall extension_base f p m ≡ ok (m, record { error = 0; value = value f })

-- What it makes of inter-processor interrupts: an answer, by some code of its own.
abbrev pub AnswersIpi : Ecall → Type 0
AnswersIpi ecall =
    (p : ℕ → ℕ) (m : Machine)
    → (m' : Machine) × (r : SbiRet) × (ecall extension_ipi 0 p m ≡ ok (m', r)) × (r.error ≢ 0x233)

-- A clock that can be read and grows from one reading to the next.
pub record Ticks (read64 : Clock) : Type 0 where
  pub reading : (s : State) → (t : ℕ) × (s' : State) × (read64 s ≡ ok (t, s'))
  pub grows : (s : State) → (reading s).0 < (reading (reading s).1).0

abbrev Returns : {A : Type 0} → Outcome A → Type 0
Returns {A} x = (a : A) × (x ≡ ok a)

>>=-Returns :
    {A B : Type 0} (x : Outcome A) (f : A → Outcome B)
    → Returns x
    → ((a : A) → Returns (f a))
    → Returns (x >>= f)
>>=-Returns x f (a, e) h = ((h a).0, ap (λ y. y >>= f) e ∙ (h a).1)

abbrev read_value : Outcome (SbiRet × State) → Outcome (ℕ × State)
read_value x = x >>= λ (r, t). ok (r.value, t)

module _ {ecall : Ecall} (k : ℕ) (b : AnswersBase ecall) where
  get_base-Returns : (f : ℕ) (s : State) → Returns (get_base f (handle_sbi_call ecall k) s)
  unfolding get_base
  get_base-Returns f (ctx, m) =
      let c = set_reg a7 extension_base (set_reg a6 f ctx) in
      let r : SbiRet = record { error = 0; value = b.value f } in
      (
        (b.value f, (answered c r, m)),
        ap (λ (x : Outcome State). read_value (x >>= λ t. ok (results t)))
            (handle_sbi_call-answered ecall k c m m r (b.answers f _ m) (omega arith)),
      )

  -- The probe finds the base extension.
  probe_extension-present :
      (s : State)
      → (t : State) × (probe_extension (handle_sbi_call ecall k) extension_base s
          ≡ ok (b.value 3, t))
  unfolding probe_extension
  probe_extension-present (ctx, m) =
      let c = set_reg a7 extension_base (set_reg a6 3 (set_reg a0 extension_base ctx)) in
      let r : SbiRet = record { error = 0; value = b.value 3 } in
      (
        (answered c r, m),
        ap (λ (x : Outcome State). read_value (x >>= λ t. ok (results t)))
            (handle_sbi_call-answered ecall k c m m r (b.answers 3 _ m) (omega arith)),
      )

  getters-Return :
      (s : State)
      → let e = handle_sbi_call ecall k in
        Returns (
          get_base 0 e s >>= λ (_, t). get_base 1 e t >>= λ (_, t). get_base 2 e t >>= λ (_, t).
          get_base 4 e t >>= λ (_, t).
          get_base 5 e t >>= λ (_, t). get_base 6 e t >>= λ (_, t). ok t)
  getters-Return s = >>=-Returns _ _ (get_base-Returns 0 s) λ (_, t).
      >>=-Returns _ _ (get_base-Returns 1 t) λ (_, t).
        >>=-Returns _ _ (get_base-Returns 2 t) λ (_, t).
          >>=-Returns _ _ (get_base-Returns 4 t) λ (_, t).
            >>=-Returns _ _ (get_base-Returns 5 t)
              λ (_, t). >>=-Returns _ _ (get_base-Returns 6 t) λ (_, t). (t, refl)

  test_base_extension-Returns :
      (s : State) → Returns (test_base_extension (handle_sbi_call ecall k) s)
  unfolding test_base_extension
  test_base_extension-Returns s =
      let (t, e) = probe_extension-present s in
      let (u, q) = getters-Return t in (u, ground (arith, e, q, b.present))

test_sbi_ins_emulation-Returns :
    (ecall : Instruction) (read64 : Clock)
    → Ticks read64
    → (s : State) → Returns (test_sbi_ins_emulation ecall read64 s)
unfolding test_sbi_ins_emulation
test_sbi_ins_emulation-Returns ecall read64 c s =
    let (_, t, e) = c.reading s in
    let (_, u, q) = c.reading t in (u, ground (arith, e, q, c.grows s))

send_ipi-Returns :
    (ecall : Ecall) (k mask base : ℕ) (s : State)
    → AnswersIpi ecall
    → Returns (send_ipi (handle_sbi_call ecall k) mask base s)
unfolding send_ipi
send_ipi-Returns ecall k mask base (ctx, m) a =
    let c = set_reg a7 extension_ipi (set_reg a6 0 (set_reg a1 base (set_reg a0 mask ctx))) in
    let (m', r, q, ne) = a (λ i. c.regs (a0 + i)) m in
    (
      (r, (answered c r, m')),
      ap (λ (x : Outcome State). x >>= λ t. ok (results t))
          (handle_sbi_call-answered ecall k c m m' r q ne),
    )

hart_get_status-Returns :
    {ecall : Ecall} {sbi : Sbi} {env : Calls.Env} {fuel : ℕ} (k h : ℕ) (s : State)
    → CallsHsm ecall sbi env fuel
    → IsSbi sbi
    → Returns (hart_get_status (handle_sbi_call ecall k) h s)
hart_get_status-Returns k h (ctx, m) d i = (_, (requests d i k ctx m h 0 0).2)

-- On the firmware, with the calls dispatched as documented, a clock that grows and an illegal
-- instruction that is resumed once the handler is set, hart 0 of the test kernel comes through all
-- tests to the loop at the end.
pub rust_main_passes :
    {ecall : Ecall} {sbi : Sbi} {env : Calls.Env} {fuel : ℕ} (read64 : Clock)
    (illegal : Instruction) (k start_trap mask : ℕ) (s : State)
    → CallsHsm ecall sbi env fuel
    → IsSbi sbi
    → AnswersBase ecall
    → AnswersIpi ecall
    → Ticks read64
    → ((t : State) → t.1.csr.stvec ≡ start_trap → (u : State) × (illegal t ≡ ok u))
    → (t : State) × (rust_main (handle_sbi_call ecall k) read64 illegal start_trap mask 0 s ≡ ok t)
unfolding rust_main
rust_main_passes {ecall} read64 illegal k start_trap mask s d i b a c r =
    let e = handle_sbi_call ecall k in
    >>=-Returns _ _
      (>>=-Returns _ _ (test_base_extension-Returns k b s)
        (test_sbi_ins_emulation-Returns e read64 c))
      λ t. >>=-Returns _ _ (r (write_stvec start_trap t) refl) λ t.
        >>=-Returns _ _ (hart_get_status-Returns k 0 t d i) λ (_, t).
          >>=-Returns _ _ (hart_get_status-Returns k 1 t d i)
            λ (_, t). >>=-Returns _ _ (send_ipi-Returns ecall k mask 0 t a) λ (_, t). (t, refl)

-- No other hart comes to an end: its suspension does not return, or it panics behind it.
pub rust_main_other :
    (ecall : Instruction) (read64 : Clock) (illegal : Instruction) (start_trap mask hartid : ℕ)
    (s t : State)
    → hartid ≢ 0
    → rust_main ecall read64 illegal start_trap mask hartid s ≢ ok t
unfolding rust_main panic
rust_main_other ecall read64 illegal start_trap mask hartid s t h e = ground arith
