-- ===== src/Hsm/Wait.antt =====
-- hsm.rs: the wait for a software interrupt, and what `pause` and a suspension make of it.
use rustsbi_hifive_unmatched.Base.{
  ℕ, zero, suc, ◌≤◌, ◌<◌, ◌≡◌, refl, true, false, Bool-cases, ◌⊎◌, ok, waiting, arith, ◌∙◌, inl,
  inr,
}
use rustsbi_hifive_unmatched.Machine.{Machine}
use rustsbi_hifive_unmatched.Hsm.Calls.{Env, wait_msoft}

-- The machine after `n` rounds of sleep, from the `i`th on.
abbrev pub after : Env → ℕ → ℕ → Machine → Machine
after env i zero m = m
after env i (suc n) m = after env (suc i) n (env i m)

-- How a wait that ends has ended: after the first round that finds the interrupt pending.
pub record Woken (env : Env) (i bound : ℕ) (m m' : Machine) : Type 0 where
  pub rounds : ℕ
  pub soon : rounds ≤ bound
  pub reached : m' ≡ after env i (suc rounds) m
  pub raised : m'.csr.mip_msoft ≡ true
  pub asleep : (k : ℕ) → k < rounds → (after env i (suc k) m).csr.mip_msoft ≡ false

Woken-suc :
    {env : Env} {i bound : ℕ} {m m' : Machine}
    → (env i m).csr.mip_msoft ≡ false
    → Woken env (suc i) bound (env i m) m'
    → Woken env i (suc bound) m m'
Woken-suc {env} {i} {bound} {m} {m'} quiet w = record {
  rounds = suc w.rounds;
  soon = omega (arith, w.soon);
  reached = w.reached;
  raised = w.raised;
  asleep = asleep;
}
  where
    asleep : (k : ℕ) → k < suc w.rounds → (after env i (suc k) m).csr.mip_msoft ≡ false
    asleep zero h = quiet
    asleep (suc k) h = w.asleep k (omega arith)

wait_msoft_now :
    (env : Env) (fuel i : ℕ) (m : Machine)
    → (env i m).csr.mip_msoft ≡ true
    → wait_msoft env (suc fuel) i m ≡ ok (env i m)
unfolding wait_msoft
wait_msoft_now env fuel i m h = ground arith

wait_msoft_later :
    (env : Env) (fuel i : ℕ) (m : Machine)
    → (env i m).csr.mip_msoft ≡ false
    → wait_msoft env (suc fuel) i m ≡ wait_msoft env fuel (suc i) (env i m)
unfolding wait_msoft
wait_msoft_later env fuel i m h = ground arith

Woken-now :
    {env : Env} {i bound : ℕ} {m : Machine}
    → (env i m).csr.mip_msoft ≡ true
    → Woken env i bound m (env i m)
Woken-now r = record {
  rounds = 0;
  soon = omega arith;
  reached = refl;
  raised = r;
  asleep = λ k h. absurd (omega arith);
}

-- If the interrupt is found pending after some round, then a wait with fuel beyond that round ends, by
-- the first such round.
pub wait_msoft_ends :
    (env : Env) (n fuel i : ℕ) (m : Machine)
    → (after env i (suc n) m).csr.mip_msoft ≡ true
    → n < fuel
    → (m' : Machine) × (wait_msoft env fuel i m ≡ ok m') × Woken env i n m m'
wait_msoft_ends env n zero i m r h = absurd (omega arith)
wait_msoft_ends env zero (suc fuel) i m r h = (env i m, wait_msoft_now env fuel i m r, Woken-now r)
wait_msoft_ends env (suc n) (suc fuel) i m r h = elim (Bool-cases ((env i m).csr.mip_msoft)) [
  | inl now ↦ (env i m, wait_msoft_now env fuel i m now, Woken-now now)
  | inr later ↦
      let (m', e, w) = wait_msoft_ends env n fuel (suc i) (env i m) r (omega arith) in
      (m', wait_msoft_later env fuel i m later ∙ e, Woken-suc later w)
]

-- If the interrupt is never found pending the hart sleeps on, whatever the fuel.
pub wait_msoft_sleeps :
    (env : Env) (fuel i : ℕ) (m : Machine)
    → ((n : ℕ) → (after env i (suc n) m).csr.mip_msoft ≡ false)
    → wait_msoft env fuel i m ≡ waiting
unfolding wait_msoft
wait_msoft_sleeps env zero i m h = refl
wait_msoft_sleeps env (suc fuel) i m h =
    wait_msoft_later env fuel i m (h 0)
    ∙ wait_msoft_sleeps env fuel (suc i) (env i m) (λ n. h (suc n))

-- Within the fuel, either the hart sleeps on or some round finds the interrupt pending.
pub wait_msoft-cases :
    (env : Env) (fuel i : ℕ) (m : Machine)
    → (wait_msoft env fuel i m ≡ waiting)
      ⊎ ((n : ℕ) × (n < fuel) × ((after env i (suc n) m).csr.mip_msoft ≡ true))
unfolding wait_msoft
wait_msoft-cases env zero i m = inl refl
wait_msoft-cases env (suc fuel) i m = elim (Bool-cases ((env i m).csr.mip_msoft)) [
  | inl now ↦ inr (0, omega arith, now)
  | inr later ↦ elim (wait_msoft-cases env fuel (suc i) (env i m)) [
    | inl e ↦ inl (wait_msoft_later env fuel i m later ∙ e)
    | inr (n, h, r) ↦ inr (suc n, omega (arith, h), r)
  ]
]
