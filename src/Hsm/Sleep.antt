-- ===== src/Hsm/Sleep.antt =====
-- hsm.rs: what a sleep in `pause` or `suspend_current_hart` leaves of the machine, and what the rest
-- of the board may do meanwhile.
use rustsbi_hifive_unmatched.Base.{
  ℕ, zero, suc, ◌≡◌, ◌≢◌, refl, some, true, false, Outcome, ok, ◌>>=◌, arith, ◌∙◌, subst, ap, ◌≤◌,
}
use rustsbi_hifive_unmatched.Clint.{msip_address, clear_soft}
use rustsbi_hifive_unmatched.Sbi.{Sbi, SbiRet}
use rustsbi_hifive_unmatched.Machine.{Machine}
use rustsbi_hifive_unmatched.Hsm.Data.{
  started, suspended, suspend_pending, resume_pending, code, start, set_state, exchange,
  set_command, is_err,
}
use rustsbi_hifive_unmatched.Hsm.Calls.{
  clint, Env, wait_msoft, listen, unlisten, pause, suspend_current_hart, hart_suspend,
  suspend_retentive, suspend_non_retentive, resume_elsewhere,
}
use rustsbi_hifive_unmatched.Hsm.Wait.{after, Woken}

-- What the rest of the board does not do to a sleeping hart: it does not change its number, nor
-- what it listens to, nor its state while it is suspended.
pub record IsEnv (env : Env) : Type 0 where
  pub hart : (i : ℕ) (m : Machine) → (env i m).hart_id ≡ m.hart_id
  pub listens : (i : ℕ) (m : Machine) → (env i m).csr.mie_msoft ≡ m.csr.mie_msoft
  pub leaves :
      (i : ℕ) (m : Machine)
      → m.hsm.state m.hart_id ≡ some (code suspended)
      → (env i m).hsm.state m.hart_id ≡ some (code suspended)

module _ {env : Env} (e : IsEnv env) where
  hart-after : (n i : ℕ) (m : Machine) → (after env i n m).hart_id ≡ m.hart_id
  hart-after zero i m = refl
  hart-after (suc n) i m = hart-after n (suc i) (env i m) ∙ e.hart i m

  suspended-leaves :
      (i k : ℕ) (m : Machine)
      → m.hart_id ≡ k
      → m.hsm.state k ≡ some (code suspended)
      → (env i m).hsm.state k ≡ some (code suspended)
  suspended-leaves i k m h =
      subst
        (λ k. m.hsm.state k ≡ some (code suspended) → (env i m).hsm.state k ≡ some (code suspended))
        h (e.leaves i m)

  pub suspended-after :
      (n i k : ℕ) (m : Machine)
      → m.hart_id ≡ k
      → m.hsm.state k ≡ some (code suspended)
      → (after env i n m).hsm.state k ≡ some (code suspended)
  suspended-after zero i k m h s = s
  suspended-after (suc n) i k m h s =
      suspended-after n (suc i) k (env i m) (e.hart i m ∙ h) (suspended-leaves i k m h s)

  listens-after : (n i : ℕ) (m : Machine) → (after env i n m).csr.mie_msoft ≡ m.csr.mie_msoft
  listens-after zero i m = refl
  listens-after (suc n) i m = listens-after n (suc i) (env i m) ∙ e.listens i m

-- The machine on which a suspended hart sleeps, and the one with which it returns.
abbrev pub asleep : Machine → Machine
asleep m = let m₁ = listen m in record m₁ { hsm = set_state m.hart_id suspended m₁.hsm }

abbrev pub awake : Machine → Machine → Machine
awake m w =
    unlisten m.hart_id m.csr.mie_msoft (record w { hsm = set_state m.hart_id resume_pending w.hsm })

pub suspend_current_hart-awake :
    (env : Env) (fuel : ℕ) (m w : Machine)
    → wait_msoft env fuel 0 (asleep m) ≡ ok w
    → suspend_current_hart env fuel m ≡ ok (awake m w)
unfolding suspend_current_hart
suspend_current_hart-awake env fuel m w h = rw h

pub pause-unlisten :
    (env : Env) (fuel : ℕ) (m w : Machine)
    → wait_msoft env fuel 0 (listen m) ≡ ok w
    → pause env fuel m ≡ ok (unlisten m.hart_id m.csr.mie_msoft w)
unfolding pause
pause-unlisten env fuel m w h = rw h

-- What a sleep leaves of the registers: what was listened to before is listened to again, and the
-- software interrupt of the hart is cleared.
pub record Restored (m m' : Machine) : Type 0 where
  pub hart : m'.hart_id ≡ m.hart_id
  pub listening : m'.csr.mie_msoft ≡ m.csr.mie_msoft
  pub cleared : m'.mmio (msip_address clint m.hart_id) ≡ 0

pub unlisten-Restored :
    (m w : Machine)
    → w.hart_id ≡ m.hart_id
    → w.csr.mie_msoft ≡ true
    → Restored m (unlisten m.hart_id m.csr.mie_msoft w)
unfolding clear_soft
unlisten-Restored m w h l = ground arith

pub Woken-Restored :
    {env : Env} {n : ℕ} {m w : Machine}
    → IsEnv env
    → Woken env 0 n m w
    → (w.hart_id ≡ m.hart_id) × (w.csr.mie_msoft ≡ m.csr.mie_msoft)
Woken-Restored {m} e r = (
  ap (λ (w : Machine). w.hart_id) r.reached ∙ hart-after e (suc r.rounds) 0 m,
  ap (λ (w : Machine). w.csr.mie_msoft) r.reached ∙ listens-after e (suc r.rounds) 0 m,
)

-- The machine once the suspension is accepted.
abbrev pub begun : Machine → Machine
begun m = record m { hsm = (exchange m.hart_id started suspend_pending m.hsm).1 }

-- What the two kinds of suspension do with the machine that comes back from the sleep.
abbrev pub retentive : Sbi → ℕ → Machine → Outcome (Machine × SbiRet)
retentive sbi k m = ok (record m { hsm = set_state k started m.hsm }, sbi.ok 0)

abbrev pub non_retentive : ℕ → ℕ → ℕ → Machine → Outcome (Machine × SbiRet)
non_retentive k a o m = ok (record m { hsm = set_command k (start a o) m.hsm }, resume_elsewhere)

accepted :
    (m : Machine)
    → m.hsm.state m.hart_id ≡ some (code started)
    → is_err (exchange m.hart_id started suspend_pending m.hsm).0 ≡ false
accepted m s = ground arith

module _ (sbi : Sbi) (env : Env) (fuel a o : ℕ) (m : Machine)
    (s : m.hsm.state m.hart_id ≡ some (code started)) where
  pub hart_suspend_accepts :
      hart_suspend sbi env fuel suspend_retentive a o m
      ≡ (suspend_current_hart env fuel (begun m) >>= retentive sbi m.hart_id)
  unfolding hart_suspend
  hart_suspend_accepts = rw (accepted m s)

  pub hart_suspend_accepts_non_retentive :
      hart_suspend sbi env fuel suspend_non_retentive a o m
      ≡ (suspend_current_hart env fuel (begun m) >>= non_retentive m.hart_id a o)
  unfolding hart_suspend
  hart_suspend_accepts_non_retentive = rw (accepted m s)

-- A sleep that ends within `bound` rounds: `w` is the machine at its end, during it every round
-- finds the hart suspended, and behind it the registers are restored and `m'` differs from `w` in
-- the state of no other hart.
pub record Slept (env : Env) (bound : ℕ) (m m' : Machine) : Type 0 where
  pub w : Machine
  pub woken : Woken env 0 bound (asleep (begun m)) w
  pub seen :
      (k : ℕ)
      → k ≤ woken.rounds
      → (after env 0 k (asleep (begun m))).hsm.state m.hart_id ≡ some (code suspended)
  pub restored : Restored m m'
  pub others : (j : ℕ) → j ≢ m.hart_id → m'.hsm.state j ≡ w.hsm.state j
