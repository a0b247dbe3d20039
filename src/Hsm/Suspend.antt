-- ===== src/Hsm/Suspend.antt =====
-- hsm.rs: `pause`, `suspend_current_hart` and `hart_suspend` from the call to the return.
use rustsbi_hifive_unmatched.Base.{
  ℕ, suc, ◌<◌, ◌≡◌, ◌≢◌, refl, some, true, Outcome, ok, ◌>>=◌, arith, ◌∙◌, ap, ◌⊎◌,
}
use rustsbi_hifive_unmatched.Sbi.{Sbi}
use rustsbi_hifive_unmatched.Machine.{Machine}
use rustsbi_hifive_unmatched.Hsm.Data.{
  HsmState, started, suspended, resume_pending, code, start, set_state, set_command, U74Hsm,
}
use rustsbi_hifive_unmatched.Hsm.Calls.{
  Env, listen, unlisten, pause, suspend_current_hart, hart_suspend, suspend_retentive,
  suspend_non_retentive, resume_elsewhere,
}
use rustsbi_hifive_unmatched.Hsm.Answers.{Finds, Same}
use rustsbi_hifive_unmatched.Hsm.Wait.{after, Woken, wait_msoft_ends}
use rustsbi_hifive_unmatched.Hsm.Sleep.{
  IsEnv, Restored, Slept, Woken-Restored, asleep, awake, begun, hart_suspend_accepts,
  hart_suspend_accepts_non_retentive, non_retentive, pause-unlisten, retentive,
  suspend_current_hart-awake, suspended-after, unlisten-Restored,
}

module _ {env : Env} {n fuel : ℕ} (e : IsEnv env) (h : n < fuel) where
  -- `pause`, in a surrounding that wakes the hart within the fuel: it returns, by the first round
  -- that finds the interrupt pending, with the registers restored, and with the shared state as
  -- the others have left it.
  pub pause_returns :
      (m : Machine)
      → (after env 0 (suc n) (listen m)).csr.mip_msoft ≡ true
      → (m' w : Machine) × (pause env fuel m ≡ ok m')
        × Woken env 0 n (listen m) w
        × Restored m m'
        × (m'.hsm ≡ w.hsm)
  pause_returns m r =
      let (w, q, woken) = wait_msoft_ends env n fuel 0 (listen m) r h in
      let (hart, listens) = Woken-Restored e woken in
      (
        unlisten m.hart_id m.csr.mie_msoft w,
        w,
        pause-unlisten env fuel m w q,
        woken,
        unlisten-Restored m w hart listens,
        ground arith,
      )

  pub suspend_returns :
      (m : Machine)
      → (after env 0 (suc n) (asleep (begun m))).csr.mip_msoft ≡ true
      → (w : Machine) × (suspend_current_hart env fuel (begun m) ≡ ok (awake m w))
        × Woken env 0 n (asleep (begun m)) w
        × Restored m (awake m w)
  suspend_returns m r =
      let (w, q, woken) = wait_msoft_ends env n fuel 0 (asleep (begun m)) r h in
      let (hart, listens) = Woken-Restored e woken in
      (
        w,
        suspend_current_hart-awake env fuel (begun m) w q,
        woken,
        unlisten-Restored m (record w { hsm = set_state m.hart_id resume_pending w.hsm }) hart
            listens,
      )

  seen_suspended :
      (m : Machine) (k : ℕ)
      → (after env 0 k (asleep (begun m))).hsm.state m.hart_id ≡ some (code suspended)
  seen_suspended m k = suspended-after e k 0 m.hart_id (asleep (begun m)) refl (ground arith)

  Slept-awake :
      (m : Machine) (r : (after env 0 (suc n) (asleep (begun m))).csr.mip_msoft ≡ true) (g : U74Hsm)
      → ((j : ℕ) → j ≢ m.hart_id → g.state j ≡ (suspend_returns m r).0.hsm.state j)
      → Slept env n m (record (awake m (suspend_returns m r).0) { hsm = g })
  Slept-awake m r g others =
      let (w, q, woken, restored) = suspend_returns m r in
      record {
        w = w;
        woken = woken;
        seen = λ k _. seen_suspended m k;
        restored = record {
          hart = restored.hart;
          listening = restored.listening;
          cleared = restored.cleared;
        };
        others = others;
      }

  -- A retentive suspension of a started hart, in a surrounding that wakes it within the fuel and leaves
  -- it alone until then:
  -- the hart is suspended while it sleeps, and the call returns success with the hart started again.
  pub hart_suspend_retentive :
      (sbi : Sbi) (a o : ℕ) (m : Machine)
      → m.hsm.state m.hart_id ≡ some (code started)
      → (after env 0 (suc n) (asleep (begun m))).csr.mip_msoft ≡ true
      → (m' : Machine) × (hart_suspend sbi env fuel suspend_retentive a o m ≡ ok (m', sbi.ok 0))
        × (m'.hsm.state m.hart_id ≡ some (code started))
        × Slept env n m m'
  hart_suspend_retentive sbi a o m s r =
      let (w, q, _, _) = suspend_returns m r in
      let m' = awake m w in
      (
        record m' { hsm = set_state m.hart_id started m'.hsm },
        hart_suspend_accepts sbi env fuel a o m s
            ∙ ap (λ (x : Outcome Machine). x >>= retentive sbi m.hart_id) q,
        ground arith,
        Slept-awake m r _ (λ j ne. ground arith),
      )

  -- A non-retentive suspension of a started hart, in a surrounding that wakes it within the fuel and
  -- leaves it alone until then: the call comes back with
  -- the private number 0x233, the hart resume-pending, and the command to start at the given
  -- address with the given parameter stored for it.
  pub hart_suspend_non_retentive :
      (sbi : Sbi) (a o : ℕ) (m : Machine)
      → m.hsm.state m.hart_id ≡ some (code started)
      → (after env 0 (suc n) (asleep (begun m))).csr.mip_msoft ≡ true
      → (m' : Machine) × (hart_suspend sbi env fuel suspend_non_retentive a o m
          ≡ ok (m', resume_elsewhere))
        × (m'.hsm.state m.hart_id ≡ some (code resume_pending))
        × (m'.hsm.last_command m.hart_id ≡ some (start a o))
        × Slept env n m m'
  hart_suspend_non_retentive sbi a o m s r =
      let (w, q, _, _) = suspend_returns m r in
      let m' = awake m w in
      (
        record m' { hsm = set_command m.hart_id (start a o) m'.hsm },
        hart_suspend_accepts_non_retentive sbi env fuel a o m s
            ∙ ap (λ (x : Outcome Machine). x >>= non_retentive m.hart_id a o) q,
        ground arith,
        ground arith,
        Slept-awake m r _ (λ j ne. ground arith),
      )

-- A suspension of a hart that is not started fails: no state that a later call can find has
-- changed, nor any command, nor a register.
pub hart_suspend_unstarted :
    (sbi : Sbi) (env : Env) (fuel t a o : ℕ) (m : Machine) (s : HsmState)
    → (t ≡ suspend_retentive) ⊎ (t ≡ suspend_non_retentive)
    → Finds m.hsm m.hart_id s
    → s ≢ started
    → (hart_suspend sbi env fuel t a o m ≡ ok (begun m, sbi.failed))
      × Finds (begun m).hsm m.hart_id s
      × ((j : ℕ) → j ≢ m.hart_id → Same j m (begun m))
unfolding hart_suspend
hart_suspend_unstarted sbi env fuel t a o m started k f ne = absurd (ne refl)
hart_suspend_unstarted sbi env fuel t a o m s k f ne = ground arith

-- A suspension of any other kind is not supported and changes nothing.
pub hart_suspend_unsupported :
    (sbi : Sbi) (env : Env) (fuel t a o : ℕ) (m : Machine)
    → t ≢ suspend_retentive
    → t ≢ suspend_non_retentive
    → hart_suspend sbi env fuel t a o m ≡ ok (m, sbi.not_supported)
unfolding hart_suspend
hart_suspend_unsupported sbi env fuel t a o m h k = ground arith
