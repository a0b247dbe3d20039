-- ===== src/Hsm/Refine/Total.antt =====
-- hsm.rs: every way that `hart_suspend` can come to, as steps of the board.
use rustsbi_hifive_unmatched.Base.{
  ℕ, ◌≡◌, ◌≢◌, refl, some, Outcome, ok, waiting, ◌>>=◌, arith, ◌∙◌, ap, inl, inr, ◌⊎◌, Option,
}
use rustsbi_hifive_unmatched.Sbi.{Sbi, SbiRet, IsSbi}
use rustsbi_hifive_unmatched.Machine.{Machine}
use rustsbi_hifive_unmatched.Hsm.Data.{started, code, start}
use rustsbi_hifive_unmatched.Hsm.Calls.{
  Env, wait_msoft, suspend_current_hart, hart_suspend, suspend_retentive, suspend_non_retentive,
  resume_elsewhere,
}
use rustsbi_hifive_unmatched.Hsm.Wait.{wait_msoft-cases}
use rustsbi_hifive_unmatched.Hsm.Sleep.{
  IsEnv, asleep, begun, retentive, non_retentive, hart_suspend_accepts,
  hart_suspend_accepts_non_retentive,
}
use rustsbi_hifive_unmatched.Hsm.Suspend.{hart_suspend_unsupported}
use rustsbi_hifive_unmatched.Hsm.System.{Place, running, sleeping, resuming, Board, refuse}
use rustsbi_hifive_unmatched.Hsm.Diagram.{Run, here, then}
use rustsbi_hifive_unmatched.Hsm.Refine.Story.{Story}
use rustsbi_hifive_unmatched.Hsm.Refine.Suspend.{
  board, slept, hart_suspend_retentive-Run, hart_suspend_non_retentive-Run,
}

-- What a suspension comes to: the hart sleeps on, or the board has run to an answer, or to the return
-- with the private number.
pub data SuspendRun (sbi : Sbi) (place : ℕ → Place) (m : Machine) (a o : ℕ)
    (x : Outcome (Machine × SbiRet)) : Type 0 where
  sleeps_on : x ≡ waiting → SuspendRun sbi place m a o x
  answers :
      (m' : Machine) (r : SbiRet) (c : Board)
      → x ≡ ok (m', r)
      → r.error ≢ 0x233
      → Run sbi (board place m) c
      → c.hsm ≡ m'.hsm
      → c.place m.hart_id ≡ running
      → m'.hart_id ≡ m.hart_id
      → SuspendRun sbi place m a o x
  resumes :
      (m' : Machine) (c : Board)
      → x ≡ ok (m', resume_elsewhere)
      → Run sbi (board place m) c
      → c.hsm ≡ m'.hsm
      → c.place m.hart_id ≡ resuming
      → m'.hart_id ≡ m.hart_id
      → m'.hsm.last_command m.hart_id ≡ some (start a o)
      → SuspendRun sbi place m a o x

suspend_current_hart_waits :
    (env : Env) (fuel : ℕ) (m : Machine)
    → wait_msoft env fuel 0 (asleep m) ≡ waiting
    → suspend_current_hart env fuel m ≡ waiting
unfolding suspend_current_hart
suspend_current_hart_waits env fuel m h = rw h refl

kind-cases :
    (t : ℕ)
    → (t ≡ suspend_retentive)
      ⊎ (t ≡ suspend_non_retentive)
      ⊎ ((t ≢ suspend_retentive) × (t ≢ suspend_non_retentive))
kind-cases t = ground arith

started-cases : (x : Option ℕ) → (x ≡ some (code started)) ⊎ (x ≢ some (code started))
started-cases x = ground arith

module _ {sbi : Sbi} {env : Env} (fuel : ℕ) (e : IsEnv env) (i : IsSbi sbi) (place : ℕ → Place)
    (m : Machine) (runs : place m.hart_id ≡ running)
    (y : Story sbi env m.hart_id sleeping (slept place m) (asleep (begun m))) (a o : ℕ) where
  abbrev End : ℕ → Type 0
  End t = SuspendRun sbi place m a o (hart_suspend sbi env fuel t a o m)

  hart_suspend_refused :
      (t : ℕ)
      → (t ≡ suspend_retentive) ⊎ (t ≡ suspend_non_retentive)
      → m.hsm.state m.hart_id ≢ some (code started)
      → hart_suspend sbi env fuel t a o m ≡ ok (begun m, sbi.failed)
  unfolding hart_suspend
  hart_suspend_refused t k s = ground arith

  refused-SuspendRun :
      (t : ℕ)
      → (t ≡ suspend_retentive) ⊎ (t ≡ suspend_non_retentive)
      → m.hsm.state m.hart_id ≢ some (code started)
      → End t
  refused-SuspendRun t k s =
      answers (begun m) sbi.failed _ (hart_suspend_refused t k s) i.failed-ne-resume
        (then here (refuse m.hart_id m.csr m.mmio runs s)) refl runs refl

  waits :
      wait_msoft env fuel 0 (asleep (begun m)) ≡ waiting
      → suspend_current_hart env fuel (begun m) ≡ waiting
  waits = suspend_current_hart_waits env fuel (begun m)

  retentive-SuspendRun : m.hsm.state m.hart_id ≡ some (code started) → End suspend_retentive
  retentive-SuspendRun s = elim (wait_msoft-cases env fuel 0 (asleep (begun m))) [
    | inl w ↦ sleeps_on (
        hart_suspend_accepts sbi env fuel a o m s
        ∙ ap (λ (x : Outcome Machine). x >>= retentive sbi m.hart_id) (waits w))
    | inr (n, h, r) ↦
        let (m', c, q, run, same, at, hart) =
          hart_suspend_retentive-Run e h place m runs s r y a o in
        answers m' (sbi.ok 0) c q (omega (arith, i.ok_error 0)) run same at hart
  ]

  non_retentive-SuspendRun : m.hsm.state m.hart_id ≡ some (code started) → End suspend_non_retentive
  non_retentive-SuspendRun s = elim (wait_msoft-cases env fuel 0 (asleep (begun m))) [
    | inl w ↦ sleeps_on (
        hart_suspend_accepts_non_retentive sbi env fuel a o m s
        ∙ ap (λ (x : Outcome Machine). x >>= non_retentive m.hart_id a o) (waits w))
    | inr (n, h, r) ↦
        let (m', c, q, run, same, at, hart, told) =
          hart_suspend_non_retentive-Run e h place m runs s r y a o in
        resumes m' c q run same at hart told
  ]

  -- A suspension of a running hart, by any kind and in any state.
  pub hart_suspend-SuspendRun : (t : ℕ) → End t
  hart_suspend-SuspendRun t = elim (kind-cases t) [
    | inl e ↦ elim (started-cases (m.hsm.state m.hart_id)) [
      | inl s ↦ rw e (retentive-SuspendRun s)
      | inr s ↦ refused-SuspendRun t (inl e) s
    ]
    | inr (inl e) ↦ elim (started-cases (m.hsm.state m.hart_id)) [
      | inl s ↦ rw e (non_retentive-SuspendRun s)
      | inr s ↦ refused-SuspendRun t (inr e) s
    ]
    | inr (inr (ne, nf)) ↦
        answers m sbi.not_supported _ (hart_suspend_unsupported sbi env fuel t a o m ne nf)
          i.not_supported-ne-resume here refl runs refl
  ]
