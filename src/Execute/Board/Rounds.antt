-- ===== src/Execute/Board/Rounds.antt =====
-- execute.rs: the loop of one hart, for any number of traps, on the board.
use rustsbi_hifive_unmatched.Base.{
  ℕ, zero, suc, ◌≡◌, refl, some, Outcome, ◌>>=◌, ◌∙◌, ap, inl, inr, sym,
}
use rustsbi_hifive_unmatched.Sbi.{Sbi, IsSbi}
use rustsbi_hifive_unmatched.Machine.{Machine}
use rustsbi_hifive_unmatched.Hsm.Data.{start_pending, code}
use rustsbi_hifive_unmatched.Hsm.Calls.{Env}
use rustsbi_hifive_unmatched.Hsm.Wait.{Woken}
use rustsbi_hifive_unmatched.Hsm.Sleep.{IsEnv, asleep, begun}
use rustsbi_hifive_unmatched.Hsm.System.{Place, running, sleeping, parked, Board, Reach}
use rustsbi_hifive_unmatched.Hsm.Diagram.{Run-append, Run, here}
use rustsbi_hifive_unmatched.Hsm.Refine.Story.{Story, Reach-Run}
use rustsbi_hifive_unmatched.Hsm.Refine.Suspend.{board, slept}
use rustsbi_hifive_unmatched.Hsm.Refine.Stop.{halted_board}
use rustsbi_hifive_unmatched.Context.{trap_of}
use rustsbi_hifive_unmatched.Execute.{State, World, handle, round, run}
use rustsbi_hifive_unmatched.Execute.Soft.{halted}
use rustsbi_hifive_unmatched.Execute.Calls.{CallsHsm}
use rustsbi_hifive_unmatched.Execute.Board.Settles.{
  unknown, Settles, waits_on, panics, goes_on, AnswersOthers,
}
use rustsbi_hifive_unmatched.Execute.Board.Traps.{Outcome-cases, handle-Settles}

-- What surrounds a hart: the calls are dispatched as documented, with `env` as the rest of the board
-- during a suspension; the rest of the board leaves a hart that sleeps alone, and goes on with steps of
-- its own, then and while the supervisor runs; and a stopped hart is woken only by a request to
-- start it.
pub record Surrounds (sbi : Sbi) (env : Env) (fuel : ℕ) (w : World) : Type 0 where
  pub calls : CallsHsm w.ecall sbi env fuel
  pub others : AnswersOthers w.ecall
  pub codes : IsSbi sbi
  pub leaves : IsEnv env
  pub leaves_stopped : (t : ℕ) → IsEnv (w.env t)
  pub sleeps :
      (place : ℕ → Place) (m : Machine)
      → Reach sbi (board place m)
      → place m.hart_id ≡ running
      → Story sbi env m.hart_id sleeping (slept place m) (asleep (begun m))
  pub parks :
      (t : ℕ) (place : ℕ → Place) (m : Machine)
      → Reach sbi (board place m)
      → place m.hart_id ≡ running
      → Story sbi (w.env t) m.hart_id parked (halted_board place m) (halted m)
  pub asked :
      (t n : ℕ) (m v : Machine)
      → Woken (w.env t) 0 n (halted m) v
      → v.hsm.state m.hart_id ≡ some (code start_pending)
  pub supervises :
      (place : ℕ → Place) (s : State)
      → Reach sbi (board place s.1)
      → place s.1.hart_id ≡ running
      → (b : Board) × Run sbi (board place s.1) b
        × (b.hsm ≡ (w.supervisor s).1.hsm)
        × (b.place s.1.hart_id ≡ running)
        × ((w.supervisor s).1.hart_id ≡ s.1.hart_id)

board-of : (c : Board) (m : Machine) → c.hsm ≡ m.hsm → c ≡ board c.place m
board-of c m same = ap (λ h. record { hsm = h; place = c.place }) same

-- What comes behind a run of the board.
Settles-Run :
    {sbi : Sbi} {place place' : ℕ → Place} {m m' : Machine} {x : Outcome State}
    → Run sbi (board place m) (board place' m')
    → m'.hart_id ≡ m.hart_id
    → Settles sbi place' m' x
    → Settles sbi place m x
Settles-Run r h (waits_on e) = waits_on e
Settles-Run r h (panics s c e q same at hart b) =
    panics s c e (Run-append r q) same (ap c.place (sym h) ∙ at) (hart ∙ h) b
Settles-Run r h (goes_on s' c e q same at hart) =
    goes_on s' c e (Run-append r q) same (ap c.place (sym h) ∙ at) (hart ∙ h)

Settles->>= :
    {sbi : Sbi} {place : ℕ → Place} {m : Machine} {x : Outcome State} (f : State → Outcome State)
    → Settles sbi place m x
    → ((s' : State) (c : Board)
        → Run sbi (board place m) (board c.place s'.1)
        → c.place s'.1.hart_id ≡ running
        → s'.1.hart_id ≡ m.hart_id
        → Settles sbi c.place s'.1 (f s'))
    → Settles sbi place m (x >>= f)
Settles->>= f (waits_on e) k = waits_on (ap (λ y. y >>= f) e)
Settles->>= f (panics s c e q same at hart b) k = panics s c (ap (λ y. y >>= f) e) q same at hart b
Settles->>= {sbi} {place} {m} f (goes_on s' c e q same at hart) k =
    let r : Run sbi (board place m) (board c.place s'.1) = rw (← board-of c s'.1 same) q in
    rw e (Settles-Run r hart (k s' c r (ap c.place hart ∙ at) hart))

module _ {sbi : Sbi} {env : Env} {fuel : ℕ} {w : World} (u : Surrounds sbi env fuel w) where
  trap-Settles :
      (t k : ℕ) (place : ℕ → Place) (s : State)
      → k ≡ s.1.hart_id
      → Reach sbi (board place s.1)
      → place s.1.hart_id ≡ running
      → Settles sbi place s.1 (trap_of s.1.csr.mcause >>= λ trap. handle w t k trap s)
  trap-Settles t k place s h reached runs = elim (Outcome-cases (trap_of s.1.csr.mcause)) [
    | inl e ↦ waits_on (ap (λ y. y >>= λ trap. handle w t k trap s) e)
    | inr (inl e) ↦
        panics s (board place s.1) (ap (λ y. y >>= λ trap. handle w t k trap s) e) here refl runs
          refl (unknown e)
    | inr (inr (trap, e)) ↦ rw e (
        rw h (
          handle-Settles w t trap place s u.calls u.others u.leaves (u.leaves_stopped t) u.codes
            reached runs (u.sleeps place s.1 reached runs) (u.parks t place s.1 reached runs)
            (λ n v. u.asked t n s.1 v)))
  ]

  round-Settles :
      (t : ℕ) (place : ℕ → Place) (s : State)
      → Reach sbi (board place s.1)
      → place s.1.hart_id ≡ running
      → Settles sbi place s.1 (round w t s.1.hart_id s)
  unfolding round
  round-Settles t place s reached runs =
      let (b, q, same, at, hart) = u.supervises place s reached runs in
      let m' = (w.supervisor s).1 in
      let r : Run sbi (board place s.1) (board b.place m') = rw (← board-of b m' same) q in
      Settles-Run {place' = b.place} {m' = m'} r hart (
        trap-Settles t s.1.hart_id b.place (w.supervisor s) (sym hart) (Reach-Run reached r)
          (ap b.place hart ∙ at))

  -- A running hart of a reachable board goes through any number of traps, the four kinds and all SBI
  -- calls among them, where the calls of the monitor are dispatched as documented, every other call
  -- leaves the monitor alone and either answers, with another number than the private one, or does
  -- not return, the rest of the board leaves a hart that sleeps alone and goes on with steps of its
  -- own, and a stopped hart is woken only by a request to start it. Either the hart comes to the end
  -- of the last trap, and the board has run to a state with the monitor that the hart sees, in which
  -- the hart runs again; or some sleep outlasts the fuel, or a call other than those to the monitor,
  -- such as a shutdown, does not return; or the board has run to a trap in which the hart panics,
  -- because it has a command to start, the trap came from machine mode, or it is none of the four
  -- kinds.
  pub run-Settles :
      (rounds t : ℕ) (place : ℕ → Place) (s : State)
      → Reach sbi (board place s.1)
      → place s.1.hart_id ≡ running
      → Settles sbi place s.1 (run w s.1.hart_id rounds t s)
  unfolding run
  run-Settles zero t place s reached runs = goes_on s (board place s.1) refl here refl runs refl
  run-Settles (suc rounds) t place s reached runs =
      Settles->>= (run w s.1.hart_id rounds (suc t)) (round-Settles t place s reached runs)
        (λ s' c r at hart.
          rw (← hart) (run-Settles rounds (suc t) c.place s' (Reach-Run reached r) at))
