-- ===== src/Hsm/Diagram.antt =====
-- hsm.rs: the states of a hart move along the diagram of the SBI specification, and a request is
-- carried through.
use rustsbi_hifive_unmatched.Base.{ℕ, ◌≡◌, get_or, arith}
use rustsbi_hifive_unmatched.Csr.{Csr}
use rustsbi_hifive_unmatched.Sbi.{Sbi}
use rustsbi_hifive_unmatched.Hsm.Data.{
  started, stopped, start_pending, stop_pending, suspended, suspend_pending, resume_pending, code,
}
use rustsbi_hifive_unmatched.Hsm.Calls.{
  hart_start, hart_stop, record_current_start_finished, record_current_stop_finished,
}
use rustsbi_hifive_unmatched.Hsm.System.{
  Board, Step, ask_start, ask_stop, begin, refuse, sleep, wake, return, leave, resume, take_stop,
  park, rise, enter, Reach,
}
use rustsbi_hifive_unmatched.Hsm.Invariant.{Inv, Reach-Inv}

-- The arrows of the diagram, between the numbers of the states.
pub data Edge (a b : ℕ) : Type 0 where
  stay : a ≡ b → Edge a b
  start_request : a ≡ code stopped → b ≡ code start_pending → Edge a b
  start_done : a ≡ code start_pending → b ≡ code started → Edge a b
  stop_request : a ≡ code started → b ≡ code stop_pending → Edge a b
  stop_done : a ≡ code stop_pending → b ≡ code stopped → Edge a b
  suspend_request : a ≡ code started → b ≡ code suspend_pending → Edge a b
  suspend_done : a ≡ code suspend_pending → b ≡ code suspended → Edge a b
  resume_request : a ≡ code suspended → b ≡ code resume_pending → Edge a b
  resume_done : a ≡ code resume_pending → b ≡ code started → Edge a b

-- The state that a request would find.
abbrev pub status : Board → ℕ → ℕ
status b j = get_or (b.hsm.state j) (code stopped)

ruleset arrows = (
  stay, start_request, start_done, stop_request, stop_done, suspend_request, suspend_done,
  resume_request, resume_done,
)

-- Every locked section of every hart moves every state along an arrow, or leaves it.
Step-Edge :
    {sbi : Sbi} {b c : Board} → Step sbi b c → Inv b → (j : ℕ) → Edge (status b j) (status c j)
unfolding hart_start hart_stop record_current_start_finished record_current_stop_finished
Step-Edge (ask_start i k a o csr mmio p) h j = grind (arith, arrows, h j, h i)
Step-Edge (ask_stop i k csr mmio p) h j = grind (arith, arrows, h j, h i)
Step-Edge (begin i csr mmio p s) h j = grind (arith, arrows, h j, h i)
Step-Edge (refuse i csr mmio p s) h j = grind (arith, arrows, h j, h i)
Step-Edge (sleep i p) h j = grind (arith, arrows, h j, h i)
Step-Edge (wake i p) h j = grind (arith, arrows, h j, h i)
Step-Edge (return i p) h j = grind (arith, arrows, h j, h i)
Step-Edge (leave i a o p) h j = grind (arith, arrows, h j, h i)
Step-Edge (resume i csr mmio p) h j = grind (arith, arrows, h j, h i)
Step-Edge (take_stop i p q) h j = grind (arith, arrows, h j, h i)
Step-Edge (park i csr mmio p) h j = grind (arith, arrows, h j, h i)
Step-Edge (rise i p q) h j = grind (arith, arrows, h j, h i)
Step-Edge (enter i csr mmio p) h j = grind (arith, arrows, h j, h i)

-- On a board where a paused hart wakes only for a request to start it: in every reachable state the
-- next locked section, of whatever hart, moves the state of each hart along an arrow of the diagram
-- or leaves it.
pub Reach-Edge :
    {sbi : Sbi} {b c : Board} (j : ℕ) → Reach sbi b → Step sbi b c → Edge (status b j) (status c j)
Reach-Edge j r s = Step-Edge s (Reach-Inv r) j

-- Some sections in turn.
pub data Run (sbi : Sbi) (b : Board) : Board → Type 0 where
  here : Run sbi b b
  then : {c d : Board} → Run sbi b c → Step sbi c d → Run sbi b d

pub Run-append : {sbi : Sbi} {b c d : Board} → Run sbi b c → Run sbi c d → Run sbi b d
Run-append r here = r
Run-append r (then q s) = then (Run-append r q) s
