-- ===== src/Hsm/Invariant.antt =====
-- hsm.rs: in every interleaving the recorded state of a hart says where the hart stands, a hart that
-- is to start or stop has its command, and states move along the diagram of the SBI specification.
use rustsbi_hifive_unmatched.Base.{ℕ, ◌≡◌, ◌⊎◌, Option, some, get_or, arith}
use rustsbi_hifive_unmatched.Sbi.{Sbi}
use rustsbi_hifive_unmatched.Hsm.Data.{
  started, stopped, start_pending, stop_pending, suspended, suspend_pending, resume_pending, code,
  HsmCommand, start, stop,
}
use rustsbi_hifive_unmatched.Hsm.Calls.{
  hart_start, hart_stop, record_current_start_finished, record_current_stop_finished,
}
use rustsbi_hifive_unmatched.Hsm.System.{
  Place, parked, woken, running, suspending, sleeping, waking, resuming, stopping, Board, Step,
  ask_start, ask_stop, begin, refuse, sleep, wake, return, leave, resume, take_stop, park, rise,
  enter, booted, Reach, boot, next,
}

-- A command to start, whatever its address and parameter.
abbrev pub IsStart : Option HsmCommand → Type 0
IsStart (some (start a o)) = Unit {0}
IsStart _ = ⊥

abbrev pub IsNoStop : Option HsmCommand → Type 0
IsNoStop (some stop) = ⊥
IsNoStop _ = Unit {0}

-- What the recorded state and command of a hart are, by the place where the hart stands.
abbrev pub Agrees : Place → Option ℕ → Option HsmCommand → Type 0
Agrees parked s c =
    (get_or s (code stopped) ≡ code stopped) ⊎ ((s ≡ some (code start_pending)) × IsStart c)
Agrees woken s c = (s ≡ some (code start_pending)) × IsStart c
Agrees running s c =
    ((s ≡ some (code started)) × IsNoStop c) ⊎ ((s ≡ some (code stop_pending)) × (c ≡ some stop))
Agrees suspending s c = (s ≡ some (code suspend_pending)) × IsNoStop c
Agrees sleeping s c = (s ≡ some (code suspended)) × IsNoStop c
Agrees waking s c = (s ≡ some (code resume_pending)) × IsNoStop c
Agrees resuming s c = (s ≡ some (code resume_pending)) × IsStart c
Agrees stopping s c = (s ≡ some (code stop_pending)) × (c ≡ some stop)

abbrev pub Inv : Board → Type 0
Inv b = (j : ℕ) → Agrees (b.place j) (b.hsm.state j) (b.hsm.last_command j)

-- Every locked section of every hart keeps the invariant.
pub Step-Inv : {sbi : Sbi} {b c : Board} → Step sbi b c → Inv b → Inv c
unfolding hart_start hart_stop record_current_start_finished record_current_stop_finished
Step-Inv (ask_start i k a o csr mmio p) h j = ground (arith, h j, h i)
Step-Inv (ask_stop i k csr mmio p) h j = ground (arith, h j, h i)
Step-Inv (begin i csr mmio p s) h j = ground (arith, h j, h i)
Step-Inv (refuse i csr mmio p s) h j = ground (arith, h j, h i)
Step-Inv (sleep i p) h j = ground (arith, h j, h i)
Step-Inv (wake i p) h j = ground (arith, h j, h i)
Step-Inv (return i p) h j = ground (arith, h j, h i)
Step-Inv (leave i a o p) h j = ground (arith, h j, h i)
Step-Inv (resume i csr mmio p) h j = ground (arith, h j, h i)
Step-Inv (take_stop i p q) h j = ground (arith, h j, h i)
Step-Inv (park i csr mmio p) h j = ground (arith, h j, h i)
Step-Inv (rise i p q) h j = ground (arith, h j, h i)
Step-Inv (enter i csr mmio p) h j = ground (arith, h j, h i)

booted-Inv : Inv booted
booted-Inv j = ground arith

-- On a board where a paused hart wakes only for a request to start it: in every reachable state, what
-- is recorded of each hart agrees with where it stands. A paused hart is stopped, or start-pending with
-- a command to start; one that has woken is start-pending with that command; a running one is started,
-- or stop-pending with the command to stop, which it still has when it stops; one that suspends,
-- sleeps or wakes up is in the state of that name, and resumes elsewhere only with a command to start.
pub Reach-Inv : {sbi : Sbi} {b : Board} → Reach sbi b → Inv b
Reach-Inv boot = booted-Inv
Reach-Inv (next r s) = Step-Inv s (Reach-Inv r)

-- On a board where a paused hart wakes only for a request to start it: in every reachable state, a
-- hart that is to start is paused or has just woken, with a command to start stored for it; one that
-- is to stop has the command to stop, and has not yet paused.
pub Reach_pending :
    {sbi : Sbi} {b : Board} (j : ℕ)
    → Reach sbi b
    → (b.hsm.state j ≡ some (code start_pending)
        → IsStart (b.hsm.last_command j) × ((b.place j ≡ parked) ⊎ (b.place j ≡ woken)))
      × (b.hsm.state j ≡ some (code stop_pending)
          → (b.hsm.last_command j ≡ some stop) × ((b.place j ≡ running) ⊎ (b.place j ≡ stopping)))
Reach_pending {b} j r = ground (arith, Reach-Inv r j)
