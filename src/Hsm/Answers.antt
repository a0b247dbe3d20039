-- ===== src/Hsm/Answers.antt =====
-- hsm.rs: what `hart_start`, `hart_stop` and `hart_get_status` answer and change, for each state
-- that the hart can be in, against a table of the state machine.
use rustsbi_hifive_unmatched.Base.{ℕ, ◌<◌, ◌≡◌, ◌≢◌, ◌↔◌, Option, some, get_or, update, arith}
use rustsbi_hifive_unmatched.Csr.{Mpp}
use rustsbi_hifive_unmatched.Clint.{Mmio, msip_address, mtimecmp_address, send_soft}
use rustsbi_hifive_unmatched.Sbi.{Sbi, SbiRet, IsSbi}
use rustsbi_hifive_unmatched.Machine.{Machine}
use rustsbi_hifive_unmatched.Hsm.Data.{
  HsmState, started, stopped, start_pending, stop_pending, code, HsmCommand, start, stop, U74Hsm,
}
use rustsbi_hifive_unmatched.Hsm.Calls.{clint, hart_start, hart_stop, hart_get_status}

-- The state that a request finds: a hart with no entry counts as stopped.
abbrev pub Finds : U74Hsm → ℕ → HsmState → Type 0
Finds h k s = get_or (h.state k) (code stopped) ≡ code s

-- Nothing of hart `j` differs.
abbrev pub Same : ℕ → Machine → Machine → Type 0
Same j m m' =
    (m'.hsm.state j ≡ m.hsm.state j)
    × (m'.hsm.last_command j ≡ m.hsm.last_command j)
    × (m'.mmio (msip_address clint j) ≡ m.mmio (msip_address clint j))

-- The table of `hart_start`.
abbrev pub start_answer : Sbi → HsmState → SbiRet
start_answer sbi stopped = sbi.ok 0
start_answer sbi started = sbi.already_available
start_answer sbi _ = sbi.invalid_param

abbrev pub start_next : HsmState → HsmState
start_next stopped = start_pending
start_next s = s

-- The table of `hart_stop`.
abbrev pub stop_answer : Sbi → HsmState → SbiRet
stop_answer sbi started = sbi.ok 0
stop_answer sbi _ = sbi.failed

abbrev pub stop_next : HsmState → HsmState
stop_next started = stop_pending
stop_next s = s

-- The command that a hart is left with: the new one, if its state has changed.
abbrev pub told : HsmState → HsmState → HsmCommand → Option HsmCommand → Option HsmCommand
told stopped start_pending c old = some c
told started stop_pending c old = some c
told _ _ c old = old

-- The device registers: the software interrupt of the hart is raised, if its state has changed.
abbrev pub rung : HsmState → HsmState → ℕ → Mmio → Mmio
rung stopped start_pending k mmio = update mmio (msip_address clint k) 1
rung started stop_pending k mmio = update mmio (msip_address clint k) 1
rung _ _ k mmio = mmio

abbrev pub IsBelowMachine : Machine → Type 0
IsBelowMachine m = m.csr.mstatus.mpp ≢ Mpp.machine

-- The timer of hart `j` is the same too.
abbrev pub SameTimer : ℕ → Machine → Machine → Type 0
SameTimer j m m' = m'.mmio (mtimecmp_address clint j) ≡ m.mmio (mtimecmp_address clint j)

-- A request to start a hart, made below machine mode for a number below 4096, as far as the interruptor
-- has registers, is answered by the table for the state that it finds: only a stopped hart becomes
-- start-pending, only then it gets the command with the address and the parameter and its software
-- interrupt is raised, and no other hart with registers there is touched, nor any timer.
pub hart_start-table :
    (sbi : Sbi) (k a o : ℕ) (m : Machine) (s : HsmState)
    → k < 4096
    → IsBelowMachine m
    → Finds m.hsm k s
    → let (m', r) = hart_start sbi k a o m in
      (r ≡ start_answer sbi s)
      × (m'.hsm.state k ≡ some (code (start_next s)))
      × (m'.hsm.last_command k ≡ told s (start_next s) (start a o) (m.hsm.last_command k))
      × (m'.mmio ≡ rung s (start_next s) k m.mmio)
      × ((j : ℕ) → j < 4096 → j ≢ k → Same j m m')
      × ((j : ℕ) → j < 4096 → SameTimer j m m')
unfolding hart_start send_soft
hart_start-table sbi k a o m started l b f = ground arith
hart_start-table sbi k a o m stopped l b f = ground arith
hart_start-table sbi k a o m s l b f = ground arith

-- A request from machine mode is refused, and nothing changes.
pub hart_start_machine :
    (sbi : Sbi) (k a o : ℕ) (m : Machine)
    → m.csr.mstatus.mpp ≡ Mpp.machine
    → hart_start sbi k a o m ≡ (m, sbi.invalid_param)
unfolding hart_start
hart_start_machine sbi k a o m e = ground arith

-- A request to stop a hart is answered by the table for the state that it finds: only a started
-- hart becomes stop-pending, only then it gets the command and its software interrupt is raised,
-- and no other hart is touched.
pub hart_stop-table :
    (sbi : Sbi) (k : ℕ) (m : Machine) (s : HsmState)
    → Finds m.hsm k s
    → let (m', r) = hart_stop sbi k m in
      (r ≡ stop_answer sbi s)
      × (m'.hsm.state k ≡ some (code (stop_next s)))
      × (m'.hsm.last_command k ≡ told s (stop_next s) stop (m.hsm.last_command k))
      × (m'.mmio ≡ rung s (stop_next s) k m.mmio)
      × ((j : ℕ) → j ≢ k → Same j m m')
unfolding hart_stop send_soft
hart_stop-table sbi k m started f = ground arith
hart_stop-table sbi k m stopped f = ground arith
hart_stop-table sbi k m s f = ground arith

-- `hart_start` reports success exactly when it was called below machine mode for a hart that was
-- stopped or unknown, provided that the codes of `rustsbi` are told apart.
pub hart_start_succeeds :
    (sbi : Sbi) (k a o : ℕ) (m : Machine)
    → IsSbi sbi
    → ((hart_start sbi k a o m).1.error ≡ 0) ↔ (IsBelowMachine m × Finds m.hsm k stopped)
unfolding hart_start
hart_start_succeeds sbi k a o m i = ground (arith, i.ok_error 0)

hart_start-state :
    (sbi : Sbi) (k a o : ℕ) (m : Machine) (s : HsmState)
    → IsBelowMachine m
    → Finds m.hsm k s
    → (hart_start sbi k a o m).0.hsm.state k ≡ some (code (start_next s))
unfolding hart_start
hart_start-state sbi k a o m started b f = ground arith
hart_start-state sbi k a o m stopped b f = ground arith
hart_start-state sbi k a o m s b f = ground arith

-- What `hart_get_status` reports after a request to start a hart, made below machine mode: the
-- state by the table, also for a number that no request named before.
pub hart_get_status-hart_start :
    (sbi : Sbi) (k a o : ℕ) (m : Machine) (s : HsmState)
    → IsBelowMachine m
    → Finds m.hsm k s
    → hart_get_status sbi k (hart_start sbi k a o m).0 ≡ sbi.ok (code (start_next s))
unfolding hart_get_status
hart_get_status-hart_start sbi k a o m s b f = ground (arith, hart_start-state sbi k a o m s b f)
