-- ===== src/Hsm/Data.antt =====
-- hsm.rs: hart states, commands, and the two maps. A map behind a lock is its content; what the code
-- does while it holds the lock is one step.
use rustsbi_hifive_unmatched.Base.{
  ℕ, ◌==◌, if◌then◌else◌, Option, none, some, update, or_insert, get_or, Bool, true, false,
}

-- `HsmState`, whose constructors are the numbers that the atomics hold.
pub data HsmState : Type 0 where
  started stopped start_pending stop_pending suspended suspend_pending resume_pending : HsmState

-- `as u8`
abbrev pub code : HsmState → ℕ
code started = 0
code stopped = 1
code start_pending = 2
code stop_pending = 3
code suspended = 4
code suspend_pending = 5
code resume_pending = 6

pub data HsmCommand : Type 0 where
  start : ℕ → ℕ → HsmCommand
  stop : HsmCommand

pub record U74Hsm : Type 0 where
  pub state : ℕ → Option ℕ
  pub last_command : ℕ → Option HsmCommand

abbrev pub new : U74Hsm
new = record { state = λ _. none; last_command = λ _. none }

-- The result of `compare_exchange`: the old number, when it was the expected one, or an error.
pub data Exchanged : Type 0 where
  succeeded failed : ℕ → Exchanged

-- `state.entry(k).or_insert(Stopped).compare_exchange(expected, next, ..)`
abbrev pub exchange : ℕ → HsmState → HsmState → U74Hsm → Exchanged × U74Hsm
exchange k expected next h =
    let current = get_or (h.state k) (code stopped) in
    if current == code expected
    then (succeeded current, record h { state = update h.state k (some (code next)) })
    else (failed current, record h { state = or_insert h.state k (code stopped) })

-- `state.entry(k).insert(..)`
abbrev pub set_state : ℕ → HsmState → U74Hsm → U74Hsm
set_state k s h = record h { state = update h.state k (some (code s)) }

-- `last_command.entry(k).insert(..)`
abbrev pub set_command : ℕ → HsmCommand → U74Hsm → U74Hsm
set_command k c h = record h { last_command = update h.last_command k (some c) }

-- `current_state == Err(s)` and `current_state == Ok(s)`
abbrev pub failed_with : HsmState → Exchanged → Bool
failed_with s (succeeded n) = false
failed_with s (failed n) = n == code s

abbrev pub succeeded_with : HsmState → Exchanged → Bool
succeeded_with s (succeeded n) = n == code s
succeeded_with s (failed n) = false

abbrev pub is_err : Exchanged → Bool
is_err (succeeded n) = false
is_err (failed n) = true
