-- ===== src/Hsm/Calls.antt =====
-- hsm.rs: the functions of `U74Hsm`, each for the hart whose registers the machine holds.
use rustsbi_hifive_unmatched.Base.{
  ℕ, zero, suc, ◌==◌, if◌then◌else◌, Option, none, some, Bool, true, false, not, ◌&&◌, Outcome, ok,
  waiting, ◌>>=◌,
}
use rustsbi_hifive_unmatched.Csr.{is_supervisor, is_user}
use rustsbi_hifive_unmatched.Clint
use rustsbi_hifive_unmatched.Sbi.{Sbi, SbiRet}
use rustsbi_hifive_unmatched.Machine.{Machine}
use rustsbi_hifive_unmatched.Hsm.Data.{
  started, stopped, start_pending, stop_pending, suspended, suspend_pending, resume_pending,
  HsmCommand, start, stop, exchange, set_state, set_command, failed_with, succeeded_with, is_err,
}

abbrev pub clint : Clint.Clint
clint = Clint.new 0x2000000

unfoldable pub last_command : Machine → Option HsmCommand
last_command m = m.hsm.last_command m.hart_id

unfoldable pub record_current_stop_finished : Machine → Machine
record_current_stop_finished m = record m { hsm = set_state m.hart_id stopped m.hsm }

unfoldable pub record_current_start_finished : Machine → Machine
record_current_start_finished m = record m { hsm = set_state m.hart_id started m.hsm }

abbrev send_soft : ℕ → Machine → Machine
send_soft hart_id m = record m { mmio = Clint.send_soft clint hart_id m.mmio }

abbrev clear_soft : ℕ → Machine → Machine
clear_soft hart_id m = record m { mmio = Clint.clear_soft clint hart_id m.mmio }

unfoldable pub hart_start : Sbi → ℕ → ℕ → ℕ → Machine → Machine × SbiRet
hart_start sbi hart_id start_addr opaque m =
    let mpp = m.csr.mstatus.mpp in
    if not (is_supervisor mpp) && not (is_user mpp)
    then (m, sbi.invalid_param)
    else let (current_state, h) = exchange hart_id stopped start_pending m.hsm in
      if failed_with started current_state
      then (record m { hsm = h }, sbi.already_available)
      else if not (succeeded_with stopped current_state)
      then (record m { hsm = h }, sbi.invalid_param)
      else (
        send_soft hart_id (record m { hsm = set_command hart_id (start start_addr opaque) h }),
        sbi.ok 0,
      )

unfoldable pub hart_stop : Sbi → ℕ → Machine → Machine × SbiRet
hart_stop sbi hart_id m =
    let (current_state, h) = exchange hart_id started stop_pending m.hsm in
    if is_err current_state
    then (record m { hsm = h }, sbi.failed)
    else (send_soft hart_id (record m { hsm = set_command hart_id stop h }), sbi.ok 0)

unfoldable pub hart_get_status : Sbi → ℕ → Machine → SbiRet
hart_get_status sbi hart_id m = elim (m.hsm.state hart_id) [
  | none ↦ sbi.invalid_param
  | some a ↦ sbi.ok a
]

-- Everything that goes on beside the code of the hart while it sleeps: `env i` is what has changed
-- when the `i`th `wfi` of a wait returns.
abbrev pub Env : Type 0
Env = ℕ → Machine → Machine

-- `loop { wfi(); if mip::read().msoft() { break } }`, from the `i`th round on.
unfoldable pub wait_msoft : Env → ℕ → ℕ → Machine → Outcome Machine
wait_msoft env zero i m = waiting
wait_msoft env (suc fuel) i m =
    let m' = env i m in
    let rest = wait_msoft env fuel (suc i) m' in if m'.csr.mip_msoft then ok m' else rest

-- What stands before the loop in `pause` and `suspend_current_hart`: the interrupt is cleared and
-- listened to.
abbrev pub listen : Machine → Machine
listen m =
    let m₁ = clear_soft m.hart_id m in
    record m₁ { csr = record (m.csr) { mip_msoft = false; mie_msoft = true } }

-- What stands behind it: the interrupt is listened to only if it was before, and is cleared.
abbrev pub unlisten : ℕ → Bool → Machine → Machine
unlisten hart_id prev_msoft m =
    clear_soft hart_id
      (if prev_msoft then m else record m { csr = record (m.csr) { mie_msoft = false } })

unfoldable pub suspend_current_hart : Env → ℕ → Machine → Outcome Machine
suspend_current_hart env fuel m =
    let hart_id = m.hart_id in
    let prev_msoft = m.csr.mie_msoft in
    let m₁ = listen m in
    let m₂ = record m₁ { hsm = set_state hart_id suspended m₁.hsm } in
    wait_msoft env fuel 0 m₂ >>= λ m₃.
    ok (unlisten hart_id prev_msoft (record m₃ { hsm = set_state hart_id resume_pending m₃.hsm }))

unfoldable pub pause : Env → ℕ → Machine → Outcome Machine
pause env fuel m =
    let hart_id = m.hart_id in
    let prev_msoft = m.csr.mie_msoft in
    wait_msoft env fuel 0 (listen m) >>= λ m₁. ok (unlisten hart_id prev_msoft m₁)

abbrev pub suspend_retentive : ℕ
suspend_retentive = 0x00000000

abbrev pub suspend_non_retentive : ℕ
suspend_non_retentive = 0x80000000

-- The number by which a non-retentive suspend tells `execute_supervisor` to resume elsewhere.
abbrev pub resume_elsewhere : SbiRet
resume_elsewhere = record { error = 0x233; value = 0x0 }

-- `suspend_type` is a `u32`: a caller gives it modulo 2 ^ 32.
unfoldable pub hart_suspend : Sbi → Env → ℕ → ℕ → ℕ → ℕ → Machine → Outcome (Machine × SbiRet)
hart_suspend sbi env fuel suspend_type resume_addr opaque m =
    let hart_id = m.hart_id in
    let (current_state, h) = exchange hart_id started suspend_pending m.hsm in
    let m₁ = record m { hsm = h } in
    if suspend_type == suspend_retentive
    then if is_err current_state
      then ok (m₁, sbi.failed)
      else (suspend_current_hart env fuel m₁ >>= λ m₂.
          ok (record m₂ { hsm = set_state hart_id started m₂.hsm }, sbi.ok 0))
    else if suspend_type == suspend_non_retentive
    then if is_err current_state
      then ok (m₁, sbi.failed)
      else (suspend_current_hart env fuel m₁ >>= λ m₂. ok (
        record m₂ { hsm = set_command hart_id (start resume_addr opaque) m₂.hsm },
        resume_elsewhere,
      ))
    else ok (m, sbi.not_supported)
