-- ===== src/Tests/Loop.antt =====
-- Traps, calls and the start of the harts.
use rustsbi_hifive_unmatched.Base.{
  ℕ, ◌%◌, ◌^◌, ◌<◌, ◌≡◌, ◌≢◌, ◌↔◌, ◌⊎◌, refl, some, none, false, ok, panicked, arith, ◌==◌,
  if◌then◌else◌,
}
use rustsbi_hifive_unmatched.Csr.{Mpp}
use rustsbi_hifive_unmatched.Sbi.{spec_sbi, spec_sbi-IsSbi}
use rustsbi_hifive_unmatched.Machine.{Machine}
use rustsbi_hifive_unmatched.Hsm.Data.{started, stopped, code, stop, set_command, new}
use rustsbi_hifive_unmatched.Hsm.Calls
use rustsbi_hifive_unmatched.Hsm.Calls.{listen}
use rustsbi_hifive_unmatched.Hsm.Wait.{Woken}
use rustsbi_hifive_unmatched.Hsm.Invariant.{IsStart}
use rustsbi_hifive_unmatched.Context.{SupervisorContext, a0, a1, a2, a6, a7, set_reg}
use rustsbi_hifive_unmatched.Feature.Rdtime.{rdtime}
use rustsbi_hifive_unmatched.Execute.{
  Ecall, State, World, handle_sbi_call, handle_machine_soft, handle_illegal_instruction, run,
}
use rustsbi_hifive_unmatched.Execute.Soft.{StartedAt, stop_then_wake}
use rustsbi_hifive_unmatched.Execute.Calls.{
  CallsHsm, answered, extension_hsm, handle_suspend_non_retentive,
}
use rustsbi_hifive_unmatched.Execute.Loop.{soft_panics_iff, illegal_panics_iff}
use rustsbi_hifive_unmatched.Client
use rustsbi_hifive_unmatched.Client.Requests.{requests}
use rustsbi_hifive_unmatched.Boot.{Layout, Boot, rust_main}
use rustsbi_hifive_unmatched.Boot.Main.{rust_main_secondary}
use rustsbi_hifive_unmatched.Pmp.{set_pmp}
use rustsbi_hifive_unmatched.Tests.Values.{
  context, machine, one_started, ringing, ringing-IsEnv, starting, starting-IsEnv,
}

-- The dispatch of the calls of the monitor.
abbrev pub dispatch : Ecall
dispatch extension f p m =
    if extension == extension_hsm
    then (if f == 0
        then ok (Calls.hart_start spec_sbi (p 0) (p 1) (p 2) m)
        else if f == 1
        then ok (Calls.hart_stop spec_sbi (p 0) m)
        else if f == 2
        then ok (m, Calls.hart_get_status spec_sbi (p 0) m)
        else Calls.hart_suspend spec_sbi ringing 3 (p 0 % 2 ^ 32) (p 1) (p 2) m)
    else ok (m, spec_sbi.not_supported)

pub dispatch-CallsHsm : CallsHsm dispatch spec_sbi ringing 3
dispatch-CallsHsm = record {
  starts = λ p m. refl;
  stops = λ p m. refl;
  reports = λ p m. refl;
  suspends = λ p m. refl;
}

abbrev caller : Machine
caller = machine 0 one_started

-- Hart 0 stopping, with its command.
abbrev stopping : Machine
stopping = machine 0 (set_command 0 stop one_started)

stop_then_wake_example :
    (m' : Machine) × (handle_machine_soft ringing 3 0 (context, stopping) ≡ ok (context, m'))
    × (m'.hsm.state 0 ≡ some (code stopped))
    × (m'.hsm.last_command 0 ≡ some stop)
unfolding Calls.record_current_stop_finished
stop_then_wake_example =
    stop_then_wake {n = 0} ringing-IsEnv (omega arith) 0 context stopping refl refl (λ i w. refl)

soft_panics_iff_example :
    (handle_machine_soft ringing 3 0 (context, caller) ≡ panicked)
    ↔ (IsStart none ⊎ ((caller.hsm.last_command 0 ≡ none) × (Mpp.supervisor ≡ Mpp.machine)))
soft_panics_iff_example = soft_panics_iff ringing 3 0 context caller

-- The instruction `csrw mcycle, x0`.
abbrev fetch : ℕ → ℕ
fetch a = 0xB000_1073

illegal_panics_iff_example :
    (handle_illegal_instruction fetch (context, caller) ≡ panicked)
    ↔ (((rd : ℕ) → rd < 32 → 0xB000_1073 ≢ rdtime rd) × (Mpp.supervisor ≡ Mpp.machine))
illegal_panics_iff_example = illegal_panics_iff fetch context caller (omega arith)

abbrev world : World
world = record {
  ecall = dispatch;
  fetch = fetch;
  env = λ t. ringing;
  fuel = 3;
  supervisor = λ s. s;
}

-- The context of a call to suspend without keeping the registers.
abbrev pub leaving : SupervisorContext
leaving = set_reg a7 extension_hsm (
    set_reg a6 3
      (set_reg a2 7 (set_reg a1 0x8030_0000 (set_reg a0 Calls.suspend_non_retentive context))))

handle_suspend_non_retentive_example :
    (s' : State) × (handle_sbi_call dispatch 0 (leaving, caller) ≡ ok s')
    × StartedAt 0 0x8030_0000 7 s'
handle_suspend_non_retentive_example =
    handle_suspend_non_retentive dispatch-CallsHsm 0 leaving caller refl {n = 0} ringing-IsEnv
      (omega arith) refl refl refl refl

abbrev pub asking : ℕ → SupervisorContext
asking f = set_reg a7 extension_hsm (set_reg a6 f (set_reg a0 1 context))

abbrev pub asking_3 : ℕ → ℕ → ℕ → ℕ → SupervisorContext
asking_3 f x y z =
    set_reg a7 extension_hsm (set_reg a6 f (set_reg a2 z (set_reg a1 y (set_reg a0 x context))))

requests_example :
    (let (m', r) = Calls.hart_start spec_sbi 1 0x8030_0000 7 caller in
      Client.hart_start (handle_sbi_call dispatch 0) 1 0x8030_0000 7 (context, caller)
      ≡ ok (r, (answered (asking_3 0 1 0x8030_0000 7) r, m')))
    × (let (m', r) = Calls.hart_stop spec_sbi 1 caller in
        Client.hart_stop (handle_sbi_call dispatch 0) 1 (context, caller)
        ≡ ok (r, (answered (asking 1) r, m')))
    × (let r = Calls.hart_get_status spec_sbi 1 caller in
        Client.hart_get_status (handle_sbi_call dispatch 0) 1 (context, caller)
        ≡ ok (r, (answered (asking 2) r, caller)))
requests_example = requests dispatch-CallsHsm spec_sbi-IsSbi 0 context caller 1 0x8030_0000 7

abbrev layout : Layout
layout = record {
  sbi_stack = 0x8000_0000;
  early_trap_fail = 0x8001_0002;
  from_supervisor_save = 0x8001_0100;
  device_tree = 0x8002_0000;
}

-- Hart 1 at its reset.
abbrev fresh : Boot
fresh = record {
  machine = machine 1 new;
  mtvec = 0;
  mscratch = 0;
  medeleg = λ c. false;
  mideleg = λ c. false;
  pmp = set_pmp;
}

rust_main_secondary_example :
    (s : State) × (v : Machine) × (rust_main layout (starting 0x8030_0000 7) world 5 1 fresh
      ≡ run world 1 5 0 s)
    × (s.0.mepc ≡ 0x8020_0000)
    × (s.0.regs a0 ≡ 1)
    × (s.0.regs a1 ≡ 0x8002_0000)
    × (s.1.hsm.state 1 ≡ some (code started))
    × Woken (starting 0x8030_0000 7) 0 0 (listen (machine 1 new)) v
    × (s.1.hsm.last_command ≡ v.hsm.last_command)
rust_main_secondary_example =
    rust_main_secondary layout world 5 1 fresh (starting-IsEnv 0x8030_0000 7) (omega arith)
      (λ e. ground arith) refl refl
