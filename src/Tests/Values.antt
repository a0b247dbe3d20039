-- ===== src/Tests/Values.antt =====
-- A board for the examples: two harts, of which hart 0 is started.
use rustsbi_hifive_unmatched.Base.{
  ℕ, ◌+◌, ◌≡◌, refl, ◌∙◌, ap, true, false, suc, arith, if◌then◌else◌, ◌==◌,
}
use rustsbi_hifive_unmatched.Csr.{
  Csr, Mpp, Spp, Mstatus, exception, interrupt, supervisor_env_call, supervisor_soft,
}
use rustsbi_hifive_unmatched.Machine.{Machine}
use rustsbi_hifive_unmatched.Hsm.Data.{U74Hsm, started, set_state, set_command, start, new}
use rustsbi_hifive_unmatched.Hsm.Calls.{Env}
use rustsbi_hifive_unmatched.Hsm.Wait.{after, Woken}
use rustsbi_hifive_unmatched.Hsm.Sleep.{IsEnv}
use rustsbi_hifive_unmatched.Context.{SupervisorContext}

abbrev pub status : Mstatus
status = record { sie = true; spie = false; spp = Spp.user; mpp = Mpp.supervisor; rest = 0 }

abbrev pub csr : Csr
csr = record {
  mstatus = status;
  mie_msoft = true;
  mie_mtimer = false;
  mip_msoft = true;
  mip_stimer = false;
  mcause = exception supervisor_env_call;
  mtval = 0;
  satp = 8;
  scause = interrupt supervisor_soft;
  stval = 0;
  sepc = 0;
  stvec = 0x8020_1001;
}

abbrev pub context : SupervisorContext
context = record {
  regs = λ k. 100 + k;
  mstatus = status;
  mepc = 0x8020_0100;
  machine_stack = 0x8000_4000;
}

-- A hart over a monitor; the clock stands at 42.
abbrev pub machine : ℕ → U74Hsm → Machine
machine k h = record {
  hart_id = k;
  csr = csr;
  mmio = λ a. if a == 0x200_bff8 then 42 else 0;
  hsm = h;
}

abbrev pub one_started : U74Hsm
one_started = set_state 0 started new

-- A surrounding that raises the interrupt at once, and one that also stores a command.
abbrev pub ringing : Env
ringing i m = record m { csr = record (m.csr) { mip_msoft = true } }

abbrev pub starting : ℕ → ℕ → Env
starting a o i m = record m {
  csr = record (m.csr) { mip_msoft = true };
  hsm = set_command m.hart_id (start a o) m.hsm;
}

pub ringing-IsEnv : IsEnv ringing
ringing-IsEnv = record { hart = λ i m. refl; listens = λ i m. refl; leaves = λ i m h. h }

pub starting-IsEnv : (a o : ℕ) → IsEnv (starting a o)
starting-IsEnv a o = record { hart = λ i m. refl; listens = λ i m. refl; leaves = λ i m h. h }

pub Woken_once : {env : Env} {m w : Machine} → Woken env 0 0 m w → w ≡ env 0 m
Woken_once {env} {m} k =
    k.reached ∙ ap (λ (n : ℕ). after env 0 (suc n) m) {x = k.rounds} {y = 0} (omega (arith, k.soon))
