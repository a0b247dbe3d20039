-- ===== src/Tests/Rounds.antt =====
-- The loop of one hart on a board.
use rustsbi_hifive_unmatched.Base.{
  ℕ, zero, suc, ◌≡◌, ◌≢◌, ◌⊎◌, ◌≤◌, refl, Bool, true, false, Option, some, none, ok, waiting, inl,
  inr, ℕ_discrete, arith, ◌==◌, ltb, ◌&&◌, if◌then◌else◌, ◌∙◌, ap, sym,
}
use rustsbi_hifive_unmatched.Sbi.{SbiRet, spec_sbi, spec_sbi-IsSbi}
use rustsbi_hifive_unmatched.Machine.{Machine}
use rustsbi_hifive_unmatched.Hsm.Data.{code, start_pending}
use rustsbi_hifive_unmatched.Hsm.Calls.{Env, record_current_stop_finished}
use rustsbi_hifive_unmatched.Hsm.Wait.{after, Woken}
use rustsbi_hifive_unmatched.Hsm.Sleep.{IsEnv, asleep, begun}
use rustsbi_hifive_unmatched.Hsm.System.{first, boot}
use rustsbi_hifive_unmatched.Hsm.Diagram.{here}
use rustsbi_hifive_unmatched.Hsm.Refine.Suspend.{board, slept}
use rustsbi_hifive_unmatched.Hsm.Refine.Stop.{halted_board}
use rustsbi_hifive_unmatched.Execute.{Ecall, State, World, run}
use rustsbi_hifive_unmatched.Execute.Soft.{halted}
use rustsbi_hifive_unmatched.Execute.Calls.{CallsHsm, extension_hsm}
use rustsbi_hifive_unmatched.Execute.Board.Settles.{Settles, AnswersOthers}
use rustsbi_hifive_unmatched.Execute.Board.Rounds.{Surrounds, run-Settles}
use rustsbi_hifive_unmatched.Tests.Values.{machine, one_started, ringing, ringing-IsEnv}
use rustsbi_hifive_unmatched.Tests.Loop.{dispatch, asking_3}

-- The calls of the monitor; the legacy call 8 shuts down, and no other is supported.
abbrev serving : Ecall
serving extension f p m =
    if extension == 8
    then waiting
    else if extension == extension_hsm && ltb f 4
    then dispatch extension f p m
    else ok (m, spec_sbi.not_supported)

serving-CallsHsm : CallsHsm serving spec_sbi ringing 3
serving-CallsHsm = record {
  starts = λ p m. refl;
  stops = λ p m. refl;
  reports = λ p m. refl;
  suspends = λ p m. refl;
}

abbrev legacy_shutdown : ℕ
legacy_shutdown = 8

serving-AnswersOthers : AnswersOthers serving
serving-AnswersOthers = record { others = others }
  where
    others :
        (x f : ℕ) (p : ℕ → ℕ) (m : Machine)
        → (x ≢ extension_hsm) ⊎ (4 ≤ f)
        → (serving x f p m ≡ waiting)
          ⊎ ((m' : Machine) × (r : SbiRet) × (serving x f p m ≡ ok (m', r))
              × (r.error ≢ 0x233)
              × (m'.hsm ≡ m.hsm)
              × (m'.hart_id ≡ m.hart_id))
    others x f p m h = elim (ℕ_discrete x legacy_shutdown) [
      | yes e ↦ inl (ground (arith, e))
      | no e ↦ inr (m, spec_sbi.not_supported, ground (arith, e, h), omega arith, refl, refl)
    ]

-- A surrounding that wakes a hart once a start of it is pending.
abbrev is_pending : Option ℕ → Bool
is_pending none = false
is_pending (some n) = n == code start_pending

abbrev pended : Env
pended i m = record m { csr = record (m.csr) { mip_msoft = is_pending (m.hsm.state m.hart_id) } }

pended-IsEnv : IsEnv pended
pended-IsEnv = record { hart = λ i m. refl; listens = λ i m. refl; leaves = λ i m h. h }

pended-after : (n i : ℕ) (m : Machine) → (after pended i n m).hsm ≡ m.hsm
pended-after zero i m = refl
pended-after (suc n) i m = pended-after n (suc i) (pended i m)

pended_raises :
    (n i : ℕ) (m : Machine)
    → (after pended i (suc n) m).csr.mip_msoft ≡ is_pending (m.hsm.state m.hart_id)
pended_raises zero i m = refl
pended_raises (suc n) i m = pended_raises n (suc i) (pended i m)

is_pending-some : (x : Option ℕ) → is_pending x ≡ true → x ≡ some (code start_pending)
is_pending-some x h = ground arith

pended_asked :
    (n : ℕ) (m v : Machine)
    → Woken pended 0 n (halted m) v
    → v.hsm.state m.hart_id ≡ some (code start_pending)
unfolding record_current_stop_finished
pended_asked n m v k =
    let pending : is_pending ((halted m).hsm.state m.hart_id) ≡ true =
      sym (ap (λ (w : Machine). w.csr.mip_msoft) k.reached ∙ pended_raises k.rounds 0 (halted m))
      ∙ k.raised in
    ap (λ (w : Machine). w.hsm.state m.hart_id) k.reached
    ∙ ap (λ g. g.state m.hart_id) (pended-after (suc k.rounds) 0 (halted m))
    ∙ is_pending-some _ pending

quiet-after : (n i : ℕ) (m : Machine) → (after ringing i n m).hsm ≡ m.hsm
quiet-after zero i m = refl
quiet-after (suc n) i m = quiet-after n (suc i) (ringing i m)

abbrev world : World
world = record {
  ecall = serving;
  fetch = λ a. 0xB000_1073;
  env = λ t. pended;
  fuel = 3;
  supervisor = λ s. s;
}

-- The other harts do nothing while hart 0 sleeps or its supervisor runs.
world-Surrounds : Surrounds spec_sbi ringing 3 world
unfolding record_current_stop_finished
world-Surrounds = record {
  calls = serving-CallsHsm;
  others = serving-AnswersOthers;
  codes = spec_sbi-IsSbi;
  leaves = ringing-IsEnv;
  leaves_stopped = λ t. pended-IsEnv;
  sleeps = λ place m h r. record {
    boards = λ t. slept place m;
    starts = refl;
    runs = λ t. here;
    stays = λ t. ground arith;
    shared = λ t. sym (quiet-after t 0 (asleep (begun m)));
  };
  parks = λ t place m h r. record {
    boards = λ t. halted_board place m;
    starts = refl;
    runs = λ t. here;
    stays = λ t. ground arith;
    shared = λ t. sym (pended-after t 0 (halted m));
  };
  asked = λ t n m v. pended_asked n m v;
  supervises = λ place s h r. (board place s.1, here, refl, r, refl);
}

-- Hart 0 asks twice for a start of hart 1.
abbrev twice : State
twice = (asking_3 0 1 0x8030_0000 7, machine 0 one_started)

run-Settles_example : Settles spec_sbi first (twice.1) (run world 0 2 0 twice)
run-Settles_example = run-Settles world-Surrounds 2 0 first twice boot refl
