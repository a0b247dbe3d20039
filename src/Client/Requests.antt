-- ===== src/Client/Requests.antt =====
-- test-kernel/src/sbi.rs on top of rustsbi-jh7100/src/execute.rs and hsm.rs: a call of the supervisor
-- from its function to the monitor and back.
use rustsbi_hifive_unmatched.Base.{ℕ, suc, ◌<◌, ◌≡◌, some, true, ok, ap, Outcome, ◌>>=◌, refl}
use rustsbi_hifive_unmatched.Sbi.{Sbi, SbiRet, IsSbi}
use rustsbi_hifive_unmatched.Machine.{Machine}
use rustsbi_hifive_unmatched.Hsm.Data.{started, code}
use rustsbi_hifive_unmatched.Hsm.Calls
use rustsbi_hifive_unmatched.Hsm.Wait.{after}
use rustsbi_hifive_unmatched.Hsm.Sleep.{IsEnv, asleep, begun}
use rustsbi_hifive_unmatched.Context.{SupervisorContext, a0, a1, a2, a6, a7, set_reg}
use rustsbi_hifive_unmatched.Execute.{Ecall, State, handle_sbi_call}
use rustsbi_hifive_unmatched.Execute.Calls.{
  CallsHsm, answered, handle_requests, handle_suspend_retentive,
}
use rustsbi_hifive_unmatched.Client.{
  extension_hsm, results, hart_start, hart_stop, hart_get_status, hart_suspend,
}

module _ {ecall : Ecall} {sbi : Sbi} {env : Calls.Env} {fuel : ℕ} (d : CallsHsm ecall sbi env fuel)
    (i : IsSbi sbi) (k : ℕ) (ctx : SupervisorContext) (m : Machine) where
  abbrev given : ℕ → ℕ → SupervisorContext → SupervisorContext
  given f x c = set_reg a7 extension_hsm (set_reg a6 f (set_reg a0 x c))

  abbrev given_3 : ℕ → ℕ → ℕ → ℕ → SupervisorContext → SupervisorContext
  given_3 f x y z c =
      set_reg a7 extension_hsm (set_reg a6 f (set_reg a2 z (set_reg a1 y (set_reg a0 x c))))

  -- The registers a0 and a1 of an answered context make the answer again.
  abbrev back : SupervisorContext → Machine → SbiRet → Outcome (SbiRet × State)
  back c m' r = ok (r, (answered c r, m'))

  -- With the documented dispatch of the calls, and the error codes told apart from one another and
  -- from the private number: the requests of a supervisor to start a hart, to stop one and to report
  -- on one return to it what the function of the monitor answers to the same parameters, on the
  -- machine that this function leaves, behind the `ecall`; the calls change no registers but a0 to
  -- a2, a6 and a7.
  pub requests :
      (h a o : ℕ)
      → (let (m', r) = Calls.hart_start sbi h a o m in
          hart_start (handle_sbi_call ecall k) h a o (ctx, m) ≡ back (given_3 0 h a o ctx) m' r)
        × (let (m', r) = Calls.hart_stop sbi h m in
            hart_stop (handle_sbi_call ecall k) h (ctx, m) ≡ back (given 1 h ctx) m' r)
        × (hart_get_status (handle_sbi_call ecall k) h (ctx, m)
            ≡ back (given 2 h ctx) m (Calls.hart_get_status sbi h m))
  unfolding hart_start hart_stop hart_get_status
  requests h a o = (
    ap (λ (x : Outcome State). x >>= λ t. ok (results t))
        ((handle_requests d k (given_3 0 h a o ctx) m refl i).0 refl),
    ap (λ (x : Outcome State). x >>= λ t. ok (results t))
        ((handle_requests d k (given 1 h ctx) m refl i).1 refl),
    ap (λ (x : Outcome State). x >>= λ t. ok (results t))
        ((handle_requests d k (given 2 h ctx) m refl i).2 refl),
  )

  -- With the documented dispatch and error codes: the retentive suspension that a supervisor asks for
  -- on a hart that is started, and that is woken within the fuel by a board that leaves it alone,
  -- returns success to it, on a hart that is recorded as started.
  pub suspend :
      {n : ℕ} (a o : ℕ)
      → IsEnv env
      → n < fuel
      → m.hsm.state m.hart_id ≡ some (code started)
      → (after env 0 (suc n) (asleep (begun m))).csr.mip_msoft ≡ true
      → (m' : Machine) × (hart_suspend
            (handle_sbi_call ecall k)
            Calls.suspend_retentive
            a
            o
            (ctx, m)
          ≡ back (given_3 3 Calls.suspend_retentive a o ctx) m' (sbi.ok 0))
        × (m'.hsm.state m.hart_id ≡ some (code started))
  unfolding hart_suspend
  suspend a o e h s r =
      let (m', q, st) =
        handle_suspend_retentive d k (given_3 3 Calls.suspend_retentive a o ctx) m refl e h refl s r
          i refl in
      (m', ap (λ (x : Outcome State). x >>= λ t. ok (results t)) q, st)
