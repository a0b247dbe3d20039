-- ===== src/Runtime/Switch.antt =====
-- runtime.rs: the switch to the supervisor and back, as a whole.
use rustsbi_hifive_unmatched.Base.{
  ℕ, ◌+◌, ◌-◌, ◌*◌, ◌^◌, ◌≤◌, ◌<◌, ◌≡◌, arith, ◌∙◌, true, sym, ap, subst, refl,
}
use rustsbi_hifive_unmatched.Asm.{Cpu, after_mret, exec}
use rustsbi_hifive_unmatched.Runtime.{do_resume, handle_trap}
use rustsbi_hifive_unmatched.Runtime.Words.{Areas, callee_saved, frame_word, frame_restored}
use rustsbi_hifive_unmatched.Runtime.Resume.{Holds, Resumed, frame, do_resume-Resumed}
use rustsbi_hifive_unmatched.Runtime.Trap.{Returned, handle_trap-Returned}

-- What the supervisor leaves alone between the `mret` at `c` and its trap at `s`: mscratch, the last
-- word of the context, and the frame.
pub record LeavesAlone (p f : ℕ) (c s : Cpu) : Type 0 where
  pub scratch : s.mscratch ≡ c.mscratch
  pub stack : s.mem (p + 8 * 33) ≡ c.mem (p + 8 * 33)
  pub frames : (k : ℕ) → k < 15 → s.mem (f + 8 * k) ≡ c.mem (f + 8 * k)

-- A call of `do_resume` returns as a function does: whatever the supervisor did to the registers, at
-- its trap the firmware is back behind the call with ra, sp, gp, tp and s0 to s11 as they were, and
-- the context holds the registers, the status and the program counter of the supervisor at the trap.
-- The stack of the firmware has room for the frame, the context and the frame neither wrap nor
-- overlap, and the supervisor leaves the memory of the firmware alone.
pub do_resume_returns :
    (c s : Cpu)
    → 8 * 15 ≤ c.x 2
    → c.x 2 < 2 ^ 64
    → Areas (c.x 10) (frame c)
    → LeavesAlone (c.x 10) (frame c) (exec do_resume c) s
    → let c' = exec handle_trap s in
      ((r : ℕ) → r < 32 → callee_saved r ≡ true → c'.x r ≡ c.x r)
      × (c'.x 2 ≡ c.x 2)
      × (c'.pc ≡ c.x 1)
      × Holds (c.x 10) s.x s.mstatus s.mepc c'.mem
do_resume_returns c s room low a l = (
  regs,
  back.sp ∙ omega arith,
  back.back ∙ regs 1 (omega arith) refl,
  subst (λ p. Holds p s.x s.mstatus s.mepc (exec handle_trap s).mem) here back.holds,
)
  where
    gone : Resumed c (exec do_resume c)
    gone = do_resume-Resumed c a

    here : s.mscratch ≡ c.x 10
    here = l.scratch ∙ gone.scratch

    back : Returned (frame c) s (exec handle_trap s)
    back =
        handle_trap-Returned s (subst (λ p. Areas p (frame c)) (sym here) a)
          (ap (λ (p : ℕ). s.mem (p + 8 * 33)) here ∙ l.stack ∙ gone.stack)

    regs : (r : ℕ) → r < 32 → callee_saved r ≡ true → (exec handle_trap s).x r ≡ c.x r
    regs r h e =
        back.regs r h e ∙ l.frames (frame_word r) ((frame_restored r h e).0) ∙ gone.frames r h e

-- A trap and a resumption of the same context give the supervisor all its registers back, at the
-- instruction where it was, with the status that `mret` makes of the one at the trap, if in between
-- the firmware leaves the words of the context alone, resumes with its address in a0, and neither
-- context nor frames wrap or overlap.
pub trap_then_resume :
    (s d : Cpu)
    → Areas s.mscratch (s.mem (s.mscratch + 8 * 33))
    → d.x 10 ≡ s.mscratch
    → Areas (d.x 10) (frame d)
    → ((k : ℕ)
        → k < 33
        → d.mem (s.mscratch + 8 * k) ≡ (exec handle_trap s).mem (s.mscratch + 8 * k))
    → let s' = exec do_resume d in
      ((r : ℕ) → 0 < r → r < 32 → s'.x r ≡ s.x r)
      × (s'.mstatus ≡ after_mret s.mstatus)
      × (s'.pc ≡ s.mepc)
      × (s'.mscratch ≡ s.mscratch)
trap_then_resume s d a e b same = (
  λ r p h. sym (gone.given.regs r p h) ∙ word (r - 1) (omega arith) ∙ back.holds.regs r p h,
  gone.status ∙ ap after_mret (word 31 (omega arith) ∙ back.holds.status),
  gone.left ∙ sym gone.given.counter ∙ word 32 (omega arith) ∙ back.holds.counter,
  gone.scratch ∙ e,
)
  where
    back : Returned (s.mem (s.mscratch + 8 * 33)) s (exec handle_trap s)
    back = handle_trap-Returned s a refl

    gone : Resumed d (exec do_resume d)
    gone = do_resume-Resumed d b

    word : (k : ℕ) → k < 33 → d.mem (d.x 10 + 8 * k) ≡ (exec handle_trap s).mem (s.mscratch + 8 * k)
    word k h = ap (λ (p : ℕ). d.mem (p + 8 * k)) e ∙ same k h
