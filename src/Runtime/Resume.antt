-- ===== src/Runtime/Resume.antt =====
-- runtime.rs: from the call of `do_resume` to the `mret`.
use rustsbi_hifive_unmatched.Base.{
  ℕ, ◌+◌, ◌-◌, ◌*◌, ◌%◌, ◌^◌, ◌≤◌, ◌<◌, ◌≡◌, ◌≢◌, refl, update, arith, ◌∙◌, ap, some, none, [], ◌∷◌,
  true, sym, subst, Option, ℕ_discrete,
}
use rustsbi_hifive_unmatched.Asm.{
  Cpu, exec, step, after_mret, word_at, grow, sd, ld, csrw, mv, mret, mscratch, mstatus, mepc,
}
use rustsbi_hifive_unmatched.Asm.Tables.{
  exec-saves, exec-restores, store_all, load_all, store_all-word, store_all-outside, load_all-reg,
}
use rustsbi_hifive_unmatched.Runtime.Words.{
  Areas, callee_saved, frame_word, frame_restored, context_restored,
}
use rustsbi_hifive_unmatched.Runtime.{
  machine_words, supervisor_words, to_supervisor_restore, do_resume,
}

-- The frame of the firmware, below its stack pointer.
abbrev pub frame : Cpu → ℕ
frame c = (c.x 2 + 2 ^ 64 - 8 * 15) % 2 ^ 64

saved : Cpu → Cpu
saved c = record c {
  x = update c.x 2 (frame c);
  mem = store_all machine_words (frame c) (update c.x 2 (frame c)) c.mem;
}

-- The machine at the end of `to_supervisor_restore`, from the context at a0.
pub entered : Cpu → Cpu
entered c =
    let p = c.x 10 in
    let mem = update c.mem (word_at p 33) (c.x 2) in
    let x = update (update (update c.x 2 p) 5 (mem (word_at p 31))) 6 (mem (word_at p 32)) in
    record c {
      x =
          update (load_all supervisor_words p mem x) 2
            (mem (word_at (load_all supervisor_words p mem x 2) 1));
      mem = mem;
      mscratch = p;
      mstatus = after_mret (mem (word_at p 31));
      mepc = mem (word_at p 32);
      pc = mem (word_at p 32);
    }

exec-to_supervisor_restore : (c : Cpu) → exec to_supervisor_restore c ≡ entered c
unfolding to_supervisor_restore entered exec
exec-to_supervisor_restore c =
    exec-restores supervisor_words (ld 2 1 2 ∷ mret ∷ [])
      (exec
        (sd 2 33 10
          ∷ csrw mscratch 10
          ∷ mv 2 10
          ∷ ld 5 31 2
          ∷ ld 6 32 2
          ∷ csrw mstatus 5
          ∷ csrw mepc 6
          ∷ [])
        c)
      refl

exec-do_resume : (c : Cpu) → exec do_resume c ≡ entered (saved c)
unfolding do_resume saved exec
exec-do_resume c =
    exec-saves machine_words to_supervisor_restore (step (grow 15) c)
    ∙ exec-to_supervisor_restore (saved c)

-- The supervisor's registers, as the context at `p` in memory has them.
pub record Holds (p : ℕ) (x : ℕ → ℕ) (mstatus mepc : ℕ) (mem : ℕ → ℕ) : Type 0 where
  pub regs : (r : ℕ) → 0 < r → r < 32 → mem (p + 8 * (r - 1)) ≡ x r
  pub status : mem (p + 8 * 31) ≡ mstatus
  pub counter : mem (p + 8 * 32) ≡ mepc

module _ (c : Cpu) (a : Areas (c.x 10) (frame c)) where
  -- The registers of the firmware are in the frame.
  framed :
      (r : ℕ) → r < 32 → callee_saved r ≡ true → (saved c).mem (frame c + 8 * frame_word r) ≡ c.x r
  unfolding saved
  framed r h e =
      let (l, _, back) = frame_restored r h e in
      ground (
        arith,
        back,
        store_all-word machine_words 15 (frame c) (frame_word r) (update c.x 2 (frame c)) c.mem
            (omega arith) refl l,
      )

  -- The context is not touched by the frame.
  context_kept : (k : ℕ) → k < 34 → (saved c).mem (c.x 10 + 8 * k) ≡ c.mem (c.x 10 + 8 * k)
  unfolding saved
  context_kept k h =
      store_all-outside machine_words 15 (frame c) (c.x 10 + 8 * k) (update c.x 2 (frame c)) c.mem
        (omega arith) refl (λ j l. omega arith)

loaded :
    (p r : ℕ) (mem x : ℕ → ℕ)
    → p + 8 * 34 ≤ 2 ^ 64
    → 0 < r
    → r < 32
    → r ≢ 2
    → load_all supervisor_words p mem x r ≡ mem (p + 8 * (r - 1))
loaded p r mem x n l h ne =
    load_all-reg supervisor_words 34 p r mem x n refl
    ∙ ap (λ (o : Option ℕ). let v : ℕ = elim o [ some k ↦ mem (p + 8 * k) | none ↦ x r ] in v)
        (context_restored r l h ne)

loaded_sp :
    (p : ℕ) (mem x : ℕ → ℕ) → p + 8 * 34 ≤ 2 ^ 64 → load_all supervisor_words p mem x 2 ≡ x 2
loaded_sp p mem x n = load_all-reg supervisor_words 34 p 2 mem x n refl

-- The parts of `entered`, read off the memory of the machine that it is applied to.
module _ (c : Cpu) (n : c.x 10 + 8 * 34 ≤ 2 ^ 64) where
  entered-mem : (k : ℕ) → k < 33 → (entered c).mem (c.x 10 + 8 * k) ≡ c.mem (c.x 10 + 8 * k)
  unfolding entered
  entered-mem k h = ground arith

  entered_stack : (entered c).mem (c.x 10 + 8 * 33) ≡ c.x 2
  unfolding entered
  entered_stack = ground arith

  entered_status :
      ((entered c).mstatus ≡ after_mret (c.mem (c.x 10 + 8 * 31)))
      × ((entered c).mepc ≡ c.mem (c.x 10 + 8 * 32))
      × ((entered c).pc ≡ (entered c).mepc)
      × ((entered c).mscratch ≡ c.x 10)
  unfolding entered
  entered_status = ground arith

  entered-x : (r : ℕ) → 0 < r → r < 32 → (entered c).x r ≡ c.mem (c.x 10 + 8 * (r - 1))
  unfolding entered
  entered-x r p h = elim (ℕ_discrete r 2) [
    | yes e ↦ ground (arith, e, loaded_sp (c.x 10) mem x n)
    | no e ↦ ground (arith, loaded (c.x 10) r mem x n p h e)
  ]
    where
      mem : ℕ → ℕ
      mem = update c.mem (word_at (c.x 10) 33) (c.x 2)

      x : ℕ → ℕ
      x =
          update (update (update c.x 2 (c.x 10)) 5 (mem (word_at (c.x 10) 31))) 6
            (mem (word_at (c.x 10) 32))

-- What the call of `do_resume` on the context at a0 comes to, if the context and the frame neither
-- wrap nor overlap: the machine has left by `mret` to the address of the context, every register is
-- as the context said, the status is what `mret` makes of it, and the context still says so; the
-- firmware's stack pointer is in its last word, the firmware's own registers are in the frame, and
-- mscratch points to the context.
pub record Resumed (c c' : Cpu) : Type 0 where
  pub given : Holds (c.x 10) c'.x (c.mem (c.x 10 + 8 * 31)) c'.mepc c.mem
  pub kept : Holds (c.x 10) c'.x (c.mem (c.x 10 + 8 * 31)) c'.mepc c'.mem
  pub status : c'.mstatus ≡ after_mret (c.mem (c.x 10 + 8 * 31))
  pub left : c'.pc ≡ c'.mepc
  pub scratch : c'.mscratch ≡ c.x 10
  pub stack : c'.mem (c.x 10 + 8 * 33) ≡ frame c
  pub frames :
      (r : ℕ) → r < 32 → callee_saved r ≡ true → c'.mem (frame c + 8 * frame_word r) ≡ c.x r

frame_kept :
    (c : Cpu)
    → Areas (c.x 10) (frame c)
    → (k : ℕ) → k < 15
    → (entered (saved c)).mem (frame c + 8 * k) ≡ (saved c).mem (frame c + 8 * k)
unfolding entered saved
frame_kept c a k h = ground arith

-- `do_resume` does this.
pub do_resume-Resumed : (c : Cpu) → Areas (c.x 10) (frame c) → Resumed c (exec do_resume c)
unfolding saved
do_resume-Resumed c a = subst (Resumed c) (sym (exec-do_resume c)) (record {
  given = record {
    regs = λ r p h. sym (entered-x m a.context r p h ∙ context_kept c a (r - 1) (omega arith));
    status = refl;
    counter = sym (status.1 ∙ context_kept c a 32 (omega arith));
  };
  kept = record {
    regs =
        λ r p h. entered-mem m a.context (r - 1) (omega arith) ∙ sym (entered-x m a.context r p h);
    status = entered-mem m a.context 31 (omega arith) ∙ context_kept c a 31 (omega arith);
    counter = entered-mem m a.context 32 (omega arith) ∙ sym status.1;
  };
  status = status.0 ∙ ap after_mret (context_kept c a 31 (omega arith));
  left = status.2;
  scratch = status.3;
  stack = entered_stack m a.context;
  frames = λ r h e. frame_kept c a (frame_word r) ((frame_restored r h e).0) ∙ framed c a r h e;
})
  where
    m : Cpu
    m = saved c

    status :
        ((entered m).mstatus ≡ after_mret (m.mem (m.x 10 + 8 * 31)))
        × ((entered m).mepc ≡ m.mem (m.x 10 + 8 * 32))
        × ((entered m).pc ≡ (entered m).mepc)
        × ((entered m).mscratch ≡ m.x 10)
    status = entered_status m a.context
