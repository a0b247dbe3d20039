-- ===== src/Runtime/Trap.antt =====
-- runtime.rs: from a trap of the supervisor to the return of `do_resume`.
use rustsbi_hifive_unmatched.Base.{
  ℕ, ◌+◌, ◌-◌, ◌*◌, ◌%◌, ◌^◌, ◌≤◌, ◌<◌, ◌≡◌, ◌≢◌, refl, update, arith, ◌∙◌, ap, some, none, [], ◌∷◌,
  true, sym, subst, Option, ℕ_discrete,
}
use rustsbi_hifive_unmatched.Asm.{
  Cpu, exec, step, word_at, sd, ld, csrr, csrrw, shrink, jr, mscratch, mstatus, mepc,
}
use rustsbi_hifive_unmatched.Asm.Tables.{
  exec-append, exec-saves, exec-restores, store_all, load_all, store_all-word, store_all-outside,
  load_all-reg,
}
use rustsbi_hifive_unmatched.Runtime.Words.{
  Areas, callee_saved, frame_word, frame_restored, context_saved,
}
use rustsbi_hifive_unmatched.Runtime.Resume.{Holds}
use rustsbi_hifive_unmatched.Runtime.{
  machine_words, supervisor_words, from_supervisor_save, to_machine_restore, handle_trap,
}

-- The memory once the registers and then the three last words are stored.
stored : Cpu → ℕ → ℕ
stored s =
    let p = s.mscratch in
    let x = update s.x 2 p in
    let mem = store_all supervisor_words p x s.mem in
    update (update (update mem (word_at p 31) s.mstatus) (word_at p 32) s.mepc) (word_at p 1)
      (s.x 2)

-- The machine at the end of `from_supervisor_save`.
trapped : Cpu → Cpu
trapped s = record s {
  x = update (update (update (update s.x 2 s.mscratch) 5 s.mstatus) 6 s.mepc) 7 (s.x 2);
  mem = stored s;
}

exec-from_supervisor_save : (s : Cpu) → exec from_supervisor_save s ≡ trapped s
unfolding from_supervisor_save trapped stored exec
exec-from_supervisor_save s =
    exec-saves supervisor_words
      (csrr 5 mstatus ∷ sd 5 31 2 ∷ csrr 6 mepc ∷ sd 6 32 2 ∷ csrrw 7 mscratch 2 ∷ sd 7 1 2 ∷ [])
      (step (csrrw 2 mscratch 2) s)

-- The machine at the end of `to_machine_restore`.
returned : Cpu → Cpu
returned s =
    let f = s.mem (word_at s.mscratch 33) in
    let x = load_all machine_words f s.mem (update (update s.x 2 s.mscratch) 2 f) in
    record s {
      x = update x 2 ((x 2 + 8 * 15) % 2 ^ 64);
      pc = update x 2 ((x 2 + 8 * 15) % 2 ^ 64) 1;
    }

exec-to_machine_restore : (s : Cpu) → exec to_machine_restore s ≡ returned s
unfolding to_machine_restore returned exec
exec-to_machine_restore s =
    exec-restores machine_words (shrink 15 ∷ jr 1 ∷ []) (exec (csrr 2 mscratch ∷ ld 2 33 2 ∷ []) s)
      refl

exec-handle_trap : (s : Cpu) → exec handle_trap s ≡ returned (trapped s)
unfolding handle_trap
exec-handle_trap s =
    exec-append from_supervisor_save to_machine_restore s
    ∙ ap (exec to_machine_restore) (exec-from_supervisor_save s)
    ∙ exec-to_machine_restore (trapped s)

-- What a trap comes to for the firmware, whose stack pointer in the context is `f`: the context holds
-- the registers of the supervisor, its status and its program counter, the firmware is back behind
-- its call with its registers from the frame at `f`, and its stack pointer is above the frame.
pub record Returned (f : ℕ) (s s' : Cpu) : Type 0 where
  pub holds : Holds s.mscratch s.x s.mstatus s.mepc s'.mem
  pub regs : (r : ℕ) → r < 32 → callee_saved r ≡ true → s'.x r ≡ s.mem (f + 8 * frame_word r)
  pub sp : s'.x 2 ≡ f + 8 * 15
  pub back : s'.pc ≡ s'.x 1

module _ (s : Cpu) (n : s.mscratch + 8 * 34 ≤ 2 ^ 64) where
  stored-reg : (r : ℕ) → 0 < r → r < 32 → stored s (s.mscratch + 8 * (r - 1)) ≡ s.x r
  unfolding stored
  stored-reg r p h = elim (ℕ_discrete r 2) [
    | yes e ↦ ground (arith, e)
    | no e ↦ ground (
      arith,
      context_saved (r - 1) (omega arith) (omega arith),
      store_all-word supervisor_words 34 s.mscratch (r - 1) (update s.x 2 s.mscratch) s.mem n refl
          (omega arith),
    )
  ]

  stored-status : stored s (s.mscratch + 8 * 31) ≡ s.mstatus
  unfolding stored
  stored-status = ground arith

  stored-counter : stored s (s.mscratch + 8 * 32) ≡ s.mepc
  unfolding stored
  stored-counter = ground arith

  stored-stack : stored s (s.mscratch + 8 * 33) ≡ s.mem (s.mscratch + 8 * 33)
  unfolding stored
  stored-stack = ground (
    arith,
    store_all-word supervisor_words 34 s.mscratch 33 (update s.x 2 s.mscratch) s.mem n refl
        (omega arith),
  )

  -- Outside the context nothing is written.
  stored-outside : (a : ℕ) → ((k : ℕ) → k < 34 → a ≢ s.mscratch + 8 * k) → stored s a ≡ s.mem a
  unfolding stored
  stored-outside a o = ground (
    arith,
    o 31,
    o 32,
    o 1,
    store_all-outside supervisor_words 34 s.mscratch a (update s.x 2 s.mscratch) s.mem n refl o,
  )

callee_saved-ne-sp : (r : ℕ) → callee_saved r ≡ true → r ≢ 2
callee_saved-ne-sp r h = ground arith

returned-pc : (c : Cpu) → (returned c).pc ≡ (returned c).x 1
unfolding returned
returned-pc c = refl

module _ (c : Cpu) (f : ℕ) (e : c.mem (word_at c.mscratch 33) ≡ f) where
  abbrev pointed : ℕ → ℕ
  pointed = update (update c.x 2 c.mscratch) 2 f

  returned-x : (r : ℕ) → r ≢ 2 → (returned c).x r ≡ load_all machine_words f c.mem pointed r
  unfolding returned
  returned-x r n = rw e (ground arith)

  returned-sp : (returned c).x 2 ≡ (load_all machine_words f c.mem pointed 2 + 8 * 15) % 2 ^ 64
  unfolding returned
  returned-sp = rw e (ground arith)

module _ (s : Cpu) {f : ℕ} (a : Areas s.mscratch f) (top : s.mem (s.mscratch + 8 * 33) ≡ f) where
  -- The frame is outside the context.
  frame_kept : (k : ℕ) → k < 15 → stored s (f + 8 * k) ≡ s.mem (f + 8 * k)
  frame_kept k h = stored-outside s a.context (f + 8 * k) (λ j l. omega arith)

  frame_found : stored s (word_at s.mscratch 33) ≡ f
  frame_found = ground (arith, stored-stack s a.context)

  reloaded :
      (r : ℕ) (x : ℕ → ℕ)
      → r < 32
      → callee_saved r ≡ true
      → load_all machine_words f (stored s) x r ≡ s.mem (f + 8 * frame_word r)
  reloaded r x h e =
      let (l, named, _) = frame_restored r h e in
      load_all-reg machine_words 15 f r (stored s) x (omega arith) refl
      ∙ ap
          (λ (o : Option ℕ). let v : ℕ = elim o [ some k ↦ stored s (f + 8 * k) | none ↦ x r ] in v)
          named
      ∙ frame_kept (frame_word r) l

  reloaded_sp : (x : ℕ → ℕ) → load_all machine_words f (stored s) x 2 ≡ x 2
  reloaded_sp x = load_all-reg machine_words 15 f 2 (stored s) x (omega arith) refl

  returned-Holds : Holds s.mscratch s.x s.mstatus s.mepc (returned (trapped s)).mem
  unfolding trapped returned
  returned-Holds = record {
    regs = stored-reg s a.context;
    status = stored-status s a.context;
    counter = stored-counter s a.context;
  }

  -- A trap of a supervisor whose context is at mscratch, with a stack pointer of the firmware in its
  -- last word, comes to this, if the context and the frame neither wrap nor overlap.
  pub handle_trap-Returned : Returned f s (exec handle_trap s)
  unfolding trapped
  handle_trap-Returned = subst (Returned f s) (sym (exec-handle_trap s)) (record {
    holds = returned-Holds;
    regs =
        λ r h e. returned-x (trapped s) f frame_found r (callee_saved-ne-sp r e) ∙ reloaded r _ h e;
    sp =
        returned-sp (trapped s) f frame_found
        ∙ ground (arith, reloaded_sp (pointed (trapped s) f frame_found), a.frame);
    back = returned-pc (trapped s);
  })
