-- ===== src/EarlyTrap/Saved.antt =====
-- early_trap.rs: what `rust_fail` is given.
use rustsbi_hifive_unmatched.Base.{
  ℕ, ◌+◌, ◌-◌, ◌*◌, ◌%◌, ◌^◌, ◌≤◌, ◌<◌, ◌≡◌, ◌≢◌, refl, some, Bool, true, ◌||◌, ◌==◌, update, [],
  ◌∷◌, arith, subst, sym, ℕ_discrete, holds_below, holds_below-at, is_some_of, is_some_of-eq,
}
use rustsbi_hifive_unmatched.Asm.{
  Cpu, exec, step, word_at, mscratch, mstatus, mepc, sd, grow, mv, csrr, csrrw,
}
use rustsbi_hifive_unmatched.Asm.Tables.{
  exec-saves, saved_in, store_all, store_all-word, store_all-outside,
}
use rustsbi_hifive_unmatched.Runtime.Resume.{Holds}
use rustsbi_hifive_unmatched.EarlyTrap.{context_words, early_trap_fail}

word-saved : (k : ℕ) → k < 31 → k ≢ 1 → saved_in context_words k ≡ some (k + 1)
word-saved k h n =
    is_some_of-eq (k + 1) (saved_in context_words k)
      (ground (arith, holds_below-at 31 named k checked))
  where
    named : ℕ → Bool
    named k = k == 1 || is_some_of (k + 1) (saved_in context_words k)

    checked : holds_below 31 named ≡ true
    checked = unfold holds_below in refl

-- The context lies below the scratch register.
abbrev pub context_at : Cpu → ℕ
context_at c = (c.mscratch + 2 ^ 64 - 8 * 33) % 2 ^ 64

-- What `rust_fail` finds, of the code that trapped.
pub record Saves (c c' : Cpu) : Type 0 where
  pub holds : Holds (context_at c) c.x c.mstatus c.mepc c'.mem
  pub pointer : c'.x 10 ≡ c.mscratch - 8 * 33
  pub stack : c'.x 2 ≡ c.mscratch - 8 * 33
  pub frame : (a : ℕ) → ((k : ℕ) → k < 33 → a ≢ context_at c + 8 * k) → c'.mem a ≡ c.mem a

stored : Cpu → ℕ → ℕ
stored c =
    let p = context_at c in
    let x = update (update c.x 2 c.mscratch) 2 p in
    let mem = store_all context_words p x c.mem in
    update (update (update mem (word_at p 31) c.mstatus) (word_at p 32) c.mepc) (word_at p 1)
      (c.x 2)

failed : Cpu → Cpu
failed c =
    let p = context_at c in
    let x =
      update (update (update (update (update c.x 2 c.mscratch) 2 p) 5 c.mstatus) 6 c.mepc) 7
        (c.x 2) in
    record c { x = update x 10 p; mem = stored c; mscratch = c.x 2 }

exec-early_trap_fail : (c : Cpu) → exec early_trap_fail c ≡ failed c
unfolding early_trap_fail failed stored exec
exec-early_trap_fail c =
    exec-saves context_words
      (csrr 5 mstatus
        ∷ sd 5 31 2
        ∷ csrr 6 mepc
        ∷ sd 6 32 2
        ∷ csrr 7 mscratch
        ∷ sd 7 1 2
        ∷ mv 10 2
        ∷ [])
      (step (grow 33) (step (csrrw 2 mscratch 2) c))

module _ (c : Cpu) (n : 8 * 33 ≤ c.mscratch) (u : c.mscratch ≤ 2 ^ 64) where
  stored-reg : (r : ℕ) → 0 < r → r < 32 → stored c (context_at c + 8 * (r - 1)) ≡ c.x r
  unfolding stored
  stored-reg r p h = elim (ℕ_discrete r 2) [
    | yes e ↦ ground (arith, e)
    | no e ↦ ground (
      arith,
      word-saved (r - 1) (omega arith) (omega arith),
      store_all-word context_words 33 (context_at c) (r - 1)
          (update (update c.x 2 c.mscratch) 2 (context_at c)) c.mem (omega arith) refl
          (omega arith),
    )
  ]

  stored-outside : (a : ℕ) → ((k : ℕ) → k < 33 → a ≢ context_at c + 8 * k) → stored c a ≡ c.mem a
  unfolding stored
  stored-outside a o = ground (
    arith,
    o 31,
    o 32,
    o 1,
    store_all-outside context_words 33 (context_at c) a
        (update (update c.x 2 c.mscratch) 2 (context_at c)) c.mem (omega arith) refl o,
  )

  failed-Holds : Holds (context_at c) c.x c.mstatus c.mepc (failed c).mem
  unfolding failed stored
  failed-Holds = record { regs = stored-reg; status = ground arith; counter = ground arith }

  -- A trap before the supervisor runs, with a scratch register above the first 33 double words: the
  -- 33 double words below it hold every register of the trapped code, its status and its program
  -- counter, `rust_fail` is given their address in a0 and in sp, and nothing else in memory is
  -- written.
  pub early_trap_fail-Saves : Saves c (exec early_trap_fail c)
  unfolding failed
  early_trap_fail-Saves = subst (Saves c) (sym (exec-early_trap_fail c)) (record {
    holds = failed-Holds;
    pointer = omega arith;
    stack = omega arith;
    frame = stored-outside;
  })
