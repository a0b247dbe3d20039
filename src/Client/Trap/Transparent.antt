-- ===== src/Client/Trap/Transparent.antt =====
-- main.rs: what the trapped code sees of a trap.
use rustsbi_hifive_unmatched.Base.{
  ℕ, ◌+◌, ◌-◌, ◌*◌, ◌%◌, ◌^◌, ◌≤◌, ◌<◌, ◌≡◌, refl, some, none, Option, Bool, true, false, not, ◌&&◌,
  ◌||◌, ◌==◌, ltb, update, [], ◌∷◌, arith, ◌∙◌, ap, subst, get_or, holds_below, holds_below-at,
  is_some_of, is_some_of-eq, ltb→lt, or-of_not, and-parts, ℕ_discrete, Bool-cases, inl, inr,
}
use rustsbi_hifive_unmatched.Asm.{Cpu, exec, step, grow, shrink, mv}
use rustsbi_hifive_unmatched.Asm.Tables.{
  exec-saves, exec-restores, saved_in, restored_from, store_all, load_all, store_all-word,
  load_all-reg,
}
use rustsbi_hifive_unmatched.Client.Trap.{trap_words, trap_entry, trap_exit, start_trap}

-- The word of the frame that a register is in.
abbrev word_of : ℕ → ℕ
word_of r = get_or (restored_from trap_words r) 0

-- Whether a register is in the frame; the others are sp and those that a function keeps.
abbrev pub in_frame : ℕ → Bool
in_frame r = r == 1 || ((ltb 4 r && ltb r 8) || ((ltb 9 r && ltb r 18) || ltb 27 r))

in_frame-word :
    (r : ℕ)
    → r < 32
    → in_frame r ≡ true
    → (word_of r < 16)
      × (restored_from trap_words r ≡ some (word_of r))
      × (saved_in trap_words (word_of r) ≡ some r)
in_frame-word r h c =
    let (named, back) =
      and-parts _ _ (or-of_not (in_frame r) _ (holds_below-at 32 test r checked h) c) in
    (
      ltb→lt (word_of r) 16 (holds_below-at 32 small r small_checked h),
      is_some_of-eq _ _ named,
      is_some_of-eq _ _ back,
    )
  where
    test : ℕ → Bool
    test r =
        not (in_frame r)
        || (is_some_of (word_of r) (restored_from trap_words r)
            && is_some_of r (saved_in trap_words (word_of r)))

    checked : holds_below 32 test ≡ true
    checked = unfold holds_below in refl

    small : ℕ → Bool
    small r = ltb (word_of r) 16

    small_checked : holds_below 32 small ≡ true
    small_checked = unfold holds_below in refl

abbrev is_none : Option ℕ → Bool
is_none none = true
is_none (some k) = false

is_none-eq : (o : Option ℕ) → is_none o ≡ true → o ≡ none
is_none-eq o h = ground arith

out_of_frame : (r : ℕ) → r < 32 → in_frame r ≡ false → restored_from trap_words r ≡ none
out_of_frame r h e = is_none-eq _ (
    or-of_not (not (in_frame r)) _
      (holds_below-at 32 (λ r. not (not (in_frame r)) || is_none (restored_from trap_words r)) r
        checked h)
      (ground (arith, e)))
  where
    checked :
        holds_below 32 (λ r. not (not (in_frame r)) || is_none (restored_from trap_words r)) ≡ true
    checked = unfold holds_below in refl

-- The frame of a trap.
abbrev pub frame : Cpu → ℕ
frame c = (c.x 2 + 2 ^ 64 - 8 * 16) % 2 ^ 64

entered : Cpu → Cpu
entered c =
    let x = update c.x 2 (frame c) in
    record c { x = update x 10 (frame c); mem = store_all trap_words (frame c) x c.mem }

exec-trap_entry : (c : Cpu) → exec trap_entry c ≡ entered c
unfolding trap_entry entered exec
exec-trap_entry c = exec-saves trap_words (mv 10 2 ∷ []) (step (grow 16) c)

left : Cpu → Cpu
left d =
    let x = load_all trap_words (d.x 2) d.mem d.x in
    record d { x = update x 2 ((x 2 + 8 * 16) % 2 ^ 64) }

exec-trap_exit : (d : Cpu) → exec trap_exit d ≡ left d
unfolding trap_exit left exec
exec-trap_exit d = exec-restores trap_words (shrink 16 ∷ []) d refl

-- What the handler keeps, as every function does: sp, the registers that are not in the frame, and
-- the frame above its own.
pub record Keeps (f : ℕ) (c d : Cpu) : Type 0 where
  pub regs : (r : ℕ) → r < 32 → in_frame r ≡ false → d.x r ≡ c.x r
  pub words : (k : ℕ) → k < 16 → d.mem (f + 8 * k) ≡ c.mem (f + 8 * k)

module _ (c d : Cpu) (room : 8 * 16 ≤ c.x 2) (top : c.x 2 < 2 ^ 64)
    (keeps : Keeps (frame c) (entered c) d) where
  pointer : d.x 2 ≡ frame c
  unfolding entered
  pointer = keeps.regs 2 (omega arith) refl

  loaded :
      (r : ℕ)
      → load_all trap_words (d.x 2) d.mem d.x r
        ≡ elim (restored_from trap_words r) [ some k ↦ d.mem (frame c + 8 * k) | none ↦ d.x r ]
  loaded r =
      ap (λ (p : ℕ). load_all trap_words p d.mem d.x r) pointer
      ∙ load_all-reg trap_words 16 (frame c) r d.mem d.x (omega arith) refl

  framed : (r : ℕ) → r < 32 → in_frame r ≡ true → d.mem (frame c + 8 * word_of r) ≡ c.x r
  unfolding entered
  framed r h e =
      let (l, _, back) = in_frame-word r h e in
      ground (
        arith,
        back,
        keeps.words (word_of r) l,
        store_all-word trap_words 16 (frame c) (word_of r) (update c.x 2 (frame c)) c.mem
            (omega arith) refl l,
      )

  left-in_frame : (r : ℕ) → r < 32 → in_frame r ≡ true → (left d).x r ≡ c.x r
  unfolding left
  left-in_frame r h e = ground (arith, loaded r, (in_frame-word r h e).1, framed r h e)

  left-kept : (r : ℕ) → r < 32 → in_frame r ≡ false → (left d).x r ≡ c.x r
  unfolding left entered
  left-kept r h e = elim (ℕ_discrete r 2) [
    | yes q ↦ ground (arith, q, loaded 2, pointer)
    | no q ↦ ground (arith, q, loaded r, out_of_frame r h e, keeps.regs r h e)
  ]

-- A trap in the test kernel gives the trapped code all its registers back, if the stack has room for
-- the frame and the handler keeps what every function keeps.
pub start_trap_transparent :
    (rust_trap_exception : Cpu → Cpu) (c : Cpu) (r : ℕ)
    → 8 * 16 ≤ c.x 2
    → c.x 2 < 2 ^ 64
    → Keeps (frame c) (exec trap_entry c) (rust_trap_exception (exec trap_entry c))
    → r < 32
    → (start_trap rust_trap_exception c).x r ≡ c.x r
unfolding start_trap
start_trap_transparent f c r room top keeps h =
    ap (λ (d : Cpu). d.x r) (exec-trap_exit d) ∙ elim (Bool-cases (in_frame r)) [
      | inl e ↦ left-in_frame c d room top kept r h e
      | inr e ↦ left-kept c d room top kept r h e
    ]
  where
    d : Cpu
    d = f (exec trap_entry c)

    kept : Keeps (frame c) (entered c) d
    kept = subst (λ b. Keeps (frame c) b d) (exec-trap_entry c) keeps
