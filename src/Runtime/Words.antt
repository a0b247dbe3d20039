-- ===== src/Runtime/Words.antt =====
-- runtime.rs: which word of the context and of the frame belongs to which register, and where the two
-- areas lie.
use rustsbi_hifive_unmatched.Base.{
  ℕ, ◌+◌, ◌-◌, ◌*◌, ◌^◌, ◌≤◌, ◌<◌, ◌≡◌, ◌≢◌, ◌⊎◌, refl, some, Bool, true, ◌||◌, ◌==◌, arith,
  holds_below, holds_below-at, is_some_of, is_some_of-eq, not, ◌&&◌, ltb, get_or, ltb→lt, or-of_not,
  and-parts,
}
use rustsbi_hifive_unmatched.Asm.Tables.{saved_in, restored_from}
use rustsbi_hifive_unmatched.Runtime.{machine_words, supervisor_words}

-- The context, of 34 words at `p`, and the frame, of 15 words at `f`, neither wrap nor overlap.
pub record Areas (p f : ℕ) : Type 0 where
  pub context : p + 8 * 34 ≤ 2 ^ 64
  pub frame : f + 8 * 15 < 2 ^ 64
  pub apart : (f + 8 * 15 ≤ p) ⊎ (p + 8 * 34 ≤ f)

-- Both tables of the context go by the number of the register.
pub context_saved : (k : ℕ) → k < 31 → k ≢ 1 → saved_in supervisor_words k ≡ some (k + 1)
context_saved k h n = is_some_of-eq (k + 1) (saved_in supervisor_words k) (
    ground (
      arith,
      holds_below-at 31 (λ k. k == 1 || is_some_of (k + 1) (saved_in supervisor_words k)) k checked,
    ))
  where
    checked :
        holds_below 31 (λ k. k == 1 || is_some_of (k + 1) (saved_in supervisor_words k)) ≡ true
    checked = unfold holds_below in refl

pub context_restored :
    (r : ℕ) → 0 < r → r < 32 → r ≢ 2 → restored_from supervisor_words r ≡ some (r - 1)
context_restored r p h n =
    is_some_of-eq (r - 1) (restored_from supervisor_words r)
      (ground (arith, holds_below-at 32 named r checked))
  where
    named : ℕ → Bool
    named r = r == 0 || (r == 2 || is_some_of (r - 1) (restored_from supervisor_words r))

    checked : holds_below 32 named ≡ true
    checked = unfold holds_below in refl

-- The registers that the calling convention has a function keep, but for sp.
abbrev pub callee_saved : ℕ → Bool
callee_saved r = r == 1 || (r == 3 || (r == 4 || (r == 8 || (r == 9 || (ltb 17 r && ltb r 28)))))

-- The word of the frame that a register is kept in.
abbrev pub frame_word : ℕ → ℕ
frame_word r = get_or (restored_from machine_words r) 0

pub frame_restored :
    (r : ℕ)
    → r < 32
    → callee_saved r ≡ true
    → (frame_word r < 15)
      × (restored_from machine_words r ≡ some (frame_word r))
      × (saved_in machine_words (frame_word r) ≡ some r)
frame_restored r h c =
    let (named, back) =
      and-parts _ _ (or-of_not (callee_saved r) _ (holds_below-at 32 test r checked h) c) in
    (
      ltb→lt (frame_word r) 15 (holds_below-at 32 small r small_checked h),
      is_some_of-eq _ _ named,
      is_some_of-eq _ _ back,
    )
  where
    test : ℕ → Bool
    test r =
        not (callee_saved r)
        || (is_some_of (frame_word r) (restored_from machine_words r)
            && is_some_of r (saved_in machine_words (frame_word r)))

    checked : holds_below 32 test ≡ true
    checked = unfold holds_below in refl

    small : ℕ → Bool
    small r = ltb (frame_word r) 15

    small_checked : holds_below 32 small ≡ true
    small_checked = unfold holds_below in refl
