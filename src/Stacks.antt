-- ===== src/Stacks.antt =====
-- rustsbi-jh7100/src/main.rs and test-kernel/src/main.rs: the loop of both `entry`, which finds the
-- end of the stack of a hart.
use rustsbi_hifive_unmatched.Base.{ℕ, zero, suc, ◌+◌, ◌*◌, ◌%◌, ◌^◌, ◌<◌, ◌≡◌, arith}

-- The loop at label 1, with `left` + 1 rounds left.
unfoldable pub entry_loop : (size left sp : ℕ) → ℕ
entry_loop size zero sp = (sp + size) % 2 ^ 64
entry_loop size (suc left) sp = entry_loop size left ((sp + size) % 2 ^ 64)

pub entry_loop-sum :
    (size left sp : ℕ)
    → sp + (left + 1) * size < 2 ^ 64
    → entry_loop size left sp ≡ sp + (left + 1) * size
unfolding entry_loop
entry_loop-sum size zero sp h = omega arith
entry_loop-sum size (suc left) sp h =
    ground (arith, entry_loop-sum size left ((sp + size) % 2 ^ 64))
