-- ===== src/Mutex.antt =====
-- test-kernel/src/util.rs: `AmoMutex`, instruction by instruction, with any number of harts. The lock
-- is the memory word that `lw` and `amoswap.w` access.
pub mod Exclusion
use rustsbi_hifive_unmatched.Base.{ℕ, ◌==◌, if◌then◌else◌, Bool, true, false, update, List, [], ◌∷◌}

-- Where a hart stands, with its register `tmp`.
pub data Point : Type 0 where
  outside : Point  -- without a guard, not in `lock`
  test : Point  -- before `lw`
  tested : ℕ → Point  -- before the first `bnez`
  swap : Point  -- before `amoswap.w.aq`
  swapped : ℕ → Point  -- before the second `bnez`
  inside : Point  -- with the guard

-- The next instruction of a hart: what it leaves in the word, and where the hart stands behind it.
-- A hart outside calls `lock`, and one inside drops its guard.
unfoldable pub lock : ℕ → Point → ℕ × Point
lock word outside = (word, test)
lock word test = (word, tested word)
lock word (tested tmp) = (word, if tmp == 0 then swap else test)
lock word swap = (1, swapped word)
lock word (swapped tmp) = (word, if tmp == 0 then inside else test)
lock word inside = (0, outside)

pub record AmoMutex : Type 0 where
  pub word : ℕ
  pub at : ℕ → Point

abbrev pub new : AmoMutex
new = record { word = 0; at = λ i. outside }

-- One instruction of hart `i`, and the instructions of the harts of a schedule, in its order.
unfoldable pub advance : ℕ → AmoMutex → AmoMutex
unfolding lock
advance i m =
    let (word, point) = lock m.word (m.at i) in record { word = word; at = update m.at i point }

unfoldable pub schedule : List ℕ → AmoMutex → AmoMutex
unfolding advance
schedule [] m = m
schedule (i ∷ is) m = schedule is (advance i m)
