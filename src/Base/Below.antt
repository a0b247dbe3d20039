-- ===== src/Base/Below.antt =====
-- Facts about every number below a numeral, by evaluation.
use Prim.Native.Nat.{ℕ, zero, suc, ◌<◌}
use mathlib.Core.Path.{◌≡◌}
use mathlib.Core.Bool.{Bool, true, false, ◌&&◌}
use mathlib.Core.Option.{Option, none, some}
use native.Mathlib.Omega.{arith}
use rustsbi_hifive_unmatched.Base.Tests.{◌==◌}

unfoldable pub holds_below : ℕ → (ℕ → Bool) → Bool
holds_below zero p = true
holds_below (suc n) p = holds_below n p && p n

pub holds_below-at : (n : ℕ) (p : ℕ → Bool) (i : ℕ) → holds_below n p ≡ true → i < n → p i ≡ true
unfolding holds_below
holds_below-at zero p i h l = absurd (omega arith)
holds_below-at (suc n) p i h l = ground (arith, holds_below-at n p i)

-- Whether an optional number is the given one.
abbrev pub is_some_of : ℕ → Option ℕ → Bool
is_some_of n none = false
is_some_of n (some m) = m == n

pub is_some_of-eq : (n : ℕ) (o : Option ℕ) → is_some_of n o ≡ true → o ≡ some n
is_some_of-eq n none h = ground arith
is_some_of-eq n (some m) h = ground arith
