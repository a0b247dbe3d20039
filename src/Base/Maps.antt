-- ===== src/Base/Maps.antt =====
-- Maps keyed by numbers, as functions: a hash map is `ℕ → Option V`, and device memory `ℕ → ℕ`.
use Prim.Native.Nat.{ℕ}
use mathlib.Core.Path.{◌≡◌, fun_ext}
use mathlib.Core.Logic.{◌≢◌}
use mathlib.Core.Option.{Option, none, some}
use native.Mathlib.Omega.{arith}
use rustsbi_hifive_unmatched.Base.Tests.{◌==◌, if◌then◌else◌}

module _ {ℓ} {A : Type ℓ} where
  abbrev pub update : (ℕ → A) → ℕ → A → ℕ → A
  update f i a j = if i == j then a else f j

  pub update_self : (f : ℕ → A) (i : ℕ) (a : A) → update f i a i ≡ a
  update_self f i a = ground arith

  pub update_ne : (f : ℕ → A) (i j : ℕ) (a : A) → i ≢ j → update f i a j ≡ f j
  update_ne f i j a h = ground arith

  pub update-update : (f : ℕ → A) (i : ℕ) (a b : A) → update (update f i a) i b ≡ update f i b
  update-update f i a b = fun_ext λ j. ground arith

-- `entry(k).or_insert(v)`: an entry that is there stays.
module _ {ℓ} {V : Type ℓ} where
  abbrev pub or_insert : (ℕ → Option V) → ℕ → V → ℕ → Option V
  or_insert m k v = elim (m k) [ none ↦ update m k (some v) | some _ ↦ m ]

  abbrev pub get_or : Option V → V → V
  get_or none d = d
  get_or (some v) d = v
