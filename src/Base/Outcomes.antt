-- ===== src/Base/Outcomes.antt =====
-- What a piece of firmware comes to: a result, a wait that the given fuel does not see the end of,
-- or a panic (`panic!`, `assert!`, after which the hart loops for ever).
pub data Outcome {ℓ} (A : Type ℓ) : Type ℓ where
  ok : A → Outcome A
  waiting panicked : Outcome A

infixl 5 ◌>>=◌
abbrev pub ◌>>=◌ {ℓ κ} : {A : Type ℓ} {B : Type κ} → Outcome A → (A → Outcome B) → Outcome B
ok a >>= f = f a
waiting >>= f = waiting
panicked >>= f = panicked
