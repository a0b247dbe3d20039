-- ===== src/DeviceTree.antt =====
-- rustsbi-jh7100/src/device_tree.rs, and what main.rs makes of its result. The crate
-- `serde_device_tree` is a parameter.
use Prim.Native.String.{String}
use rustsbi_hifive_unmatched.Base.{ℕ, ◌⊎◌, inl, inr, List, [], ◌∷◌, Option, some, none}

pub record Chosen : Type 0 where
  pub stdout_path : Option String

pub record Tree : Type 0 where
  pub chosen : Option Chosen

-- The result, and the paths that are printed.
unfoldable pub parse_device_tree : {E : Type 0} → (ℕ → E ⊎ Tree) → ℕ → (E ⊎ Unit {0}) × List String
parse_device_tree from_raw dtb_pa = elim (from_raw dtb_pa) [
  | inl e ↦ (inl e, [])
  | inr tree ↦ (
    inr tt,
    elim tree.chosen [
      | none ↦ []
      | some chosen ↦ elim chosen.stdout_path [ none ↦ [] | some stdout_path ↦ stdout_path ∷ [] ]
    ],
  )
]
