-- ===== src/HartCsrs/Names.antt =====
-- hart_csr_utils.rs: the printed text tells which bits are set.
use Prim.Native.String.{String}
use text.Mathlib.Text.{◌==◌ as str_eq}
use text.Mathlib.TextEquality.{eq_iff}
use rustsbi_hifive_unmatched.Base.{
  ℕ, zero, suc, ◌+◌, ◌≤◌, ◌<◌, ◌≡◌, refl, Bool, true, false, ◌&&◌, ◌||◌, not, ◌==◌, if◌then◌else◌,
  List, [], ◌∷◌, Option, some, none, arith,
}
use rustsbi_hifive_unmatched.HartCsrs.{
  Table, mideleg_table, medeleg_table, push_names, print_mideleg, print_medeleg, push_extensions,
}

abbrev pub contains : List String → String → Bool
contains [] name = false
contains (n ∷ ns) name = str_eq n name || contains ns name

-- The name of a bit, if it has one.
abbrev pub name_of : Table → ℕ → Option String
name_of [] bit = none
name_of ((b, n) ∷ t) bit = if b == bit then some n else name_of t bit

abbrev mentions : Table → String → Bool
mentions [] name = false
mentions ((b, n) ∷ t) name = str_eq n name || mentions t name

abbrev distinct : Table → Bool
distinct [] = true
distinct ((b, n) ∷ t) = not (mentions t n) && distinct t

unmentioned :
    (t : Table) (reads : ℕ → Bool) (name : String)
    → mentions t name ≡ false
    → contains (push_names t reads) name ≡ false
unfolding push_names
unmentioned [] reads name h = refl
unmentioned ((b, n) ∷ t) reads name h = ground (arith, unmentioned t reads name)

mentions-name_of :
    (t : Table) (bit : ℕ) (name : String) → name_of t bit ≡ some name → mentions t name ≡ true
mentions-name_of [] bit name h = cc
mentions-name_of ((b, n) ∷ t) bit name h =
    ground (arith, eq_iff n name, mentions-name_of t bit name)

push_names-contains :
    (t : Table) (reads : ℕ → Bool) (bit : ℕ) (name : String)
    → distinct t ≡ true
    → name_of t bit ≡ some name
    → contains (push_names t reads) name ≡ reads bit
unfolding push_names
push_names-contains [] reads bit name d h = cc
push_names-contains ((b, n) ∷ t) reads bit name d h = ground (
  arith,
  eq_iff n name,
  mentions-name_of t bit name,
  unmentioned t reads n,
  push_names-contains t reads bit name,
)

-- The synchronous exceptions of the privileged architecture.
pub data Access : Type 0 where
  on_fetch on_load on_store : Access

pub data Caller : Type 0 where
  from_user from_supervisor from_machine : Caller

pub data Cause : Type 0 where
  misaligned access_fault page_fault : Access → Cause
  illegal breakpoint : Cause
  env_call : Caller → Cause

-- Their codes in `mcause`, which are the numbers of their bits in `medeleg`.
abbrev pub number : Cause → ℕ
number (misaligned on_fetch) = 0
number (misaligned on_load) = 4
number (misaligned on_store) = 6
number (access_fault on_fetch) = 1
number (access_fault on_load) = 5
number (access_fault on_store) = 7
number (page_fault on_fetch) = 12
number (page_fault on_load) = 13
number (page_fault on_store) = 15
number illegal = 2
number breakpoint = 3
number (env_call from_user) = 8
number (env_call from_supervisor) = 9
number (env_call from_machine) = 11

-- Their short names: the access by its first letter, then `ma` for a misaligned address, `a` for an
-- access fault and `page` for a page fault; the caller by its first letter, then `ecall`.
abbrev pub short_name : Cause → String
short_name (misaligned on_fetch) = "ima"
short_name (misaligned on_load) = "lma"
short_name (misaligned on_store) = "sma"
short_name (access_fault on_fetch) = "ia"
short_name (access_fault on_load) = "la"
short_name (access_fault on_store) = "sa"
short_name (page_fault on_fetch) = "ipage"
short_name (page_fault on_load) = "lpage"
short_name (page_fault on_store) = "spage"
short_name illegal = "illinsn"
short_name breakpoint = "bkpt"
short_name (env_call from_user) = "uecall"
short_name (env_call from_supervisor) = "secall"
short_name (env_call from_machine) = "mecall"

medeleg_table-short_name : (c : Cause) → name_of medeleg_table (number c) ≡ some (short_name c)
medeleg_table-short_name (misaligned on_fetch) = refl
medeleg_table-short_name (misaligned on_load) = refl
medeleg_table-short_name (misaligned on_store) = refl
medeleg_table-short_name (access_fault on_fetch) = refl
medeleg_table-short_name (access_fault on_load) = refl
medeleg_table-short_name (access_fault on_store) = refl
medeleg_table-short_name (page_fault on_fetch) = refl
medeleg_table-short_name (page_fault on_load) = refl
medeleg_table-short_name (page_fault on_store) = refl
medeleg_table-short_name illegal = refl
medeleg_table-short_name breakpoint = refl
medeleg_table-short_name (env_call from_user) = refl
medeleg_table-short_name (env_call from_supervisor) = refl
medeleg_table-short_name (env_call from_machine) = refl

-- For each of the fourteen exceptions of the architecture: its short name is printed exactly when the
-- bit of `medeleg` with its code is set.
pub print_medeleg-contains :
    (medeleg : ℕ → Bool) (c : Cause)
    → contains (print_medeleg medeleg) (short_name c) ≡ medeleg (number c)
unfolding print_medeleg
print_medeleg-contains medeleg c =
    push_names-contains medeleg_table medeleg (number c) (short_name c) refl
      (medeleg_table-short_name c)

-- The name of a bit of `mideleg` is printed exactly when the bit is set.
pub print_mideleg-contains :
    (mideleg : ℕ → Bool) (bit : ℕ) (name : String)
    → name_of mideleg_table bit ≡ some name
    → contains (print_mideleg mideleg) name ≡ mideleg bit
unfolding print_mideleg
print_mideleg-contains mideleg bit name h =
    push_names-contains mideleg_table mideleg bit name refl h

abbrev pub contains_letter : List ℕ → ℕ → Bool
contains_letter [] c = false
contains_letter (x ∷ xs) c = x == c || contains_letter xs c

letter_before :
    (has : ℕ → Bool) (left ext c : ℕ)
    → c < ext
    → contains_letter (push_extensions has left ext) c ≡ false
unfolding push_extensions
letter_before has zero ext c h = refl
letter_before has (suc left) ext c h = ground (arith, letter_before has left (ext + 1) c)

-- A letter from A to Z is printed behind the width exactly when the hart has that extension.
pub push_extensions-contains :
    (has : ℕ → Bool) (left ext c : ℕ)
    → ext ≤ c
    → c < ext + left
    → contains_letter (push_extensions has left ext) c ≡ has c
unfolding push_extensions
push_extensions-contains has zero ext c l u = absurd (omega arith)
push_extensions-contains has (suc left) ext c l u =
    ground
      (arith, letter_before has left (ext + 1) c, push_extensions-contains has left (ext + 1) c)
