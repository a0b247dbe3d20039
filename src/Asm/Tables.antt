-- ===== src/Asm/Tables.antt =====
-- Runs of stores and of loads, relative to sp, given by a table of registers and words.
use rustsbi_hifive_unmatched.Base.{
  ℕ, ◌+◌, ◌*◌, ◌^◌, ◌≤◌, ◌<◌, ◌≡◌, ◌≢◌, refl, ◌==◌, if◌then◌else◌, update, Option, some, none, List,
  [], ◌∷◌, ◌++◌, arith, Bool, true, ◌&&◌, ltb, not,
}
use rustsbi_hifive_unmatched.Asm.{Cpu, Instr, sd, ld, exec, step, word_at}

abbrev pub Table : Type 0
Table = List (ℕ × ℕ)

pub saves : Table → List Instr
saves [] = []
saves ((r, k) ∷ t) = sd r k 2 ∷ saves t

pub restores : Table → List Instr
restores [] = []
restores ((r, k) ∷ t) = ld r k 2 ∷ restores t

-- What the two do to memory and to the registers.
pub store_all : Table → ℕ → (ℕ → ℕ) → (ℕ → ℕ) → ℕ → ℕ
store_all [] base x mem = mem
store_all ((r, k) ∷ t) base x mem = store_all t base x (update mem (word_at base k) (x r))

pub load_all : Table → ℕ → (ℕ → ℕ) → (ℕ → ℕ) → ℕ → ℕ
load_all [] base mem x = x
load_all ((r, k) ∷ t) base mem x = load_all t base mem (update x r (mem (word_at base k)))

pub exec-saves :
    (t : Table) (is : List Instr) (c : Cpu)
    → exec (saves t ++ is) c ≡ exec is (record c { mem = store_all t (c.x 2) c.x c.mem })
unfolding exec saves store_all
exec-saves [] is c = refl
exec-saves ((r, k) ∷ t) is c =
    exec-saves t is (record c { mem = update c.mem (word_at (c.x 2) k) (c.x r) })

-- The registers of a table, sp not among them.
abbrev pub avoids_sp : Table → Bool
avoids_sp [] = true
avoids_sp ((r, k) ∷ t) = not (r == 2) && avoids_sp t

pub exec-restores :
    (t : Table) (is : List Instr) (c : Cpu)
    → avoids_sp t ≡ true
    → exec (restores t ++ is) c ≡ exec is (record c { x = load_all t (c.x 2) c.mem c.x })
unfolding exec restores load_all
exec-restores [] is c h = refl
exec-restores ((r, k) ∷ t) is c h = ground (
  arith,
  exec-restores t is (record c { x = update c.x r (c.mem (word_at (c.x 2) k)) }) (ground arith),
)

-- The register that a word is saved from, and the word that a register is restored from: the last
-- entry of the table counts.
abbrev pub saved_in : Table → ℕ → Option ℕ
saved_in [] k = none
saved_in ((r, j) ∷ t) k = elim (saved_in t k) [
  | some s ↦ some s
  | none ↦ if j == k then some r else none
]

abbrev pub restored_from : Table → ℕ → Option ℕ
restored_from [] r = none
restored_from ((s, k) ∷ t) r = elim (restored_from t r) [
  | some j ↦ some j
  | none ↦ if s == r then some k else none
]

abbrev pub below : ℕ → Table → Bool
below n [] = true
below n ((r, k) ∷ t) = ltb k n && below n t

-- A word of an area that does not wrap round holds the register that was saved in it, if any, and
-- an address outside the area what it held.
pub store_all-word :
    (t : Table) (n base k : ℕ) (x mem : ℕ → ℕ)
    → base + 8 * n ≤ 2 ^ 64
    → below n t ≡ true
    → k < n
    → store_all t base x mem (base + 8 * k)
      ≡ elim (saved_in t k) [ some r ↦ x r | none ↦ mem (base + 8 * k) ]
unfolding store_all
store_all-word [] n base k x mem h b l = refl
store_all-word ((r, j) ∷ t) n base k x mem h b l =
    ground (arith, store_all-word t n base k x (update mem (word_at base j) (x r)) h)

pub store_all-outside :
    (t : Table) (n base a : ℕ) (x mem : ℕ → ℕ)
    → base + 8 * n ≤ 2 ^ 64
    → below n t ≡ true
    → ((k : ℕ) → k < n → a ≢ base + 8 * k)
    → store_all t base x mem a ≡ mem a
unfolding store_all
store_all-outside [] n base a x mem h b o = refl
store_all-outside ((r, j) ∷ t) n base a x mem h b o =
    ground (arith, o j, store_all-outside t n base a x (update mem (word_at base j) (x r)) h)

pub load_all-reg :
    (t : Table) (n base r : ℕ) (mem x : ℕ → ℕ)
    → base + 8 * n ≤ 2 ^ 64
    → below n t ≡ true
    → load_all t base mem x r
      ≡ elim (restored_from t r) [ some k ↦ mem (base + 8 * k) | none ↦ x r ]
unfolding load_all
load_all-reg [] n base r mem x h b = refl
load_all-reg ((s, k) ∷ t) n base r mem x h b =
    ground (arith, load_all-reg t n base r mem (update x s (mem (word_at base k))) h)

pub exec-append : (is js : List Instr) (c : Cpu) → exec (is ++ js) c ≡ exec js (exec is c)
unfolding exec
exec-append [] js c = refl
exec-append (i ∷ is) js c = exec-append is js (step i c)
