-- ===== src/Mutex/Exclusion.antt =====
-- util.rs: who holds the lock.
use rustsbi_hifive_unmatched.Base.{
  ℕ, ◌≡◌, ◌≢◌, ◌⊎◌, inl, inr, refl, Bool, true, false, ◌==◌, arith, List, [], ◌∷◌,
}
use rustsbi_hifive_unmatched.Mutex.{
  Point, outside, test, tested, swap, swapped, inside, lock, AmoMutex, new, advance, schedule,
}

-- A hart that has taken the lock: it is inside, or is about to see that it got it.
abbrev owns : Point → Bool
owns inside = true
owns (swapped tmp) = tmp == 0
owns _ = false

abbrev OwnedBy : AmoMutex → ℕ → Type 0
OwnedBy m k = (owns (m.at k) ≡ true) × ((i : ℕ) → owns (m.at i) ≡ true → i ≡ k)

-- The word is free and nobody owns the lock, or it is taken and just one hart does.
abbrev IsLock : AmoMutex → Type 0
IsLock m =
    ((m.word ≡ 0) × ((i : ℕ) → owns (m.at i) ≡ false)) ⊎ ((m.word ≡ 1) × ((k : ℕ) × OwnedBy m k))

free_step :
    (i : ℕ) (m : AmoMutex) (p : Point)
    → m.at i ≡ p
    → m.word ≡ 0
    → ((j : ℕ) → owns (m.at j) ≡ false)
    → IsLock (advance i m)
unfolding advance lock
free_step i m swap e w f =
    inr (ground (arith, e), (i, (ground (arith, e), λ j h. ground (arith, e, f j))))
free_step i m outside e w f = inl (ground (arith, e), λ j. ground (arith, e, f j))
free_step i m test e w f = inl (ground (arith, e), λ j. ground (arith, e, f j))
free_step i m (tested tmp) e w f = inl (ground (arith, e), λ j. ground (arith, e, f j))
free_step i m (swapped tmp) e w f = inl (ground (arith, e), λ j. ground (arith, e, f i, f j))
free_step i m inside e w f = inl (ground (arith, e), λ j. ground (arith, e, f j))

taken_step :
    (i : ℕ) (m : AmoMutex) (k : ℕ) (p : Point)
    → m.at i ≡ p
    → m.word ≡ 1
    → OwnedBy m k
    → IsLock (advance i m)
unfolding advance lock
taken_step i m k inside e w (o, u) = inl (ground (arith, e), λ j. ground (arith, e, u i, u j))
taken_step i m k outside e w (o, u) =
    inr (ground (arith, e), (k, (ground (arith, e, o), λ j h. ground (arith, e, u j))))
taken_step i m k test e w (o, u) =
    inr (ground (arith, e), (k, (ground (arith, e, o), λ j h. ground (arith, e, u j))))
taken_step i m k (tested tmp) e w (o, u) =
    inr (ground (arith, e), (k, (ground (arith, e, o), λ j h. ground (arith, e, u j))))
taken_step i m k swap e w (o, u) =
    inr (ground (arith, e), (k, (ground (arith, e, o), λ j h. ground (arith, e, u j))))
taken_step i m k (swapped tmp) e w (o, u) =
    inr (ground (arith, e), (k, (ground (arith, e, o), λ j h. ground (arith, e, u i, u j))))

schedule-IsLock : (is : List ℕ) (m : AmoMutex) → IsLock m → IsLock (schedule is m)
unfolding schedule
schedule-IsLock [] m h = h
schedule-IsLock (i ∷ is) m (inl (w, f)) =
    schedule-IsLock is (advance i m) (free_step i m (m.at i) refl w f)
schedule-IsLock (i ∷ is) m (inr (w, (k, o))) =
    schedule-IsLock is (advance i m) (taken_step i m k (m.at i) refl w o)

new-IsLock : IsLock new
new-IsLock = inl (refl, λ i. refl)

-- After any schedule of any harts, from the new mutex on, at most one hart is inside.
pub schedule_exclusive :
    (is : List ℕ) (i j : ℕ)
    → (schedule is new).at i ≡ inside
    → (schedule is new).at j ≡ inside
    → i ≡ j
schedule_exclusive is i j hi hj = elim (schedule-IsLock is new new-IsLock) [
  | inl (w, f) ↦ ground (arith, f i)
  | inr (w, (k, (o, u))) ↦ ground (arith, u i, u j)
]

-- From every state that a schedule leads to, in which the word is free, any hart that is about to
-- test it is inside after four more instructions of its own, the word taken.
pub schedule_enters :
    (is : List ℕ) (i : ℕ)
    → (schedule is new).word ≡ 0
    → (schedule is new).at i ≡ test
    → let m = schedule (i ∷ i ∷ i ∷ i ∷ []) (schedule is new) in (m.at i ≡ inside) × (m.word ≡ 1)
unfolding schedule advance lock
schedule_enters is i w e = ground (arith, w, e)

-- A hart that leaves frees the word, so that no hart is inside any more.
pub schedule_leaves :
    (is : List ℕ) (i j : ℕ)
    → (schedule is new).at i ≡ inside
    → ((advance i (schedule is new)).word ≡ 0) × ((advance i (schedule is new)).at j ≢ inside)
unfolding advance lock
schedule_leaves is i j e = ground (arith, e, schedule_exclusive is i j)
