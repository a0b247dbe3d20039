-- ===== src/Pmp/Dump/Filled.antt =====
-- hart_csr_utils.rs: which entries `pmps` reads.
use rustsbi_hifive_unmatched.Base.{
  ℕ, zero, suc, ◌+◌, ◌*◌, ◌/◌, ◌%◌, ◌≤◌, ◌<◌, ◌≡◌, refl, ltb, if◌then◌else◌, update, ok, arith, ◌∙◌,
  ap, ap₂, Outcome, ◌>>=◌,
}
use rustsbi_hifive_unmatched.Pmp.Dump.{
  Registers, Entries, le_byte, pmpcfg_r, read_addresses, read_configs, pmps,
}

-- The entries of the `k`th register read: the eight bytes of it, with the addresses of their numbers.
abbrev pub entry_of : Registers → ℕ → ℕ × ℕ
entry_of h k = (le_byte (h.pmpcfg (k / 8 * 2)) (k % 8), h.pmpaddr k)

-- Entries that hold those read so far, the first `n`.
abbrev ReadTo : Registers → ℕ → Entries → Type 0
ReadTo h n ans = (k : ℕ) → ans k ≡ (if ltb k n then entry_of h k else (0, 0))

module _ (h : Registers) (t j : ℕ) (small : j < 8) where
  entry_of-place :
      entry_of h (t * 8 + j) ≡ (le_byte (h.pmpcfg (2 * t)) j, h.pmpaddr (2 * t * 4 + j))
  entry_of-place =
      ap₂ (λ (q r : ℕ). (le_byte (h.pmpcfg q) r, h.pmpaddr (t * 8 + j))) (omega (arith, small))
        (omega (arith, small))
      ∙ ap (λ (q : ℕ). (le_byte (h.pmpcfg (2 * t)) j, h.pmpaddr q)) (omega arith)

  ReadTo-suc :
      (ans : Entries)
      → ReadTo h (t * 8 + j) ans
      → ReadTo h
          (t * 8 + suc j)
          (update ans (2 * t * 4 + j) (le_byte (h.pmpcfg (2 * t)) j, h.pmpaddr (2 * t * 4 + j)))
  ReadTo-suc ans read k = ground (arith, read k, entry_of-place)

read_addresses-ReadTo :
    (h : Registers) (len t left j : ℕ) (ans : Entries)
    → j + left ≡ 8
    → t * 8 + 8 ≤ len
    → len < 64
    → ReadTo h (t * 8 + j) ans
    → (ans' : Entries) × (read_addresses h len (2 * t) (h.pmpcfg (2 * t)) left j ans ≡ ok ans')
      × ReadTo h (t * 8 + 8) ans'
unfolding read_addresses
read_addresses-ReadTo h len t zero j ans e l u read = (ans, refl, λ k. ground (arith, read k))
read_addresses-ReadTo h len t (suc left) j ans e l u read =
    let (ans', q, read') =
      read_addresses-ReadTo h len t left (suc j)
        (update ans (2 * t * 4 + j) (le_byte (h.pmpcfg (2 * t)) j, h.pmpaddr (2 * t * 4 + j)))
        (omega arith) l u (ReadTo-suc h t j (omega arith) ans read) in
    (ans', ground (arith, q), read')

read_configs-suc :
    (h : Registers) (len left t : ℕ) (ans : Entries)
    → 2 * t ≤ 15
    → read_configs h len (suc left) (2 * t) ans ≡ (
        read_addresses h len (2 * t) (h.pmpcfg (2 * t)) 8 0 ans
        >>= read_configs h len left (2 * suc t))
unfolding read_configs pmpcfg_r
read_configs-suc h len left t ans l = ground arith

read_configs-ReadTo :
    (h : Registers) (len left t : ℕ) (ans : Entries)
    → (t + left) * 8 ≤ len
    → len < 64
    → ReadTo h (t * 8) ans
    → (ans' : Entries) × (read_configs h len left (2 * t) ans ≡ ok ans')
      × ReadTo h ((t + left) * 8) ans'
unfolding read_configs
read_configs-ReadTo h len zero t ans l u read = (ans, refl, λ k. ground (arith, read k))
read_configs-ReadTo h len (suc left) t ans l u read =
    let (ans₁, q₁, read₁) =
      read_addresses-ReadTo h len t 8 0 ans refl (omega arith) u (λ k. ground (arith, read k)) in
    let (ans₂, q₂, read₂) =
      read_configs-ReadTo h len left (suc t) ans₁ (omega arith) u (λ k. ground (arith, read₁ k)) in
    (
      ans₂,
      read_configs-suc h len left t ans (omega arith)
          ∙ ap (λ (x : Outcome Entries). x >>= read_configs h len left (2 * suc t)) q₁
          ∙ q₂,
      λ k. ground (arith, read₂ k),
    )

-- An array of fewer than 64 entries is filled with the eight bytes of every second register, each
-- with its address, up to the entry (len / 8 + 1) / 2 * 8, and with zeros behind; so the array of 8
-- entries that is printed is full, but one of 16 would hold only the first 8.
pub pmps_filled :
    (h : Registers) (len : ℕ)
    → len < 64
    → (ans : Entries) × (pmps h len ≡ ok ans)
      × ((k : ℕ) → ans k ≡ (if ltb k ((len / 8 + 1) / 2 * 8) then entry_of h k else (0, 0)))
unfolding pmps
pmps_filled h len u =
    let (ans, q, read) =
      read_configs-ReadTo h len ((len / 8 + 1) / 2) 0 (λ k. (0, 0)) (omega arith) u
        (λ k. ground arith) in
    (ans, ground (arith, q), λ k. ground (arith, read k))
