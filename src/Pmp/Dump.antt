-- ===== src/Pmp/Dump.antt =====
-- rustsbi-jh7100/src/hart_csr_utils.rs: the reading of the registers of the physical memory protection.
pub mod Filled
use rustsbi_hifive_unmatched.Base.{
  ℕ, zero, suc, ◌+◌, ◌-◌, ◌*◌, ◌/◌, ◌%◌, ◌^◌, ltb, leb, ◌&&◌, if◌then◌else◌, update, Option, some,
  none, Bool, Outcome, ok, panicked, ◌>>=◌,
}
use rustsbi_hifive_unmatched.Pmp.{
  AddressMatching, off, tor, na4, napot, napot_pmpaddr_cfg, r, w, x, a, l,
}

-- The registers of the hart, by number.
pub record Registers : Type 0 where
  pub pmpcfg : ℕ → ℕ
  pub pmpaddr : ℕ → ℕ

-- `pmpcfg_r` and `pmpaddr_r`: the jump into the table of `csrr`s.
unfoldable pub pmpcfg_r : Registers → ℕ → Outcome ℕ
pmpcfg_r h pmpcfg_id = if leb pmpcfg_id 15 then ok (h.pmpcfg pmpcfg_id) else panicked

unfoldable pub pmpaddr_r : Registers → ℕ → Outcome ℕ
pmpaddr_r h pmpaddr_id = if leb pmpaddr_id 63 then ok (h.pmpaddr pmpaddr_id) else panicked

-- An entry: its configuration and its address.
abbrev pub Entries : Type 0
Entries = ℕ → ℕ × ℕ

-- `x.to_le_bytes()[j]`
abbrev pub le_byte : ℕ → ℕ → ℕ
le_byte n j = n / 2 ^ (8 * j) % 2 ^ 8

-- The inner loop, from `j` on, for an array of `len` entries.
unfoldable pub read_addresses : Registers → ℕ → ℕ → ℕ → ℕ → ℕ → Entries → Outcome Entries
unfolding pmpaddr_r
read_addresses h len i pmpcfgi zero j ans = ok ans
read_addresses h len i pmpcfgi (suc left) j ans =
    let pmpaddr_id = i * 4 + j in
    pmpaddr_r h pmpaddr_id >>= λ pmpaddri.
    if ltb pmpaddr_id len
    then read_addresses h len i pmpcfgi left (suc j)
        (update ans pmpaddr_id (le_byte pmpcfgi j, pmpaddri))
    else panicked

-- The outer loop: every second register, for the 64-bit machine.
unfoldable pub read_configs : Registers → ℕ → ℕ → ℕ → Entries → Outcome Entries
unfolding pmpcfg_r
read_configs h len zero i ans = ok ans
read_configs h len (suc left) i ans = pmpcfg_r h i >>= λ pmpcfgi.
    read_addresses h len i pmpcfgi 8 0 ans >>= read_configs h len left (i + 2)

-- `pmps::<L>()`: `(0..L / 8).step_by(2)` has so many steps.
unfoldable pub pmps : Registers → ℕ → Outcome Entries
pmps h len = if ltb len 64 then read_configs h len ((len / 8 + 1) / 2) 0 (λ k. (0, 0)) else panicked

-- A line of `print_pmp`: the range, its ends included, and the marks of the configuration.
pub record Line : Type 0 where
  pub range : ℕ × ℕ
  pub reads : Bool
  pub writes : Bool
  pub executes : Bool
  pub locked : Bool

unfoldable pub print_entry : ℕ × ℕ → Option Line
print_entry (pmpicfg, pmpiaddr) =
    let line : ℕ × ℕ → Option Line = λ range. some (record {
      range = range;
      reads = r pmpicfg;
      writes = w pmpicfg;
      executes = x pmpicfg;
      locked = l pmpicfg;
    }) in
    elim (a pmpicfg) [
      | off ↦ none
      | tor ↦ line (0, 2 ^ (55 + 1) - 1)
      | na4 ↦ line (pmpiaddr * 2 ^ 2, pmpiaddr * 2 ^ 2 + 4)
      | napot ↦ line (napot_pmpaddr_cfg pmpiaddr)
    ]

-- The lines, by the number of the entry.
unfoldable pub print_pmp : Registers → Outcome (ℕ → Option Line)
unfolding print_entry
print_pmp h = pmps h 8 >>= λ entries. ok (λ i. print_entry (entries i))
