-- ===== src/Pmp/Grants.antt =====
-- main.rs: what the supervisor may do with each address once `set_pmp` has run.
use rustsbi_hifive_unmatched.Base.{
  ℕ, ◌+◌, ◌/◌, ◌%◌, ◌^◌, ◌≡◌, ◌==◌, if◌then◌else◌, leb, ltb, ◌&&◌, Bool, true, false, refl, List,
  [], ◌∷◌, Option, some, none, arith,
}
use rustsbi_hifive_unmatched.Pmp.{Pmp, set_pmp, AddressMatching, off, tor, na4, napot, r, w, x, a}
use rustsbi_hifive_unmatched.Pmp.Napot.{napot_matches, matches-range}

pub record Rights : Type 0 where
  pub read : Bool
  pub write : Bool
  pub execute : Bool

-- Whether an entry matches an address, by the privileged architecture; `below` is the address
-- register of the entry before.
abbrev pub entry_matches : AddressMatching → ℕ → ℕ → ℕ → Bool
entry_matches off below pmpaddr address = false
entry_matches tor below pmpaddr address = leb below (address / 4) && ltb (address / 4) pmpaddr
entry_matches na4 below pmpaddr address = address / 4 == pmpaddr
entry_matches napot below pmpaddr address = napot_matches pmpaddr address

-- The first entry that matches decides; with none that does, the supervisor may do nothing.
pub grants_from : ℕ → ℕ → List ℕ → ℕ → Option Rights
grants_from cfgs below [] address = none
grants_from cfgs below (pmpaddr ∷ rest) address =
    let cfg = cfgs % 2 ^ 8 in
    let later = grants_from (cfgs / 2 ^ 8) pmpaddr rest address in
    if entry_matches (a cfg) below pmpaddr address
    then some (record { read = r cfg; write = w cfg; execute = x cfg })
    else later

pub grants : Pmp → ℕ → Option Rights
unfolding grants_from
grants p address = grants_from p.pmpcfg0 0 p.pmpaddr address

abbrev pub read_write : Rights
read_write = record { read = true; write = true; execute = false }

abbrev pub all_rights : Rights
all_rights = record { read = true; write = true; execute = true }

abbrev pub within : ℕ → ℕ → ℕ → Bool
within start length address = leb start address && ltb address (start + length)

-- The regions and rights of the comments of `set_pmp`, but for the rights of region 2.
abbrev pub memory_map : Rights → ℕ → Option Rights
memory_map region_2 address =
    if within 0x1000_0000 0x800_0000 address
    then some read_write
    else if within 0x200_0000 0x200_0000 address
    then some read_write
    else if within 0x2000_0000 0x2000_0000 address
    then some region_2
    else if within 0x8000_0000 0x8000_0000 address
    then some all_rights
    else if within 0x1_0000_0000 0x1_0000_0000 address
    then some all_rights
    else if within 0x2_0000_0000 0x8000_0000 address
    then some all_rights
    else if within 0xc00_0000 0x400_0000 address
    then some all_rights
    else if within 0x1800_0000 0x800_0000 address
    then some all_rights
    else none

-- For every address, the registers that `set_pmp` writes grant what its comments say, but for region 2:
-- where the comment says that it may be read and written, the code grants all rights.
pub grants-set_pmp : (address : ℕ) → grants set_pmp address ≡ memory_map all_rights address
unfolding grants set_pmp
grants-set_pmp address =
    rw
      (
        matches-range 2 24 address (omega arith),
        matches-range 1 22 address (omega arith),
        matches-range 1 26 address (omega arith),
        matches-range 1 28 address (omega arith),
        matches-range 1 29 address (omega arith),
        matches-range 4 28 address (omega arith),
        matches-range 3 23 address (omega arith),
        matches-range 3 24 address (omega arith),
      )
      refl
