-- ===== src/Hsm/Refine/Story.antt =====
-- What the board does while one hart sleeps, as steps of the other harts.
use rustsbi_hifive_unmatched.Base.{ℕ, zero, suc, ◌≡◌}
use rustsbi_hifive_unmatched.Sbi.{Sbi}
use rustsbi_hifive_unmatched.Machine.{Machine}
use rustsbi_hifive_unmatched.Hsm.Calls.{Env}
use rustsbi_hifive_unmatched.Hsm.Wait.{after}
use rustsbi_hifive_unmatched.Hsm.System.{Place, Board, Reach, next}
use rustsbi_hifive_unmatched.Hsm.Diagram.{Run, here, then, Run-append}

-- While hart `i` stands at `p` and sleeps, from the board `b` and the machine `m` on, each round brings
-- the board some steps further, and the hart sees the shared state of the board.
pub record Story (sbi : Sbi) (env : Env) (i : ℕ) (p : Place) (b : Board) (m : Machine)
    : Type 0 where
  pub boards : ℕ → Board
  pub starts : boards 0 ≡ b
  pub runs : (t : ℕ) → Run sbi (boards t) (boards (suc t))
  pub stays : (t : ℕ) → (boards t).place i ≡ p
  pub shared : (t : ℕ) → (boards t).hsm ≡ (after env 0 t m).hsm

module _ {sbi : Sbi} {env : Env} {i : ℕ} {p : Place} {b : Board} {m : Machine}
    (y : Story sbi env i p b m) where
  told : (t : ℕ) → Run sbi (y.boards 0) (y.boards t)
  told zero = here
  told (suc t) = Run-append (told t) (y.runs t)

  -- The board after some rounds is reached from the one at the beginning.
  pub Story-Run : (t : ℕ) → Run sbi b (y.boards t)
  Story-Run t = rw (← y.starts) (told t)

pub Reach-Run : {sbi : Sbi} {b c : Board} → Reach sbi b → Run sbi b c → Reach sbi c
Reach-Run r here = r
Reach-Run r (then q s) = next (Reach-Run r q) s
