-- ===== src/Xtask/Ends.antt =====
-- xtask/src/main.rs: how the build tool ends, and which commands it has run by then.
use Prim.Native.String.{String}
use mathlib.Core.List.{append_assoc, append-nil}
use rustsbi_hifive_unmatched.Base.{
  ℕ, zero, suc, ◌≡◌, ◌≢◌, refl, ◌⊎◌, inl, inr, ◌==◌, if◌then◌else◌, Bool, true, false, ◌&&◌, List,
  [], ◌∷◌, ◌++◌, map, Option, arith, ◌∙◌, sym, ap, ap₂,
}
use rustsbi_hifive_unmatched.Xtask.{
  Command, Status, not_started, killed, ended, Runner, Shell, going, exited, panicked, end_checked,
  end_passed_on, end_unchecked,
}
use rustsbi_hifive_unmatched.Xtask.Main.{Matches, make, asm, image, gdb, no_subcommand, main}
use rustsbi_hifive_unmatched.Xtask.Plan.{
  Policy, checked, passed_on, unchecked, Task, plan, run_task, run_plan, main-run_plan,
}

-- The outcome of a command is accepted if it succeeds, and for `unchecked` tasks, of which nobody looks
-- at the outcome, whenever it starts.
abbrev pub accepted : Policy → Status → Bool
accepted _ not_started = false
accepted unchecked _ = true
accepted _ killed = false
accepted _ (ended n) = n == 0

abbrev pub all_accepted : Runner → List Task → List Command → Bool
all_accepted os [] ran = true
all_accepted os ((p, c) ∷ ts) ran = accepted p (os ran c) && all_accepted os ts (ran ++ (c ∷ []))

abbrev pub commands : List Task → List Command
commands ts = map (λ (t : Task). t.1) ts

abbrev pub succeeded : Status → Bool
succeeded (ended n) = n == 0
succeeded _ = false

abbrev pub all_succeed : Runner → List Command → List Command → Bool
all_succeed os [] ran = true
all_succeed os (c ∷ cs) ran = succeeded (os ran c) && all_succeed os cs (ran ++ (c ∷ []))

abbrev pub is_asm : Matches → Bool
is_asm (asm r) = true
is_asm _ = false

accepted_checked : (st : Status) → accepted checked st ≡ succeeded st
accepted_checked not_started = refl
accepted_checked killed = refl
accepted_checked (ended n) = refl

accepted_passed_on : (st : Status) → accepted passed_on st ≡ succeeded st
accepted_passed_on not_started = refl
accepted_passed_on killed = refl
accepted_passed_on (ended n) = refl

abbrev pub ran_of : Shell → List Command
ran_of (going ran) = ran
ran_of (exited ran n) = ran
ran_of (panicked ran) = ran

-- A panic ends the process with code 101.
abbrev pub exit_code : Shell → ℕ
exit_code (going ran) = 0
exit_code (exited ran n) = n
exit_code (panicked ran) = 101

-- What a task comes to, and whether that is accepted.
data TaskEnd (ran : List Command) (c : Command) (b : Bool) (m : Shell) : Type 0 where
  went_on : b ≡ true → m ≡ going (ran ++ (c ∷ [])) → TaskEnd ran c b m
  failed : (n : ℕ) → n ≢ 0 → b ≡ false → m ≡ exited (ran ++ (c ∷ [])) n → TaskEnd ran c b m
  unstarted : b ≡ false → m ≡ panicked ran → TaskEnd ran c b m

code_end :
    (ran : List Command) (c : Command) (n k : ℕ)
    → k ≢ 0
    → TaskEnd ran c
        (n == 0)
        (if n == 0 then going (ran ++ (c ∷ [])) else exited (ran ++ (c ∷ [])) k)
code_end ran c zero k h = went_on refl refl
code_end ran c (suc n) k h = failed k h (ground arith) (ground arith)

code_passed :
    (ran : List Command) (c : Command) (n : ℕ)
    → TaskEnd ran c
        (n == 0)
        (if n == 0 then going (ran ++ (c ∷ [])) else exited (ran ++ (c ∷ [])) n)
code_passed ran c zero = went_on refl refl
code_passed ran c (suc n) = failed (suc n) (omega arith) (ground arith) (ground arith)

abbrev end_of : Policy → Status → Command → List Command → Shell
end_of checked = end_checked
end_of passed_on = end_passed_on
end_of unchecked = end_unchecked

end_of-TaskEnd :
    (p : Policy) (st : Status) (c : Command) (ran : List Command)
    → TaskEnd ran c (accepted p st) (end_of p st c ran)
end_of-TaskEnd checked not_started c ran = unstarted refl refl
end_of-TaskEnd checked killed c ran = failed 1 (omega arith) refl refl
end_of-TaskEnd checked (ended n) c ran = code_end ran c n 1 (omega arith)
end_of-TaskEnd passed_on not_started c ran = unstarted refl refl
end_of-TaskEnd passed_on killed c ran = failed 1 (omega arith) refl refl
end_of-TaskEnd passed_on (ended n) c ran = code_passed ran c n
end_of-TaskEnd unchecked not_started c ran = unstarted refl refl
end_of-TaskEnd unchecked killed c ran = went_on refl refl
end_of-TaskEnd unchecked (ended n) c ran = went_on refl refl

run_task-TaskEnd :
    (os : Runner) (p : Policy) (c : Command) (ran : List Command)
    → TaskEnd ran c (accepted p (os ran c)) (run_task os (p, c) ran)
run_task-TaskEnd os checked c ran = end_of-TaskEnd checked (os ran c) c ran
run_task-TaskEnd os passed_on c ran = end_of-TaskEnd passed_on (os ran c) c ran
run_task-TaskEnd os unchecked c ran = end_of-TaskEnd unchecked (os ran c) c ran

-- All outcomes of a plan are accepted and it has run all its commands, or it ends with an error.
abbrev pub Ends : Bool → Shell → List Command → Type 0
Ends b m all = ((b ≡ true) × (m ≡ going all)) ⊎ ((b ≡ false) × (exit_code m ≢ 0))

run_plan-Ends :
    (os : Runner) (ts : List Task) (ran : List Command)
    → Ends (all_accepted os ts ran) (run_plan os ts ran) (ran ++ commands ts)
unfolding run_plan
run_plan-Ends os [] ran = inl (refl, ap going (sym (append-nil ran)))
run_plan-Ends os ((p, c) ∷ ts) ran =
    let rest = run_plan-Ends os ts (ran ++ (c ∷ [])) in
    elim (run_task-TaskEnd os p c ran) [
      | went_on g e ↦ rw g (rw e (rw (← append_assoc ran (c ∷ []) (commands ts)) rest))
      | failed n h g e ↦ inr (rw g refl, rw e h)
      | unstarted g e ↦ inr (rw g refl, rw e (omega arith))
    ]

-- Some tasks of the plan are left, and the commands of the others have run, in their order.
run_plan-prefix :
    (os : Runner) (ts : List Task) (ran : List Command)
    → (rest : List Command) × (ran ++ commands ts ≡ ran_of (run_plan os ts ran) ++ rest)
unfolding run_plan
run_plan-prefix os [] ran = ([], refl)
run_plan-prefix os ((p, c) ∷ ts) ran =
    let (rest, eq) = run_plan-prefix os ts (ran ++ (c ∷ [])) in
    elim (run_task-TaskEnd os p c ran) [
      | went_on g e ↦ (rest, rw e (sym (append_assoc ran (c ∷ []) (commands ts)) ∙ eq))
      | failed n h g e ↦ (commands ts, rw e (sym (append_assoc ran (c ∷ []) (commands ts))))
      | unstarted g e ↦ (commands ((p, c) ∷ ts), rw e refl)
    ]

-- A task is watched if the tool ends with an error when its command fails.
all_watched : List Task → Bool
all_watched [] = true
all_watched ((unchecked, c) ∷ ts) = false
all_watched ((_, c) ∷ ts) = all_watched ts

accepted_watched :
    (os : Runner) (ts : List Task) (ran : List Command)
    → all_watched ts ≡ true
    → all_accepted os ts ran ≡ all_succeed os (commands ts) ran
unfolding all_watched
accepted_watched os [] ran h = refl
accepted_watched os ((checked, c) ∷ ts) ran h =
    ap₂ ◌&&◌ (accepted_checked (os ran c)) (accepted_watched os ts (ran ++ (c ∷ [])) h)
accepted_watched os ((passed_on, c) ∷ ts) ran h =
    ap₂ ◌&&◌ (accepted_passed_on (os ran c)) (accepted_watched os ts (ran ++ (c ∷ [])) h)
accepted_watched os ((unchecked, c) ∷ ts) ran h = cc

-- Only the plan of `asm` has a task that is not watched.
plan-watched :
    (os : Runner) (cargo : Option String) (ms : Matches)
    → (is_asm ms ≡ true) ⊎ (all_watched (plan cargo ms) ≡ true)
unfolding all_watched
plan-watched os cargo (make r) = inr refl
plan-watched os cargo (asm r) = inl refl
plan-watched os cargo (image payload r) = inr (ground arith)
plan-watched os cargo gdb = inr refl
plan-watched os cargo no_subcommand = inr refl

-- The tool runs commands of the subcommand's plan, in its order. Each is accepted, and the tool comes
-- to its end with all of them run; or one is not, the exit code is not 0, and those that have run are
-- the first ones of the plan. A command is accepted if it succeeds; only the disassembly of `asm` is
-- also accepted when it fails after it has started.
pub main-Ends :
    (os : Runner) (cargo : Option String) (ms : Matches)
    → Ends (all_accepted os (plan cargo ms) []) (main os cargo ms) (commands (plan cargo ms))
      × ((is_asm ms ≡ true)
          ⊎ (all_accepted os (plan cargo ms) [] ≡ all_succeed os (commands (plan cargo ms)) []))
      × (rest : List Command) × (commands (plan cargo ms) ≡ ran_of (main os cargo ms) ++ rest)
main-Ends os cargo ms =
    let (rest, eq) = run_plan-prefix os (plan cargo ms) [] in
    let watched : (is_asm ms ≡ true)
        ⊎ (all_accepted os (plan cargo ms) [] ≡ all_succeed os (commands (plan cargo ms)) []) =
      elim (plan-watched os cargo ms) [
        | inl a ↦ inl a
        | inr w ↦ inr (accepted_watched os (plan cargo ms) [] w)
      ] in
    rw (main-run_plan os cargo ms) (run_plan-Ends os (plan cargo ms) [], watched, rest, eq)
