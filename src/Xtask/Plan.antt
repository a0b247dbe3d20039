-- ===== src/Xtask/Plan.antt =====
-- xtask/src/main.rs: each subcommand is a plan of commands, and how far the tool gets with it.
use Prim.Native.String.{String}
use rustsbi_hifive_unmatched.Base.{
  ◌≡◌, refl, if◌then◌else◌, Bool, true, false, List, [], ◌∷◌, Option, ◌∙◌, sym,
}
use rustsbi_hifive_unmatched.Xtask.{
  CompileMode, debug, release, Command, Runner, Shell, going, exited, panicked, ◌>>=◌, run_checked,
  run_passed_on, run_unchecked, dist_dir, cargo_or, build_args, image_dir, xtask_unmatched_gdb,
  xtask_image, xtask_build_test_kernel, xtask_binary_test_kernel,
}
use rustsbi_hifive_unmatched.Xtask.Main.{
  Matches, make, asm, image, gdb, no_subcommand, mode_of, is_test_kernel, main,
}

-- What a failure of a command does: it ends the tool with code 1, or with its own code, or nothing.
pub data Policy : Type 0 where
  checked passed_on unchecked : Policy

abbrev pub Task : Type 0
Task = Policy × Command

abbrev pub build : Option String → CompileMode → String → Task
build cargo mode pkg = (
  checked,
  record { program = cargo_or cargo; current_dir = pkg ∷ []; args = build_args mode pkg },
)

abbrev pub binary : CompileMode → String → String → Task
binary mode elf bin = (
  checked,
  record {
    program = "rust-objcopy";
    current_dir = dist_dir mode;
    args = elf ∷ "--binary-architecture=riscv64" ∷ "--strip-all" ∷ "-O" ∷ "binary" ∷ bin ∷ [];
  },
)

abbrev pub disassemble : CompileMode → Task
disassemble mode = (
  unchecked,
  record {
    program = "riscv-none-embed-objdump";
    current_dir = dist_dir mode;
    args = "--disassemble" ∷ "--demangle" ∷ "rustsbi-jh7100" ∷ [];
  },
)

-- The image holds the firmware in its first 128 KiB, and then the test kernel.
abbrev pub image_firmware : CompileMode → Task
image_firmware mode = (
  passed_on,
  record {
    program = "cp";
    current_dir = dist_dir mode;
    args = "rustsbi-jh7100.bin" ∷ "test-kernel.image" ∷ [];
  },
)

abbrev pub image_kernel : CompileMode → Task
image_kernel mode = (
  passed_on,
  record {
    program = "dd";
    current_dir = dist_dir mode;
    args = "if=test-kernel.bin" ∷ "of=test-kernel.image" ∷ "bs=128k" ∷ "seek=1" ∷ [];
  },
)

abbrev pub session : Task
session = (
  passed_on,
  record {
    program = "riscv-none-embed-gdb";
    current_dir = dist_dir debug;
    args =
        "--eval-command" ∷ "file rustsbi-jh7100" ∷ "--eval-command"
        ∷ "target extended-remote localhost:3333" ∷ "--quiet" ∷ [];
  },
)

abbrev pub firmware : Option String → CompileMode → List Task → List Task
firmware cargo mode ts =
    build cargo mode "rustsbi-jh7100" ∷ binary mode "rustsbi-jh7100" "rustsbi-jh7100.bin" ∷ ts

abbrev pub test_image : Option String → CompileMode → List Task
test_image cargo mode =
    build cargo mode "test-kernel"
    ∷ binary mode "test-kernel" "test-kernel.bin"
    ∷ image_firmware mode
    ∷ image_kernel mode
    ∷ []

abbrev pub plan : Option String → Matches → List Task
plan cargo (make r) = firmware cargo (mode_of r) []
plan cargo (asm r) = build cargo (mode_of r) "rustsbi-jh7100" ∷ disassemble (mode_of r) ∷ []
plan cargo (image payload r) =
    firmware cargo (mode_of r) (if is_test_kernel payload then test_image cargo (mode_of r) else [])
plan cargo gdb = firmware cargo debug (session ∷ [])
plan cargo no_subcommand = []

abbrev pub run_task : Runner → Task → List Command → Shell
run_task os (checked, c) = run_checked os c
run_task os (passed_on, c) = run_passed_on os c
run_task os (unchecked, c) = run_unchecked os c

unfoldable pub run_plan : Runner → List Task → List Command → Shell
run_plan os [] ran = going ran
run_plan os (t ∷ ts) ran = run_task os t ran >>= run_plan os ts

image_dir-dist_dir : (mode : CompileMode) → image_dir mode ≡ dist_dir mode
image_dir-dist_dir debug = refl
image_dir-dist_dir release = refl

>>=-assoc : (m : Shell) (f g : List Command → Shell) → m >>= f >>= g ≡ m >>= (λ ran. f ran >>= g)
>>=-assoc (going ran) f g = refl
>>=-assoc (exited ran n) f g = refl
>>=-assoc (panicked ran) f g = refl

>>=-going : (m : Shell) → m >>= going ≡ m
>>=-going (going ran) = refl
>>=-going (exited ran n) = refl
>>=-going (panicked ran) = refl

>>=-cong :
    (m : Shell) {f g : List Command → Shell}
    → ((ran : List Command) → f ran ≡ g ran)
    → m >>= f ≡ m >>= g
>>=-cong (going ran) eq = eq ran
>>=-cong (exited ran n) eq = refl
>>=-cong (panicked ran) eq = refl

-- Two commands, and what comes after them.
then_two :
    (os : Runner) (t u : Task) (f : List Command → Shell) (ts : List Task) (ran : List Command)
    → ((ran' : List Command) → f ran' ≡ run_plan os ts ran')
    → run_task os t ran >>= run_task os u >>= f ≡ run_plan os (t ∷ u ∷ ts) ran
unfolding run_plan
then_two os t u f ts ran eq =
    >>=-assoc (run_task os t ran) (run_task os u) f
    ∙ >>=-cong (run_task os t ran) (λ ran'. >>=-cong (run_task os u ran') eq)

run_plan-one :
    (os : Runner) (t : Task) (ran : List Command) → run_task os t ran ≡ run_plan os (t ∷ []) ran
unfolding run_plan
run_plan-one os t ran = sym (>>=-going (run_task os t ran))

run_plan-two :
    (os : Runner) (t u : Task) (ran : List Command)
    → run_task os t ran >>= run_task os u ≡ run_plan os (t ∷ u ∷ []) ran
unfolding run_plan
run_plan-two os t u ran = >>=-cong (run_task os t ran) (run_plan-one os u)

-- The tasks of an image of the test kernel; without it, none.
image-run_plan :
    (os : Runner) (cargo : Option String) (mode : CompileMode) (test : Bool) (ran : List Command)
    → (if test
        then (xtask_build_test_kernel os cargo mode ran
            >>= xtask_binary_test_kernel os mode
            >>= xtask_image os mode)
        else going ran)
      ≡ run_plan os (if test then test_image cargo mode else []) ran
unfolding run_plan
image-run_plan os cargo mode false ran = refl
image-run_plan os cargo debug true ran =
    then_two os (build cargo debug "test-kernel") (binary debug "test-kernel" "test-kernel.bin")
      (xtask_image os debug) (image_firmware debug ∷ image_kernel debug ∷ []) ran
      (run_plan-two os (image_firmware debug) (image_kernel debug))
image-run_plan os cargo release true ran =
    then_two os (build cargo release "test-kernel") (binary release "test-kernel" "test-kernel.bin")
      (xtask_image os release) (image_firmware release ∷ image_kernel release ∷ []) ran
      (run_plan-two os (image_firmware release) (image_kernel release))

pub main-run_plan :
    (os : Runner) (cargo : Option String) (ms : Matches)
    → main os cargo ms ≡ run_plan os (plan cargo ms) []
unfolding main run_plan
main-run_plan os cargo (make r) =
    let m = mode_of r in
    run_plan-two os (build cargo m "rustsbi-jh7100")
      (binary m "rustsbi-jh7100" "rustsbi-jh7100.bin") []
main-run_plan os cargo (asm r) =
    let m = mode_of r in run_plan-two os (build cargo m "rustsbi-jh7100") (disassemble m) []
main-run_plan os cargo (image payload r) =
    let m = mode_of r in
    let test = is_test_kernel payload in
    then_two os (build cargo m "rustsbi-jh7100") (binary m "rustsbi-jh7100" "rustsbi-jh7100.bin")
      (λ ran.
        if test
        then (xtask_build_test_kernel os cargo m ran
            >>= xtask_binary_test_kernel os m
            >>= xtask_image os m)
        else going ran)
      (if test then test_image cargo m else []) [] (image-run_plan os cargo m test)
main-run_plan os cargo gdb =
    then_two os (build cargo debug "rustsbi-jh7100")
      (binary debug "rustsbi-jh7100" "rustsbi-jh7100.bin") (xtask_unmatched_gdb os debug)
      (session ∷ []) [] (run_plan-one os session)
main-run_plan os cargo no_subcommand = refl
