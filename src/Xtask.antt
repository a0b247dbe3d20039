-- ===== src/Xtask.antt =====
-- xtask/src/main.rs: the build tool, as the commands that it runs. A path is the list of its parts
-- below the root of the project.
pub mod Main
pub mod Plan
pub mod Ends
use Prim.Native.String.{String}
use rustsbi_hifive_unmatched.Base.{
  ℕ, ◌==◌, if◌then◌else◌, Bool, true, false, List, [], ◌∷◌, ◌++◌, Option, some, none,
}

-- `CompileMode`; `XtaskEnv` holds nothing else.
pub data CompileMode : Type 0 where
  debug release : CompileMode

-- `fmt`
abbrev pub show_mode : CompileMode → String
show_mode debug = "debug"
show_mode release = "release"

abbrev pub default_target : String
default_target = "riscv64imac-unknown-none-elf"

pub record Command : Type 0 where
  pub program : String
  pub current_dir : List String
  pub args : List String

-- What comes of `status()`: the program does not start, ends with a code, or is killed by a signal.
pub data Status : Type 0 where
  not_started killed : Status
  ended : ℕ → Status

-- What a command comes to, after those that ran before it.
abbrev pub Runner : Type 0
Runner = List Command → Command → Status

-- The tool after some commands: it goes on, has ended with an exit code, or has panicked.
pub data Shell : Type 0 where
  going : List Command → Shell
  exited : List Command → ℕ → Shell
  panicked : List Command → Shell

infixl 5 ◌>>=◌
abbrev pub ◌>>=◌ : Shell → (List Command → Shell) → Shell
going ran >>= f = f ran
exited ran n >>= f = exited ran n
panicked ran >>= f = panicked ran

-- `status().unwrap()`, then `process::exit(1)` unless it is a success.
abbrev pub end_checked : Status → Command → List Command → Shell
end_checked not_started c ran = panicked ran
end_checked killed c ran = exited (ran ++ (c ∷ [])) 1
end_checked (ended n) c ran = if n == 0 then going (ran ++ (c ∷ [])) else exited (ran ++ (c ∷ [])) 1

-- The same with `process::exit(status.code().unwrap_or(1))`.
abbrev pub end_passed_on : Status → Command → List Command → Shell
end_passed_on not_started c ran = panicked ran
end_passed_on killed c ran = exited (ran ++ (c ∷ [])) 1
end_passed_on (ended n) c ran =
    if n == 0 then going (ran ++ (c ∷ [])) else exited (ran ++ (c ∷ [])) n

-- `status().unwrap()` alone.
abbrev pub end_unchecked : Status → Command → List Command → Shell
end_unchecked not_started c ran = panicked ran
end_unchecked killed c ran = going (ran ++ (c ∷ []))
end_unchecked (ended n) c ran = going (ran ++ (c ∷ []))

abbrev pub run_checked : Runner → Command → List Command → Shell
run_checked os c ran = end_checked (os ran c) c ran

abbrev pub run_passed_on : Runner → Command → List Command → Shell
run_passed_on os c ran = end_passed_on (os ran c) c ran

abbrev pub run_unchecked : Runner → Command → List Command → Shell
run_unchecked os c ran = end_unchecked (os ran c) c ran

-- The directory of the artifacts.
abbrev pub dist_dir : CompileMode → List String
dist_dir debug = "target" ∷ default_target ∷ "debug" ∷ []
dist_dir release = "target" ∷ default_target ∷ "release" ∷ []

-- `cargo build` of a package in its directory; the variable `CARGO` may name another program.
abbrev pub cargo_or : Option String → String
cargo_or none = "cargo"
cargo_or (some cargo) = cargo

abbrev pub build_args : CompileMode → String → List String
build_args debug pkg = "build" ∷ "--package" ∷ pkg ∷ "--target" ∷ default_target ∷ []
build_args release pkg =
    "build" ∷ "--release" ∷ "--package" ∷ pkg ∷ "--target" ∷ default_target ∷ []

abbrev pub xtask_build_sbi : Runner → Option String → CompileMode → List Command → Shell
xtask_build_sbi os cargo mode = run_checked os (record {
  program = cargo_or cargo;
  current_dir = "rustsbi-jh7100" ∷ [];
  args = build_args mode "rustsbi-jh7100";
})

abbrev pub xtask_binary_sbi : Runner → CompileMode → List Command → Shell
xtask_binary_sbi os mode = run_checked os (record {
  program = "rust-objcopy";
  current_dir = dist_dir mode;
  args =
      "rustsbi-jh7100" ∷ "--binary-architecture=riscv64" ∷ "--strip-all" ∷ "-O" ∷ "binary"
      ∷ "rustsbi-jh7100.bin" ∷ [];
})

abbrev pub xtask_asm_sbi : Runner → CompileMode → List Command → Shell
xtask_asm_sbi os mode = run_unchecked os (record {
  program = "riscv-none-embed-objdump";
  current_dir = dist_dir mode;
  args = "--disassemble" ∷ "--demangle" ∷ "rustsbi-jh7100" ∷ [];
})

-- The handler of Ctrl-C, which does nothing, is set without an error.
abbrev pub xtask_unmatched_gdb : Runner → CompileMode → List Command → Shell
xtask_unmatched_gdb os mode = run_passed_on os (record {
  program = "riscv-none-embed-gdb";
  current_dir = dist_dir mode;
  args =
      "--eval-command" ∷ "file rustsbi-jh7100" ∷ "--eval-command"
      ∷ "target extended-remote localhost:3333" ∷ "--quiet" ∷ [];
})

-- The directory that `xtask_image` writes out.
abbrev pub image_dir : CompileMode → List String
image_dir mode = ("target" ∷ "riscv64imac-unknown-none-elf" ∷ []) ++ (show_mode mode ∷ [])

abbrev pub xtask_image : Runner → CompileMode → List Command → Shell
xtask_image os mode ran =
    run_passed_on os
      (record {
        program = "cp";
        current_dir = image_dir mode;
        args = "rustsbi-jh7100.bin" ∷ "test-kernel.image" ∷ [];
      })
      ran
    >>= run_passed_on os (record {
      program = "dd";
      current_dir = image_dir mode;
      args = "if=test-kernel.bin" ∷ "of=test-kernel.image" ∷ "bs=128k" ∷ "seek=1" ∷ [];
    })

abbrev pub xtask_build_test_kernel : Runner → Option String → CompileMode → List Command → Shell
xtask_build_test_kernel os cargo mode = run_checked os (record {
  program = cargo_or cargo;
  current_dir = "test-kernel" ∷ [];
  args = build_args mode "test-kernel";
})

abbrev pub xtask_binary_test_kernel : Runner → CompileMode → List Command → Shell
xtask_binary_test_kernel os mode = run_checked os (record {
  program = "rust-objcopy";
  current_dir = dist_dir mode;
  args =
      "test-kernel" ∷ "--binary-architecture=riscv64" ∷ "--strip-all" ∷ "-O" ∷ "binary"
      ∷ "test-kernel.bin" ∷ [];
})
