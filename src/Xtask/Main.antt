-- ===== src/Xtask/Main.antt =====
-- xtask/src/main.rs: `main`, from the parsed command line on.
use Prim.Native.String.{String}
use text.Mathlib.Text.{◌==◌ as str_eq}
use rustsbi_hifive_unmatched.Base.{if◌then◌else◌, Bool, true, false, [], Option, some, none}
use rustsbi_hifive_unmatched.Xtask.{
  CompileMode, debug, release, Runner, Shell, going, ◌>>=◌, xtask_build_sbi, xtask_binary_sbi,
  xtask_asm_sbi, xtask_unmatched_gdb, xtask_image, xtask_build_test_kernel,
  xtask_binary_test_kernel,
}

-- What `clap` makes of the command line: a subcommand, with whether `--release` is given, and the
-- payload of an image.
pub data Matches : Type 0 where
  make asm : (is_release : Bool) → Matches
  image : (payload : Option String) (is_release : Bool) → Matches
  gdb no_subcommand : Matches

abbrev pub mode_of : Bool → CompileMode
mode_of true = release
mode_of false = debug

-- `matches.value_of("PAYLOAD") == Some("test-kernel")`
abbrev pub is_test_kernel : Option String → Bool
is_test_kernel none = false
is_test_kernel (some p) = str_eq p "test-kernel"

unfoldable pub main : Runner → Option String → Matches → Shell
main os cargo (make r) =
    let mode = mode_of r in xtask_build_sbi os cargo mode [] >>= xtask_binary_sbi os mode
main os cargo (asm r) =
    let mode = mode_of r in xtask_build_sbi os cargo mode [] >>= xtask_asm_sbi os mode
main os cargo (image payload r) =
    let mode = mode_of r in
    xtask_build_sbi os cargo mode [] >>= xtask_binary_sbi os mode >>= λ ran.
    if is_test_kernel payload
    then (xtask_build_test_kernel os cargo mode ran
        >>= xtask_binary_test_kernel os mode
        >>= xtask_image os mode)
    else going ran
main os cargo gdb =
    xtask_build_sbi os cargo debug [] >>= xtask_binary_sbi os debug >>= xtask_unmatched_gdb os debug
main os cargo no_subcommand = going []
