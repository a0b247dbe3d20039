-- ===== src/Client/Debug.antt =====
-- test-kernel/src/sbi.rs: the error codes, and the text that a result is shown as.
use Prim.Native.String.{String}
use text.Mathlib.Text.{◌==◌ as str_eq}
use rustsbi_hifive_unmatched.Base.{ℕ, ◌-◌, ◌^◌, ◌≡◌, ◌==◌, if◌then◌else◌, arith}
use rustsbi_hifive_unmatched.Sbi.{SbiRet}

-- `usize::from_ne_bytes(isize::to_ne_bytes(-n))`
abbrev pub negative : ℕ → ℕ
negative n = 2 ^ 64 - n

abbrev pub sbi_success : ℕ
sbi_success = 0

abbrev pub sbi_err_failed : ℕ
sbi_err_failed = negative 1

abbrev pub sbi_err_not_supported : ℕ
sbi_err_not_supported = negative 2

abbrev pub sbi_err_invalid_param : ℕ
sbi_err_invalid_param = negative 3

abbrev pub sbi_err_denied : ℕ
sbi_err_denied = negative 4

abbrev pub sbi_err_invalid_address : ℕ
sbi_err_invalid_address = negative 5

abbrev pub sbi_err_already_available : ℕ
sbi_err_already_available = negative 6

abbrev pub sbi_err_already_started : ℕ
sbi_err_already_started = negative 7

abbrev pub sbi_err_already_stopped : ℕ
sbi_err_already_stopped = negative 8

-- What is written: a number, a fixed text, or `[SBI Unknown error: {}]` with a number.
pub data Shown : Type 0 where
  value unknown : ℕ → Shown
  message : String → Shown

-- `fmt`
unfoldable pub fmt : SbiRet → Shown
fmt r =
    if r.error == sbi_success
    then value r.value
    else if r.error == sbi_err_failed
    then message "<SBI call failed>"
    else if r.error == sbi_err_not_supported
    then message "<SBI feature not supported>"
    else if r.error == sbi_err_invalid_param
    then message "<SBI invalid parameter>"
    else if r.error == sbi_err_denied
    then message "<SBI denied>"
    else if r.error == sbi_err_invalid_address
    then message "<SBI invalid address>"
    else if r.error == sbi_err_already_available
    then message "<SBI already available>"
    else if r.error == sbi_err_already_started
    then message "<SBI already started>"
    else if r.error == sbi_err_already_stopped
    then message "<SBI already stopped>"
    else unknown r.error

-- The error code that a reader of the text makes out.
abbrev pub error_of : Shown → ℕ
error_of (value n) = 0
error_of (unknown n) = n
error_of (message t) =
    if str_eq t "<SBI call failed>"
    then sbi_err_failed
    else if str_eq t "<SBI feature not supported>"
    then sbi_err_not_supported
    else if str_eq t "<SBI invalid parameter>"
    then sbi_err_invalid_param
    else if str_eq t "<SBI denied>"
    then sbi_err_denied
    else if str_eq t "<SBI invalid address>"
    then sbi_err_invalid_address
    else if str_eq t "<SBI already available>"
    then sbi_err_already_available
    else if str_eq t "<SBI already started>"
    then sbi_err_already_started
    else sbi_err_already_stopped

-- The text tells the error code of a result, whatever it is.
pub error_of-fmt : (r : SbiRet) → error_of (fmt r) ≡ r.error
unfolding fmt
error_of-fmt r = ground arith
