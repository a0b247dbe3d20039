-- ===== src/Uart.antt =====
-- rustsbi-jh7100/src/peripheral/uart.rs: the serial port.
pub mod Lines
use rustsbi_hifive_unmatched.Base.{
  ℕ, ◌+◌, ◌*◌, ◌%◌, ◌^◌, bit_and, ◌==◌, if◌then◌else◌, Bool, not, ◌&&◌, List, [], ◌∷◌, ◌++◌, Option,
  some, none,
}

-- The driver, with the device as it sees it: what a read of a register gives, and the writes of
-- registers so far, each an address and a value.
pub record Uart : Type 0 where
  pub pre_byte : ℕ
  pub register : ℕ → ℕ
  pub written : List (ℕ × ℕ)

abbrev pub uart_base : ℕ
uart_base = 0x1244_0000

abbrev pub reg_thr : ℕ
reg_thr = 0x00

abbrev pub reg_rdr : ℕ
reg_rdr = 0x00

abbrev pub reg_lsr : ℕ
reg_lsr = 0x05

abbrev pub lsr_thre : ℕ
lsr_thre = 0x20

abbrev pub preloaded_uart0 : (ℕ → ℕ) → Uart
preloaded_uart0 register = record { pre_byte = 0; register = register; written = [] }

unfoldable pub serial_in : ℕ → Uart → ℕ
serial_in offset u = u.register (uart_base + offset * 2 ^ 2)

unfoldable pub serial_out : ℕ → ℕ → Uart → Uart
serial_out offset val u = record u {
  written = u.written ++ ((uart_base + offset * 2 ^ 2, val) ∷ []);
}

-- `nb::Error::WouldBlock` is `none`.
unfoldable pub read : Uart → Option ℕ
unfolding serial_in
read u =
    if not (bit_and (serial_in reg_lsr u) (1 * 2 ^ 0) == 0)
    then some (serial_in reg_rdr u % 2 ^ 8)
    else none

unfoldable pub write : ℕ → Uart → Uart
unfolding serial_out
write byte u =
    let u₁ = if byte == 10 && not (u.pre_byte == 13) then serial_out reg_thr 13 u else u in
    record (serial_out reg_thr byte u₁) { pre_byte = byte }

-- Whether the buffer is empty.
unfoldable pub flush : Uart → Bool
unfolding serial_in
flush u = not (bit_and (serial_in reg_lsr u) lsr_thre == 0)

-- The bytes of a string, one after the other.
unfoldable pub write_all : List ℕ → Uart → Uart
unfolding write
write_all [] u = u
write_all (byte ∷ rest) u = write_all rest (write byte u)
