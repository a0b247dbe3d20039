-- ===== src/Tests.antt =====
-- The theorems at concrete inputs.
mod Values
mod Monitor
mod Boards
mod Loop
mod Registers
mod Features
mod Kernel
mod Refine
mod Passes
mod Tools
mod Console
mod Rounds
