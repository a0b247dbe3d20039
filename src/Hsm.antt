-- ===== src/Hsm.antt =====
-- rustsbi-jh7100/src/hsm.rs: the hart state monitor.
pub mod Data
pub mod Calls
pub mod Answers
pub mod Wait
pub mod Sleep
pub mod Suspend
pub mod System
pub mod Invariant
pub mod Diagram
pub mod Refine
