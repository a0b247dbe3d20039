-- ===== src/Hsm/Refine.antt =====
-- hsm.rs and execute.rs: the code of one hart, with its sleeps, against the locked sections of the
-- whole board.
pub mod Story
pub mod Suspend
pub mod Stop
pub mod Total
