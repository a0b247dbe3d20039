-- ===== src/Execute/Fetch/Translated.antt =====
-- execute.rs: what `get_vaddr_u32` reads, and what it leaves of the status.
