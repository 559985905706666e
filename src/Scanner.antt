-- ===== src/Scanner.antt =====
-- The drivers that read the keys: drivers/mux/src and drivers/kscan/src.
pub mod Mux
pub mod Kscan
mod Tests
