-- ===== src/Splitlink.antt =====
-- The messages between the two halves: subsys/splitlink/src/sync/protocol/splitlink_sync_ykb_protocol.c,
-- in the build without CONFIG_SPLITLINK_BENCHMARK.
pub mod Wire
pub mod TxSlot
pub mod RxSlot
pub mod Link
pub mod Slave
pub mod Master
pub mod Scripts
mod Tests
