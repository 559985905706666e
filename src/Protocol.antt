-- ===== src/Protocol.antt =====
-- include/lib/ykb_protocol.h: packets of a transfer, the sender and the receiver.
pub mod Crc
pub mod Packet
pub mod Bitmap
pub mod Tx
pub mod Rx
pub mod Exchange
mod Tests
