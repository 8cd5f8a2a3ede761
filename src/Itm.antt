-- ===== src/Itm.antt =====
-- itm_config.go, itm_packet.go, itm_parser.go and itm_decoder.go: the ITM decoder.
pub mod Packet
pub mod State
pub mod Decoder
pub mod Reads
pub mod Payload
pub mod Sync
pub mod Block
pub mod Values
pub mod Elements
pub mod Unsynced
pub mod Overflow
pub mod Continued
pub mod Consumed
pub mod Payloads
pub mod Waits
pub mod Total
mod Examples
