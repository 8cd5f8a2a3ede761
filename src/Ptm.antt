-- ===== src/Ptm.antt =====
-- ptm_config.go, ptm_packet.go and ptm_parser.go: the packets of the PTM protocol.
pub mod Packet
pub mod State
pub mod Extract
pub mod Fields
pub mod Methods
pub mod Branch
pub mod Merge
pub mod Address
mod Examples
