-- ===== src/Stm.antt =====
-- stm_*.go: the decoder for the STM trace protocol, from the nibbles of a trace block to the elements
-- that it sends.
pub mod Packet
pub mod State
pub mod Nibbles
pub mod Gray
pub mod Fields
pub mod Packets
pub mod Extended
pub mod Dispatch
pub mod Decoder
pub mod Parser
pub mod Block
pub mod Progress
