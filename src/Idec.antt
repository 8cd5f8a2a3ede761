-- ===== src/Idec.antt =====
-- idec_decoder.go and idec_arminst.go: the instruction decoder for A32, T32 and A64.
pub mod Info
pub mod Barriers
pub mod A32
pub mod T32
pub mod A64
pub mod Decode
pub mod Fields
pub mod Targets
pub mod Branches
pub mod Links
pub mod Masks
pub mod ItBlock
mod Examples
