-- ===== src/Demux.antt =====
-- demux_demuxer.go and demux_frame_data.go: the frame demultiplexer.
pub mod State
pub mod Output
pub mod Unpack
pub mod Sync
pub mod Extract
pub mod Write
pub mod Tags
pub mod FrameBits
pub mod Sent
pub mod Walks
pub mod Pairs
pub mod Frames
pub mod WholeFrames
pub mod Progress
pub mod Consumed
pub mod Loop
pub mod Search
pub mod Waits
mod Examples
