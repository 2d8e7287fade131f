-- ===== src/Mp4.antt =====
-- mp4demux/mp4demux.hpp and mp4demux.cpp: the demultiplexer of fragmented MP4 files.
pub mod Reader
pub mod State
pub mod Boxes
pub mod Codec
pub mod Demux
pub mod Layout
pub mod Fragment
pub mod Restamp
mod Tests
