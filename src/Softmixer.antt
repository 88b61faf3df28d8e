-- ===== src/Softmixer.antt =====
-- audio/processing/softmixer.cpp: the volume in software, and the mix of all channels to one.
pub mod Mix
pub mod Exact
pub mod Buffers
pub mod Wraps
mod Tests
