-- ===== src/Convert.antt =====
-- audio/conversion/audio_conversion.cpp: the conversion of samples between two formats of one rate, on a
-- little-endian host.
pub mod Samples
pub mod Process
pub mod Bytes
pub mod Sizes
pub mod Signs
pub mod Pipeline
pub mod Formats
pub mod Change
pub mod Whole
pub mod Twice
mod Tests
