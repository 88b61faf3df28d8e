-- ===== src/Audio.antt =====
-- audio/audio.cpp: playback control.
pub mod Data
pub mod Go
pub mod Control
pub mod Lists
pub mod Sound
pub mod Changes
pub mod Timed
pub mod Ready
pub mod Choosing
pub mod Going
pub mod Taken
pub mod Another
pub mod Thread
pub mod Ending
pub mod Stopping
pub mod Playing
pub mod Runs
pub mod InOrder
pub mod AllPlayed
pub mod Spinning
pub mod Format
pub mod EveryFormat
pub mod BestFormat
pub mod Device
pub mod OutputRate
pub mod DeviceState
mod Tests
