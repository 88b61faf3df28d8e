-- ===== src/Playlist.antt =====
-- library/playlist.cpp: the playlist, its items and their tags.
pub mod Data
pub mod Search
pub mod Edit
pub mod Order
pub mod Tally
pub mod Counters
pub mod Index
pub mod Join
pub mod Cat
pub mod Walk
pub mod Title
pub mod Moves
pub mod Reindex
pub mod First
pub mod Common
pub mod Names
pub mod Live
pub mod Without
pub mod SwapFiles
mod Tests
mod OrderTests
