-- ===== src/Voice.antt =====
-- The voice feature: voice.rs and the modules below voice/.
pub mod Messages
pub mod Player
pub mod Socket
pub mod Source
pub mod Pcm
pub mod Opus
pub mod Connection
pub mod Gateway
pub mod System
