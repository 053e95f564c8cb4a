-- ===== src/Audio.antt =====
-- audio/audio_hw.c, audio/audio_hw.h: the primary audio HAL.
pub mod SndDevice
pub mod State
pub mod Lookup
pub mod Profiles
pub mod Output
pub mod Input
pub mod Route
pub mod Select
pub mod Voice
pub mod Playback
pub mod Capture
pub mod Reader
pub mod Callbacks
pub mod Device
pub mod Examples
