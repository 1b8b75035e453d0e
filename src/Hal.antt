-- ===== src/Hal.antt =====
-- src/hal and src/bsp/platform/linux: the memory-mapped devices that the subtitle pipeline drives.
pub mod Status
pub mod SubtitleBram
pub mod SubtitleOverlay
pub mod HwPlatform
pub mod VideoDma
pub mod VideoVtc
