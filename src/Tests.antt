-- ===== src/Tests.antt =====
-- Runs of the code at concrete inputs, and the theorems applied to them.
pub mod EventRing
pub mod AudioTxq
pub mod WsFrame
pub mod Captions
pub mod SystemObject
pub mod SubtitleObject
pub mod Messages
pub mod Overlay
pub mod Configuration
pub mod SttObject
pub mod Video
