-- ===== src/Subtitle.antt =====
-- src/svc/subtitle_pipeline: captions on their way to the overlay.
pub mod Sanitize
pub mod SubtitleAo
pub mod Pipeline
pub mod TextLayout
