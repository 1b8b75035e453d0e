-- ===== src/Video.antt =====
-- src/svc/video_pipeline: the picture from the HDMI input to the output.
pub mod Modes
pub mod VideoIo
pub mod VideoPipeline
pub mod VideoAo
