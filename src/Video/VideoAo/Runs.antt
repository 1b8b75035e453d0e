-- ===== src/Video/VideoAo/Runs.antt =====
-- The video object through any run of signals.
use subtitle_overlay_fw.Video.VideoPipeline.{VideoPipeline}
use subtitle_overlay_fw.Video.VideoAo.{VideoAo}
