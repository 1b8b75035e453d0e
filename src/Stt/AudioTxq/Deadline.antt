-- ===== src/Stt/AudioTxq/Deadline.antt =====
-- The deadline of stt_audio_txq_wait.
use subtitle_overlay_fw.Base.{ℕ, ◌+◌, ◌*◌, ◌<◌, ◌≡◌, arith}
use subtitle_overlay_fw.Stt.AudioTxq.{deadline}

-- From a normalised clock value (fewer than 10^9 nanoseconds) the deadline is normalised and lies
-- exactly the timeout in milliseconds later.
pub deadline_exact :
    (tv_sec tv_nsec timeout_ms : ℕ)
    → tv_nsec < 1000000000
    → let (sec, nsec) = deadline tv_sec tv_nsec timeout_ms in
      (nsec < 1000000000)
      × (sec * 1000000000 + nsec ≡ tv_sec * 1000000000 + tv_nsec + timeout_ms * 1000000)
unfolding deadline
deadline_exact s n t h = omega arith
