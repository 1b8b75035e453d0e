-- ===== src/Stt.antt =====
-- src/svc/stt: the speech-to-text client.
pub mod AudioTxq
pub mod EventRing
pub mod WsFrame
pub mod Json
pub mod Transcript
pub mod WsConfig
pub mod WsClient
pub mod SttAo
