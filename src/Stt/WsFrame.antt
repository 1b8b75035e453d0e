-- ===== src/Stt/WsFrame.antt =====
-- src/svc/stt/stt_ws_frame.c: RFC 6455 client framing and the opening handshake. `x & (2^k - 1)` is
-- written `x % 2 ^ k`, `x >> k` is `x / 2 ^ k`, and an `|` of disjoint bits is a sum.
pub mod Encode
pub mod Decode
pub mod Base64
pub mod Sha1
pub mod Handshake
