-- ===== src/Clipboard.antt =====
-- shared/src/streamer: the clipboard messages of the remote session (clipboardProtocol.ts,
-- internal/clipboardSchema.ts, internal/clipboardWire.ts, clipboardV3.ts, clipboardV4.ts).
pub mod Schema
pub mod Fields
pub mod Decode
pub mod Encode
pub mod Views
pub mod Messages
pub mod ReadBack
pub mod Written
pub mod RoundTrip
pub mod Room
pub mod Tests
