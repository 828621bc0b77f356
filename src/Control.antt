-- ===== src/Control.antt =====
-- shared/src/streamer: the messages of the control channel (controlChannelEncode.ts,
-- controlChannelDecode.ts, controlChannelProtocol.ts and internal/controlChannelSchema.ts).
pub mod Schema
pub mod Encode
pub mod Model
pub mod Decode
pub mod Fold
pub mod Written
pub mod RoundTrip
pub mod Cursor
pub mod Tests
