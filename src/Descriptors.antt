-- ===== src/Descriptors.antt =====
-- The descriptors of the listener, over all operations of
-- native/okay-hermes-realtime-wake-listener.c that open any.
pub mod Files
pub mod Wav
pub mod Archive
pub mod Run
