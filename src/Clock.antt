-- ===== src/Clock.antt =====
-- The clock of a media stream, listener/src/main/jni/pvmi/media_clock_converter.h and .cpp.
pub mod Converter
pub mod Invariant
pub mod Time
