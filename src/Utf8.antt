-- ===== src/Utf8.antt =====
-- The conversion and validation of UTF-8 text that the media scanner calls:
-- listener/src/main/jni/oscl_config/oscl_utf8conv.cpp and oscl_string_utf8.cpp.
pub mod Convert
pub mod Reference
pub mod Encode
pub mod Decode
pub mod RoundTrip
pub mod Validate
pub mod Validity
pub mod Accepts
