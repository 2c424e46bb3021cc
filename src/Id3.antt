-- ===== src/Id3.antt =====
-- The parser of ID3 tags, listener/src/main/jni/pvmi/pv_id3_parcom.cpp.
pub mod Kvp
pub mod SyncSafe
pub mod WideChar
pub mod WideCharText
pub mod KvpKey
pub mod FrameTables
pub mod FrameIds
pub mod FrameFlags
pub mod KeyedTypes
pub mod FrameKeys
pub mod Reader
