-- ===== src/Scanner.antt =====
-- listener/src/main/jni/mediascanner.cpp: the media scanner of the application.
pub mod Frames
pub mod Tags
pub mod Delivery
pub mod Gbk
pub mod ParseMp3
pub mod Number
pub mod TaggedFile
