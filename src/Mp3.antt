-- ===== src/Mp3.antt =====
-- The parser of MP3 files: listener/src/main/jni/pvmi/mp3parser.cpp with mp3utils.cpp.
pub mod Tables
pub mod Header
pub mod FrameLength
pub mod Vbr
pub mod VbrBounds
pub mod File
pub mod Frame
pub mod FrameRestore
pub mod State
pub mod Ends
pub mod Sync
pub mod Crc
pub mod CrcCheck
pub mod CrcReference
pub mod Floats
pub mod Toc
pub mod TocKept
pub mod TocFollows
pub mod TocOverrun
pub mod Sample
pub mod Kept
pub mod SampleHeader
pub mod SampleEnter
pub mod SampleDeliver
pub mod SampleRead
pub mod SyncBlock
pub mod SyncFound
pub mod Scan
pub mod ScanTable
pub mod ScanBounds
pub mod Random
pub mod RandomBounds
