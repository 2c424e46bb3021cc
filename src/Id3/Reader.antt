-- ===== src/Id3/Reader.antt =====
-- listener/src/main/jni/pvmi/pv_id3_parcom.cpp: the reading of ID3 tags.
pub mod Input
pub mod State
pub mod Values
pub mod Headers
pub mod Frames
pub mod OldTag
pub mod Footer
pub mod Tag
pub mod Access
pub mod Written
pub mod ReadValue
pub mod ReadHeader
pub mod ReadFrame
pub mod ReadRound
pub mod Ending
pub mod ReadTag
pub mod ReadWhole
pub mod Parse
pub mod SeekLoop
pub mod Overrun
pub mod Kept
pub mod Advances
pub mod NoSeek
pub mod Ends
pub mod OldTagWritten
pub mod OldTagRead
pub mod OldTagWhole
