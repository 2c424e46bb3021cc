-- ===== src/Lib.antt =====
-- FoodieNote: the native media scanner of the listener application and the parsers behind it,
-- listener/src/main/jni of the repository.
--
-- The scanner (mediascanner.cpp) takes the path of an MP3 file, turns it into wide characters, has
-- the ID3 parser read the tags, hands each tag to a Java client as UTF-8, and has the MP3 parser
-- look at the audio. The modules follow its parts:
--
-- - Utf8: oscl_config/oscl_utf8conv.cpp (Convert: oscl_UnicodeToUTF8 is unicode_to_utf8,
--   oscl_UTF8ToUnicode is utf8_to_unicode) and oscl_config/oscl_string_utf8.cpp (Validate:
--   oscl_str_is_valid_utf8 is is_valid_utf8). Reference is UTF-8 by arithmetic; what is said of texts is
--   said of characters of the basic plane but 0xd801 to 0xdffe (IsBasicPlane), since the code has no
--   UTF-8 for the others;
--   Encode, Decode, RoundTrip, Validity and Accepts compare the code to it.
-- - Mp3: pvmi/mp3parser.cpp. Tables and Header have the tables and the frame headers, FrameLength
--   the bounds of a frame; Vbr and VbrBounds the Xing and VBRI headers; File (pvmi/mp3utils.cpp and
--   pvmi/mp3fileio.cpp over a file that is an interface), Frame and FrameRestore the check that a
--   frame header is followed by three more. State has the members of MP3Parser and the calls on it,
--   Ends what a call ends with on a file with contents, Kept what it leaves alone. Sync is the search
--   for a frame (mp3FindSync is find_sync), SyncBlock and SyncFound what it finds; Crc the check of a
--   frame (mp3VerifyCRC is verify_crc), CrcReference and CrcCheck what it computes and compares; Toc
--   the table of contents that a scan fills (FillTOCTable is fill_toc_table), TocKept its shape,
--   TocFollows what it writes, TocOverrun what happens behind the end of a scan; Scan
--   is the scan (ScanMP3File is scan_mp3_file), ScanTable and ScanBounds what it does to the table; Random the
--   scan of random places (ComputeDurationFromNRandomFrames), RandomBounds its average;
--   Sample the reading of frames (GetNextMediaSample is get_next_media_sample), SampleHeader,
--   SampleEnter, SampleDeliver and SampleRead what it hands out. Floats has the floating point
--   operations that they use, as a parameter.
-- - Id3: pvmi/pv_id3_parcom.cpp. SyncSafe has the integers of ID3v2, WideChar and WideCharText the
--   UTF-16 text, KvpKey the keys of the values (ConstructKvpKey is construct_kvp_key), FrameTables
--   and FrameIds the recognition of a frame (FrameSupportedID3V2 is frame_supported), FrameFlags,
--   KeyedTypes and FrameKeys what it leads to. Kvp has the pairs that the parser hands out. Reader is
--   the reading of tags: Input the file as an interface with its contents, State the members of
--   PVID3ParCom and the calls on it, Values the data of a frame, Headers the header of a frame,
--   Frames the loop over the frames (ReadTagID3V2 is read_tag), OldTag the tag of ID3v1, Footer the
--   search at the end of the file, Tag the whole (ParseID3Tag is parse_id3_tag). Written has the bytes
--   of a tag with text frames, in ID3v2.4 of at most 127 bytes of data each, since larger sizes meet the
--   search of the parser for the writer's byte order (ValidateFrameLengthV2_4, which is modelled); Access, ReadValue, ReadHeader, ReadFrame, ReadRound, Ending, ReadTag,
--   ReadWhole and Parse follow the parser through them. OldTagWritten has the bytes of a tag of ID3v1
--   and its pairs, which OldTagRead and OldTagWhole find read. Kept, Advances, NoSeek and Ends are about
--   the end of the loop, SeekLoop and Overrun about two frames that the parser is not prepared for.
-- - Clock: pvmi/media_clock_converter.h and .cpp, the clock of a stream. Converter has the methods
--   and the calls as steps, Invariant its well-formed states, Time what they count.
-- - Scanner: mediascanner.cpp. Frames has ChangeCode and the loop of parseMP3, ParseMp3 the whole
--   function; Tags says which tags the client is to get, Delivery, Gbk and Number what it
--   gets, TaggedFile what it gets for the bytes of a file. It uses the
--   frames of Id3 and the conversions of Utf8.
-- - Prelude: names, Boolean tests, lists over the native numbers, masks and shifts, results with
--   faults, text literals. Tests: runs at concrete inputs.
--
-- State and errors. A buffer is the list of its cells, a pointer into it an offset; a read beyond it,
-- a division by zero and an undefined shift are values (none, or a fault of Prelude.Results). An
-- unsigned word is its number with the wrap written out where the code can wrap. What an object
-- keeps between calls is passed and returned: the position of a file, the clock, the client.
--
-- Bounds and fuel. Wide characters have 16 or 32 bits, a parameter of utf8_to_unicode; the platform
-- has 32. The validator has fuel; the length of the buffer and one more is given by the scanner, and
-- a round takes at least one byte, so that it is enough. The loop over the frames of a tag has fuel,
-- two rounds more than a written tag has frames, or one for six bytes of a tag of ID3v2.2; so has the
-- chain of tags that seek frames make, one tag for the files here. Without fuel they end as running,
-- which is apart from every result of the code. The search for an MP3 frame has fuel for its blocks
-- of 627 bytes, one more than the search is long; the jumps of GetNextMediaSample to its begin have
-- fuel, of which one unit is enough with the CRC check off. The other loops are structural.
--
-- Memory. The parser has the memory that it asks for, and no largest tag size is set, so that no value
-- is cut; a file has fewer than 2 ^ 31 bytes. A write beyond a buffer that was asked for ends as overrun.
--
-- Not modelled: the file layer and the rest of oscl_config, iconv (a copy of GNU libiconv) and the
-- Java client, which are parameters; the readers of comments, lyrics, pictures and track lengths, which
-- are a parameter of the tag reader; the writing of tags; the opening, the
-- seeking and the duration of mp3parser.cpp, whose results the scanner takes as parameters; the Java
-- application.
pub mod Prelude
pub mod Utf8
pub mod Mp3
pub mod Id3
pub mod Clock
pub mod Scanner
pub mod Tests
