-- ===== src/Id3/KvpKey.antt =====
-- listener/src/main/jni/pvmi/pv_id3_parcom.cpp: ConstructKvpKey, the key under which the value of an
-- ID3 frame is handed out. `aKey` has room for every key here; the last step of the source, which
-- appends an empty string, is left out.
use foodie_note.Prelude.Text.{codes}
use foodie_note.Prelude.{ℕ, Bool, true, false, List, [], ◌∷◌, ◌++◌}

-- PVID3Version.
pub data Version : Type 0 where
  invalid_version v1 v1_1 v2_2 v2_3 v2_4 : Version

-- PVID3CharacterSet.
pub data CharacterSet : Type 0 where
  charset_invalid charset_iso88591 charset_utf16 charset_utf16be charset_utf8 charset_end :
      CharacterSet

-- PVID3FrameType.
pub data FrameType : Type 0 where
  frame_invalid candidate unrecognized title artist album year comment track_number genre
        copyright :
      FrameType
  track_length date padded pic apic lyrics seek recording_time author composer description version :
      FrameType
  part_of_set eend : FrameType

-- The second switch, on the character set, behind the semicolon: what it appends, and whether it
-- knows the set.
unfoldable pub charset_type : CharacterSet → List ℕ × Bool
charset_type charset_iso88591 = (codes "valtype=char*", true)
charset_type charset_utf16 = (codes "valtype=wchar*", true)
charset_type charset_utf16be = (codes "valtype=wchar*;char-encoding=UTF16BE", true)
charset_type charset_utf8 = (codes "valtype=char*;char-encoding=UTF8", true)
charset_type _ = ([], false)

-- The key `aKey` and whether the call succeeds; first the end of the function for a name.
unfoldable pub with_charset : List ℕ → CharacterSet → List ℕ × Bool
unfolding charset_type
with_charset name c = (name ++ b';' ∷ (charset_type c).0, (charset_type c).1)

with_language : Version → List ℕ → CharacterSet → List ℕ → List ℕ × Bool
with_language v1 lang c name = with_charset name c
with_language v1_1 lang c name = with_charset name c
with_language _ lang c name = (name ++ codes ";iso-639-2-lang=" ++ lang, true)

comment_key : Version → List ℕ → CharacterSet → List ℕ × Bool
comment_key v1 lang c = with_charset (codes "comment") c
comment_key v1_1 lang c = with_charset (codes "comment") c
comment_key v lang c = with_language v lang c (codes "comment;valtype=ksv")

genre_key : CharacterSet → List ℕ × Bool
genre_key charset_invalid = (codes "genre;valtype=uint32;format=id3v1", true)
genre_key c = with_charset (codes "genre") c

track_number_key : CharacterSet → List ℕ × Bool
track_number_key charset_invalid = (codes "track-info/track-number;valtype=uint32", true)
track_number_key c = with_charset (codes "track-info/track-number") c

-- ConstructKvpKey by the members iVersion, iID3V2FrameID and iID3V2LanguageID.
unfoldable pub construct_kvp_key :
    Version → List ℕ → List ℕ → FrameType → CharacterSet → List ℕ × Bool
unfolding with_charset with_language comment_key genre_key track_number_key
construct_kvp_key v frame_id lang title c = with_charset (codes "title") c
construct_kvp_key v frame_id lang artist c = with_charset (codes "artist") c
construct_kvp_key v frame_id lang part_of_set c = with_charset (codes "set") c
construct_kvp_key v frame_id lang album c = with_charset (codes "album") c
construct_kvp_key v frame_id lang copyright c = with_charset (codes "copyright") c
construct_kvp_key v frame_id lang genre c = genre_key c
construct_kvp_key v frame_id lang track_number c = track_number_key c
construct_kvp_key v frame_id lang year c = with_charset (codes "year") c
construct_kvp_key v frame_id lang date c = with_charset (codes "date") c
construct_kvp_key v frame_id lang recording_time c = with_charset (codes "year") c
construct_kvp_key v frame_id lang author c = with_charset (codes "author") c
construct_kvp_key v frame_id lang composer c = with_charset (codes "composer") c
construct_kvp_key v frame_id lang description c = with_charset (codes "description") c
construct_kvp_key v frame_id lang version c = with_charset (codes "version") c
construct_kvp_key v frame_id lang comment c = comment_key v lang c
construct_kvp_key v frame_id lang track_length c =
    (codes "duration-from-metadata;timescale=1000;valtype=uint32", true)
construct_kvp_key v frame_id lang pic c = (codes "graphic;", true)
construct_kvp_key v frame_id lang apic c = (codes "graphic;", true)
construct_kvp_key v frame_id lang lyrics c = with_language v lang c (codes "lyrics;valtype=ksv")
construct_kvp_key v frame_id lang unrecognized c =
    (codes "id3v2/" ++ frame_id ++ codes ";valtype=uint8*", true)
construct_kvp_key v frame_id lang candidate c =
    (codes "id3v2/" ++ frame_id ++ codes ";valtype=uint8*", true)
construct_kvp_key v frame_id lang _ c = ([], false)
