-- ===== src/Id3/Reader/Written.antt =====
-- Text frames as bytes of a tag, by type, character set and text: what a writer of ID3v2.3 or
-- ID3v2.4 puts there. Text is bytes, or 16-bit units for the character sets of wide characters.
use foodie_note.Id3.FrameIds.{frame_supported_v2_3, frame_supported_version}
use foodie_note.Id3.Reader.State.{join_bytes}
use foodie_note.Id3.FrameTables.{Found, frame_table}
use foodie_note.Id3.Kvp.{Value, p_char_value, p_wchar_value}
use foodie_note.Id3.KvpKey.{
  CharacterSet, charset_invalid, charset_iso88591, charset_utf16, charset_utf16be, charset_utf8,
  charset_end, FrameType, frame_invalid, candidate, unrecognized, title, artist, album, year,
  comment, track_number, genre, copyright, track_length, date, padded, pic, apic, lyrics, seek,
  recording_time, author, composer, description, version, part_of_set, eend, Version,
  invalid_version, v1, v1_1, v2_2, v2_3, v2_4,
}
use foodie_note.Id3.KeyedTypes.{HasKey}
use foodie_note.Id3.Reader.Access.{be32}
use foodie_note.Id3.Reader.Frames.{
  is_looked_at, is_lyrics_comm, is_album_art, is_seek, unless_encrypted, frame_header_size,
}
use foodie_note.Id3.Reader.Headers.{is_eend, is_v2_2, is_v2_4}
use foodie_note.Id3.Reader.Values.{is_text, is_track_length, until_zero}
use foodie_note.Id3.WideChar.{big, little}
use foodie_note.Id3.WideCharText.{IsUnit16, utf16_bytes, seen}
use foodie_note.Prelude.Text.{codes, starts_with}
use foodie_note.Prelude.{
  ℕ, ◌≤◌, ◌≡◌, refl, true, false, not, ◌&&◌, ltb, le→ltb_false, bit_and, List, [], ◌∷◌, ◌++◌, map,
  length, All, get_or, ◌==◌,
}

pub record WrittenFrame : Type 0 where
  pub frame_type : FrameType
  pub charset : CharacterSet
  pub cells : List ℕ

-- The types of text, and their identifiers.
abbrev pub IsTextType : FrameType → Type 0
IsTextType title = Unit
IsTextType artist = Unit
IsTextType album = Unit
IsTextType year = Unit
IsTextType track_number = Unit
IsTextType genre = Unit
IsTextType copyright = Unit
IsTextType date = Unit
IsTextType recording_time = Unit
IsTextType author = Unit
IsTextType composer = Unit
IsTextType description = Unit
IsTextType version = Unit
IsTextType part_of_set = Unit
IsTextType _ = ⊥

abbrev pub id_of : FrameType → List ℕ
id_of title = codes "TIT2"
id_of artist = codes "TPE1"
id_of album = codes "TALB"
id_of year = codes "TYER"
id_of track_number = codes "TRCK"
id_of genre = codes "TCON"
id_of copyright = codes "TCOP"
id_of date = codes "TDAT"
id_of recording_time = codes "TDRC"
id_of author = codes "TEXT"
id_of composer = codes "TCOM"
id_of description = codes "TIT3"
id_of version = codes "TENC"
id_of part_of_set = codes "TPOS"
id_of _ = []

-- The byte of the character set with the byte order mark, and the bytes of the text.
abbrev pub check_of : CharacterSet → ℕ
check_of charset_iso88591 = 0
check_of charset_utf16 = 1
check_of charset_utf16be = 2
check_of charset_utf8 = 3
check_of _ = 4

abbrev pub order_bytes : CharacterSet → List ℕ
order_bytes charset_utf16 = 255 ∷ 254 ∷ []
order_bytes _ = []

abbrev pub payload : CharacterSet → List ℕ → List ℕ
payload charset_utf16 cells = utf16_bytes little cells
payload charset_utf16be cells = utf16_bytes big cells
payload _ cells = cells

-- Text that can be written: not empty, except behind a byte order mark.
abbrev pub IsWritable : CharacterSet → List ℕ → Type 0
IsWritable charset_iso88591 cells = 1 ≤ length cells
IsWritable charset_utf8 cells = 1 ≤ length cells
IsWritable charset_utf16 cells = All IsUnit16 cells
IsWritable charset_utf16be cells = All IsUnit16 cells × (1 ≤ length cells)
IsWritable _ cells = ⊥

-- The value that is handed out.
abbrev pub value_read : CharacterSet → List ℕ → Value
value_read charset_utf16 cells = p_wchar_value (cells ++ 0 ∷ [])
value_read charset_utf16be cells = p_wchar_value (map (seen big 4) cells ++ 0 ∷ [])
value_read _ cells = p_char_value (cells ++ 0 ∷ [])

abbrev pub data_bytes : WrittenFrame → List ℕ
data_bytes x = check_of x.charset ∷ (order_bytes x.charset ++ payload x.charset x.cells)

unfoldable pub frame_bytes : WrittenFrame → List ℕ
frame_bytes x = id_of x.frame_type ++ (be32 (length (data_bytes x)) ++ 0 ∷ 0 ∷ data_bytes x)

unfoldable pub tag_bytes : List WrittenFrame → List ℕ
unfolding frame_bytes
tag_bytes [] = []
tag_bytes (x ∷ xs) = frame_bytes x ++ tag_bytes xs

-- The character sets that can be written have their number.
pub check_of-small :
    (c : CharacterSet) (cells : List ℕ)
    → IsWritable c cells
    → (join_bytes 8 0 (check_of c ∷ []) ≡ check_of c) × (ltb (check_of c) 4 ≡ true)
unfolding join_bytes
check_of-small charset_iso88591 cells w = (refl, refl)
check_of-small charset_utf16 cells w = (refl, refl)
check_of-small charset_utf16be cells w = (refl, refl)
check_of-small charset_utf8 cells w = (refl, refl)
check_of-small charset_invalid cells w = absurd w
check_of-small charset_end cells w = absurd w

-- Versions and sizes that are written as they are: ID3v2.3, and ID3v2.4 up to 127.
abbrev pub IsPlain : Version → ℕ → Type 0
IsPlain v2_3 n = Unit
IsPlain v2_4 n = n ≤ 127
IsPlain _ n = ⊥

pub IsPlain-tests :
    (v : Version) (n : ℕ) (t : FrameType) (own id : List ℕ) (found : Found)
    → IsPlain v n
    → (is_v2_2 v ≡ false)
      × ((is_v2_4 v && ltb 127 n) ≡ false)
      × ((is_v2_4 v && not (bit_and 0 1 == 0)) ≡ false)
      × (unless_encrypted v 0 t ≡ t)
      × (frame_header_size v ≡ 10)
      × (frame_supported_version v own id found ≡ frame_supported_v2_3 id found)
unfolding is_v2_2 is_v2_4 unless_encrypted frame_header_size frame_supported_version
IsPlain-tests v2_3 n t own id found h = (refl, refl, refl, refl, refl, refl)
IsPlain-tests v2_4 n t own id found h = (refl, le→ltb_false 127 n h, refl, refl, refl, refl)
IsPlain-tests invalid_version n t own id found h = absurd h
IsPlain-tests v1 n t own id found h = absurd h
IsPlain-tests v1_1 n t own id found h = absurd h
IsPlain-tests v2_2 n t own id found h = absurd h

-- What the parser knows of a type of text.
pub text_type_tests :
    (t : FrameType)
    → IsTextType t
    → (is_text t ≡ true)
      × (is_track_length t ≡ false)
      × (is_seek t ≡ false)
      × (is_eend t ≡ false)
      × (is_looked_at t ≡ true)
      × (is_lyrics_comm t ≡ false)
      × (is_album_art t ≡ false)
      × (length (id_of t) ≡ 4)
      × HasKey t
unfolding is_text is_track_length is_seek is_eend is_looked_at is_lyrics_comm is_album_art
text_type_tests title h = (refl, refl, refl, refl, refl, refl, refl, refl, tt)
text_type_tests artist h = (refl, refl, refl, refl, refl, refl, refl, refl, tt)
text_type_tests album h = (refl, refl, refl, refl, refl, refl, refl, refl, tt)
text_type_tests year h = (refl, refl, refl, refl, refl, refl, refl, refl, tt)
text_type_tests track_number h = (refl, refl, refl, refl, refl, refl, refl, refl, tt)
text_type_tests genre h = (refl, refl, refl, refl, refl, refl, refl, refl, tt)
text_type_tests copyright h = (refl, refl, refl, refl, refl, refl, refl, refl, tt)
text_type_tests date h = (refl, refl, refl, refl, refl, refl, refl, refl, tt)
text_type_tests recording_time h = (refl, refl, refl, refl, refl, refl, refl, refl, tt)
text_type_tests author h = (refl, refl, refl, refl, refl, refl, refl, refl, tt)
text_type_tests composer h = (refl, refl, refl, refl, refl, refl, refl, refl, tt)
text_type_tests description h = (refl, refl, refl, refl, refl, refl, refl, refl, tt)
text_type_tests version h = (refl, refl, refl, refl, refl, refl, refl, refl, tt)
text_type_tests part_of_set h = (refl, refl, refl, refl, refl, refl, refl, refl, tt)
text_type_tests frame_invalid h = absurd h
text_type_tests candidate h = absurd h
text_type_tests unrecognized h = absurd h
text_type_tests comment h = absurd h
text_type_tests track_length h = absurd h
text_type_tests padded h = absurd h
text_type_tests pic h = absurd h
text_type_tests apic h = absurd h
text_type_tests lyrics h = absurd h
text_type_tests seek h = absurd h
text_type_tests eend h = absurd h

-- The identifier of a type of text, with a terminator, is recognised as that type.
pub id_of-recognised :
    (t : FrameType) (r : List ℕ) (found : Found)
    → IsTextType t
    → ((frame_supported_v2_3 (id_of t ++ 0 ∷ r) found).0 ≡ t)
      × (until_zero (id_of t ++ 0 ∷ r) ≡ id_of t)
      × ((get_or (id_of t ++ 0 ∷ r) 0 0 == 0xff) ≡ false)
unfolding frame_supported_v2_3 frame_table starts_with until_zero
id_of-recognised title r found h = (refl, refl, refl)
id_of-recognised artist r found h = (refl, refl, refl)
id_of-recognised album r found h = (refl, refl, refl)
id_of-recognised year r found h = (refl, refl, refl)
id_of-recognised track_number r found h = (refl, refl, refl)
id_of-recognised genre r found h = (refl, refl, refl)
id_of-recognised copyright r found h = (refl, refl, refl)
id_of-recognised date r found h = (refl, refl, refl)
id_of-recognised recording_time r found h = (refl, refl, refl)
id_of-recognised author r found h = (refl, refl, refl)
id_of-recognised composer r found h = (refl, refl, refl)
id_of-recognised description r found h = (refl, refl, refl)
id_of-recognised version r found h = (refl, refl, refl)
id_of-recognised part_of_set r found h = (refl, refl, refl)
id_of-recognised frame_invalid r found h = absurd h
id_of-recognised candidate r found h = absurd h
id_of-recognised unrecognized r found h = absurd h
id_of-recognised comment r found h = absurd h
id_of-recognised track_length r found h = absurd h
id_of-recognised padded r found h = absurd h
id_of-recognised pic r found h = absurd h
id_of-recognised apic r found h = absurd h
id_of-recognised lyrics r found h = absurd h
id_of-recognised seek r found h = absurd h
id_of-recognised eend r found h = absurd h
