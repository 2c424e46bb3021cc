-- ===== src/Id3/Reader/Values.antt =====
-- listener/src/main/jni/pvmi/pv_id3_parcom.cpp: ReadStringValueFrame, and the handlers of a frame's
-- data, by character set. Memory is there for what the code asks for, and the largest tag size is not
-- limited, so that no value is cut. A wide character has four bytes, as on the platform. The readers
-- of the other values (ReadTrackLengthFrame, ReadLyricsCommFrame and ReadAlbumArtFrame) are a
-- parameter.
use foodie_note.Id3.FrameTables.{
  Flag, title_flag, artist_flag, album_flag, year_flag, track_number_flag, genre_flag, mark,
}
use foodie_note.Id3.Kvp.{Kvp, p_char_value, p_wchar_value, Value}
use foodie_note.Id3.KvpKey.{
  CharacterSet, charset_iso88591, charset_utf16, charset_utf16be, charset_utf8, construct_kvp_key,
  FrameType, title, artist, album, year, track_number, genre, copyright, track_length, date,
  recording_time, author, composer, description, version, part_of_set, Version,
}
use foodie_note.Id3.Reader.Input.{InputFile}
use foodie_note.Id3.Reader.State.{
  Parser, Action, pure, leave, gets, modify, ◌>>=◌, ◌>>◌, read_into, read_word, seek_to, returned,
}
use foodie_note.Id3.WideChar.{Endian, big, little, eight_bit_to_wide_char_buffer_transfer}
use foodie_note.Prelude.{
  ℕ, ◌+◌, ◌-◌, ◌%◌, ◌^◌, Bool, true, false, Option, none, some, List, [], ◌∷◌, ◌++◌, ◌==◌,
  if◌then◌else◌,
}

-- What a reader of another value leaves: whether it succeeds, the file behind it, the pairs that it
-- hands out, and iID3V2LanguageID.
pub record OtherValue (S : Type 0) : Type 0 where
  pub succeeds : Bool
  pub behind_it : S
  pub pairs : List Kvp
  pub language_id : List ℕ

-- The other readers: of a comment or lyrics by the character set and the size; of a picture; of a
-- track length by the size and the character set.
pub record OtherReaders (S : Type 0) : Type 0 where
  pub read_lyrics_comm : Version → ℕ → ℕ → FrameType → List ℕ → S → OtherValue S
  pub read_album_art : Version → FrameType → ℕ → ℕ → List ℕ → S → OtherValue S
  pub read_track_length : Version → ℕ → CharacterSet → List ℕ → S → OtherValue S

module _ {S : Type 0} where
  -- Push to iFrames.
  unfoldable pub push_back : Kvp → Parser S → Parser S
  push_back x p = record p { frames = p.frames ++ x ∷ [] }

  unfoldable pub after_other : OtherValue S → Action S Bool
  after_other v p = (
    returned v.succeeds,
    record p { input = v.behind_it; frames = p.frames ++ v.pairs; language = v.language_id },
  )

-- An identifier as text.
unfoldable pub until_zero : List ℕ → List ℕ
until_zero [] = []
until_zero (x ∷ xs) = let rest = until_zero xs in if x == 0 then [] else x ∷ rest

-- The types of text frames, and the flags that their handlers set.
unfoldable pub is_text : FrameType → Bool
is_text title = true
is_text artist = true
is_text album = true
is_text year = true
is_text track_number = true
is_text genre = true
is_text copyright = true
is_text date = true
is_text recording_time = true
is_text author = true
is_text composer = true
is_text description = true
is_text version = true
is_text part_of_set = true
is_text _ = false

unfoldable pub handled_flag : FrameType → Option Flag
handled_flag title = some title_flag
handled_flag artist = some artist_flag
handled_flag album = some album_flag
handled_flag year = some year_flag
handled_flag track_number = some track_number_flag
handled_flag genre = some genre_flag
handled_flag _ = none

unfoldable pub is_track_length : FrameType → Bool
is_track_length track_length = true
is_track_length _ = false

-- The buffer of a wide value.
unfoldable pub wide_value : Endian → List ℕ → Value
wide_value e bs = p_wchar_value ((eight_bit_to_wide_char_buffer_transfer e 4 bs).cells ++ 0 ∷ [])

module _ (f : InputFile) (others : OtherReaders f.State) where
  open f use {State}

  -- The bytes of a value arrive in a buffer with room for `extra` more, the sum in 32 bits; the
  -- pair is handed out, or the reading fails.
  unfoldable pub read_value : ℕ → ℕ → List ℕ → (List ℕ → Value) → Action State Bool
  unfolding read_into push_back
  read_value extra size key value = do
    arrived ← read_into f ((size + extra) % 2 ^ 32) size
    elim arrived [
      | none ↦ pure false
      | some bs ↦ modify (push_back (record { key = key; value = value bs })) >> pure true
    ]

  unfoldable pub read_by_charset : CharacterSet → ℕ → List ℕ → Action State Bool
  unfolding read_value wide_value
  read_by_charset charset_iso88591 size key =
      read_value 1 size key (λ bs. p_char_value (bs ++ 0 ∷ []))
  read_by_charset charset_utf8 size key = read_value 1 size key (λ bs. p_char_value (bs ++ 0 ∷ []))
  read_by_charset charset_utf16 size key = read_value 2 size key (wide_value little)
  read_by_charset charset_utf16be size key = read_value 2 size key (wide_value big)
  read_by_charset _ size key = pure false

  -- ReadStringValueFrame, and whether it succeeds.
  unfoldable pub read_string_value_frame : FrameType → CharacterSet → ℕ → Action State Bool
  unfolding read_by_charset until_zero
  read_string_value_frame t c size = do
    key ← gets (λ p. construct_kvp_key p.version (until_zero p.frame_id) p.language t c)
    if key.1 then read_by_charset c size key.0 else pure false

  unfoldable pub read_track_length_frame : ℕ → CharacterSet → Action State Bool
  unfolding after_other
  read_track_length_frame size c p =
      after_other (others.read_track_length p.version size c p.language p.input) p

  unfoldable pub or_leave : Bool → Action State (Unit {0})
  or_leave b = if b then pure tt else leave

  -- HandleID3V2FrameDataASCII, HandleID3V2FrameDataUnicode16 and HandleID3V2FrameDataUTF8, which
  -- differ in the character set.
  unfoldable pub handle_frame_data : FrameType → CharacterSet → ℕ → ℕ → Action State (Unit {0})
  unfolding seek_to is_text is_track_length handled_flag read_string_value_frame
      read_track_length_frame or_leave
  handle_frame_data t c pos size = do
    sought ← seek_to f pos
    or_leave sought
    if is_track_length t
        then read_track_length_frame size c >>= or_leave
        else if is_text t
        then (do
          went ← read_string_value_frame t c size
          or_leave went
          modify (λ p. record p { found = mark (handled_flag t) p.found }))
        else pure tt

  -- The two bytes of the byte order mark, as a big-endian number.
  unfoldable pub handle_by_mark : FrameType → ℕ → ℕ → Option ℕ → Action State Bool
  unfolding handle_frame_data
  handle_by_mark t pos len none = pure false
  handle_by_mark t pos len (some order) =
      let size = (len + 2 ^ 32 - 3) % 2 ^ 32 in
      if order == 0xfffe
      then handle_frame_data t charset_utf16 (pos + 2) size >> pure true
      else if order == 0xfeff
      then handle_frame_data t charset_utf16be (pos + 2) size >> pure true
      else pure false

  -- ReadFrameData, by the number of the character set.
  unfoldable pub read_frame_data : ℕ → FrameType → ℕ → ℕ → Action State Bool
  unfolding handle_frame_data handle_by_mark read_word
  read_frame_data check t pos len =
      let size = (len + 2 ^ 32 - 1) % 2 ^ 32 in
      if check == 0
      then handle_frame_data t charset_iso88591 pos size >> pure true
      else if check == 1
      then read_word f 16 2 >>= handle_by_mark t pos len
      else if check == 2
      then handle_frame_data t charset_utf16be pos size >> pure true
      else if check == 3
      then handle_frame_data t charset_utf8 pos size >> pure true
      else pure true
