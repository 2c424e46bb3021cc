-- ===== src/Id3/Reader/OldTag.antt =====
-- listener/src/main/jni/pvmi/pv_id3_parcom.cpp: the tag of ID3v1 at the end of a file.
-- CheckForTagID3V1 and ReadID3V1Tag.
use foodie_note.Id3.FrameTables.{
  Found, Flag, title_flag, artist_flag, album_flag, year_flag, comment_flag, track_number_flag,
  genre_flag, mark,
}
use foodie_note.Id3.Kvp.{Value, p_char_value, uint32_value}
use foodie_note.Id3.KvpKey.{
  FrameType, title, artist, album, year, comment, track_number, genre, v1_1, CharacterSet,
  charset_invalid, charset_iso88591, construct_kvp_key,
}
use foodie_note.Id3.Reader.Headers.{seek_by}
use foodie_note.Id3.Reader.Input.{InputFile}
use foodie_note.Id3.Reader.State.{
  Action, pure, leave, gets, modify, ◌>>=◌, ◌>>◌, read_byte_data, seek_to,
}
use foodie_note.Id3.Reader.Values.{
  OtherReaders, push_back, read_string_value_frame, or_leave, until_zero,
}
use foodie_note.Prelude.Text.{codes, starts_with}
use foodie_note.Prelude.{
  ℕ, zero, suc, ◌-◌, Bool, true, false, not, ◌&&◌, none, some, List, [], ◌∷◌, ◌==◌, leb,
  if◌then◌else◌, get_or,
}

-- The flag of a field.
unfoldable pub is_found : Flag → Found → Bool
is_found title_flag x = x.title_found
is_found artist_flag x = x.artist_found
is_found album_flag x = x.album_found
is_found year_flag x = x.year_found
is_found comment_flag x = x.comment_found
is_found track_number_flag x = x.track_number_found
is_found genre_flag x = x.genre_found

-- strncpy: `n` bytes, with zeros behind the end of the text.
unfoldable pub strncpy : ℕ → List ℕ → List ℕ
strncpy zero bs = []
strncpy (suc n) [] = 0 ∷ strncpy n []
strncpy (suc n) (b ∷ bs) =
    let rest = strncpy n bs in let fill = strncpy n [] in if b == 0 then 0 ∷ fill else b ∷ rest

module _ (f : InputFile) (others : OtherReaders f.State) where
  open f use {State}

  unfoldable pub is_marked : Flag → Action State Bool
  unfolding is_found
  is_marked flag = gets (λ p. is_found flag p.found)

  unfoldable pub set_found : Flag → Action State (Unit {0})
  set_found flag = modify (λ p. record p { found = mark (some flag) p.found })

  -- A text field of `n` bytes, unless an ID3v2 tag has it; whether to go on.
  unfoldable pub read_field : Flag → FrameType → ℕ → Action State Bool
  unfolding is_marked set_found read_string_value_frame or_leave seek_by
  read_field flag t n = do
    known ← is_marked flag
    if known then seek_by f n else (do
      went ← read_string_value_frame f others t charset_iso88591 n
      or_leave f others went
      set_found flag
      pure true)

  -- A pair under the key of ConstructKvpKey.
  unfoldable pub push_value : FrameType → CharacterSet → Value → Action State (Unit {0})
  unfolding push_back or_leave until_zero
  push_value t c value = do
    key ← gets (λ p. construct_kvp_key p.version (until_zero p.frame_id) p.language t c)
    or_leave f others key.1
    modify (push_back (record { key = key.0; value = value }))

  -- The track number of ID3v1.1, in the last byte of the comment.
  unfoldable pub push_track_number : List ℕ → Action State (Unit {0})
  unfolding is_marked set_found push_value
  push_track_number bs = do
    known ← is_marked track_number_flag
    if not known && (get_or bs 28 0 == 0 && not (get_or bs 29 0 == 0))
        then (do
          modify (λ p. record p { version = v1_1 })
          push_value track_number charset_invalid (uint32_value (get_or bs 29 0))
          set_found track_number_flag)
        else pure tt

  unfoldable pub push_comment : List ℕ → Action State (Unit {0})
  unfolding is_marked set_found push_value strncpy
  push_comment bs = do
    known ← is_marked comment_flag
    if known then pure tt else (do
      push_value comment charset_iso88591 (p_char_value (strncpy 31 bs))
      set_found comment_flag)

  unfoldable pub take_comment : Action State Bool
  unfolding read_byte_data push_track_number push_comment
  take_comment = do
    bytes_read ← read_byte_data f 30
    elim bytes_read [
      | none ↦ leave
      | some bs ↦ push_track_number bs >> push_comment bs >> pure true
    ]

  unfoldable pub read_comment : Action State Bool
  unfolding is_marked take_comment seek_by
  read_comment = do
    has_comment ← is_marked comment_flag
    has_track ← is_marked track_number_flag
    if has_comment && has_track then seek_by f 30 else take_comment

  unfoldable pub take_genre : Action State (Unit {0})
  unfolding set_found read_byte_data push_value
  take_genre = do
    byte_read ← read_byte_data f 1
    elim byte_read [
      | none ↦ leave
      | some bs ↦
          push_value genre charset_invalid (uint32_value (get_or bs 0 0)) >> set_found genre_flag
    ]

  unfoldable pub read_genre : Action State (Unit {0})
  unfolding is_marked take_genre seek_by
  read_genre = do known ← is_marked genre_flag; if known then seek_by f 1 >> pure tt else take_genre

  -- An early return ends the reading.
  unfoldable pub if_going : Action State (Unit {0}) → Bool → Action State (Unit {0})
  if_going m goes = if goes then m else pure tt

  -- ReadID3V1Tag.
  unfoldable pub read_id3v1_tag : Action State (Unit {0})
  unfolding read_field read_comment read_genre if_going
  read_id3v1_tag =
      read_field title_flag title 30
      >>= if_going (
          read_field artist_flag artist 30
          >>= if_going (
              read_field album_flag album 30
              >>= if_going (
                  read_field year_flag year 4 >>= if_going (read_comment >>= if_going read_genre))))

  -- CheckForTagID3V1.
  unfoldable pub check_for_tag_id3v1 : Action State Bool
  unfolding seek_to read_byte_data
  check_for_tag_id3v1 = do
    size ← gets (λ p. p.file_size)
    if not (leb 128 size) then pure false else (do
      sought ← seek_to f (size - 128)
      if not sought then pure false else (do
        id ← read_byte_data f 3
        elim id [
          | none ↦ pure false
          | some bs ↦
              if starts_with bs (codes "TAG")
              then modify (λ p. record p { v1_present = true }) >> pure true
              else pure false
        ]))
