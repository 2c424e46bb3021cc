-- ===== src/Id3/Reader/Frames.antt =====
-- listener/src/main/jni/pvmi/pv_id3_parcom.cpp: ReadTagID3V2, the loop over the frames of a tag, for
-- Android, where a frame that is not supported is passed by.
use foodie_note.Id3.KvpKey.{
  FrameType, unrecognized, comment, apic, pic, lyrics, seek, Version, v2_3, v2_4, charset_iso88591,
}
use foodie_note.Id3.Reader.Headers.{
  supported, is_eend, is_invalid, is_candidate, is_v2_2, is_v2_4, read_frame_header,
}
use foodie_note.Id3.Reader.Input.{InputFile}
use foodie_note.Id3.Reader.State.{
  Action, pure, gets, modify, run_on, ◌>>=◌, ◌>>◌, read_word, seek_to,
}
use foodie_note.Id3.Reader.Values.{OtherReaders, after_other, handle_frame_data, read_frame_data}
use foodie_note.Id3.SyncSafe.{safe_synch_int_to_int32}
use foodie_note.Prelude.{
  ℕ, zero, suc, ◌+◌, ◌-◌, ◌%◌, ◌^◌, Bool, true, false, not, ◌&&◌, ◌||◌, none, some, ◌==◌, ltb,
  if◌then◌else◌, get_or, bit_and,
}

unfoldable pub is_seek : FrameType → Bool
is_seek seek = true
is_seek _ = false

unfoldable pub is_unrecognized : FrameType → Bool
is_unrecognized unrecognized = true
is_unrecognized _ = false

unfoldable pub is_lyrics_comm : FrameType → Bool
is_lyrics_comm lyrics = true
is_lyrics_comm comment = true
is_lyrics_comm _ = false

unfoldable pub is_album_art : FrameType → Bool
is_album_art apic = true
is_album_art pic = true
is_album_art _ = false

-- The size of a frame's header.
unfoldable pub frame_header_size : Version → ℕ
unfolding is_v2_2
frame_header_size v = if is_v2_2 v then 6 else 10

-- The type behind the test for encryption and compression.
unfoldable pub unless_encrypted : Version → ℕ → FrameType → FrameType
unless_encrypted v2_3 flag t = if bit_and flag 0xC0 == 0 then t else unrecognized
unless_encrypted v2_4 flag t = if bit_and flag 0x0C == 0 then t else unrecognized
unless_encrypted _ flag t = t

-- The types whose content is looked at.
unfoldable pub is_looked_at : FrameType → Bool
unfolding is_unrecognized is_invalid is_eend is_candidate
is_looked_at t = not (is_unrecognized t || is_invalid t || is_eend t || is_candidate t)

-- The variables of the loop: the offset, data_len_indicator_size and the count.
pub record Cursor : Type 0 where
  pub i : ℕ
  pub data_len_indicator_size : ℕ
  pub count : ℕ

-- What a round does: it returns the count, or goes on.
pub data Round : Type 0 where
  ends_with : ℕ → Round
  next : Cursor → Round

module _ (f : InputFile) (others : OtherReaders f.State) (v : Version) (base : ℕ) where
  open f use {State}

  -- The calls for a comment or lyrics, whose result is not looked at, and for a picture.
  unfoldable pub read_lyrics_comm_frame : ℕ → ℕ → FrameType → Action State Bool
  unfolding after_other
  read_lyrics_comm_frame check size t p =
      after_other (others.read_lyrics_comm p.version check size t p.language p.input) p

  unfoldable pub read_album_art_frame : FrameType → ℕ → ℕ → Action State Bool
  unfolding after_other
  read_album_art_frame t check size p =
      after_other (others.read_album_art p.version t check size p.language p.input) p

  -- The content of a frame behind the byte of the character set, by its type; whether to go on. The
  -- last case seeks to an offset into the tag where a position in the file is meant.
  unfoldable pub read_content : Cursor → FrameType → ℕ → ℕ → Action State Bool
  unfolding is_lyrics_comm is_album_art read_lyrics_comm_frame read_album_art_frame read_frame_data
      handle_frame_data frame_header_size
  read_content c t check len =
      let offset = c.i + frame_header_size v + c.data_len_indicator_size in
      if is_lyrics_comm t
      then read_lyrics_comm_frame check (len - 1) t >> pure true
      else if is_album_art t
      then (if ltb 3000000 len then pure true else read_album_art_frame t check len)
      else if ltb check 4
      then read_frame_data f others check t ((base + offset + 1) % 2 ^ 32) len
      else handle_frame_data f others t charset_iso88591 (offset % 2 ^ 32) len >> pure true

  -- The end of a round: behind the frame.
  unfoldable pub behind_frame : Cursor → Action State Round
  unfolding frame_header_size
  behind_frame c =
      gets (λ p. next (record c { i = (c.i + p.frame_size + frame_header_size v) % 2 ^ 32 }))

  unfoldable pub counted_round : Cursor → Bool → Action State Round
  unfolding behind_frame
  counted_round c false = pure (ends_with c.count)
  counted_round c true = behind_frame (record c { count = c.count + 1 })

  -- A frame of the given length, behind the length indicator.
  unfoldable pub read_frame : Cursor → FrameType → ℕ → Action State Round
  unfolding is_looked_at is_eend is_invalid read_word read_content counted_round behind_frame
  read_frame c t len =
      if ltb 1 len && is_looked_at t
      then (do
        check ← read_word f 8 1
        elim check [
          | none ↦ pure (ends_with c.count)
          | some b ↦ read_content c t b len >>= counted_round c
        ])
      else (do
        tag_size ← gets (λ p. p.tag_size)
        behind_frame (if is_eend t || is_invalid t then record c { i = tag_size + 1 } else c))

  -- The data length indicator of ID3v2.4.
  unfoldable pub read_length : Cursor → FrameType → ℕ → ℕ → Action State Round
  unfolding read_frame read_word is_v2_4
  read_length c t flag size =
      if is_v2_4 v && not (bit_and flag 1 == 0)
      then (do
        indicator ← read_word f 32 4
        elim indicator [
          | none ↦ pure (ends_with c.count)
          | some x ↦
              read_frame (record c { data_len_indicator_size = 4 }) t (safe_synch_int_to_int32 x)
        ])
      else read_frame c t size

  -- A seek frame ends the tag.
  unfoldable pub follow_type : Cursor → FrameType → ℕ → ℕ → Action State Round
  unfolding is_seek read_length
  follow_type c t flag size =
      if is_seek t
      then (do
        modify (λ p. record p { seek_frame_found = true; seek_offset = p.frame_size })
        pure (ends_with c.count))
      else read_length c t flag size

  -- A frame behind its header, by the type that it is recognised as.
  unfoldable pub follow_header : Cursor → FrameType → ℕ → Action State Round
  unfolding is_seek is_eend frame_header_size unless_encrypted follow_type
  follow_header c t size = do
    tag_size ← gets (λ p. p.tag_size)
    if not (is_seek t) && ltb tag_size size
        then pure (ends_with c.count)
        else if size == 0 && not (is_eend t)
        then pure (next (record c { i = (c.i + frame_header_size v) % 2 ^ 32 }))
        else (do
          flag ← gets (λ p. get_or p.frame_flag 1 0)
          follow_type c (unless_encrypted v flag t) flag size)

  unfoldable pub round : Cursor → Action State Round
  unfolding seek_to read_frame_header supported follow_header
  round c = do
    sought ← seek_to f ((base + c.i) % 2 ^ 32)
    if not sought then pure (ends_with c.count) else (do
      read_frame_header f v
      size ← gets (λ p. p.frame_size)
      t ← supported v none
      follow_header c t size)

  -- The loop, with fuel for its rounds.
  unfoldable pub tag_loop : ℕ → Cursor → Action State ℕ
  unfolding round
  tag_loop zero c = run_on
  tag_loop (suc n) c = do
    tag_size ← gets (λ p. p.tag_size)
    if ltb tag_size c.i
        then pure c.count
        else (do r ← round c; elim r [ ends_with count ↦ pure count | next d ↦ tag_loop n d ])

-- ReadTagID3V2 with fuel.
module _ (f : InputFile) (others : OtherReaders f.State) where
  open f use {State, tell}

  unfoldable pub read_tag : ℕ → Version → Action State ℕ
  unfolding tag_loop
  read_tag n v = do
    base ← gets (λ p. tell p.input)
    i ← gets (λ p. p.ext_size)
    tag_loop f others v base n (record { i = i; data_len_indicator_size = 0; count = 0 })
