-- ===== src/Mp3/Frame.antt =====
-- listener/src/main/jni/pvmi/mp3parser.cpp: IsValidFrame and IsValidFrameHeader, which follow a
-- frame header to the next three. `revSeek` is kept as the number `back` that it is the negative of;
-- the flag bCRCPresent, which the rest does not read, is a function of its own.
use foodie_note.Mp3.File.{
  PvFile, Error, success, insufficient_data, file_hdr_read_err, seek_cur_pos, seek_to_offset,
  read_byte_data,
}
use foodie_note.Mp3.Header.{ConfigInfo, zero_config, get_mp3_header, decode_mp3_header}
use foodie_note.Prelude.Int.{pos, neg, sub_ℕ}
use foodie_note.Prelude.{
  ℕ, ◌+◌, ◌*◌, ◌^◌, Bool, false, not, ◌&&◌, ◌||◌, Option, none, some, List, ◌∷◌, ◌==◌,
  if◌then◌else◌,
}

-- SwapFileToHostByteOrderInt32 on the four bytes of a header.
unfoldable pub header_word : List ℕ → ℕ
header_word (b3 ∷ b2 ∷ b1 ∷ b0 ∷ r) = b0 + 2 ^ 8 * b1 + 2 ^ 16 * b2 + 2 ^ 24 * b3
header_word _ = 0

-- The config info that DecodeMP3Header leaves behind for a header word, and its result; that of
-- GetMP3Header is not looked at. The decoder never faults on the fields of a word.
unfoldable pub decode_word : ℕ → ConfigInfo × Bool
decode_word w = elim (decode_mp3_header (get_mp3_header w).0) [
  | none ↦ (zero_config, false)
  | some r ↦ r
]

-- bCRCPresent behind the call: set from the first header, if that is accepted and decodes.
unfoldable pub crc_present : ℕ → Bool
crc_present w = (get_mp3_header w).1 && (decode_word w).1 && (get_mp3_header w).0.crc_follows == 0

-- What IsValidFrameHeader does behind the seek to the next header: give up, or go on.
pub data Next (S : Type 0) : Type 0 where
  give_up : Error → S → Next S
  go_on : ConfigInfo → S → Next S

module _ (f : PvFile) where
  open f use {State}

  -- The read of the header that the file stands at, `back` bytes behind the first.
  unfoldable pub behind_read : ℕ → Option (List ℕ) × State → Next State
  behind_read back (none, t) =
      give_up insufficient_data (seek_to_offset f t (neg back) seek_cur_pos).1
  behind_read back (some bs, t) = go_on (decode_word (header_word bs)).0 t

  unfoldable pub read_next : ℕ → State → Next State
  read_next back s = behind_read back (read_byte_data f s 4)

  -- The seek to the next header over a frame of `flength` bytes, whose header has been read.
  unfoldable pub behind_seek : ℕ → ℕ → Error × State → Next State
  behind_seek back flength (success, t) = read_next (back + flength) t
  behind_seek back flength (e, t) = give_up e (seek_to_offset f t (neg (back + 4)) seek_cur_pos).1

  unfoldable pub follow : ℕ → ℕ → State → Next State
  follow back flength s =
      behind_seek back flength (seek_to_offset f s (sub_ℕ flength 4) seek_cur_pos)

  -- The comparison of the four configs at the end.
  unfoldable pub compare_configs : ConfigInfo → ConfigInfo → ConfigInfo → ConfigInfo → Error
  compare_configs c1 c2 c3 c4 =
      if not (c1.sampling_rate == c2.sampling_rate)
        || not (c3.sampling_rate == c4.sampling_rate)
        || not (c3.sampling_rate == c1.sampling_rate)
      then file_hdr_read_err
      else if not (c1.number_of_channels == c2.number_of_channels)
          || not (c3.number_of_channels == c4.number_of_channels)
          || not (c3.number_of_channels == c1.number_of_channels)
      then file_hdr_read_err
      else success

  -- The end of the function, with the file behind the fourth header.
  unfoldable pub verdict :
      ℕ → ConfigInfo → ConfigInfo → ConfigInfo → ConfigInfo → State → Error × State
  verdict back c1 c2 c3 c4 s =
      (compare_configs c1 c2 c3 c4, (seek_to_offset f s (neg (back + 4)) seek_cur_pos).1)

  -- The fourth, the third and the second header.
  unfoldable pub fourth : ℕ → ConfigInfo → ConfigInfo → ConfigInfo → Next State → Error × State
  fourth back c1 c2 c3 (give_up e t) = (e, t)
  fourth back c1 c2 c3 (go_on c4 t) = verdict back c1 c2 c3 c4 t

  unfoldable pub third : ℕ → ConfigInfo → ConfigInfo → Next State → Error × State
  third back c1 c2 (give_up e t) = (e, t)
  third back c1 c2 (go_on c3 t) =
      fourth (back + c3.frame_length_in_bytes) c1 c2 c3 (follow back c3.frame_length_in_bytes t)

  unfoldable pub second : ConfigInfo → Next State → Error × State
  second c1 (give_up e t) = (e, t)
  second c1 (go_on c2 t) =
      third (c1.frame_length_in_bytes + c2.frame_length_in_bytes) c1 c2
        (follow c1.frame_length_in_bytes c2.frame_length_in_bytes t)

  -- The seek over the first frame, whose header has been peeked at.
  unfoldable pub behind_first : ConfigInfo → Error × State → Error × State
  behind_first c1 (success, t) = second c1 (read_next c1.frame_length_in_bytes t)
  behind_first c1 (e, t) = (e, t)

  -- IsValidFrameHeader and IsValidFrame on the header word `w`, with the file at the frame.
  unfoldable pub is_valid_frame_header : ℕ → State → Error × State
  is_valid_frame_header w s =
      if not (get_mp3_header w).1
      then (file_hdr_read_err, s)
      else if not (decode_word w).1
      then (file_hdr_read_err, s)
      else behind_first (decode_word w).0
          (seek_to_offset f s (pos (decode_word w).0.frame_length_in_bytes) seek_cur_pos)
