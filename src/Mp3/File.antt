-- ===== src/Mp3/File.antt =====
-- The open file that the parser reads, PVFile (listener/src/main/jni/pvmi/pvfile.cpp) over the
-- operating system's file, as an interface; on top of it MP3Utils::SeektoOffset (mp3utils.cpp) and
-- MP3FileIO::readByteData (mp3fileio.cpp).
use foodie_note.Prelude.Int.{ℤ, pos_part, neg_part, neg, sub_ℕ}
use foodie_note.Prelude.{
  ℕ, ◌+◌, ◌≤◌, ◌≡◌, ◌||◌, Option, none, some, List, leb, ltb, if◌then◌else◌, length,
}

-- The laws are those of stdio on a file that is open for reading: a seek moves by the offset or
-- fails, a seek backwards inside the file succeeds, a read moves by the bytes that it returns and
-- returns no more than asked.
pub record PvFile : Type 1 where
  pub State : Type 0
  pub tell : State → ℕ
  pub remaining : State → Option ℕ
  pub seek_cur : State → ℤ → Option State
  pub read : State → ℕ → List ℕ × State
  pub buffering_capacity : State → ℕ
  pub content_length : State → ℕ
  pub seek_moves :
      (s : State) (off : ℤ) (t : State)
      → seek_cur s off ≡ some t
      → tell t + neg_part off ≡ tell s + pos_part off
  pub seek_back : (s : State) (k : ℕ) → k ≤ tell s → (t : State) × (seek_cur s (neg k) ≡ some t)
  pub read_moves : (s : State) (n : ℕ) → tell (read s n).1 ≡ tell s + length (read s n).0
  pub read_at_most : (s : State) (n : ℕ) → length (read s n).0 ≤ n

-- MP3ErrorType, the values that the modelled functions return.
pub data Error : Type 0 where
  error_unknown success end_of_file crc_err file_read_err file_hdr_read_err file_hdr_decode_err :
      Error
  error_unknown_object insufficient_data duration_present : Error

-- Oscl_File::seek_type.
pub data SeekType : Type 0 where
  seek_set seek_cur_pos seek_end : SeekType

module _ (f : PvFile) where
  open f use {State, tell, remaining, seek_cur, read}

  -- MP3Utils::getCurrentFileSize, with the 0 that stays where it fails.
  unfoldable pub get_current_file_size : State → ℕ
  get_current_file_size s = elim (remaining s) [ none ↦ 0 | some r ↦ tell s + r ]

  -- The switch of SeektoOffset: the offset from the current position.
  unfoldable pub relative_offset : SeekType → ℤ → State → ℤ
  relative_offset seek_set off s = sub_ℕ (pos_part off) (neg_part off + tell s)
  relative_offset seek_end off s = sub_ℕ (get_current_file_size s) (tell s)
  relative_offset seek_cur_pos off s = off

  -- MP3Utils::SeektoOffset: the result, and the file behind the call.
  unfoldable pub seek_to_offset : State → ℤ → SeekType → Error × State
  unfolding relative_offset
  seek_to_offset s off kind =
      if leb (pos_part off) 0 || leb (pos_part off) (get_current_file_size s)
      then elim (seek_cur s (relative_offset kind off s)) [
        | none ↦ (file_read_err, s)
        | some t ↦ (success, t)
      ]
      else (insufficient_data, s)

  -- MP3FileIO::readByteData: the bytes where all were read; otherwise the file is put back, by a
  -- seek whose result the source ignores.
  unfoldable pub read_byte_data : State → ℕ → Option (List ℕ) × State
  read_byte_data s n =
      let r = read s n in
      if ltb (length r.0) n
      then (none, elim (seek_cur r.1 (neg (length r.0))) [ none ↦ r.1 | some t ↦ t ])
      else (some r.0, r.1)
