-- ===== src/Mp3/Sample.antt =====
-- listener/src/main/jni/pvmi/mp3parser.cpp: GetNextMediaSample, with the averaging of
-- DecodeMP3Header. The jump back to BEGIN takes fuel. The buffer is given by its size; what it holds
-- behind a read that fails is left out.
use foodie_note.Mp3.Crc.{verify_crc}
use foodie_note.Mp3.File.{
  PvFile, Error, success, insufficient_data, end_of_file, file_read_err, file_hdr_read_err,
  file_hdr_decode_err, crc_err, seek_cur_pos, get_current_file_size,
}
use foodie_note.Mp3.Floats.{Floats}
use foodie_note.Mp3.Frame.{header_word, decode_word}
use foodie_note.Mp3.Header.{ConfigInfo, FileType, xing, vbr, get_mp3_header}
use foodie_note.Mp3.State.{
  Mp3Parser, Exit, went, ended, Call, pure, end_with, overflow, run_on, gets, modify, ◌>>=◌, ◌>>◌,
  seek, read_bytes,
}
use foodie_note.Mp3.Sync.{find_sync}
use foodie_note.Prelude.Int.{pos, neg}
use foodie_note.Prelude.{
  ℕ, zero, suc, ◌+◌, ◌-◌, ◌/◌, ◌%◌, ◌^◌, max, Bool, true, false, not, ◌&&◌, Option, none, some,
  List, [], ◌++◌, ◌==◌, ltb, leb, if◌then◌else◌, length, bit_and,
}

-- The result with framesize, timestamp and the bytes in the buffer.
pub record Sample : Type 0 where
  pub error : Error
  pub framesize : ℕ
  pub sample_timestamp : ℕ
  pub frame_bytes : List ℕ

abbrev pub no_sample : Error → Sample
no_sample e = record { error = e; framesize = 0; sample_timestamp = 0; frame_bytes = [] }

-- Whether DecodeMP3Header averages for a type of file.
unfoldable pub is_averaged : FileType → ℕ → Bool
is_averaged xing flags = bit_and flags 4 == 0 && bit_and flags 1 == 0
is_averaged vbr flags = true
is_averaged _ flags = false

-- The average moves by the difference over the number of frames.
unfoldable pub average : ℕ → ℕ → ℕ → ℕ
average avg bit_rate count =
    if leb avg bit_rate then avg + (bit_rate - avg) / count else avg - (avg - bit_rate) / count

module _ {S : Type 0} where
  -- audioDataSize over the length of the frame.
  unfoldable pub frames_by : ConfigInfo → Mp3Parser S → ℕ
  frames_by c p =
      let file_size = max p.file_size_from_external_source p.local_file_size in
      let audio =
        (file_size + 2 ^ 33 - p.start_offset - (if p.v1_present then 128 else 0)) % 2 ^ 32 in
      audio / c.frame_length_in_bytes

  unfoldable pub average_by : ConfigInfo → Mp3Parser S → ℕ
  unfolding average
  average_by c p =
      if p.curr_frame_number == 1
      then c.bit_rate
      else if ltb 1 p.curr_frame_number
      then average p.avg_bitrate c.bit_rate p.curr_frame_number
      else p.avg_bitrate

  -- The number of frames and the average bit rate by a frame, from the end of DecodeMP3Header.
  unfoldable pub note_average : ConfigInfo → Call S (Unit {0})
  unfolding is_averaged frames_by average_by
  note_average c = modify (λ p.
      let averaged = is_averaged p.mp3_type p.xing_flags in
      record p {
        number_of_frames = if averaged then frames_by c p else p.number_of_frames;
        avg_bitrate = if averaged then average_by c p else p.avg_bitrate;
      })

-- A result that is an early return, unless it is a success.
unfoldable pub or_end : {S : Type 0} → Error → Call S (Unit {0})
or_end success = pure tt
or_end e = end_with e

-- The frame is not counted after all.
unfoldable pub drop_frame : {S A : Type 0} → Error → Call S A
drop_frame e = modify (λ p. record p { curr_frame_number = p.curr_frame_number - 1 }) >> end_with e

unfoldable pub or_drop : {S : Type 0} → Error → Call S (Unit {0})
unfolding drop_frame
or_drop success = pure tt
or_drop e = drop_frame e

module _ (n : Floats) where
  open n use {of_int, add, mul, div, to_uint32}

  -- uint32(timestamp + FrameLengthInBytes * 8000.00f / BitRate)
  unfoldable pub next_timestamp : ℕ → ConfigInfo → ℕ
  next_timestamp ts c = to_uint32 (
      add (of_int ts)
        (div (mul (of_int c.frame_length_in_bytes) (of_int 8000)) (of_int c.bit_rate)))

  -- The timestamp of the sample, and that of the next.
  unfoldable pub take_timestamp : {S : Type 0} → ConfigInfo → Call S ℕ
  unfolding next_timestamp
  take_timestamp c = do
    ts ← gets (λ p. p.timestamp)
    modify (λ p. record p {
      timestamp = if ltb 0 c.bit_rate then next_timestamp p.timestamp c else p.timestamp;
    })
    pure ts

module _ (f : PvFile) where
  open f use {State, tell, read, content_length}

  -- A position against a known length of the content.
  unfoldable pub is_at_end : ℕ → Mp3Parser State → Bool
  is_at_end position p =
      not (content_length p.input == 0) && leb (content_length p.input) (position % 2 ^ 32)

  -- readByteData of `n` bytes into what is left of the buffer.
  unfoldable pub read_into : ℕ → ℕ → Call State (Option (List ℕ))
  unfolding read_bytes
  read_into room n p = (if ltb room (length (read p.input n).0) then overflow else read_bytes f n) p

  unfoldable pub or_insufficient : Option (List ℕ) → Call State (List ℕ)
  or_insufficient none = end_with insufficient_data
  or_insufficient (some bs) = pure bs

  -- The four bytes of a header at the position `here`.
  unfoldable pub read_header : ℕ → ℕ → Call State (List ℕ)
  unfolding is_at_end read_into or_insufficient
  read_header size here p =
      (if is_at_end (here + 4) p
          then end_with end_of_file
          else read_into size 4 >>= or_insufficient)
        p

  -- The search for a header where there is none at `here`: where there is one, and the header.
  unfoldable pub recover : ℕ → ℕ → ℕ → Call State (ℕ × List ℕ)
  unfolding seek find_sync or_end read_header
  recover m size here = do
    seek f (neg 4) seek_cur_pos
    off ← find_sync f m here
    sought ← seek f (pos off) seek_cur_pos
    or_end sought
    bs ← read_header size (here + off)
    if (get_mp3_header (header_word bs)).1
        then pure (here + off, bs)
        else end_with file_hdr_read_err

  unfoldable pub accept_or_recover : ℕ → ℕ → ℕ → List ℕ → Call State (ℕ × List ℕ)
  unfolding recover
  accept_or_recover m size here bs =
      if (get_mp3_header (header_word bs)).1 then pure (here, bs) else recover m size here

  -- The header of the next frame, with the file behind it.
  unfoldable pub find_header : ℕ → ℕ → Call State (ℕ × List ℕ)
  unfolding read_header accept_or_recover
  find_header m size p =
      let here = tell p.input in (read_header size here >>= accept_or_recover m size here) p

  -- Behind a wrong CRC of the frame at `here`: the search for another frame, and the jump back to
  -- BEGIN. Where the seek over the header fails, the result of the seek before it is returned, a
  -- success.
  unfoldable pub resync : ℕ → ℕ → Call State Bool
  unfolding seek find_sync or_end
  resync m here = do
    modify (λ p. record p { curr_frame_number = p.curr_frame_number - 1 })
    over ← seek f (pos 4) seek_cur_pos
    elim over [
      | success ↦ (do
        seek f (neg 4) seek_cur_pos
        off ← find_sync f m (here + 4)
        sought ← seek f (pos off) seek_cur_pos
        or_end sought
        pure false)
      | e ↦ end_with success
    ]

  unfoldable pub behind_crc : ℕ → ℕ → Error → Call State Bool
  unfolding resync drop_frame or_drop seek
  behind_crc m here crc_err = resync m here
  behind_crc m here insufficient_data = drop_frame insufficient_data
  behind_crc m here _ = do sought ← seek f (pos 4) seek_cur_pos; or_drop sought; pure true

  -- The frame is counted and its CRC checked: whether to go on with it.
  unfoldable pub enter_frame : ℕ → ℕ → ℕ → Call State Bool
  unfolding note_average drop_frame or_drop seek verify_crc behind_crc
  enter_frame m here w = do
    modify (λ p. record p { curr_frame_number = p.curr_frame_number + 1 })
    if not (decode_word w).1 then drop_frame file_hdr_decode_err else (do
      note_average (decode_word w).0
      sought ← seek f (neg 4) seek_cur_pos
      or_drop sought
      verdict ← verify_crc f (get_mp3_header w).0 (decode_word w).0
      behind_crc m here verdict)

  -- A frame that the file does not hold in full.
  unfoldable pub at_file_end : Floats → ConfigInfo → Call State Sample
  unfolding take_timestamp is_at_end seek
  at_file_end n c = do
    modify (λ p. record p { curr_frame_number = p.curr_frame_number - 1 })
    ts ← take_timestamp n c
    at_end ← gets (λ p. is_at_end (tell p.input + (c.frame_length_in_bytes - 4)) p)
    if at_end then pure (record (no_sample end_of_file) { sample_timestamp = ts }) else (do
      sought ← seek f (neg 4) seek_cur_pos
      pure (elim sought [
        | success ↦ record (no_sample insufficient_data) { sample_timestamp = ts }
        | e ↦ record (no_sample e) { sample_timestamp = ts }
      ]))

  -- The rest of the frame, behind the header.
  unfoldable pub read_body : ℕ → ConfigInfo → List ℕ → ℕ → Call State Sample
  unfolding read_into
  read_body size c header ts = do
    body ← read_into (size - 4) (c.frame_length_in_bytes - 4)
    elim body [
      | some bs ↦ pure (record {
        error = success;
        framesize = c.frame_length_in_bytes;
        sample_timestamp = ts;
        frame_bytes = header ++ bs;
      })
      | none ↦ (do
        local ← gets (λ p. p.local_file_size)
        if local == 0
            then (do
              modify (λ p. record p { curr_frame_number = p.curr_frame_number - 1 })
              pure (record {
                error = insufficient_data;
                framesize = c.frame_length_in_bytes;
                sample_timestamp = ts;
                frame_bytes = header;
              }))
            else pure (record {
              error = success;
              framesize = c.frame_length_in_bytes;
              sample_timestamp = ts;
              frame_bytes = header;
            }))
    ]

  -- The frame with the header that the file stands behind.
  unfoldable pub deliver : Floats → ℕ → ConfigInfo → List ℕ → Call State Sample
  unfolding at_file_end take_timestamp is_at_end read_body
  deliver n size c header p =
      let file_size = get_current_file_size f p.input in
      let behind_it = (tell p.input + (c.frame_length_in_bytes - 4)) % 2 ^ 32 in
      (if not (file_size == 0) && ltb file_size behind_it
          then at_file_end n c
          else if ltb size c.frame_length_in_bytes
          then modify (λ q. record q { curr_frame_number = q.curr_frame_number - 1 })
            >> pure (record (no_sample file_read_err) { framesize = c.frame_length_in_bytes })
          else (do
            ts ← take_timestamp n c
            at_end ← gets (is_at_end behind_it)
            if at_end
                then pure (record {
                  error = end_of_file;
                  framesize = c.frame_length_in_bytes;
                  sample_timestamp = ts;
                  frame_bytes = header;
                })
                else read_body size c header ts))
        p

  -- The function from BEGIN on, with fuel for the jumps and for the searches.
  unfoldable pub from_begin : Floats → ℕ → ℕ → ℕ → Call State Sample
  unfolding find_header enter_frame deliver
  from_begin n zero m size = run_on
  from_begin n (suc k) m size =
      let again = from_begin n k m size in
      do
        (here, header) ← find_header m size
        goes_on ← enter_frame m here (header_word header)
        if goes_on then deliver n size (decode_word (header_word header)).0 header else again

  -- An early return sets no size and no timestamp.
  unfoldable pub returned : Exit Sample × Mp3Parser State → Exit Sample × Mp3Parser State
  returned (ended e, p) = (went (no_sample e), p)
  returned r = r

  -- GetNextMediaSample.
  unfoldable pub get_next_media_sample : Floats → ℕ → ℕ → ℕ → Call State Sample
  unfolding from_begin returned
  get_next_media_sample n k m size p = returned (from_begin n k m size p)
