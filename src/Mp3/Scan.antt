-- ===== src/Mp3/Scan.antt =====
-- listener/src/main/jni/pvmi/mp3parser.cpp: ScanMP3File, on a file of its own beside the one that
-- is played. The loop is over the frames to scan; each search has fuel by the size that it is for.
use foodie_note.Mp3.File.{
  PvFile, Error, success, error_unknown, insufficient_data, duration_present, file_hdr_read_err,
  file_hdr_decode_err, seek_set, seek_cur_pos, seek_to_offset,
}
use foodie_note.Mp3.Floats.{Floats}
use foodie_note.Mp3.Frame.{header_word, decode_word}
use foodie_note.Mp3.Header.{ConfigInfo, cbr, get_mp3_header}
use foodie_note.Mp3.Sample.{average, or_end}
use foodie_note.Mp3.State.{
  Mp3Parser, Exit, went, ended, Call, pure, end_with, gets, modify, ◌>>=◌, ◌>>◌, seek, read_bytes,
}
use foodie_note.Mp3.Sync.{find_sync}
use foodie_note.Mp3.Toc.{max_toc_entry_count, fill_toc_table}
use foodie_note.Prelude.Int.{ℤ, pos, neg}
use foodie_note.Prelude.{
  ℕ, zero, suc, ◌+◌, ◌-◌, ◌%◌, ◌^◌, min, Bool, true, false, not, ◌&&◌, ◌||◌, Option, none, some,
  List, ◌==◌, ltb, if◌then◌else◌, length, bit_and,
}

-- A duration from the metadata, or from the header of the file with its table.
unfoldable pub is_duration_known : {S : Type 0} → Mp3Parser S → Bool
is_duration_known p =
    not (p.clip_duration_from_metadata == 0)
    || (not (p.clip_duration_from_vbri_header == 0)
        && (ltb p.vbri_entries_toc (2 ^ 31) || not (bit_and p.xing_flags 4 == 0)))

-- What follows an early return: its error is looked at.
unfoldable pub on_end :
    {S A : Type 0} → Exit A × Mp3Parser S → (Error → Call S A) → Exit A × Mp3Parser S
on_end (ended e, p) k = k e p
on_end r k = r

-- Where there is no table, the scan ends.
unfoldable pub unless_unknown : {S : Type 0} → Error → Call S (Unit {0})
unless_unknown error_unknown = end_with duration_present
unless_unknown e = pure tt

module _ (n : Floats) where
  open n use {of_int, mul, div, to_uint32}

  -- (uint32)(FrameLengthInBytes * 8000.00f / BitRate)
  unfoldable pub frame_duration : ConfigInfo → ℕ
  frame_duration c =
      to_uint32 (div (mul (of_int c.frame_length_in_bytes) (of_int 8000)) (of_int c.bit_rate))

  -- The table is filled in.
  unfoldable pub fill_in : {S : Type 0} → ℕ → ℕ → Call S (Unit {0})
  unfolding fill_toc_table unless_unknown
  fill_in file_pos ts = fill_toc_table n file_pos ts >>= unless_unknown

  -- The scan is complete, with an error.
  unfoldable pub stop_scan : {S A : Type 0} → ℕ → Error → Call S A
  unfolding fill_in
  stop_scan offset e = do
    modify (λ p. record p { duration_scan_complete = true })
    ts ← gets (λ p. p.scan_timestamp)
    fill_in offset ts
    end_with e

-- The members behind a frame that is scanned.
unfoldable pub note_frame : {S : Type 0} → ℕ → ConfigInfo → Call S (Unit {0})
unfolding average
note_frame position c = modify (λ p.
    let count = p.scanned_frame_count + 1 in
    record p {
      last_scan_position = position;
      scanned_frame_count = count;
      avg_bitrate_from_complete_scan =
          if ltb 1 count
          then average p.avg_bitrate_from_complete_scan c.bit_rate count
          else c.bit_rate;
      mp3_type = if ltb 1 count then p.mp3_type else cbr;
    })

module _ (f : PvFile) where
  open f use {State, tell, read, buffering_capacity}

  -- fpUsed->Read, and the bytes that it returns.
  unfoldable pub read_raw : ℕ → Call State (List ℕ)
  read_raw k p = (went (read p.input k).0, record p { input = (read p.input k).1 })

  -- A seek in the file that is played.
  unfoldable pub seek_playing : ℤ → Call State (Unit {0})
  seek_playing off =
      modify (λ p. record p { playing = (seek_to_offset f p.playing off seek_cur_pos).1 })

  -- StartOffset in the first scan, or where the last one ended.
  unfoldable pub begin_scan : Call State ℕ
  unfolding seek or_end
  begin_scan p =
      (if p.first_scan
          then (if ltb 0 p.tag_size
              then seek f (pos p.start_offset) seek_set >>= or_end
              else pure tt)
            >> modify (λ q. record q { first_scan = false })
            >> pure (if ltb 0 p.tag_size then p.start_offset else 0)
          else pure p.last_scan_position)
        p

  module _ (n : Floats) where
    -- No header could be read.
    unfoldable pub read_failed : {A : Type 0} → ℕ → Call State A
    unfolding fill_in
    read_failed audio_offset = do
      modify (λ p. record p {
        duration_scan_complete = (buffering_capacity p.input == 0) || p.duration_scan_complete;
      })
      fill_in n audio_offset 0
      end_with insufficient_data

    -- mp3FindSync, with fuel by the size that it searches.
    unfoldable pub find_or_stop : ℕ → Call State ℕ
    unfolding find_sync on_end stop_scan
    find_or_stop offset p =
        on_end (find_sync f (suc p.init_search_file_size) offset p) (stop_scan n offset)

    unfoldable pub check_found : ℕ → Option (List ℕ) → Call State (ℕ × List ℕ)
    unfolding stop_scan
    check_found offset none = stop_scan n offset insufficient_data
    check_found offset (some bs) =
        if (get_mp3_header (header_word bs)).1
        then pure (offset, bs)
        else stop_scan n offset file_hdr_read_err

    -- The search for a header, behind four bytes that are none. The seek back is one in the other
    -- file.
    unfoldable pub scan_sync : ℕ → Call State (ℕ × List ℕ)
    unfolding seek_playing find_or_stop seek or_end read_bytes check_found
    scan_sync offset = do
      seek_playing (neg 4)
      off ← find_or_stop offset
      sought ← seek f (pos off) seek_cur_pos
      or_end sought
      read_bytes f 4 >>= check_found (offset + off)

    unfoldable pub check_header : ℕ → List ℕ → Call State (ℕ × List ℕ)
    unfolding read_failed scan_sync
    check_header audio_offset bs p =
        (if not (length bs == 4)
            then read_failed audio_offset
            else if (get_mp3_header (header_word bs)).1
            then pure (tell p.input, bs)
            else scan_sync (tell p.input))
          p

    -- One frame, and its duration.
    unfoldable pub scan_frame : ℕ → Call State ℕ
    unfolding read_raw check_header stop_scan seek note_frame frame_duration
    scan_frame audio_offset = do
      bs ← read_raw 4
      (offset, header) ← check_header audio_offset bs
      if not (decode_word (header_word header)).1
          then stop_scan n offset file_hdr_decode_err
          else (do
            let c = (decode_word (header_word header)).0
            seek f (pos (c.frame_length_in_bytes - 4)) seek_cur_pos
            position ← gets (λ p. tell p.input)
            note_frame position c
            pure (frame_duration n c))

    -- The frames, and the sum of their durations.
    unfoldable pub scan_frames : ℕ → ℕ → ℕ → Call State ℕ
    unfolding scan_frame
    scan_frames audio_offset zero frame_dur = pure frame_dur
    scan_frames audio_offset (suc k) frame_dur = do
      duration ← scan_frame audio_offset
      scan_frames audio_offset k ((frame_dur + duration) % 2 ^ 32)

    unfoldable pub scan_from : ℕ → ℕ → Call State Error
    unfolding scan_frames fill_in
    scan_from frames audio_offset = do
      modify
          (λ p. record p { init_search_file_size = min p.init_search_file_size p.local_file_size })
      frame_dur ← scan_frames audio_offset frames 0
      ts ← gets (λ p. p.scan_timestamp)
      fill_in n audio_offset ts
      modify (λ p. record p { scan_timestamp = (p.scan_timestamp + frame_dur) % 2 ^ 32 })
      pure success

    -- ScanMP3File.
    unfoldable pub scan_mp3_file : ℕ → Call State Error
    unfolding is_duration_known fill_in begin_scan scan_from
    scan_mp3_file frames_to_scan p =
        (if is_duration_known p
            then end_with duration_present
            else if p.toc_filled_count == max_toc_entry_count
            then fill_in n 0 0 >> pure success
            else begin_scan >>= scan_from frames_to_scan)
          p
