-- ===== src/Mp3/Random.antt =====
-- listener/src/main/jni/pvmi/mp3parser.cpp: ComputeDurationFromNRandomFrames. The loops are over the
-- places and over the frames at each; a search has fuel by the size that it is for. The int32 of the
-- sum is its bits, with the wrap of the machine where it overflows.
use foodie_note.Mp3.File.{
  PvFile, Error, success, error_unknown, insufficient_data, file_hdr_read_err, file_hdr_decode_err,
  seek_set, seek_cur_pos,
}
use foodie_note.Mp3.Frame.{header_word, decode_word}
use foodie_note.Mp3.Header.{ConfigInfo, get_mp3_header}
use foodie_note.Mp3.Sample.{average}
use foodie_note.Mp3.State.{
  Mp3Parser, Exit, went, ended, overrun, running, Call, pure, gets, modify, ◌>>=◌, ◌>>◌, seek,
  read_bytes,
}
use foodie_note.Mp3.Sync.{find_sync}
use foodie_note.Prelude.Int.{pos}
use foodie_note.Prelude.{
  ℕ, zero, suc, ◌+◌, ◌-◌, ◌/◌, ◌%◌, ◌^◌, not, Option, none, some, List, ◌==◌, ltb, if◌then◌else◌,
  ◌⊎◌, inl, inr,
}

-- The result of a call as a value.
unfoldable pub caught : {S A : Type 0} → Exit A × Mp3Parser S → Exit (Error ⊎ A) × Mp3Parser S
caught (went a, p) = (went (inr a), p)
caught (ended e, p) = (went (inl e), p)
caught (overrun, p) = (overrun, p)
caught (running, p) = (running, p)

-- The frame of four bytes, or what stops the loop.
unfoldable pub config_of : Option (List ℕ) → Error ⊎ ConfigInfo
config_of none = inl insufficient_data
config_of (some bs) =
    if not (get_mp3_header (header_word bs)).1
    then inl file_hdr_read_err
    else if not (decode_word (header_word bs)).1
    then inl file_hdr_decode_err
    else inr (decode_word (header_word bs)).0

-- The average bit rate with one frame more, the `count`-th.
unfoldable pub next_average : ℕ → ℕ → ℕ → ℕ
unfolding average
next_average count avg bit_rate = average (if count == 1 then bit_rate else avg) bit_rate count

-- The quotient of an int32 by a positive one, by the bits of both.
unfoldable pub divide_int32 : ℕ → ℕ → ℕ
divide_int32 x d = if ltb x (2 ^ 31) then x / d else (2 ^ 32 - (2 ^ 32 - x) / d) % 2 ^ 32

-- audioDataSize / (aNumRandomLoc + 1), of int32.
unfoldable pub skip_multiple : {S : Type 0} → ℕ → Mp3Parser S → ℕ
unfolding divide_int32
skip_multiple places p =
    divide_int32
      (((if p.local_file_size_set then p.local_file_size else 0)
          + 2 ^ 33
          - p.start_offset
          - (if p.v1_present then 128 else 0))
        % 2 ^ 32)
      (places + 1)

module _ (f : PvFile) where
  open f use {State, tell}

  -- The frames at a place, `k` left and `count` read: the average, and the last result.
  unfoldable pub average_frames : ℕ → ℕ → ℕ → Call State (ℕ × Error)
  unfolding read_bytes seek config_of next_average
  average_frames zero count avg = pure (avg, success)
  average_frames (suc k) count avg =
      let rest = average_frames k (count + 1) in
      read_bytes f 4 >>= λ bs. elim (config_of bs) [
        | inl e ↦ pure (avg, e)
        | inr c ↦
            seek f (pos (c.frame_length_in_bytes - 4)) seek_cur_pos
            >> rest (next_average (count + 1) avg c.bit_rate)
      ]

  -- What a search has found: the average of the frames behind it.
  unfoldable pub average_found : ℕ → ℕ → Error ⊎ ℕ → Call State (Error ⊎ (ℕ × Error))
  unfolding seek average_frames
  average_found frames avg (inl e) = pure (inl e)
  average_found frames avg (inr off) = do
    seek f (pos off) seek_cur_pos
    result ← average_frames frames 0 avg
    pure (inr result)

  -- The search at a place.
  unfoldable pub find_at : ℕ → Call State (Error ⊎ ℕ)
  unfolding caught find_sync
  find_at offset p = caught (find_sync f (suc p.init_search_file_size) offset p)

  unfoldable pub average_at : ℕ → ℕ → ℕ → Call State (Error ⊎ (ℕ × Error))
  unfolding seek find_at average_found
  average_at frames avg offset = do
    seek f (pos offset) seek_set
    found ← find_at offset
    average_found frames avg found

  -- Behind a place: the end of the loop, or the next place with the sum.
  unfoldable pub behind_place :
      ℕ
      → ℕ
      → (ℕ → ℕ → Error → Call State (ℕ × ℕ × Error))
      → Error ⊎ (ℕ × Error)
      → Call State (ℕ × ℕ × Error)
  behind_place count total next (inl e) = pure (count, total, e)
  behind_place count total next (inr (avg, err)) = next ((total + avg) % 2 ^ 32) avg err

  -- The places, `k` left: how many were searched, the sum of the averages, and the last result.
  unfoldable pub average_places : ℕ → ℕ → ℕ → ℕ → ℕ → ℕ → Error → Call State (ℕ × ℕ × Error)
  unfolding average_at behind_place
  average_places zero frames skip count total avg err p = pure (count, total, err) p
  average_places (suc k) frames skip count total avg err p =
      let rest = average_places k frames skip (count + 1) in
      let offset = (tell p.input + skip) % 2 ^ 32 in
      (if ltb p.local_file_size offset
          then pure (count, total, err)
          else average_at frames avg offset >>= behind_place count total rest)
        p

  -- iAvgBitrateInbpsFromRandomScan.
  unfoldable pub note_random : ℕ × ℕ × Error → Call State Error
  unfolding divide_int32
  note_random (count, total, err) = do
    modify (λ p. record p {
      avg_bitrate_from_random_scan = if ltb 0 count then divide_int32 total count else 0;
    })
    avg ← gets (λ p. p.avg_bitrate_from_random_scan)
    pure (if avg == 0 then error_unknown else err)

  -- ComputeDurationFromNRandomFrames.
  unfoldable pub compute_duration_from_n_random_frames : ℕ → ℕ → Call State Error
  unfolding skip_multiple average_places note_random
  compute_duration_from_n_random_frames frames places p =
      (average_places places frames (skip_multiple places p) 0 0 0 success >>= note_random) p
