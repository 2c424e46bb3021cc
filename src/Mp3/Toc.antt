-- ===== src/Mp3/Toc.antt =====
-- listener/src/main/jni/pvmi/mp3parser.cpp: FillTOCTable, the table of positions for seeking that
-- the scan of a file fills, and GetDurationFromCompleteScan. The table has room for 201 entries; a
-- write beyond it and a subscript outside a table of the format are `overflow`.
use foodie_note.Mp3.File.{Error, success, error_unknown}
use foodie_note.Mp3.Floats.{Floats}
use foodie_note.Mp3.State.{Call, pure, gets, modify, overflow, ◌>>=◌, ◌>>◌}
use foodie_note.Mp3.Tables.{sr_index_table, spf_index_table, at, get_elem?}
use foodie_note.Prelude.{
  ℕ, zero, suc, ◌+◌, ◌-◌, ◌*◌, ◌%◌, ◌^◌, not, ◌&&◌, Option, none, some, List, ◌==◌, ltb, leb,
  if◌then◌else◌, get_or, set, length,
}

abbrev pub max_toc_entry_count : ℕ
max_toc_entry_count = 200

-- A difference of uint32.
abbrev pub minus32 : ℕ → ℕ → ℕ
minus32 a b = (a + 2 ^ 32 - b) % 2 ^ 32

-- The loop of the compaction, with `k` rounds left: every second entry.
unfoldable pub compact : ℕ → ℕ → List ℕ → List ℕ
compact zero i toc = toc
compact (suc k) i toc = compact k (i + 1) (set toc i (get_or toc (2 * i) 0))

module _ {S : Type 0} where
  -- iTOC[iTOCFilledCount] = value, and the count.
  unfoldable pub push_entry : List ℕ → ℕ → Call S (Unit {0})
  push_entry toc value p =
      (if ltb p.toc_filled_count (length toc)
          then modify (λ q. record q {
            toc = some (set toc q.toc_filled_count value);
            toc_filled_count = q.toc_filled_count + 1;
          })
          else overflow)
        p

  -- The entry of a position that is at least the width of a bin behind the last.
  unfoldable pub widen : ℕ → Call S (Unit {0})
  widen ts = modify (λ p.
      if not (p.timestamp_prev == ts) && ltb p.bin_width (minus32 ts p.timestamp_prev)
      then record p { bin_width = minus32 ts p.timestamp_prev }
      else p)

  unfoldable pub push_bin : List ℕ → ℕ → ℕ → Call S Error
  unfolding push_entry widen
  push_bin toc file_pos ts = do
    widen ts
    start ← gets (λ p. p.start_offset)
    push_entry toc (minus32 file_pos start)
    modify (λ p. record p { timestamp_prev = ts })
    pure success

  unfoldable pub compact_bins : List ℕ → Call S Error
  unfolding compact
  compact_bins toc = do
    modify (λ p. record p {
      toc = some (compact 100 0 toc);
      timestamp_prev = minus32 p.timestamp_prev p.bin_width;
      bin_width = 2 * p.bin_width % 2 ^ 32;
      toc_filled_count = 100;
    })
    pure success

module _ (n : Floats) where
  open n use {of_int, mul, div, to_uint32}

  -- (uint32)(iScannedFrameCount * (samplesPerFrame / samplingRateinKHz))
  unfoldable pub complete_duration : ℕ → ℕ → ℕ → ℕ
  complete_duration count samples rate =
      to_uint32 (mul (of_int count) (div (of_int samples) (div (of_int rate) (of_int 1000))))

module _ (n : Floats) {S : Type 0} where
  -- GetDurationFromCompleteScan: aClipDuration.
  unfoldable pub get_duration_from_complete_scan : Call S ℕ
  unfolding complete_duration
  get_duration_from_complete_scan p =
      (if ltb 0 p.clip_duration_computed
          then pure p.clip_duration_computed
          else elim (at spf_index_table p.header_info.frame_ver p.header_info.layer_id) [
            | none ↦ overflow
            | some samples ↦
                elim (get_elem? sr_index_table
                  (p.header_info.frame_ver * 4 + p.header_info.sr_index)) [
                    | none ↦ overflow
                    | some rate ↦ (do
                      let duration = complete_duration n p.scanned_frame_count samples rate
                      modify (λ q. record q { clip_duration_computed = duration })
                      pure duration)
                  ]
          ])
        p

  -- The last entry, behind the end of the scan.
  unfoldable pub push_last : List ℕ → ℕ → Call S Error
  unfolding push_entry get_duration_from_complete_scan
  push_last toc file_pos = do
    push_entry toc file_pos
    previous ← gets (λ p. p.timestamp_prev)
    if previous == 0
        then (do
          duration ← get_duration_from_complete_scan
          modify (λ p. record p { bin_width = duration })
          pure success)
        else pure success

  -- FillTOCTable behind the test for a table.
  unfoldable pub fill : List ℕ → ℕ → ℕ → Call S Error
  unfolding push_last push_bin compact_bins
  fill toc file_pos ts p =
      (if p.duration_scan_complete
          then push_last toc file_pos
          else if ltb p.toc_filled_count max_toc_entry_count
              && leb p.bin_width (minus32 ts p.timestamp_prev)
          then push_bin toc file_pos ts
          else if p.toc_filled_count == max_toc_entry_count
          then compact_bins toc
          else pure success)
        p

  unfoldable pub fill_given : Option (List ℕ) → ℕ → ℕ → Call S Error
  unfolding fill
  fill_given none file_pos ts = pure error_unknown
  fill_given (some toc) file_pos ts = fill toc file_pos ts

  -- FillTOCTable.
  unfoldable pub fill_toc_table : ℕ → ℕ → Call S Error
  unfolding fill_given
  fill_toc_table file_pos ts p = fill_given p.toc file_pos ts p
