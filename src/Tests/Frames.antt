-- ===== src/Tests/Frames.antt =====
-- Runs of the search for a frame, of the CRC check, of the table of contents and of the reading of
-- frames.
use foodie_note.Mp3.Crc.{protected_bits, calc_crc16, verify_crc}
use foodie_note.Mp3.CrcCheck.{Never, Verdict, verify_crc-Ends}
use foodie_note.Mp3.CrcReference.{crc16, calc_crc16_lem}
use foodie_note.Mp3.Ends.{Ends}
use foodie_note.Mp3.Floats.{Floats}
use foodie_note.Mp3.Header.{invalid, zero_header, zero_config, HeaderInfo}
use foodie_note.Mp3.Random.{compute_duration_from_n_random_frames}
use foodie_note.Mp3.RandomBounds.{Averaged, NoEnd, compute_duration_from_n_random_frames-Ends}
use foodie_note.Mp3.Sample.{get_next_media_sample}
use foodie_note.Mp3.SampleRead.{Result, get_next_media_sample-Ends}
use foodie_note.Mp3.Scan.{scan_mp3_file}
use foodie_note.Mp3.ScanBounds.{Scanned, scan_mp3_file-Ends}
use foodie_note.Mp3.ScanTable.{Ended}
use foodie_note.Mp3.State.{Mp3Parser, overrun}
use foodie_note.Mp3.Sync.{find_sync}
use foodie_note.Mp3.SyncBlock.{Failed}
use foodie_note.Mp3.SyncFound.{FoundFrame, find_sync-Ends}
use foodie_note.Mp3.Toc.{fill_toc_table}
use foodie_note.Mp3.TocFollows.{Follows, fill_toc_table-IsToc}
use foodie_note.Mp3.TocKept.{Filled, NoError}
use foodie_note.Mp3.TocOverrun.{put, fill_all, fill_all_overrun}
use foodie_note.Prelude.{
  ℕ, zero, suc, ◌+◌, ◌*◌, ◌/◌, ◌%◌, ◌^◌, ◌≡◌, refl, arith, true, false, none, some, List, [], ◌∷◌,
  ◌++◌, get_or,
}
use foodie_note.Tests.Mp3.{memory_file, memory_contents, frame}

-- Numbers in the place of OsclFloat.
abbrev naturals : Floats
naturals = record {
  F = ℕ;
  of_int = λ x. x;
  add = λ x y. x + y;
  mul = λ x y. x * y;
  div = λ x y. x / y;
  to_uint32 = λ x. x % 2 ^ 32;
  to_uint32-small = λ x. omega arith;
}

-- A parser that has read nothing, at a position of the file.
abbrev parser_at : ℕ → Mp3Parser ℕ
parser_at position = record {
  input = position;
  header_info = zero_header;
  config_info = zero_config;
  mp3_type = invalid;
  xing_flags = 0;
  local_file_size = 0;
  file_size_from_external_source = 0;
  init_search_file_size = 300;
  local_file_size_set = false;
  enable_crc_calc = false;
  v1_present = false;
  tag_size = 0;
  start_offset = 0;
  curr_frame_number = 0;
  number_of_frames = 0;
  avg_bitrate = 0;
  timestamp = 0;
  clip_duration_from_metadata = 0;
  clip_duration_from_vbri_header = 0;
  clip_duration_computed = 0;
  first_scan = true;
  duration_scan_complete = false;
  last_scan_position = 0;
  scanned_frame_count = 0;
  scan_timestamp = 0;
  avg_bitrate_from_complete_scan = 0;
  toc = none;
  toc_filled_count = 0;
  timestamp_prev = 0;
  bin_width = 0;
  avg_bitrate_from_random_scan = 0;
  vbri_entries_toc = 0;
  playing = position;
}

-- Four frames behind two bytes that belong to none.
abbrev four_frames : List ℕ
four_frames = 1 ∷ 2 ∷ (frame ++ frame ++ frame ++ frame)

find_sync-Ends_example :
    Ends
      (FoundFrame (memory_file four_frames) (memory_contents four_frames) 0)
      (Failed)
      (find_sync (memory_file four_frames) 2 0 (parser_at 0))
find_sync-Ends_example =
    find_sync-Ends (memory_file four_frames) (memory_contents four_frames) 0 1 0 (parser_at 0)
      (omega arith) refl

calc_crc16_lem_example :
    calc_crc16 (0xff ∷ 0xfb ∷ 0x90 ∷ 0xc4 ∷ 1 ∷ 2 ∷ 3 ∷ 4 ∷ 5 ∷ []) 72
    ≡ crc16 0xffff (0x90 ∷ 0xc4 ∷ 3 ∷ 4 ∷ 5 ∷ [])
calc_crc16_lem_example = calc_crc16_lem 0xff 0xfb 0x90 0xc4 1 2 (3 ∷ 4 ∷ 5 ∷ [])

-- A header of layer III with a check.
abbrev checked : HeaderInfo
checked = record zero_header { frame_ver = 3; layer_id = 1 }

verify_crc-Ends_example :
    Ends
      (Verdict (memory_file four_frames) (memory_contents four_frames) 2 304)
      (Never (memory_file four_frames) (memory_contents four_frames) 2)
      (verify_crc
        (memory_file four_frames)
        checked
        zero_config
        (record (parser_at 2) { enable_crc_calc = true }))
unfolding protected_bits
verify_crc-Ends_example =
    verify_crc-Ends (memory_file four_frames) (memory_contents four_frames) 2 checked zero_config
      256 (record (parser_at 2) { enable_crc_calc = true }) refl refl refl refl

get_next_media_sample-Ends_example :
    Ends
      (Result (memory_file four_frames) (memory_contents four_frames) 0 0 0)
      (Never (memory_file four_frames) (memory_contents four_frames) 0)
      (get_next_media_sample (memory_file four_frames) naturals 1 2 100 (parser_at 0))
get_next_media_sample-Ends_example =
    get_next_media_sample-Ends (memory_file four_frames) (memory_contents four_frames) naturals 0 1
      100 (parser_at 0) refl (omega arith) (omega arith) (omega arith) (omega arith)

abbrev zeros : ℕ → List ℕ
zeros zero = []
zeros (suc k) = 0 ∷ zeros k

get_or-zeros : (k i : ℕ) → get_or (zeros k) i 0 ≡ 0
get_or-zeros zero i = refl
get_or-zeros (suc k) zero = refl
get_or-zeros (suc k) (suc i) = get_or-zeros k i

-- A parser with a table of which some entries are filled in.
abbrev with_toc : ℕ → Mp3Parser ℕ
with_toc count = record (parser_at 0) { toc = some (zeros 201); toc_filled_count = count }

fill_toc_table-IsToc_example :
    Ends
      (λ e q. Filled naturals e q × Follows naturals (zeros 201) 1000 26 (with_toc 200) e q)
      (NoError naturals)
      (fill_toc_table naturals 1000 26 (with_toc 200))
fill_toc_table-IsToc_example =
    fill_toc_table-IsToc naturals (zeros 201) 1000 26 (with_toc 200) refl
      (refl, omega arith, λ i j low high. omega (arith, get_or-zeros 201 i, get_or-zeros 201 j))
      refl (λ i low. omega (arith, get_or-zeros 201 i))

-- A table with two entries of room, behind the end of the scan.
abbrev almost_full : Mp3Parser ℕ
almost_full = record (with_toc 199) { duration_scan_complete = true; timestamp_prev = 26 }

abbrev three_calls : List (ℕ × ℕ)
three_calls = (1000, 26) ∷ (2000, 52) ∷ (3000, 78) ∷ []

fill_all_overrun_example : fill_all naturals three_calls almost_full ≡ (
  overrun,
  record almost_full { toc = some (put (zeros 201) 199 three_calls); toc_filled_count = 201 },
)
fill_all_overrun_example =
    fill_all_overrun naturals three_calls (zeros 201) almost_full refl (omega arith) (omega arith)
      refl (omega arith)

scan_mp3_file-Ends_example :
    Ends
      (Scanned (memory_file four_frames) (memory_contents four_frames) naturals)
      Ended
      (scan_mp3_file (memory_file four_frames) naturals 3 (with_toc 2))
scan_mp3_file-Ends_example =
    scan_mp3_file-Ends (memory_file four_frames) (memory_contents four_frames) naturals 3
      (zeros 201) (with_toc 2) refl refl (omega arith)
      (record {
        ver_in = omega arith;
        layer_in = omega arith;
        br_in = omega arith;
        sr_in = omega arith;
        pad_in = omega arith;
        mode_in = omega arith;
      })

compute_duration_from_n_random_frames-Ends_example :
    Ends
      (Averaged (memory_file four_frames) (memory_contents four_frames))
      NoEnd
      (compute_duration_from_n_random_frames (memory_file four_frames) 2 3 (parser_at 0))
compute_duration_from_n_random_frames-Ends_example =
    compute_duration_from_n_random_frames-Ends (memory_file four_frames)
      (memory_contents four_frames) 2 3 (parser_at 0) (omega arith)
