-- ===== src/Tests/Mp3.antt =====
-- Runs of the MP3 parser.
use foodie_note.Mp3.Ends.{Contents}
use foodie_note.Mp3.File.{PvFile}
use foodie_note.Mp3.Frame.{is_valid_frame_header}
use foodie_note.Mp3.FrameLength.{
  IsInTables, decode_mp3_header_bounds, get_maximum_decode_buffer_size_fits,
}
use foodie_note.Mp3.FrameRestore.{is_valid_frame_header_restores}
use foodie_note.Mp3.Header.{
  HeaderInfo, ConfigInfo, zero_header, get_mp3_header, decode_mp3_header, bit_rate_of,
  sampling_rate_of, frame_sizes, channels_of, get_maximum_decode_buffer_size,
}
use foodie_note.Mp3.Tables.{at, br_index_table_v1, sr_index_table}
use foodie_note.Mp3.Vbr.{
  XingHeader, cell, swap_int32, swap_int16, decode_xing_header, decode_vbri_header,
  calculate_buffer_size_for_header,
}
use foodie_note.Mp3.VbrBounds.{IsOk, decode_xing_header-IsOk, decode_vbri_header-IsOk}
use foodie_note.Prelude.Int.{ℤ, pos_part, neg_part, neg, neg_parts}
use foodie_note.Prelude.Results.{ok}
use foodie_note.Prelude.{
  inl, ℕ, zero, suc, ◌+◌, ◌-◌, ◌≤◌, ◌≡◌, ◌⊎◌, refl, ap, arith, Bool, true, false, Option, none,
  some, List, [], ◌∷◌, ◌++◌, take, drop, length, length-take, leb, if◌then◌else◌,
}

-- A file in memory: its state is the position.
module _ (bytes : List ℕ) where
  abbrev pub seek_in : ℕ → ℤ → Option ℕ
  seek_in p off =
      if leb (neg_part off) (p + pos_part off) then some (p + pos_part off - neg_part off) else none

  abbrev pub read_in : ℕ → ℕ → List ℕ × ℕ
  read_in p n = (take n (drop p bytes), p + length (take n (drop p bytes)))

  pub seek_in_moves :
      (p : ℕ) (off : ℤ) (t : ℕ) → seek_in p off ≡ some t → t + neg_part off ≡ p + pos_part off
  seek_in_moves p off t e = ground arith

  pub seek_in_back : (p k : ℕ) → k ≤ p → (t : ℕ) × (seek_in p (neg k) ≡ some t)
  seek_in_back p k h = (p + pos_part (neg k) - neg_part (neg k), ground (arith, neg_parts k))

  pub seek_in_inside :
      (p : ℕ) (off : ℤ) → neg_part off ≤ p + pos_part off → (t : ℕ) × (seek_in p off ≡ some t)
  seek_in_inside p off low = (p + pos_part off - neg_part off, ground arith)

  abbrev pub memory_file : PvFile
  memory_file = record {
    State = ℕ;
    tell = λ p. p;
    remaining = λ p. some (length bytes - p);
    seek_cur = seek_in;
    read = read_in;
    buffering_capacity = λ p. 0;
    content_length = λ p. 0;
    seek_moves = seek_in_moves;
    seek_back = seek_in_back;
    read_moves = λ p n. refl;
    read_at_most = λ p n. omega (arith, length-take n (drop p bytes));
  }

-- What the file in memory holds.
abbrev pub memory_contents : (bytes : List ℕ) → Contents (memory_file bytes)
memory_contents bytes = record {
  bytes = bytes;
  remaining_bytes = λ p h. refl;
  bytes_read = λ p n. refl;
  seek_inside = λ p off low high. seek_in_inside bytes p off low;
}

-- A frame of MPEG-2 with 8 kbit/s at 24 kHz: 24 bytes.
abbrev pub frame : List ℕ
frame =
    0xff ∷ 0xf3 ∷ 0x14 ∷ 0xc4 ∷ 0 ∷ 0 ∷ 0 ∷ 0 ∷ 0 ∷ 0 ∷ 0 ∷ 0 ∷ 0 ∷ 0 ∷ 0 ∷ 0 ∷ 0 ∷ 0 ∷ 0 ∷ 0 ∷ 0
    ∷ 0 ∷ 0 ∷ 0 ∷ []

is_valid_frame_header_restores_example :
    (is_valid_frame_header (memory_file (frame ++ frame ++ frame ++ frame)) 0xfff314c4 0).1 ≡ 0
is_valid_frame_header_restores_example =
    is_valid_frame_header_restores (memory_file (frame ++ frame ++ frame ++ frame)) 0xfff314c4 0

-- A header of 320 kbit/s at 32 kHz, with padding.
abbrev largest : HeaderInfo
largest = record zero_header {
  frame_ver = 3;
  layer_id = 1;
  br_index = 14;
  sr_index = 2;
  pad_bit = 1;
}

largest-IsInTables : IsInTables largest
largest-IsInTables = record {
  ver_in = omega arith;
  layer_in = omega arith;
  br_in = omega arith;
  sr_in = omega arith;
  pad_in = omega arith;
  mode_in = omega arith;
}

abbrev largest_frame : ConfigInfo
largest_frame = record {
  sampling_rate = 32000;
  bit_rate = 320000;
  frame_length_in_bytes = 1441;
  frame_size_uncomp = 1152;
  number_of_channels = 2;
}

largest-decoded : decode_mp3_header largest ≡ some (largest_frame, true)
unfolding decode_mp3_header bit_rate_of sampling_rate_of frame_sizes channels_of at
    br_index_table_v1 sr_index_table
largest-decoded = refl

decode_mp3_header_bounds_example :
    (r : ConfigInfo × Bool) × (decode_mp3_header largest ≡ some r)
    × ((r.1 ≡ false) ⊎ ((24 ≤ r.0.frame_length_in_bytes) × (r.0.frame_length_in_bytes ≤ 1441)))
decode_mp3_header_bounds_example = decode_mp3_header_bounds largest largest-IsInTables refl

get_maximum_decode_buffer_size_fits_example :
    (size : ℕ) × (get_maximum_decode_buffer_size largest ≡ some size) × (1441 ≤ size + 1)
get_maximum_decode_buffer_size_fits_example =
    get_maximum_decode_buffer_size_fits largest largest_frame largest-IsInTables refl
      largest-decoded

accepted : (get_mp3_header 0xfff314c4).1 ≡ true
unfolding get_mp3_header
accepted = refl

ones : ℕ → List ℕ
ones zero = []
ones (suc n) = 1 ∷ ones n

abbrev no_header : XingHeader
no_header = record { h_id = 0; flags = 0; frames = 0; bytes = 0; vbr_scale = 0; toc = [] }

-- "Xing", FRAMES and BYTES, `n` frames, 1000 bytes.
abbrev xing_bytes : ℕ → List ℕ
xing_bytes n =
    0x58 ∷ 0x69 ∷ 0x6e ∷ 0x67 ∷ 0 ∷ 0 ∷ 0 ∷ 3 ∷ 0 ∷ 0 ∷ 0 ∷ n ∷ 0 ∷ 0 ∷ 3 ∷ 0xe8 ∷ ones 104

xing_length : 120 ≤ length (xing_bytes 10)
unfolding ones
xing_length = omega arith

xing_frames : (n : ℕ) → swap_int32 (xing_bytes n) 8 ≡ ok n
unfolding swap_int32 cell
xing_frames n = ap ok (omega arith)

xing_size : swap_int32 (xing_bytes 10) 12 ≡ ok 1000
unfolding swap_int32 cell
xing_size = refl

decode_xing_header-IsOk_example : IsOk (decode_xing_header (xing_bytes 10) no_header largest 1000 0)
decode_xing_header-IsOk_example =
    decode_xing_header-IsOk (xing_bytes 10) no_header largest 1000 0 10 1000 xing_length
      (xing_frames 10) xing_size (omega arith) (inl (omega arith))

-- "VBRI" with one entry of `n` bytes, and one more.
abbrev vbri_bytes : ℕ → List ℕ
vbri_bytes n =
    0x56
    ∷ 0x42
    ∷ 0x52
    ∷ 0x49
    ∷ 0
    ∷ 1
    ∷ 0
    ∷ 0
    ∷ 0
    ∷ 0
    ∷ 0
    ∷ 0
    ∷ 3
    ∷ 0xe8
    ∷ 0
    ∷ 0
    ∷ 0
    ∷ 10
    ∷ 0
    ∷ 1
    ∷ 0
    ∷ 1
    ∷ 0
    ∷ n
    ∷ 0
    ∷ 1
    ∷ ones 6

vbri_size : (n : ℕ) → swap_int16 (vbri_bytes n) 22 ≡ ok n
unfolding swap_int16 cell
vbri_size n = ap ok (omega arith)

vbri_counted : calculate_buffer_size_for_header (vbri_bytes 2) ≡ ok 28
unfolding calculate_buffer_size_for_header swap_int16 cell
vbri_counted = refl

vbri_rate : sampling_rate_of largest ≡ some 32000
unfolding sampling_rate_of sr_index_table
vbri_rate = refl

vbri_length : (n : ℕ) → length (vbri_bytes n) ≡ 32
unfolding ones
vbri_length n = omega arith

decode_vbri_header-IsOk_example : IsOk (decode_vbri_header (vbri_bytes 2) largest)
decode_vbri_header-IsOk_example =
    decode_vbri_header-IsOk (vbri_bytes 2) largest 28 2 32000 (omega (arith, vbri_length 2))
      vbri_counted (omega (arith, vbri_length 2)) (vbri_size 2) (omega arith) vbri_rate
