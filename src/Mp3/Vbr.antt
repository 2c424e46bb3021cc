-- ===== src/Mp3/Vbr.antt =====
-- listener/src/main/jni/pvmi/mp3parser.cpp: the byte order helpers, ReadBuffer, DecodeVBRIHeader,
-- DecodeXINGHeader and CalculateBufferSizeForHeader. A buffer is the list of its cells, a pointer
-- into it an offset, an int32 its bit pattern on a host with little-endian byte order.
use foodie_note.Mp3.Header.{HeaderInfo, sampling_rate_of}
use foodie_note.Prelude.Results.{
  Result, ok, fault, out_of_bounds, division_by_zero, undefined_shift, signed_overflow, ◌>>=◌,
}
use foodie_note.Prelude.{
  ℕ, zero, suc, ◌+◌, ◌-◌, ◌*◌, ◌/◌, ◌%◌, ◌^◌, Bool, not, ◌&&◌, ◌||◌, none, some, List, [], ◌∷◌,
  bit_or, ltb, leb, ◌==◌, if◌then◌else◌, field,
}

-- buf[i]
unfoldable pub cell : List ℕ → ℕ → Result ℕ
cell [] i = fault out_of_bounds
cell (x ∷ xs) zero = ok x
cell (x ∷ xs) (suc i) = cell xs i

-- SwapFileToHostByteOrderInt32: the bytes are stored from the highest address down.
unfoldable pub swap_int32 : List ℕ → ℕ → Result ℕ
swap_int32 buf p = do
  b3 ← cell buf p
  b2 ← cell buf (p + 1)
  b1 ← cell buf (p + 2)
  b0 ← cell buf (p + 3)
  ok (b0 + 2 ^ 8 * b1 + 2 ^ 16 * b2 + 2 ^ 24 * b3)

-- SwapFileToHostByteOrderInt16.
unfoldable pub swap_int16 : List ℕ → ℕ → Result ℕ
swap_int16 buf p = do b1 ← cell buf p; b0 ← cell buf (p + 1); ok (b0 + 2 ^ 8 * b1)

-- The loop of ReadBuffer: `k` bytes are left, so that b is k - 1. A shift by 32 or more is not
-- defined.
unfoldable pub read_loop : List ℕ → ℕ → ℕ → ℕ → Result ℕ
read_loop buf pos zero number = ok number
read_loop buf pos (suc b) number = do
  byte ← cell buf pos
  let rest = read_loop buf (pos + 1) b (bit_or number (byte * 2 ^ (8 * b)))
  if leb 32 (8 * b) then fault undefined_shift else rest

-- ReadBuffer on a pointer that is not NULL; the new position is `pos + length`.
unfoldable pub read_buffer : List ℕ → ℕ → ℕ → Result ℕ
read_buffer buf count pos = read_loop buf pos count 0

-- XINGHeaderType.
pub record XingHeader : Type 0 where
  pub h_id : ℕ
  pub flags : ℕ
  pub frames : ℕ
  pub bytes : ℕ
  pub vbr_scale : ℕ
  pub toc : List ℕ

-- VBRIHeaderType.
pub record VbriHeader : Type 0 where
  pub h_id : ℕ
  pub bytes : ℕ
  pub frames : ℕ
  pub entries_toc : ℕ
  pub scale : ℕ
  pub s_table_entry : ℕ
  pub f_table_entry : ℕ
  pub toc : List ℕ
  pub sample_rate : ℕ

-- flags & (1 << k)
abbrev pub has_flag : ℕ → ℕ → Bool
has_flag flags k = field flags k 1 == 1

abbrev pub frames_flag : ℕ
frames_flag = 0

abbrev pub bytes_flag : ℕ
bytes_flag = 1

abbrev pub toc_flag : ℕ
toc_flag = 2

abbrev pub vbr_scale_flag : ℕ
vbr_scale_flag = 3

-- An int32 below 0, and its absolute value.
abbrev pub is_negative : ℕ → Bool
is_negative x = leb (2 ^ 31) x

abbrev pub magnitude : ℕ → ℕ
magnitude x = if is_negative x then 2 ^ 32 - x else x

-- The quotient of two int32, a value of its own but for the least by -1, lies between 52 and 1440.
unfoldable pub is_frame_size : ℕ → ℕ → Bool
is_frame_size bytes frames =
    not (is_negative bytes && not (is_negative frames))
    && not (is_negative frames && not (is_negative bytes))
    && leb 52 (magnitude bytes / magnitude frames)
    && leb (magnitude bytes / magnitude frames) 1440

-- The checks of DecodeXINGHeader behind the BYTES flag: the flags that are left. For integers below
-- 2 ^ 32 the test `bytes < size * 0.90` in doubles is 10 * bytes < 9 * size.
unfoldable pub check_bytes : ℕ → ℕ → ℕ → ℕ → Result ℕ
check_bytes flags frames bytes local_file_size = do
  kept ←
      if has_flag flags frames_flag
      then (if frames == 0
          then fault division_by_zero
          else if bytes == 2 ^ 31 && frames == 0xffffffff
          then fault signed_overflow
          else ok (if is_frame_size bytes frames then flags else 0))
      else ok flags
  ok (
      if not (local_file_size == 0)
        && (ltb local_file_size bytes
            || is_negative bytes
            || ltb (10 * bytes) (9 * local_file_size))
      then 0
      else kept)

-- `count` cells from `p` on.
unfoldable pub read_cells : List ℕ → ℕ → ℕ → Result (List ℕ)
read_cells buf p zero = ok []
read_cells buf p (suc n) = do x ← cell buf p; xs ← read_cells buf (p + 1) n; ok (x ∷ xs)

-- DecodeXINGHeader: the header with the member iNumberOfFrames behind the call. The result of the
-- source is always true.
unfoldable pub decode_xing_header :
    List ℕ → XingHeader → HeaderInfo → ℕ → ℕ → Result (XingHeader × ℕ)
decode_xing_header buf hd info local_file_size number_of_frames = do
  flags ← swap_int32 buf 4
  frames ← if has_flag flags frames_flag then swap_int32 buf 8 else ok hd.frames
  let p = if has_flag flags frames_flag then 12 else 8
  bytes ← if has_flag flags bytes_flag then swap_int32 buf p else ok hd.bytes
  let q = if has_flag flags bytes_flag then p + 4 else p
  kept ←
      if has_flag flags bytes_flag then check_bytes flags frames bytes local_file_size else ok flags
  toc ← if has_flag kept toc_flag then read_cells buf q 100 else ok hd.toc
  let r = if has_flag kept toc_flag then q + 100 else q
  scale ← if has_flag kept vbr_scale_flag then swap_int32 buf r else ok 0
  ok (
    record {
      h_id = info.layer_id;
      flags = kept;
      frames = frames;
      bytes = bytes;
      vbr_scale = scale;
      toc = toc;
    },
    if has_flag kept frames_flag then frames else number_of_frames,
  )

-- The loop of DecodeVBRIHeader over `n` entries of `size` bytes from `pos` on, each times the scale.
unfoldable pub toc_loop : List ℕ → ℕ → ℕ → ℕ → ℕ → Result (List ℕ)
toc_loop buf size scale zero pos = ok []
toc_loop buf size scale (suc n) pos = do
  x ← read_buffer buf size pos
  xs ← toc_loop buf size scale n (pos + size)
  ok (x * scale % 2 ^ 32 ∷ xs)

-- DecodeVBRIHeader: the header, whose `frames` is also stored in iNumberOfFrames.
unfoldable pub decode_vbri_header : List ℕ → HeaderInfo → Result VbriHeader
decode_vbri_header buf info = do
  rate ← elim (sampling_rate_of info) [ none ↦ fault out_of_bounds | some r ↦ ok r ]
  bytes ← swap_int32 buf 10
  frames ← swap_int32 buf 14
  entries ← swap_int16 buf 18
  scale ← swap_int16 buf 20
  size ← swap_int16 buf 22
  total ← swap_int16 buf 24
  toc ← toc_loop buf size scale (entries + 1) 26
  ok (record {
    h_id = info.layer_id;
    bytes = bytes;
    frames = frames;
    entries_toc = entries;
    scale = scale;
    s_table_entry = size;
    f_table_entry = total;
    toc = toc;
    sample_rate = rate;
  })

-- CalculateBufferSizeForHeader.
unfoldable pub calculate_buffer_size_for_header : List ℕ → Result ℕ
calculate_buffer_size_for_header buf = do
  entries ← swap_int16 buf 18
  size ← swap_int16 buf 22
  ok (entries * size + 26)
