-- ===== src/Mp3/VbrBounds.antt =====
-- Which Xing and VBRI headers DecodeXINGHeader and DecodeVBRIHeader read without a fault.
use native.Mathlib.Numerals.{add-one}
use foodie_note.Mp3.Header.{HeaderInfo, sampling_rate_of}
use foodie_note.Mp3.Vbr.{
  cell, swap_int32, swap_int16, read_loop, read_buffer, XingHeader, has_flag, frames_flag,
  bytes_flag, check_bytes, read_cells, decode_xing_header, toc_loop, decode_vbri_header,
  calculate_buffer_size_for_header,
}
use foodie_note.Prelude.Results.{Result, ok, fault, division_by_zero, undefined_shift}
use foodie_note.Prelude.{
  ◌⊎◌, ℕ, zero, suc, ◌+◌, ◌*◌, ◌%◌, ◌^◌, ◌≤◌, ◌<◌, ◌≡◌, ◌≢◌, refl, arith, true, some, List, [], ◌∷◌,
  bit_or, length,
}

cell_ok : (buf : List ℕ) (i : ℕ) → i < length buf → (x : ℕ) × (cell buf i ≡ ok x)
unfolding cell
cell_ok [] i h = absurd (omega arith)
cell_ok (x ∷ xs) zero h = (x, refl)
cell_ok (x ∷ xs) (suc i) h = cell_ok xs i (omega arith)

swap_int32_ok : (buf : List ℕ) (p : ℕ) → p + 4 ≤ length buf → (x : ℕ) × (swap_int32 buf p ≡ ok x)
unfolding swap_int32
swap_int32_ok buf p h =
    let (a, ea) = cell_ok buf p (omega arith) in
    let (b, eb) = cell_ok buf (p + 1) (omega arith) in
    let (c, ec) = cell_ok buf (p + 2) (omega arith) in
    let (d, ed) = cell_ok buf (p + 3) (omega arith) in
    (d + 2 ^ 8 * c + 2 ^ 16 * b + 2 ^ 24 * a, rw (ea, eb, ec, ed))

swap_int16_ok : (buf : List ℕ) (p : ℕ) → p + 2 ≤ length buf → (x : ℕ) × (swap_int16 buf p ≡ ok x)
unfolding swap_int16
swap_int16_ok buf p h =
    let (a, ea) = cell_ok buf p (omega arith) in
    let (b, eb) = cell_ok buf (p + 1) (omega arith) in (b + 2 ^ 8 * a, rw (ea, eb))

read_cells_ok :
    (buf : List ℕ) (p n : ℕ) → p + n ≤ length buf → (xs : List ℕ) × (read_cells buf p n ≡ ok xs)
unfolding read_cells
read_cells_ok buf p zero h = ([], refl)
read_cells_ok buf p (suc n) h =
    let (x, ex) = cell_ok buf p (omega arith) in
    let (xs, exs) = read_cells_ok buf (p + 1) n (omega arith) in (x ∷ xs, rw (ex, exs))

-- A call that ends without a fault.
abbrev pub IsOk {ℓ} : {A : Type ℓ} → Result A → Type 0
IsOk (ok a) = Unit
IsOk (fault e) = ⊥

-- On 120 bytes or more, a Xing header whose word at offset 8, the frame count, is not 0, and where not
-- both that word is 0xffffffff and the word at offset 12, the number of bytes, is 0x80000000, is
-- decoded without a fault, whatever its flags: no read outside the buffer, no division by zero, and
-- no quotient of int32 that overflows.
pub decode_xing_header-IsOk :
    (buf : List ℕ) (hd : XingHeader) (info : HeaderInfo) (size n frames bytes : ℕ)
    → 120 ≤ length buf
    → swap_int32 buf 8 ≡ ok frames
    → swap_int32 buf 12 ≡ ok bytes
    → frames ≢ 0
    → (frames ≢ 0xffffffff) ⊎ (bytes ≢ 2 ^ 31)
    → IsOk (decode_xing_header buf hd info size n)
unfolding decode_xing_header check_bytes
decode_xing_header-IsOk buf hd info size n frames bytes h e eb pos apart = ground (
  arith,
  swap_int32_ok buf 4 (omega arith),
  swap_int32_ok buf 16 (omega arith),
  swap_int32_ok buf (8 + 100) (omega arith),
  swap_int32_ok buf (8 + 4 + 100) (omega arith),
  swap_int32_ok buf (12 + 100) (omega arith),
  swap_int32_ok buf (12 + 4 + 100) (omega arith),
  read_cells_ok buf 8 100 (omega arith),
  read_cells_ok buf 12 100 (omega arith),
  read_cells_ok buf 16 100 (omega arith),
)

-- On 16 bytes or more, a Xing header with both the FRAMES and the BYTES flag whose frame count is 0
-- divides by zero.
decode_xing_header_no_frames :
    (buf : List ℕ) (hd : XingHeader) (info : HeaderInfo) (size n flags : ℕ)
    → 16 ≤ length buf
    → swap_int32 buf 4 ≡ ok flags
    → has_flag flags frames_flag ≡ true
    → has_flag flags bytes_flag ≡ true
    → swap_int32 buf 8 ≡ ok 0
    → decode_xing_header buf hd info size n ≡ fault division_by_zero
unfolding decode_xing_header check_bytes
decode_xing_header_no_frames buf hd info size n flags h e f b z =
    ground (arith, swap_int32_ok buf 12 (omega arith))

read_loop_ok :
    (buf : List ℕ) (pos k number : ℕ)
    → k ≤ 4
    → pos + k ≤ length buf
    → (x : ℕ) × (read_loop buf pos k number ≡ ok x)
unfolding read_loop
read_loop_ok buf pos zero number four h = (number, refl)
read_loop_ok buf pos (suc b) number four h =
    let (byte, e) = cell_ok buf pos (omega arith) in
    let (x, ex) =
      read_loop_ok buf (pos + 1) b (bit_or number (byte * 2 ^ (8 * b))) (omega arith)
        (omega arith) in
    (x, rw e (ground arith))

toc_loop_ok :
    (buf : List ℕ) (size scale n pos : ℕ)
    → size ≤ 4
    → pos + n * size ≤ length buf
    → (xs : List ℕ) × (toc_loop buf size scale n pos ≡ ok xs)
unfolding toc_loop read_buffer
toc_loop_ok buf size scale zero pos four h = ([], refl)
toc_loop_ok buf size scale (suc n) pos four h =
    let (x, ex) = read_loop_ok buf pos size 0 four (omega arith) in
    let (xs, exs) = toc_loop_ok buf size scale n (pos + size) four (omega arith) in
    (x * scale % 2 ^ 32 ∷ xs, rw (ex, exs))

-- In a buffer of at least 26 bytes with 4 bytes more than the computed size, as ParseMP3File reads
-- it, a VBRI header whose table entries have at most 4 bytes, with a frame header whose sampling
-- rate is in the table, is decoded without a fault, although one entry more is read than the size
-- counts.
pub decode_vbri_header-IsOk :
    (buf : List ℕ) (info : HeaderInfo) (n size rate : ℕ)
    → 26 ≤ length buf
    → calculate_buffer_size_for_header buf ≡ ok n
    → n + 4 ≤ length buf
    → swap_int16 buf 22 ≡ ok size
    → size ≤ 4
    → sampling_rate_of info ≡ some rate
    → IsOk (decode_vbri_header buf info)
unfolding decode_vbri_header calculate_buffer_size_for_header
decode_vbri_header-IsOk buf info n size rate front c h s four r =
    let (bytes, e10) = swap_int32_ok buf 10 (omega arith) in
    let (frames, e14) = swap_int32_ok buf 14 (omega arith) in
    let (entries, e18) = swap_int16_ok buf 18 (omega arith) in
    let (scale, e20) = swap_int16_ok buf 20 (omega arith) in
    let (total, e24) = swap_int16_ok buf 24 (omega arith) in
    let counted : entries * size + 26 ≡ n = ground arith in
    let (toc, et) = toc_loop_ok buf size scale (entries + 1) 26 four (omega arith) in
    rw (r, e10, e14, e18, e20, s, e24, et) tt

toc_loop_wide :
    (buf : List ℕ) (size scale n pos : ℕ)
    → 4 < size
    → pos < length buf
    → toc_loop buf size scale (suc n) pos ≡ fault undefined_shift
unfolding toc_loop read_buffer read_loop
toc_loop_wide buf zero scale n pos wide h = absurd (omega arith)
toc_loop_wide buf (suc b) scale n pos wide h = ground (arith, cell_ok buf pos)

-- On 27 bytes or more, a VBRI header whose table entries have more than 4 bytes, with a frame header
-- whose sampling rate is in the table, shifts by 32 or more.
decode_vbri_header_wide_entries :
    (buf : List ℕ) (info : HeaderInfo) (size rate : ℕ)
    → 27 ≤ length buf
    → swap_int16 buf 22 ≡ ok size
    → 4 < size
    → sampling_rate_of info ≡ some rate
    → decode_vbri_header buf info ≡ fault undefined_shift
unfolding decode_vbri_header
decode_vbri_header_wide_entries buf info size rate h s wide r =
    let (bytes, e10) = swap_int32_ok buf 10 (omega arith) in
    let (frames, e14) = swap_int32_ok buf 14 (omega arith) in
    let (entries, e18) = swap_int16_ok buf 18 (omega arith) in
    let (scale, e20) = swap_int16_ok buf 20 (omega arith) in
    let (total, e24) = swap_int16_ok buf 24 (omega arith) in
    rw (
      r,
      e10,
      e14,
      e18,
      e20,
      s,
      e24,
      add-one entries,
      toc_loop_wide buf size scale entries 26 wide h,
    )
