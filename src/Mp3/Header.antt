-- ===== src/Mp3/Header.antt =====
-- listener/src/main/jni/pvmi/mp3parser.cpp: GetMP3Header, DecodeMP3Header, GetMP3FileHeader and
-- GetMaximumDecodeBufferSize. Numbers stay below 2 ^ 32 at the headers that the code reads, so no
-- wrap is written. `none` is a subscript outside a table or a division by zero.
use foodie_note.Mp3.Tables.{
  br_index_table_v1, br_index_table_v2, sr_index_table, spf_index_table, at, get_elem?,
}
use foodie_note.Prelude.{
  ℕ, ◌+◌, ◌*◌, ◌/◌, Bool, true, false, not, ◌||◌, Option, none, some, ◌>>=◌, ◌==◌, if◌then◌else◌,
  field,
}

-- MP3HeaderType; its field frameSize is set nowhere.
pub record HeaderInfo : Type 0 where
  pub frame_ver : ℕ
  pub layer_id : ℕ
  pub crc_follows : ℕ
  pub br_index : ℕ
  pub sr_index : ℕ
  pub prv_bit : ℕ
  pub pad_bit : ℕ
  pub ch_mode : ℕ
  pub mode_extn : ℕ

-- MP3ConfigInfoType.
pub record ConfigInfo : Type 0 where
  pub sampling_rate : ℕ
  pub bit_rate : ℕ
  pub frame_length_in_bytes : ℕ
  pub frame_size_uncomp : ℕ
  pub number_of_channels : ℕ

abbrev pub zero_header : HeaderInfo
zero_header = record {
  frame_ver = 0;
  layer_id = 0;
  crc_follows = 0;
  br_index = 0;
  sr_index = 0;
  prv_bit = 0;
  pad_bit = 0;
  ch_mode = 0;
  mode_extn = 0;
}

abbrev pub zero_config : ConfigInfo
zero_config = record {
  sampling_rate = 0;
  bit_rate = 0;
  frame_length_in_bytes = 0;
  frame_size_uncomp = 0;
  number_of_channels = 0;
}

-- MP3FileType.
pub data FileType : Type 0 where
  xing vbri cbr vbr invalid : FileType

-- The fields of a frame header: AAAAAAAA AAABBCCD EEEEFFGH IIJJKLMM.
unfoldable pub header_fields : ℕ → HeaderInfo
header_fields w = record {
  frame_ver = field w 19 2;
  layer_id = field w 17 2;
  crc_follows = field w 16 1;
  br_index = field w 12 4;
  sr_index = field w 10 2;
  prv_bit = field w 8 1;
  pad_bit = field w 9 1;
  ch_mode = field w 6 2;
  mode_extn = field w 4 2;
}

-- GetMP3Header: the header info behind the call, and the result. The fields of a reserved header
-- stay set.
unfoldable pub get_mp3_header : ℕ → HeaderInfo × Bool
unfolding header_fields
get_mp3_header w =
    if not (field w 21 11 == 0x7ff)
    then (zero_header, false)
    else let h = header_fields w in
      if h.sr_index == 3 || h.br_index == 15 || h.frame_ver == 1 || not (h.layer_id == 1)
      then (h, false)
      else (h, true)

-- The bit rate: `some 0` where the table has none, and for the reserved version.
unfoldable pub bit_rate_of : HeaderInfo → Option ℕ
bit_rate_of h =
    if h.frame_ver == 3
    then (do k ← at br_index_table_v1 h.layer_id h.br_index; some (1000 * k))
    else if h.frame_ver == 2 || h.frame_ver == 0
    then (do k ← at br_index_table_v2 h.layer_id h.br_index; some (1000 * k))
    else some 0

unfoldable pub sampling_rate_of : HeaderInfo → Option ℕ
sampling_rate_of h = get_elem? sr_index_table (h.frame_ver * 4 + h.sr_index)

-- The length of a compressed frame and the samples in it, by layer and version. DecodeMP3Header
-- calls it with the padding bit, GetMP3FileHeader with 1.
unfoldable pub frame_sizes : HeaderInfo → ℕ → ℕ → ℕ → ℕ × ℕ
frame_sizes h bit_rate sampling_rate pad =
    if h.layer_id == 3
    then (if h.frame_ver == 3
        then ((12 * bit_rate / sampling_rate + pad) * 4, 384)
        else ((6 * bit_rate / sampling_rate + pad) * 4, 192))
    else if h.frame_ver == 3
    then (144 * bit_rate / sampling_rate + pad, 1152)
    else (72 * bit_rate / sampling_rate + pad, 576)

unfoldable pub channels_of : ℕ → ℕ
channels_of ch_mode =
    if ch_mode == 0
    then 2
    else if ch_mode == 1 || ch_mode == 2
    then 2
    else if ch_mode == 3
    then 1
    else 0

-- DecodeMP3Header with `aComputeAvgBitrate` false: the config info behind the call, and the result.
unfoldable pub decode_mp3_header : HeaderInfo → Option (ConfigInfo × Bool)
decode_mp3_header h = do
  bit_rate ← bit_rate_of h
  if bit_rate == 0 then some (zero_config, false) else do
    sampling_rate ← sampling_rate_of h
    if sampling_rate == 0
        then some (zero_config, false)
        else let sizes = frame_sizes h bit_rate sampling_rate h.pad_bit in
          some (
            record {
              sampling_rate = sampling_rate;
              bit_rate = bit_rate;
              frame_length_in_bytes = sizes.0;
              frame_size_uncomp = sizes.1;
              number_of_channels = channels_of h.ch_mode;
            },
            true,
          )

-- The VBR branch of GetMP3FileHeader: the largest bit rate of the version, with a padding slot.
unfoldable pub largest_config : HeaderInfo → ConfigInfo → Option ConfigInfo
largest_config h c = do
  k ←
      if h.frame_ver == 3
      then at br_index_table_v1 h.layer_id 14
      else at br_index_table_v2 h.layer_id 14
  let bit_rate = 1000 * k
  let sizes = frame_sizes h bit_rate c.sampling_rate 1
  if c.sampling_rate == 0
      then none
      else some (record c {
        bit_rate = bit_rate;
        frame_length_in_bytes = sizes.0;
        frame_size_uncomp = sizes.1;
      })

-- GetMP3FileHeader on a pointer that is not NULL, by the members mp3Type, iMP3HeaderInfo and
-- iMP3ConfigInfo.
unfoldable pub get_mp3_file_header : FileType → HeaderInfo → ConfigInfo → Option ConfigInfo
unfolding largest_config
get_mp3_file_header xing h c = largest_config h c
get_mp3_file_header vbri h c = largest_config h c
get_mp3_file_header _ h c = some c

-- GetMaximumDecodeBufferSize, by the member iMP3HeaderInfo.
unfoldable pub get_maximum_decode_buffer_size : HeaderInfo → Option ℕ
get_maximum_decode_buffer_size h = do
  max_bit_rate ←
      if h.frame_ver == 3
      then at br_index_table_v1 h.layer_id 14
      else at br_index_table_v2 h.layer_id 14
  samples_per_frame ← at spf_index_table h.frame_ver h.layer_id
  min_sampling_rate ← get_elem? sr_index_table (h.frame_ver * 4 + 2)
  some (
      if not (min_sampling_rate == 0)
      then 125 * (max_bit_rate * samples_per_frame) / min_sampling_rate
      else 2884)
