-- ===== src/Mp3/FrameLength.antt =====
-- The frame headers of mp3parser.cpp: every subscript lies in its table, and the bounds of the frame
-- length that the buffers of the player rest on.
use foodie_note.Mp3.Header.{
  HeaderInfo, ConfigInfo, FileType, xing, vbri, cbr, vbr, invalid, bit_rate_of, sampling_rate_of,
  frame_sizes, decode_mp3_header, largest_config, get_mp3_file_header,
  get_maximum_decode_buffer_size,
}
use foodie_note.Mp3.Tables.{
  br_index_table_v1, br_index_table_v2, sr_index_table, spf_index_table, at,
}
use foodie_note.Prelude.{
  ℕ, ◌+◌, ◌≤◌, ◌<◌, ◌≡◌, ◌⊎◌, inl, inr, refl, sym, subst, ◌∙◌, arith, Bool, true, false, ◌&&◌,
  Option, none, some, leb, all_below, all_below_sound,
}

-- The subscripts of a header lie in the tables.
pub record IsInTables (h : HeaderInfo) : Type 0 where
  pub ver_in : h.frame_ver < 4
  pub layer_in : h.layer_id < 4
  pub br_in : h.br_index < 16
  pub sr_in : h.sr_index < 4
  pub pad_in : h.pad_bit < 2
  pub mode_in : h.ch_mode < 4

-- A test of every version, sampling rate, bit rate and padding of Layer III, at a channel mode.
abbrev layer3 : ℕ → HeaderInfo → ℕ → ℕ → ℕ → HeaderInfo
layer3 ver h sr br pad = record h {
  frame_ver = ver;
  layer_id = 1;
  sr_index = sr;
  br_index = br;
  pad_bit = pad;
}

unfoldable pub all_layer3 : (HeaderInfo → Bool) → HeaderInfo → Bool
all_layer3 p h =
    all_below 4
      λ ver. all_below 4 λ sr. all_below 16 λ br. all_below 2 λ pad. p (layer3 ver h sr br pad)

pub all_layer3_sound :
    (p : HeaderInfo → Bool) (h : HeaderInfo)
    → IsInTables h
    → h.layer_id ≡ 1
    → all_layer3 p h ≡ true
    → p h ≡ true
unfolding all_layer3
all_layer3_sound p h r l all =
    let a =
      all_below_sound 4
        (λ ver. all_below 4 λ sr. all_below 16 λ br. all_below 2 λ pad. p (layer3 ver h sr br pad))
        h.frame_ver all r.ver_in in
    let b =
      all_below_sound 4
        (λ sr. all_below 16 λ br. all_below 2 λ pad. p (layer3 h.frame_ver h sr br pad)) h.sr_index
        a r.sr_in in
    let c =
      all_below_sound 16 (λ br. all_below 2 λ pad. p (layer3 h.frame_ver h h.sr_index br pad))
        h.br_index b r.br_in in
    let d =
      all_below_sound 2 (λ pad. p (layer3 h.frame_ver h h.sr_index h.br_index pad)) h.pad_bit c
        r.pad_in in
    subst (λ (l : ℕ). p (record h { layer_id = l }) ≡ true) (sym l) d

-- The test: the decoder returns, and the length of a frame that it accepts is in range.
abbrev in_range : Option (ConfigInfo × Bool) → Bool
in_range none = false
in_range (some (c, false)) = true
in_range (some (c, true)) = leb 24 c.frame_length_in_bytes && leb c.frame_length_in_bytes 1441

all_in_range : (h : HeaderInfo) → all_layer3 (λ x. in_range (decode_mp3_header x)) h ≡ true
unfolding all_layer3 all_below decode_mp3_header bit_rate_of sampling_rate_of frame_sizes at
    br_index_table_v1 br_index_table_v2 sr_index_table
all_in_range h = refl

in_range_sound :
    (o : Option (ConfigInfo × Bool))
    → in_range o ≡ true
    → (r : ConfigInfo × Bool) × (o ≡ some r)
      × ((r.1 ≡ false) ⊎ ((24 ≤ r.0.frame_length_in_bytes) × (r.0.frame_length_in_bytes ≤ 1441)))
in_range_sound none ok = absurd (cc)
in_range_sound (some (c, false)) ok = ((c, false), refl, inl refl)
in_range_sound (some (c, true)) ok = ((c, true), refl, inr (ground arith, ground arith))

-- A Layer III header whose fields are subscripts of the tables decodes without a fault: the call
-- returns, and where it succeeds the frame has between 24 and 1441 bytes.
pub decode_mp3_header_bounds :
    (h : HeaderInfo)
    → IsInTables h
    → h.layer_id ≡ 1
    → (r : ConfigInfo × Bool) × (decode_mp3_header h ≡ some r)
      × ((r.1 ≡ false) ⊎ ((24 ≤ r.0.frame_length_in_bytes) × (r.0.frame_length_in_bytes ≤ 1441)))
decode_mp3_header_bounds h r l =
    in_range_sound (decode_mp3_header h)
      (all_layer3_sound (λ x. in_range (decode_mp3_header x)) h r l (all_in_range h))

-- The test: a frame fits the largest frame that GetMP3FileHeader announces for its own header, and
-- the buffer of GetMaximumDecodeBufferSize, if that has room for the padding.
abbrev fits_in : ℕ → ConfigInfo → Option ConfigInfo → Option ℕ → Bool
fits_in pad c none s = false
fits_in pad c (some m) none = false
fits_in pad c (some m) (some size) =
    leb c.frame_length_in_bytes m.frame_length_in_bytes && leb c.frame_length_in_bytes (size + pad)

abbrev fits : HeaderInfo → Option (ConfigInfo × Bool) → Bool
fits h none = false
fits h (some (c, false)) = true
fits h (some (c, true)) =
    fits_in h.pad_bit c (largest_config h c) (get_maximum_decode_buffer_size h)

all_fit : (h : HeaderInfo) → all_layer3 (λ x. fits x (decode_mp3_header x)) h ≡ true
unfolding all_layer3 all_below decode_mp3_header bit_rate_of sampling_rate_of frame_sizes at
    br_index_table_v1 br_index_table_v2 sr_index_table spf_index_table largest_config
    get_maximum_decode_buffer_size
all_fit h = refl

fits_in_sound :
    (pad : ℕ) (c : ConfigInfo) (o : Option ConfigInfo) (s : Option ℕ)
    → fits_in pad c o s ≡ true
    → ((m : ConfigInfo) × (o ≡ some m) × (c.frame_length_in_bytes ≤ m.frame_length_in_bytes))
      × ((size : ℕ) × (s ≡ some size) × (c.frame_length_in_bytes ≤ size + pad))
fits_in_sound pad c none s ok = absurd (cc)
fits_in_sound pad c (some m) none ok = absurd (cc)
fits_in_sound pad c (some m) (some size) ok = ((m, refl, ground arith), (size, refl, ground arith))

decoded_fits :
    (h : HeaderInfo) (c : ConfigInfo)
    → IsInTables h
    → h.layer_id ≡ 1
    → decode_mp3_header h ≡ some (c, true)
    → fits_in h.pad_bit c (largest_config h c) (get_maximum_decode_buffer_size h) ≡ true
decoded_fits h c r l e =
    rw e at (all_layer3_sound (λ x. fits x (decode_mp3_header x)) h r l (all_fit h))

-- For a Layer III header whose fields are subscripts of the tables and that decodes,
-- GetMaximumDecodeBufferSize returns a size that the frame fits, except that a padded frame may have
-- one byte more.
pub get_maximum_decode_buffer_size_fits :
    (h : HeaderInfo) (c : ConfigInfo)
    → IsInTables h
    → h.layer_id ≡ 1
    → decode_mp3_header h ≡ some (c, true)
    → (size : ℕ) × (get_maximum_decode_buffer_size h ≡ some size)
      × (c.frame_length_in_bytes ≤ size + h.pad_bit)
get_maximum_decode_buffer_size_fits h c r l e =
    (fits_in_sound h.pad_bit c _ _ (decoded_fits h c r l e)).1

-- The announced length depends on the layer, the version and the sampling rate alone.
largest_config_length :
    (h k : HeaderInfo) (c d m : ConfigInfo)
    → h.layer_id ≡ k.layer_id
    → h.frame_ver ≡ k.frame_ver
    → c.sampling_rate ≡ d.sampling_rate
    → largest_config k d ≡ some m
    → largest_config h c
      ≡ some
          (record m { sampling_rate = c.sampling_rate; number_of_channels = c.number_of_channels })
unfolding largest_config frame_sizes
largest_config_length h k c d m l v r e = ground arith

-- In a Xing or VBRI file GetMP3FileHeader, called with a Layer III header `h` and a config `c`,
-- announces a frame length that a frame fits whose Layer III header has subscripts of the tables,
-- decodes, and is of the same version and sampling rate.
get_mp3_file_header_fits :
    (t : FileType) (h k : HeaderInfo) (c d : ConfigInfo)
    → (t ≡ xing) ⊎ (t ≡ vbri)
    → IsInTables k
    → h.layer_id ≡ 1
    → k.layer_id ≡ 1
    → h.frame_ver ≡ k.frame_ver
    → c.sampling_rate ≡ d.sampling_rate
    → decode_mp3_header k ≡ some (d, true)
    → (m : ConfigInfo) × (get_mp3_file_header t h c ≡ some m)
      × (d.frame_length_in_bytes ≤ m.frame_length_in_bytes)
get_mp3_file_header_fits t h k c d is_vbr r lh lk ver rate e =
    let (m, is_m, le) = (fits_in_sound k.pad_bit d _ _ (decoded_fits k d r lk e)).0 in
    let same = largest_config_length h k c d m (lh ∙ sym lk) ver rate is_m in
    (
      record m { sampling_rate = c.sampling_rate; number_of_channels = c.number_of_channels },
      is_largest t is_vbr ∙ same,
      le,
    )
  where
    is_largest :
        (t : FileType) → (t ≡ xing) ⊎ (t ≡ vbri) → get_mp3_file_header t h c ≡ largest_config h c
    is_largest xing v = unfold get_mp3_file_header in refl
    is_largest vbri v = unfold get_mp3_file_header in refl
    is_largest cbr v = absurd (ground arith)
    is_largest vbr v = absurd (ground arith)
    is_largest invalid v = absurd (ground arith)
