-- ===== src/Tests/Id3.antt =====
-- Runs of the ID3 helpers.
use foodie_note.Id3.SyncSafe.{
  convert_to_sync_safe_int, safe_synch_int_to_int32,
  safe_synch_int_to_int32-convert_to_sync_safe_int,
}
use foodie_note.Id3.WideChar.{big, eight_bit_to_wide_char_buffer_transfer}
use foodie_note.Id3.WideCharText.{
  utf16_bytes, IsUnit16, seen, eight_bit_to_wide_char_buffer_transfer_text, transfer_big_wide,
}
use foodie_note.Id3.FrameFlags.{flag_of, frame_supported-mark}
use foodie_note.Id3.FrameIds.{frame_supported}
use foodie_note.Id3.FrameTables.{Found, mark}
use foodie_note.Id3.KeyedTypes.{IsPassed}
use foodie_note.Id3.FrameKeys.{frame_supported-construct_kvp_key}
use foodie_note.Id3.KvpKey.{v2_2, v2_3, charset_utf16, charset_type, construct_kvp_key}
use foodie_note.Prelude.Text.{codes}
use foodie_note.Prelude.{
  ◌⊎◌, none, some, true, false, ℕ, ◌%◌, ◌^◌, ◌≡◌, inl, refl, arith, List, [], ◌∷◌, map, length, All,
}

safe_synch_int_to_int32-convert_to_sync_safe_int_example :
    safe_synch_int_to_int32 (convert_to_sync_safe_int 0x12345) ≡ 0x12345 % 2 ^ 28
safe_synch_int_to_int32-convert_to_sync_safe_int_example =
    safe_synch_int_to_int32-convert_to_sync_safe_int 0x12345

-- "a中"
abbrev units : List ℕ
units = 0x61 ∷ 0x4e2d ∷ []

units-IsUnit16 : All IsUnit16 units
units-IsUnit16 = ((omega arith, omega arith), ((omega arith, omega arith), tt))

eight_bit_to_wide_char_buffer_transfer_text_example :
    eight_bit_to_wide_char_buffer_transfer big 2 (utf16_bytes big units)
    ≡ record { index = length (map (seen big 2) units); cells = map (seen big 2) units }
eight_bit_to_wide_char_buffer_transfer_text_example =
    eight_bit_to_wide_char_buffer_transfer_text big 2 units units-IsUnit16 (inl refl)

transfer_big_wide_example :
    (eight_bit_to_wide_char_buffer_transfer big 4 (utf16_bytes big units)).cells
    ≡ map (λ (u : ℕ). 1) units
transfer_big_wide_example = transfer_big_wide units units-IsUnit16

abbrev nothing_found : Found
nothing_found = record {
  title_found = false;
  artist_found = false;
  album_found = false;
  year_found = false;
  comment_found = false;
  track_number_found = false;
  genre_found = false;
}

frame_supported-mark_example :
    (frame_supported v2_3 [] (some (codes "TDRC")) nothing_found).1
    ≡ mark (flag_of (frame_supported v2_3 [] (some (codes "TDRC")) nothing_found).0) nothing_found
frame_supported-mark_example = frame_supported-mark v2_3 [] (some (codes "TDRC")) nothing_found

utf16-known : (charset_type charset_utf16).1 ≡ true
unfolding charset_type
utf16-known = refl

frame_supported-construct_kvp_key_example :
    ((construct_kvp_key v2_2
        (codes "TT2")
        []
        (frame_supported v2_2 (codes "TT2") none nothing_found).0
        charset_utf16).1
      ≡ true)
    ⊎ IsPassed (frame_supported v2_2 (codes "TT2") none nothing_found).0
frame_supported-construct_kvp_key_example =
    frame_supported-construct_kvp_key v2_2 (codes "TT2") none nothing_found [] charset_utf16
      utf16-known
