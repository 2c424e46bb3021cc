-- ===== src/Id3/Reader/Overrun.antt =====
-- A frame of UTF-16 text that is too short for its byte order mark.
use foodie_note.Id3.KeyedTypes.{construct_kvp_key-succeeds}
use foodie_note.Id3.KvpKey.{charset_utf16, charset_type, FrameType}
use foodie_note.Id3.Reader.Access.{Placed, read_word-Placed, seek_to_placed, read_into_overrun}
use foodie_note.Id3.Reader.Input.{InputFile}
use foodie_note.Id3.Reader.State.{Parser, overrun, behind_eq, behind_overrun, step_eq, join_bytes}
use foodie_note.Id3.Reader.Values.{
  OtherReaders, read_value, read_by_charset, read_string_value_frame, until_zero, handle_frame_data,
  read_frame_data, handle_by_mark, or_leave,
}
use foodie_note.Id3.Reader.Written.{IsTextType, text_type_tests}
use foodie_note.Prelude.{
  ℕ, ◌+◌, ◌-◌, ◌^◌, ◌<◌, ◌≡◌, ◌∙◌, refl, sym, arith, List, [], ◌∷◌, ◌++◌, length, length-append,
  append_assoc,
}

module _ (f : InputFile) (others : OtherReaders f.State) where
  open f use {State, bytes}

  read_string_value_frame_overrun :
      (t : FrameType) (rest : List ℕ) (p : Parser State)
      → IsTextType t
      → 1 < length rest
      → length rest < 2 ^ 32
      → Placed f p.input rest
      → (q : Parser State) × (read_string_value_frame f others t charset_utf16 (2 ^ 32 - 1) p
          ≡ (overrun, q))
  unfolding read_string_value_frame read_by_charset read_value
  read_string_value_frame_overrun t rest p text long short here =
      let keyed =
        construct_kvp_key-succeeds p.version (until_zero p.frame_id) p.language t charset_utf16
          (unfold charset_type in refl) (text_type_tests t text).8 in
      let (s, over) = read_into_overrun f 1 (2 ^ 32 - 1) rest p here (omega arith) long in
      (record p { input = s }, step_eq _ (rw keyed (behind_overrun _ over)))

  -- A text frame with the byte for UTF-16 and one more byte, where that and the byte behind the frame
  -- are a byte order mark, and more than one byte follows: the size of the text wraps to 2 ^ 32 - 1,
  -- and the parser writes the rest of the file beyond its buffer.
  pub read_frame_data_overrun :
      (t : FrameType) (pos : ℕ) (before rest : List ℕ) (p : Parser State)
      → IsTextType t
      → 1 < length rest
      → length rest < 2 ^ 32
      → pos ≡ length before
      → bytes ≡ before ++ (255 ∷ 254 ∷ rest)
      → Placed f p.input (255 ∷ 254 ∷ rest)
      → (q : Parser State) × (read_frame_data f others 1 t pos 2 p ≡ (overrun, q))
  unfolding read_frame_data handle_by_mark join_bytes handle_frame_data or_leave
  read_frame_data_overrun t pos before rest p text long short e whole here =
      let tests = text_type_tests t text in
      let (s, marked, marked_here) = read_word-Placed f 16 2 (255 ∷ 254 ∷ []) rest p refl here in
      let (u, sought, sought_here) =
        seek_to_placed f (pos + 2) (before ++ 255 ∷ 254 ∷ []) rest (record p { input = s })
          (omega (arith, e, length-append before (255 ∷ 254 ∷ [])))
          (whole ∙ sym (append_assoc before (255 ∷ 254 ∷ []) rest)) in
      let (q, over) =
        read_string_value_frame_overrun t rest (record p { input = u }) text long short
          sought_here in
      (
        q,
        behind_eq _ marked (
            behind_overrun _
              (behind_eq _ sought (step_eq _ (rw (tests.1, tests.0) (behind_overrun _ over))))),
      )
