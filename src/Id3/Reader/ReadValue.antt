-- ===== src/Id3/Reader/ReadValue.antt =====
-- What the readers of a text frame's data hand out for the bytes of written text.
use foodie_note.Id3.FrameTables.{Found, mark}
use foodie_note.Id3.Kvp.{Kvp, Value, p_char_value, p_wchar_value}
use foodie_note.Id3.KeyedTypes.{construct_kvp_key-succeeds}
use foodie_note.Id3.KvpKey.{
  CharacterSet, charset_invalid, charset_iso88591, charset_utf16, charset_utf16be, charset_utf8,
  charset_end, charset_type, construct_kvp_key, FrameType,
}
use foodie_note.Id3.Reader.Access.{Placed, read_into-Placed, seek_to_placed, read_word-Placed}
use foodie_note.Id3.Reader.Input.{InputFile}
use foodie_note.Id3.Reader.State.{Parser, Action, returned, behind_eq, step_eq, join_bytes}
use foodie_note.Id3.Reader.Values.{
  OtherReaders, read_value, read_by_charset, wide_value, read_string_value_frame, until_zero,
  handled_flag, handle_frame_data, read_frame_data, handle_by_mark, or_leave, push_back,
}
use foodie_note.Id3.Reader.Written.{
  IsTextType, IsWritable, payload, check_of, order_bytes, value_read, text_type_tests,
}
use foodie_note.Id3.WideChar.{big, little}
use foodie_note.Id3.WideCharText.{
  eight_bit_to_wide_char_buffer_transfer_text, transfer_little, utf16_bytes, IsUnit16, seen,
}
use foodie_note.Prelude.{
  ℕ, ◌+◌, ◌-◌, ◌%◌, ◌^◌, ◌<◌, ◌≡◌, ◌∙◌, inr, Bool, refl, sym, arith, true, List, [], ◌∷◌, ◌++◌, map,
  length, All, length-append, append_assoc,
}

wide_value_little :
    (us : List ℕ)
    → All IsUnit16 us
    → wide_value little (utf16_bytes little us) ≡ p_wchar_value (us ++ 0 ∷ [])
unfolding wide_value
wide_value_little us w = rw (transfer_little 4 us w (inr refl)) refl

wide_value_big :
    (us : List ℕ)
    → All IsUnit16 us
    → wide_value big (utf16_bytes big us) ≡ p_wchar_value (map (seen big 4) us ++ 0 ∷ [])
unfolding wide_value
wide_value_big us w = rw (eight_bit_to_wide_char_buffer_transfer_text big 4 us w (inr refl)) refl

IsWritable-charset_type :
    (c : CharacterSet) (cells : List ℕ) → IsWritable c cells → (charset_type c).1 ≡ true
unfolding charset_type
IsWritable-charset_type charset_iso88591 cells w = refl
IsWritable-charset_type charset_utf16 cells w = refl
IsWritable-charset_type charset_utf16be cells w = refl
IsWritable-charset_type charset_utf8 cells w = refl
IsWritable-charset_type charset_invalid cells w = absurd w
IsWritable-charset_type charset_end cells w = absurd w

-- The pair for a text frame, by the members of the parser.
abbrev pub pair_of : {S : Type 0} → Parser S → FrameType → CharacterSet → List ℕ → Kvp
pair_of p t c cells = record {
  key = (construct_kvp_key p.version (until_zero p.frame_id) p.language t c).0;
  value = value_read c cells;
}

module _ (f : InputFile) (others : OtherReaders f.State) where
  open f use {State, bytes}

  -- A call that succeeds and hands out a pair, and leaves the file in front of the given bytes.
  abbrev pub Pushes : Action State (Bool) → Parser State → Kvp → List ℕ → Type 0
  Pushes m p x rest =
      (t : State) × (m p ≡ (returned true, record p { input = t; frames = p.frames ++ x ∷ [] }))
      × Placed f t rest

  read_value-Placed :
      (extra size : ℕ) (key : List ℕ) (value : List ℕ → Value) (bs rest : List ℕ) (p : Parser State)
      → size ≡ length bs
      → size + extra < 2 ^ 32
      → Placed f p.input (bs ++ rest)
      → Pushes
          (read_value f others extra size key value)
          p
          (record { key = key; value = value bs })
          rest
  unfolding read_value push_back
  read_value-Placed extra size key value bs rest p e fits h =
      let (t, same, placed) =
        read_into-Placed f ((size + extra) % 2 ^ 32) size bs rest p e (omega arith) h in
      (t, behind_eq _ same (step_eq _ refl), placed)

  read_by_charset-Placed :
      (c : CharacterSet) (cells key rest : List ℕ) (p : Parser State)
      → IsWritable c cells
      → length (payload c cells) + 2 < 2 ^ 32
      → Placed f p.input (payload c cells ++ rest)
      → Pushes
          (read_by_charset f others c (length (payload c cells)) key)
          p
          (record { key = key; value = value_read c cells })
          rest
  unfolding read_by_charset
  read_by_charset-Placed charset_iso88591 cells key rest p w fits h =
      read_value-Placed 1 (length cells) key (λ bs. p_char_value (bs ++ 0 ∷ [])) cells rest p refl
        (omega arith) h
  read_by_charset-Placed charset_utf8 cells key rest p w fits h =
      read_value-Placed 1 (length cells) key (λ bs. p_char_value (bs ++ 0 ∷ [])) cells rest p refl
        (omega arith) h
  read_by_charset-Placed charset_utf16 cells key rest p w fits h =
      rw (← wide_value_little cells w) (
        read_value-Placed 2 _ key (wide_value little) (utf16_bytes little cells) rest p refl
          (omega arith) h)
  read_by_charset-Placed charset_utf16be cells key rest p (w, nonempty) fits h =
      rw (← wide_value_big cells w) (
        read_value-Placed 2 _ key (wide_value big) (utf16_bytes big cells) rest p refl (omega arith)
          h)
  read_by_charset-Placed charset_invalid cells key rest p w fits h = absurd w
  read_by_charset-Placed charset_end cells key rest p w fits h = absurd w

  pub read_string_value_frame-Placed :
      (t : FrameType) (c : CharacterSet) (cells rest : List ℕ) (p : Parser State)
      → IsTextType t
      → IsWritable c cells
      → length (payload c cells) + 2 < 2 ^ 32
      → Placed f p.input (payload c cells ++ rest)
      → Pushes
          (read_string_value_frame f others t c (length (payload c cells)))
          p
          (pair_of p t c cells)
          rest
  unfolding read_string_value_frame
  read_string_value_frame-Placed t c cells rest p text w fits h =
      let keyed =
        construct_kvp_key-succeeds p.version (until_zero p.frame_id) p.language t c
          (IsWritable-charset_type c cells w) (text_type_tests t text).8 in
      let (s, same, placed) =
        read_by_charset-Placed c cells (pair_of p t c cells).key rest p w fits h in
      (s, step_eq _ (rw keyed same), placed)

  -- A call that returns and hands out a pair, and may have marked a frame as found.
  abbrev pub Hands : {A : Type 0} → Action State A → Parser State → A → Kvp → Type 0
  Hands m p a x =
      (t : State) × (fd : Found) × (m p
        ≡ (returned a, record p { input = t; frames = p.frames ++ x ∷ []; found = fd }))

  handle_frame_data_placed :
      (t : FrameType) (c : CharacterSet) (pos : ℕ) (cells before rest : List ℕ) (p : Parser State)
      → IsTextType t
      → IsWritable c cells
      → length (payload c cells) + 2 < 2 ^ 32
      → pos ≡ length before
      → bytes ≡ before ++ (payload c cells ++ rest)
      → Hands
          (handle_frame_data f others t c pos (length (payload c cells)))
          p
          tt
          (pair_of p t c cells)
  unfolding handle_frame_data or_leave
  handle_frame_data_placed t c pos cells before rest p text w fits e whole =
      let tests = text_type_tests t text in
      let (s, sought, placed) = seek_to_placed f pos before (payload c cells ++ rest) p e whole in
      let (u, same, behind_it) =
        read_string_value_frame-Placed t c cells rest (record p { input = s }) text w fits placed in
      (
        u,
        mark (handled_flag t) p.found,
        behind_eq _ sought (step_eq _ (rw (tests.1, tests.0) (behind_eq _ same (step_eq _ refl)))),
      )

  -- The same, with the size as a number.
  handle_frame_data_sized :
      (t : FrameType) (c : CharacterSet) (pos size : ℕ) (cells before rest : List ℕ)
      (p : Parser State)
      → IsTextType t
      → IsWritable c cells
      → size ≡ length (payload c cells)
      → size + 2 < 2 ^ 32
      → pos ≡ length before
      → bytes ≡ before ++ (payload c cells ++ rest)
      → Hands (handle_frame_data f others t c pos size) p tt (pair_of p t c cells)
  handle_frame_data_sized t c pos size cells before rest p text w sized fits e whole =
      rw sized (handle_frame_data_placed t c pos cells before rest p text w (omega arith) e whole)

  -- The data of a frame behind the byte of the character set, `len` bytes with it.
  pub read_frame_data-Placed :
      (t : FrameType) (c : CharacterSet) (pos len : ℕ) (cells before rest : List ℕ)
      (p : Parser State)
      → IsTextType t
      → IsWritable c cells
      → len ≡ 1 + length (order_bytes c ++ payload c cells)
      → len + 2 < 2 ^ 32
      → pos ≡ length before
      → bytes ≡ before ++ (order_bytes c ++ (payload c cells ++ rest))
      → Placed f p.input (order_bytes c ++ (payload c cells ++ rest))
      → Hands (read_frame_data f others (check_of c) t pos len) p true (pair_of p t c cells)
  unfolding read_frame_data handle_by_mark join_bytes
  read_frame_data-Placed t charset_iso88591 pos len cells before rest p text w sized fits e whole
        h =
      let (u, fd, same) =
        handle_frame_data_sized t charset_iso88591 pos ((len + 2 ^ 32 - 1) % 2 ^ 32) cells before
          rest p text w (omega arith) (omega arith) e whole in
      (u, fd, behind_eq _ same refl)
  read_frame_data-Placed t charset_utf8 pos len cells before rest p text w sized fits e whole h =
      let (u, fd, same) =
        handle_frame_data_sized t charset_utf8 pos ((len + 2 ^ 32 - 1) % 2 ^ 32) cells before rest p
          text w (omega arith) (omega arith) e whole in
      (u, fd, behind_eq _ same refl)
  read_frame_data-Placed t charset_utf16be pos len cells before rest p text w sized fits e whole h =
      let (u, fd, same) =
        handle_frame_data_sized t charset_utf16be pos ((len + 2 ^ 32 - 1) % 2 ^ 32) cells before
          rest p text w (omega arith) (omega arith) e whole in
      (u, fd, behind_eq _ same refl)
  read_frame_data-Placed t charset_utf16 pos len cells before rest p text w sized fits e whole h =
      let (s, marked, placed) =
        read_word-Placed f 16 2 (255 ∷ 254 ∷ []) (utf16_bytes little cells ++ rest) p refl h in
      let (u, fd, same) =
        handle_frame_data_sized t charset_utf16 (pos + 2) ((len + 2 ^ 32 - 3) % 2 ^ 32) cells
          (before ++ 255 ∷ 254 ∷ []) rest (record p { input = s }) text w (omega arith)
          (omega arith) (omega (arith, e, length-append before (255 ∷ 254 ∷ [])))
          (whole ∙ sym (append_assoc before (255 ∷ 254 ∷ []) (utf16_bytes little cells ++ rest))) in
      (u, fd, behind_eq _ marked (behind_eq _ same refl))
  read_frame_data-Placed t charset_invalid pos len cells before rest p text w sized fits e whole h =
      absurd w
  read_frame_data-Placed t charset_end pos len cells before rest p text w sized fits e whole h =
      absurd w
