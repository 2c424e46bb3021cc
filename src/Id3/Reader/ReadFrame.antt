-- ===== src/Id3/Reader/ReadFrame.antt =====
-- One round of the loop over the frames of a tag, on a written text frame.
use foodie_note.Id3.KvpKey.{CharacterSet, FrameType, Version}
use foodie_note.Id3.Reader.Access.{Placed, read_word-Placed}
use foodie_note.Id3.Reader.Frames.{
  Cursor, next, read_content, counted_round, behind_frame, read_frame, read_length, follow_type,
  follow_header, frame_header_size, unless_encrypted,
}
use foodie_note.Id3.Reader.Input.{InputFile}
use foodie_note.Id3.Reader.ReadValue.{Hands, pair_of, read_frame_data-Placed}
use foodie_note.Id3.Reader.State.{Parser, returned, behind_eq, step_eq}
use foodie_note.Id3.Reader.Values.{OtherReaders}
use foodie_note.Id3.Reader.Written.{
  IsTextType, IsWritable, IsPlain, payload, check_of, order_bytes, text_type_tests, IsPlain-tests,
  check_of-small,
}
use foodie_note.Prelude.{
  ℕ, ◌+◌, ◌%◌, ◌^◌, ◌≤◌, ◌<◌, ◌≡◌, ◌∙◌, refl, ap, arith, true, false, ◌==◌, get_or, List, [], ◌∷◌,
  ◌++◌, length, lt→ltb, le→ltb_false,
}

module _ (f : InputFile) (others : OtherReaders f.State) (v : Version) (base : ℕ) where
  open f use {State, bytes}

  read_content-Placed :
      (c : Cursor) (t : FrameType) (cs : CharacterSet) (len : ℕ) (cells before rest : List ℕ)
      (p : Parser State)
      → IsTextType t
      → IsWritable cs cells
      → IsPlain v len
      → len ≡ 1 + length (order_bytes cs ++ payload cs cells)
      → len + 2 < 2 ^ 32
      → c.data_len_indicator_size ≡ 0
      → base + c.i + 11 ≡ length before
      → base + c.i + 11 < 2 ^ 32
      → bytes ≡ before ++ (order_bytes cs ++ (payload cs cells ++ rest))
      → Placed f p.input (order_bytes cs ++ (payload cs cells ++ rest))
      → Hands f others
          (read_content f others v base c t (check_of cs) len)
          p
          true
          (pair_of p t cs cells)
  unfolding read_content
  read_content-Placed c t cs len cells before rest p text w plain sized fits zero_size e small whole
        h =
      let tests = text_type_tests t text in
      let size = (IsPlain-tests v len t [] [] p.found plain).4 in
      rw (tests.5, tests.6, (check_of-small cs cells w).1)
        (read_frame_data-Placed f others t cs _ len cells before rest p text w sized fits
          (omega (arith, size)) whole h)

  read_frame-Placed :
      (c : Cursor) (t : FrameType) (cs : CharacterSet) (len : ℕ) (cells before rest : List ℕ)
      (p : Parser State)
      → IsTextType t
      → IsWritable cs cells
      → IsPlain v len
      → len ≡ 1 + length (order_bytes cs ++ payload cs cells)
      → 1 < len
      → c.i + len + 12 < 2 ^ 32
      → c.data_len_indicator_size ≡ 0
      → p.frame_size ≡ len
      → base + c.i + 11 ≡ length before
      → base + c.i + 11 < 2 ^ 32
      → bytes ≡ before ++ (order_bytes cs ++ (payload cs cells ++ rest))
      → Placed f p.input (check_of cs ∷ (order_bytes cs ++ (payload cs cells ++ rest)))
      → Hands f others
          (read_frame f others v base c t len)
          p
          (next (record c { i = c.i + len + 10; count = c.count + 1 }))
          (pair_of p t cs cells)
  unfolding read_frame counted_round behind_frame
  read_frame-Placed c t cs len cells before rest p text w plain sized long fits zero_size n e small
        whole h =
      let tests = text_type_tests t text in
      let size = (IsPlain-tests v len t [] [] p.found plain).4 in
      let (s, same, placed) = read_word-Placed f 8 1 (check_of cs ∷ []) _ p refl h in
      let checked = (check_of-small cs cells w).0 in
      let (u, fd, got) =
        read_content-Placed c t cs len cells before rest (record p { input = s }) text w plain sized
          (omega arith) zero_size e small whole placed in
      let at : (c.i + p.frame_size + frame_header_size v) % 2 ^ 32 ≡ c.i + len + 10 =
        omega (arith, size) in
      (
        u,
        fd,
        rw (lt→ltb 1 len long, tests.4)
            (behind_eq _ same (
              rw checked (
                behind_eq _ got (
                  ap
                    (λ k. (
                      returned (next (record c { i = k; count = c.count + 1 })),
                      record p {
                        input = u;
                        frames = p.frames ++ pair_of p t cs cells ∷ [];
                        found = fd;
                      },
                    ))
                    at)))),
      )

  follow_type-Placed :
      (c : Cursor) (t : FrameType) (cs : CharacterSet) (len : ℕ) (cells before rest : List ℕ)
      (p : Parser State)
      → IsTextType t
      → IsWritable cs cells
      → IsPlain v len
      → len ≡ 1 + length (order_bytes cs ++ payload cs cells)
      → 1 < len
      → c.i + len + 12 < 2 ^ 32
      → c.data_len_indicator_size ≡ 0
      → p.frame_size ≡ len
      → base + c.i + 11 ≡ length before
      → base + c.i + 11 < 2 ^ 32
      → bytes ≡ before ++ (order_bytes cs ++ (payload cs cells ++ rest))
      → Placed f p.input (check_of cs ∷ (order_bytes cs ++ (payload cs cells ++ rest)))
      → Hands f others
          (follow_type f others v base c t 0 len)
          p
          (next (record c { i = c.i + len + 10; count = c.count + 1 }))
          (pair_of p t cs cells)
  unfolding follow_type read_length
  follow_type-Placed c t cs len cells before rest p text w plain sized long fits zero_size n e small
        whole h =
      let tests = text_type_tests t text in
      let known = IsPlain-tests v len t [] [] p.found plain in
      rw (tests.2, known.2)
        (read_frame-Placed c t cs len cells before rest p text w plain sized long fits zero_size n e
          small whole h)

  pub follow_header-Placed :
      (c : Cursor) (t : FrameType) (cs : CharacterSet) (len : ℕ) (cells before rest : List ℕ)
      (p : Parser State)
      → IsTextType t
      → IsWritable cs cells
      → IsPlain v len
      → len ≡ 1 + length (order_bytes cs ++ payload cs cells)
      → 1 < len
      → c.i + len + 12 < 2 ^ 32
      → c.data_len_indicator_size ≡ 0
      → p.frame_size ≡ len
      → base + c.i + 11 ≡ length before
      → base + c.i + 11 < 2 ^ 32
      → bytes ≡ before ++ (order_bytes cs ++ (payload cs cells ++ rest))
      → Placed f p.input (check_of cs ∷ (order_bytes cs ++ (payload cs cells ++ rest)))
      → len ≤ p.tag_size
      → get_or p.frame_flag 1 0 ≡ 0
      → Hands f others
          (follow_header f others v base c t len)
          p
          (next (record c { i = c.i + len + 10; count = c.count + 1 }))
          (pair_of p t cs cells)
  unfolding follow_header
  follow_header-Placed c t cs len cells before rest p text w plain sized long fits zero_size n e
        small whole h room flag =
      let tests = text_type_tests t text in
      let nonzero : (len == 0) ≡ false = ground arith in
      let (u, fd, got) =
        follow_type-Placed c t cs len cells before rest p text w plain sized long fits zero_size n e
          small whole h in
      let typed : unless_encrypted v (get_or p.frame_flag 1 0) t ≡ t =
        ap (λ x. unless_encrypted v x t) flag ∙ (IsPlain-tests v len t [] [] p.found plain).3 in
      let at_flag =
        ap (λ u. follow_type f others v base c u (get_or p.frame_flag 1 0) len p) typed
        ∙ (ap (λ x. follow_type f others v base c t x len p) flag ∙ got) in
      (
        u,
        fd,
        step_eq _ (rw (tests.2, le→ltb_false p.tag_size len room, nonzero) (step_eq _ at_flag)),
      )
