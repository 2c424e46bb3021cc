-- ===== src/Id3/Reader/OldTagWhole.antt =====
-- CheckForTagID3V1 and ReadID3V1Tag on a file that ends with a tag of ID3v1.
use foodie_note.Id3.FrameTables.{
  Found, Flag, title_flag, artist_flag, album_flag, year_flag, comment_flag, track_number_flag,
  genre_flag, mark,
}
use foodie_note.Id3.Kvp.{Kvp}
use foodie_note.Id3.KvpKey.{
  FrameType, title, artist, album, year, charset_iso88591, construct_kvp_key, v1,
}
use foodie_note.Id3.Reader.Access.{Placed, seek_to_placed, read_byte_data-Placed}
use foodie_note.Id3.Reader.Input.{InputFile}
use foodie_note.Id3.Reader.OldTag.{
  is_found, is_marked, set_found, read_field, if_going, read_id3v1_tag, check_for_tag_id3v1,
}
use foodie_note.Id3.Reader.ReadValue.{read_string_value_frame-Placed, pair_of}
use foodie_note.Id3.Reader.State.{Parser, returned, behind, behind_eq, step_eq, no_flags}
use foodie_note.Id3.Reader.Tag.{read_old_tag}
use foodie_note.Id3.Reader.Values.{OtherReaders, or_leave, read_string_value_frame}
use foodie_note.Id3.Reader.Written.{IsTextType}
use foodie_note.Prelude.Text.{codes, starts_with}
use foodie_note.Prelude.{
  ℕ, ◌+◌, ◌-◌, ◌^◌, ◌≤◌, ◌<◌, ◌≡◌, ◌∙◌, refl, sym, ap, arith, true, false, List, [], ◌∷◌, ◌++◌,
  length, length-append, append_assoc, leb, some,
}
use foodie_note.Id3.Reader.OldTagWritten.{
  OldTag, HasWidths, fields, old_pairs, track_pairs, genre_pair,
}
use foodie_note.Id3.Reader.OldTagRead.{read_comment-Placed, read_genre-Placed}

unmarked : (flag : Flag) (x : Found) → x ≡ no_flags → is_found flag x ≡ false
unfolding is_found
unmarked title_flag x e = ap (λ y. y.title_found) e
unmarked artist_flag x e = ap (λ y. y.artist_found) e
unmarked album_flag x e = ap (λ y. y.album_found) e
unmarked year_flag x e = ap (λ y. y.year_found) e
unmarked comment_flag x e = ap (λ y. y.comment_found) e
unmarked track_number_flag x e = ap (λ y. y.track_number_found) e
unmarked genre_flag x e = ap (λ y. y.genre_found) e

collect :
    (a b c d e g : Kvp) (xs ys : List Kvp)
    → (((((((xs ++ a ∷ []) ++ b ∷ []) ++ c ∷ []) ++ d ∷ []) ++ ys) ++ e ∷ []) ++ g ∷ [])
      ≡ xs ++ (a ∷ b ∷ c ∷ d ∷ (ys ++ e ∷ g ∷ []))
collect a b c d e g [] ys = ap (λ zs. a ∷ b ∷ c ∷ d ∷ zs) (append_assoc ys (e ∷ []) (g ∷ []))
collect a b c d e g (x ∷ xs) ys = ap (λ zs. x ∷ zs) (collect a b c d e g xs ys)

module _ (f : InputFile) (others : OtherReaders f.State) where
  open f use {State, bytes}

  read_field-Placed :
      (flag : Flag) (t : FrameType) (n : ℕ) (bs rest : List ℕ) (p : Parser State)
      → IsTextType t
      → is_found flag p.found ≡ false
      → n ≡ length bs
      → 1 ≤ n
      → n < 2 ^ 31
      → Placed f p.input (bs ++ rest)
      → (s : State) × (read_field f others flag t n p ≡ (
        returned true,
        record p {
          input = s;
          frames = p.frames ++ pair_of p t charset_iso88591 bs ∷ [];
          found = mark (some flag) p.found;
        },
      ))
        × Placed f s rest
  unfolding read_field is_marked set_found or_leave behind
  read_field-Placed flag t n bs rest p text fresh e nonempty small h =
      let (s, same, placed) =
        read_string_value_frame-Placed f others t charset_iso88591 bs rest p text (omega arith)
          (omega arith) h in
      let sized : read_string_value_frame f others t charset_iso88591 n p ≡ (
        returned true,
        record p { input = s; frames = p.frames ++ pair_of p t charset_iso88591 bs ∷ [] },
      ) =
        ap (λ k. read_string_value_frame f others t charset_iso88591 k p) e ∙ same in
      (s, rw fresh (behind_eq _ sized refl), placed)

  read_id3v1_tag-Placed :
      (x : OldTag) (p : Parser State)
      → HasWidths x
      → p.found ≡ no_flags
      → p.version ≡ v1
      → Placed f p.input (fields x)
      → (q : Parser State) × (read_id3v1_tag f others p ≡ (returned tt, q))
        × (q.frames ≡ p.frames ++ old_pairs x)
  unfolding read_id3v1_tag if_going mark is_found construct_kvp_key
  read_id3v1_tag-Placed x p (w1, w2, w3, w4, w5) fresh old h =
      let (s1, t1, h1) =
        read_field-Placed title_flag title 30 x.title_bytes _ p tt
          (unmarked title_flag p.found fresh) (sym w1) (omega arith) (omega arith) h in
      let p1 = record p {
        input = s1;
        frames = p.frames ++ pair_of p title charset_iso88591 x.title_bytes ∷ [];
        found = mark (some title_flag) p.found;
      } in
      let (s2, t2, h2) =
        read_field-Placed artist_flag artist 30 x.artist_bytes _ p1 tt
          (unmarked artist_flag p.found fresh) (sym w2) (omega arith) (omega arith) h1 in
      let p2 = record p1 {
        input = s2;
        frames = p1.frames ++ pair_of p artist charset_iso88591 x.artist_bytes ∷ [];
        found = mark (some artist_flag) p1.found;
      } in
      let (s3, t3, h3) =
        read_field-Placed album_flag album 30 x.album_bytes _ p2 tt
          (unmarked album_flag p.found fresh) (sym w3) (omega arith) (omega arith) h2 in
      let p3 = record p2 {
        input = s3;
        frames = p2.frames ++ pair_of p album charset_iso88591 x.album_bytes ∷ [];
        found = mark (some album_flag) p2.found;
      } in
      let (s4, t4, h4) =
        read_field-Placed year_flag year 4 x.year_bytes _ p3 tt (unmarked year_flag p.found fresh)
          (sym w4) (omega arith) (omega arith) h3 in
      let p4 = record p3 {
        input = s4;
        frames = p3.frames ++ pair_of p year charset_iso88591 x.year_bytes ∷ [];
        found = mark (some year_flag) p3.found;
      } in
      let (p5, t5, pairs5, h5, kept) =
        read_comment-Placed f others x.comment_bytes (x.genre_byte ∷ []) p4 w5
          (unmarked comment_flag p.found fresh) (unmarked track_number_flag p.found fresh) old h4 in
      let (q, t6, pairs6) =
        read_genre-Placed f others x.genre_byte [] p5 (kept ∙ unmarked genre_flag p.found fresh)
          h5 in
      (
        q,
        behind_eq _ t1 (behind_eq _ t2 (behind_eq _ t3 (behind_eq _ t4 (behind_eq _ t5 t6)))),
        pairs6
            ∙ ap (λ ys. ys ++ genre_pair x.genre_byte ∷ []) pairs5
            ∙ collect _ _ _ _ _ _ p.frames (track_pairs x.comment_bytes),
      )

  check_for_tag_id3v1-Placed :
      (before rest : List ℕ) (p : Parser State)
      → length rest ≡ 125
      → p.file_size ≡ length bytes
      → bytes ≡ before ++ (codes "TAG" ++ rest)
      → (t : State) × (check_for_tag_id3v1 f others p
          ≡ (returned true, record p { input = t; v1_present = true }))
        × Placed f t rest
  unfolding check_for_tag_id3v1 starts_with
  check_for_tag_id3v1-Placed before rest p long sized whole =
      let all : length bytes ≡ length before + 128 =
        rw whole (omega (arith, long, length-append before (codes "TAG" ++ rest))) in
      let large : leb 128 p.file_size ≡ true = ground arith in
      let (s, sought, here) =
        seek_to_placed f (p.file_size - 128) before (codes "TAG" ++ rest) p (omega arith) whole in
      let (t, got, there) =
        read_byte_data-Placed f 3 (codes "TAG") rest (record p { input = s }) refl here in
      (t, step_eq _ (rw large (behind_eq _ sought (behind_eq _ got (step_eq _ refl)))), there)

  length-fields : (x : OldTag) → HasWidths x → length (fields x) ≡ 125
  length-fields x (w1, w2, w3, w4, w5) = omega (
    arith,
    length-append x.title_bytes _,
    length-append x.artist_bytes _,
    length-append x.album_bytes _,
    length-append x.year_bytes _,
    length-append x.comment_bytes (x.genre_byte ∷ []),
  )

  -- Where no field was found before and the file ends with a tag of ID3v1, whose fields have their
  -- widths, reading it succeeds and hands out the title, the artist, the album and the year, the
  -- track number where the comment ends with a zero and another byte, the comment up to its first
  -- zero in 31 bytes, and the genre, in this order behind the frames that were there.
  pub read_old_tag-fields :
      (x : OldTag) (before : List ℕ) (p : Parser State)
      → HasWidths x
      → p.found ≡ no_flags
      → p.file_size ≡ length bytes
      → bytes ≡ before ++ (codes "TAG" ++ fields x)
      → (q : Parser State) × (read_old_tag f others p ≡ (returned true, q))
        × (q.frames ≡ p.frames ++ old_pairs x)
  unfolding read_old_tag
  read_old_tag-fields x before p widths fresh sized whole =
      let (t, present, here) =
        check_for_tag_id3v1-Placed before (fields x) p (length-fields x widths) sized whole in
      let (q, read_it, pairs) =
        read_id3v1_tag-Placed x (record p { input = t; v1_present = true; version = v1 }) widths
          fresh refl here in
      (q, behind_eq _ present (step_eq _ (behind_eq _ read_it refl)), pairs)
