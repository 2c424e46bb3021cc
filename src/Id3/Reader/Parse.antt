-- ===== src/Id3/Reader/Parse.antt =====
-- ParseID3Tag on a file with a written tag at its beginning.
use foodie_note.Id3.KvpKey.{Version, invalid_version, v1, v1_1, v2_2, v2_3, v2_4}
use foodie_note.Id3.Reader.Access.{
  be32, Placed, read_byte_data-Placed, read_word-Placed, seek_to_placed,
}
use foodie_note.Id3.Reader.Ending.{padding}
use foodie_note.Id3.Reader.Input.{InputFile}
use foodie_note.Id3.Reader.OldTag.{check_for_tag_id3v1}
use foodie_note.Id3.Reader.ReadRound.{pair_read}
use foodie_note.Id3.Reader.ReadTag.{IsWrittenFrame}
use foodie_note.Id3.Reader.ReadWhole.{tell-Placed, read_tags_written}
use foodie_note.Id3.Reader.State.{
  Parser, returned, behind_eq, step_eq, join_bytes, new_parser, seek_to,
}
use foodie_note.Id3.Reader.Tag.{
  check_for_tag_id3v2, note_size, version_of, read_tags, read_header_id3v2, measure, read_old_tag,
  return_to, parse_id3_tag,
}
use foodie_note.Id3.Reader.Values.{OtherReaders}
use foodie_note.Id3.Reader.Written.{IsPlain, WrittenFrame, tag_bytes}
use foodie_note.Id3.SyncSafe.{convert_to_sync_safe_int}
use foodie_note.Prelude.Text.{codes, starts_with}
use foodie_note.Prelude.{
  ℕ, zero, suc, ◌+◌, ◌-◌, ◌^◌, ◌≤◌, ◌<◌, ◌≡◌, ◌∙◌, ◌⊎◌, inl, inr, refl, sym, ap, arith, Bool,
  Bool-cases, true, false, List, [], ◌∷◌, ◌++◌, map, length, length-append, length-drop,
  length-take, take, drop, append_assoc, All, leb, leb→le,
}

-- The bytes of a file: a tag with its size, and what follows the padding.
abbrev pub major_of : Version → ℕ
major_of v2_2 = 2
major_of v2_3 = 3
major_of v2_4 = 4
major_of _ = 0

abbrev pub behind_version : ℕ → List WrittenFrame → List ℕ → List ℕ
behind_version size xs rest =
    0 ∷ (be32 (convert_to_sync_safe_int size) ++ (tag_bytes xs ++ (padding ++ rest)))

unfoldable pub file_bytes : Version → ℕ → List WrittenFrame → List ℕ → List ℕ
file_bytes v size xs rest = codes "ID3" ++ (major_of v ∷ 0 ∷ behind_version size xs rest)

-- Contents that do not end with a tag of ID3v1.
abbrev pub HasNoOldTag : List ℕ → Type 0
HasNoOldTag bs =
    (length bs < 128) ⊎ (starts_with (take 3 (drop (length bs - 128) bs)) (codes "TAG") ≡ false)

version_of-major_of : (v w : Version) → IsPlain v 0 → version_of (major_of v) w ≡ v
unfolding version_of
version_of-major_of v2_3 w h = refl
version_of-major_of v2_4 w h = refl
version_of-major_of invalid_version w h = absurd h
version_of-major_of v1 w h = absurd h
version_of-major_of v1_1 w h = absurd h
version_of-major_of v2_2 w h = absurd h

join_major : (v : Version) → IsPlain v 0 → join_bytes 8 0 (major_of v ∷ []) ≡ major_of v
unfolding join_bytes
join_major v2_3 h = refl
join_major v2_4 h = refl
join_major invalid_version h = absurd h
join_major v1 h = absurd h
join_major v1_1 h = absurd h
join_major v2_2 h = absurd h

take-drop : {A : Type 0} (n : ℕ) (xs : List A) → xs ≡ take n xs ++ drop n xs
take-drop zero xs = refl
take-drop (suc n) [] = refl
take-drop (suc n) (x ∷ xs) = ap (λ ys. x ∷ ys) (take-drop n xs)

module _ (f : InputFile) (others : OtherReaders f.State) where
  open f use {State, bytes, tell}

  check_for_tag_id3v1_absent :
      (p : Parser State)
      → p.file_size ≡ length bytes
      → HasNoOldTag bytes
      → (t : State) × (check_for_tag_id3v1 f others p ≡ (returned false, record p { input = t }))
  unfolding check_for_tag_id3v1
  check_for_tag_id3v1_absent p sized (inl short) =
      let small : leb 128 p.file_size ≡ false = ground arith in (p.input, step_eq _ (rw small refl))
  check_for_tag_id3v1_absent p sized (inr other) = elim (Bool-cases (leb 128 p.file_size)) [
    | inr small ↦ (p.input, step_eq _ (rw small refl))
    | inl large ↦
        let from = length bytes - 128 in
        let long : 128 ≤ length bytes = omega (arith, leb→le 128 p.file_size large, sized) in
        let (s, sought, here) =
          seek_to_placed f (p.file_size - 128) (take from bytes) (drop from bytes) p
            (omega (arith, sized, length-take from bytes)) (take-drop from bytes) in
        let (t, got, there) =
          read_byte_data-Placed f 3 (take 3 (drop from bytes)) (drop 3 (drop from bytes))
            (record p { input = s })
            (omega (arith, long, length-take 3 (drop from bytes), length-drop from bytes))
            (here.0, here.1 ∙ take-drop 3 (drop from bytes)) in
        (t, step_eq _ (rw large (behind_eq _ sought (behind_eq _ got (rw other refl)))))
  ]

  old_tag_absent :
      (p : Parser State)
      → p.file_size ≡ length bytes
      → HasNoOldTag bytes
      → (t : State) × (read_old_tag f others p ≡ (returned false, record p { input = t }))
  unfolding read_old_tag
  old_tag_absent p sized none =
      let (t, absent) = check_for_tag_id3v1_absent p sized none in (t, behind_eq _ absent refl)

  read_header_written :
      (n m size : ℕ) (v : Version) (xs : List WrittenFrame) (before rest : List ℕ)
      (p : Parser State)
      → length xs + 2 ≤ m
      → All (IsWrittenFrame v) xs
      → IsPlain v 0
      → size < 2 ^ 28
      → length (tag_bytes xs) ≤ size
      → length before + size + 18 < 2 ^ 31
      → p.ext_size ≡ 0
      → p.seek_frame_found ≡ false
      → bytes ≡ before ++ (major_of v ∷ 0 ∷ behind_version size xs rest)
      → Placed f p.input (major_of v ∷ 0 ∷ behind_version size xs rest)
      → (q : Parser State) × (r : Bool) × (read_header_id3v2 f others (suc n) m true p
          ≡ (returned r, q))
        × (q.frames ≡ p.frames ++ map (pair_read v p.language) xs)
        × (q.byte_offset ≡ (note_size 0 size p).byte_offset)
        × (q.file_size ≡ p.file_size)
  unfolding read_header_id3v2 note_size
  read_header_written n m size v xs before rest p enough h plain small fits low no_ext no_seek whole
        here =
      let (s, major, major_here) = read_word-Placed f 8 1 (major_of v ∷ []) _ p refl here in
      let (t, minor, minor_here) =
        read_word-Placed f 8 1 (0 ∷ []) (behind_version size xs rest) (record p { input = s }) refl
          major_here in
      let known : version_of (join_bytes 8 0 (major_of v ∷ [])) p.version ≡ v =
        ap (λ k. version_of k p.version) (join_major v plain)
        ∙ version_of-major_of v p.version plain in
      let p1 = record p { input = t; version = v } in
      let front = before ++ major_of v ∷ 0 ∷ [] in
      let (q, r, done, pairs, offset, file) =
        read_tags_written f others n m size xs front rest p1 enough h plain small fits
          (omega (arith, low, length-append before (major_of v ∷ 0 ∷ []))) no_ext no_seek
          (whole ∙ sym (append_assoc before (major_of v ∷ 0 ∷ []) (behind_version size xs rest)))
          minor_here in
      (
        q,
        r,
        behind_eq _ major (
            behind_eq _ minor (
              step_eq _ (
                ap (λ w. read_tags f others (suc n) m false (record p { input = t; version = w }))
                  known
                ∙ done))),
        pairs,
        offset,
        file,
      )

  measure-Placed :
      (here : ℕ) (p : Parser State)
      → here ≡ 0
      → (t : State) × (measure f others here p
          ≡ (returned true, record p { input = t; file_size = length bytes }))
        × Placed f t bytes
  unfolding measure
  measure-Placed here p start =
      let (s, sought, sought_here) = seek_to_placed f 0 [] bytes p refl refl in
      let size : f.remaining s ≡ length bytes = omega (
        arith,
        tell-Placed f others s [] bytes refl sought_here,
        f.remaining_bytes s sought_here.0,
      ) in
      let (t, back, back_here) =
        seek_to_placed f here [] bytes (record p { input = s; file_size = length bytes }) start
          refl in
      (
        t,
        behind_eq _ sought (
            step_eq _
              (ap (λ n. seek_to f here (record p { input = s; file_size = n })) size ∙ back)),
        back_here,
      )

  check_for_tag_id3v2-Placed :
      (rest : List ℕ) (p : Parser State)
      → Placed f p.input (codes "ID3" ++ rest)
      → (t : State) × (check_for_tag_id3v2 f others p
          ≡ (returned true, record p { input = t; tag_at_bof = true; v2_present = true }))
        × Placed f t rest
  unfolding check_for_tag_id3v2 starts_with
  check_for_tag_id3v2-Placed rest p h =
      let (t, got, here) = read_byte_data-Placed f 3 (codes "ID3") rest p refl h in
      (t, behind_eq _ got (step_eq _ refl), here)

  -- A new parser on a file that begins with a tag of ID3v2.3 or ID3v2.4 of text frames, in ID3v2.4 with
  -- at most 127 bytes of data in each, with at least ten bytes of padding, and does not end with a tag of
  -- ID3v1. The texts are not empty, except behind a byte order mark, in ISO-8859-1, UTF-8, little-endian
  -- UTF-16 with a byte order mark or big-endian UTF-16, of units below 0x10000. With fuel for one tag and
  -- for two rounds more than there are frames, ParseID3Tag returns PVMFSuccess, and the frames are pairs
  -- in order with the key of the type and the text, terminated by 0: unchanged, except that each unit of
  -- big-endian UTF-16 is the character that the transfer makes of it on wide characters of four bytes,
  -- which is 1. The audio begins behind the tag, and the position in the file is what it was.
  pub parse_id3_tag-file_bytes :
      (n m room size : ℕ) (v : Version) (xs : List WrittenFrame) (rest : List ℕ) (s : State)
      (id : List ℕ) (offset : ℕ) (lang : List ℕ)
      → length xs + 2 ≤ m
      → All (IsWrittenFrame v) xs
      → IsPlain v 0
      → size + 21 < 2 ^ 28
      → length (tag_bytes xs) ≤ size
      → bytes ≡ file_bytes v size xs rest
      → HasNoOldTag bytes
      → tell s ≡ 0
      → (q : Parser State) × (parse_id3_tag f others (suc n) m room (new_parser s id offset lang)
          ≡ (returned true, q))
        × (q.frames ≡ map (pair_read v lang) xs)
        × (q.byte_offset ≡ size + 10)
        × (tell q.input ≡ 0)
  unfolding parse_id3_tag file_bytes return_to new_parser note_size
  parse_id3_tag-file_bytes n m room size v xs rest s id offset lang enough h plain small fits whole
        none start =
      let content = major_of v ∷ 0 ∷ behind_version size xs rest in
      let p = new_parser s id offset lang in
      let (t, measured, measured_here) = measure-Placed (tell s) p start in
      let p1 = record p { input = t; file_size = length bytes } in
      let (u, checked, checked_here) =
        check_for_tag_id3v2-Placed content p1 (measured_here.0, measured_here.1 ∙ whole) in
      let p2 = record p1 { input = u; tag_at_bof = true; v2_present = true } in
      let (q, r, headed, pairs, audio, file) =
        read_header_written n m size v xs (codes "ID3") rest p2 enough h plain (omega arith) fits
          (omega arith) refl refl whole checked_here in
      let (w, absent) = old_tag_absent q file none in
      let (x, back, back_here) =
        seek_to_placed f (tell s) [] bytes (record q { input = w }) start refl in
      (
        record q { input = x },
        step_eq _ (
            behind_eq _ measured
              (behind_eq _ checked (step_eq _ (behind_eq _ headed (behind_eq _ absent back))))),
        pairs,
        audio ∙ omega arith,
        tell-Placed f others x [] bytes refl back_here,
      )
