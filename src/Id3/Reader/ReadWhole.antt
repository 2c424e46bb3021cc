-- ===== src/Id3/Reader/ReadWhole.antt =====
-- ParseID3Tag on a file that begins with a tag of ID3v2.3 or ID3v2.4 with written text frames.
use foodie_note.Id3.Reader.Access.{be32, join_bytes-be32, Placed, read_word-Placed}
use foodie_note.Id3.Reader.Ending.{padding}
use foodie_note.Id3.Reader.Frames.{Cursor, read_tag}
use foodie_note.Id3.Reader.Input.{InputFile}
use foodie_note.Id3.Reader.ReadHeader.{be32-length}
use foodie_note.Id3.Reader.ReadRound.{pair_read}
use foodie_note.Id3.Reader.ReadTag.{IsWrittenFrame, tag_loop_written}
use foodie_note.Id3.Reader.State.{Parser, returned, behind_eq, step_eq, join_bytes}
use foodie_note.Id3.Reader.Tag.{read_extension, note_size, begin_v2, read_tags}
use foodie_note.Id3.Reader.Values.{OtherReaders}
use foodie_note.Id3.Reader.Written.{IsPlain, WrittenFrame, tag_bytes}
use foodie_note.Id3.SyncSafe.{
  safe_synch_int_to_int32-convert_to_sync_safe_int, convert_to_sync_safe_int-IsSyncSafe,
  safe_synch_int_to_int32, convert_to_sync_safe_int,
}
use foodie_note.Prelude.{
  ℕ, suc, ◌+◌, ◌-◌, ◌^◌, ◌≤◌, ◌<◌, ◌≡◌, ◌∙◌, refl, sym, ap, arith, Bool, true, false, ◌||◌, List,
  [], ◌∷◌, ◌++◌, map, length, length-append, length-drop, append_assoc, All, ltb,
}

module _ (f : InputFile) (others : OtherReaders f.State) where
  open f use {State, bytes, tell}

  -- The position in front of the given bytes.
  pub tell-Placed :
      (t : State) (before rest : List ℕ)
      → bytes ≡ before ++ rest
      → Placed f t rest
      → tell t ≡ length before
  tell-Placed t before rest whole (inside, here) =
      let all : length bytes ≡ length before + length rest =
        ap (λ z. length z) whole ∙ length-append before rest in
      let left : length rest ≡ length bytes - tell t =
        sym (ap (λ z. length z) here) ∙ length-drop (tell t) bytes in
      omega (arith, all, left, inside)

  -- The header's flags, which are not set, and the size, with the frames behind them.
  begin_v2-Placed :
      (size : ℕ) (rest : List ℕ) (p : Parser State)
      → size < 2 ^ 32
      → Placed f p.input (0 ∷ (be32 size ++ rest))
      → (t : State) × (begin_v2 f others p ≡ (
        returned true,
        note_size 0 (safe_synch_int_to_int32 size) (record p { input = t; tag_flags = 0 }),
      ))
        × Placed f t rest
  unfolding begin_v2 read_extension join_bytes
  begin_v2-Placed size rest p small h =
      let (s, flagged, flagged_here) =
        read_word-Placed f 8 1 (0 ∷ []) (be32 size ++ rest) p refl h in
      let p1 = record p { input = s; tag_flags = 0 } in
      let (t, sized, here) =
        read_word-Placed f 32 4 (be32 size) rest p1 (be32-length size) flagged_here in
      (
        t,
        behind_eq _ flagged (
            step_eq _ (
              behind_eq _ sized (
                behind_eq _ (step_eq _ refl) (
                  step_eq _ (
                    ap
                      (λ n. (
                        returned true,
                        note_size 0 (safe_synch_int_to_int32 n)
                            (record p { input = t; tag_flags = 0 }),
                      ))
                      (join_bytes-be32 size small)))))),
        here,
      )

  -- The tag behind its header: the frames are handed out.
  pub read_tags_written :
      (n m size : ℕ) (xs : List WrittenFrame) (before rest : List ℕ) (p : Parser State)
      → length xs + 2 ≤ m
      → All (IsWrittenFrame p.version) xs
      → IsPlain p.version 0
      → size < 2 ^ 28
      → length (tag_bytes xs) ≤ size
      → length before + size + 16 < 2 ^ 31
      → p.ext_size ≡ 0
      → p.seek_frame_found ≡ false
      → bytes
        ≡ before
          ++ (0 ∷ (be32 (convert_to_sync_safe_int size) ++ (tag_bytes xs ++ (padding ++ rest))))
      → Placed f p.input
          (0 ∷ (be32 (convert_to_sync_safe_int size) ++ (tag_bytes xs ++ (padding ++ rest))))
      → (q : Parser State) × (r : Bool) × (read_tags f others (suc n) m false p ≡ (returned r, q))
        × (q.frames ≡ p.frames ++ map (pair_read p.version p.language) xs)
        × (q.byte_offset ≡ (note_size 0 size p).byte_offset)
        × (q.file_size ≡ p.file_size)
  unfolding read_tags read_tag note_size
  read_tags_written n m size xs before rest p enough h plain small fits low no_ext no_seek whole
        here =
      let word = convert_to_sync_safe_int size in
      let (t, begun, begun_here) =
        begin_v2-Placed word (tag_bytes xs ++ (padding ++ rest)) p
          (convert_to_sync_safe_int-IsSyncSafe size).0 here in
      let safe : safe_synch_int_to_int32 word ≡ size =
        safe_synch_int_to_int32-convert_to_sync_safe_int size ∙ omega arith in
      let p1 = note_size 0 size (record p { input = t; tag_flags = 0 }) in
      let noted =
        begun
        ∙ ap (λ n. (returned true, note_size 0 n (record p { input = t; tag_flags = 0 }))) safe in
      let front = before ++ 0 ∷ be32 word in
      let whole1 : bytes ≡ front ++ (tag_bytes xs ++ (padding ++ rest)) =
        whole ∙ sym (append_assoc before (0 ∷ be32 word) (tag_bytes xs ++ (padding ++ rest))) in
      let base : tell t ≡ length before + 5 = omega (
        arith,
        tell-Placed t front (tag_bytes xs ++ (padding ++ rest)) whole1 begun_here,
        length-append before (0 ∷ be32 word),
        be32-length word,
      ) in
      let c : Cursor = record { i = p.ext_size; data_len_indicator_size = 0; count = 0 } in
      let (u, fd, id, size2, fl, looped) =
        tag_loop_written f others p.version (tell t) m c xs front rest p1 enough h plain
          (omega (arith, no_ext, fits)) (omega (arith, base, low)) refl
          (omega (arith, base, no_ext, length-append before (0 ∷ be32 word), be32-length word))
          whole1 in
      (
        record p1 {
          input = u;
          frames = p.frames ++ map (pair_read p.version p.language) xs;
          found = fd;
          frame_id = id;
          frame_size = size2;
          frame_flag = fl;
        },
        false || ltb 0 (0 + length xs),
        behind_eq _ noted
            (step_eq _ (behind_eq _ (step_eq _ (step_eq _ looped)) (step_eq _ (rw no_seek refl)))),
        refl,
        refl,
        refl,
      )
