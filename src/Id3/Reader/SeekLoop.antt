-- ===== src/Id3/Reader/SeekLoop.antt =====
-- A frame with which the loop over the frames of a tag goes on for ever.
use foodie_note.Id3.FrameIds.{
  frame_supported, frame_supported_version, frame_supported_v2_3, match_entry,
}
use foodie_note.Id3.FrameTables.{frame_table, mark}
use foodie_note.Id3.KvpKey.{v2_3, seek, unrecognized}
use foodie_note.Id3.Reader.Access.{be32, seek_to_placed}
use foodie_note.Id3.Reader.Frames.{
  Cursor, next, round, follow_header, follow_type, read_length, read_frame, behind_frame, is_seek,
  is_looked_at, is_unrecognized, tag_loop, unless_encrypted, frame_header_size,
}
use foodie_note.Id3.Reader.Headers.{is_eend, is_invalid, is_v2_2, is_v2_4, overwrite, supported}
use foodie_note.Id3.Reader.Input.{InputFile}
use foodie_note.Id3.Reader.ReadHeader.{behind_header, read_frame_header-Placed}
use foodie_note.Id3.Reader.ReadTag.{tag_loop_goes}
use foodie_note.Id3.Reader.State.{Parser, returned, running, behind_eq, step_eq}
use foodie_note.Id3.Reader.Values.{OtherReaders}
use foodie_note.Prelude.Text.{codes, starts_with}
use foodie_note.Prelude.{
  ℕ, zero, suc, ◌+◌, ◌-◌, ◌%◌, ◌^◌, ◌≤◌, ◌<◌, ◌≡◌, ◌∙◌, refl, ap, arith, false, none, List, [], ◌∷◌,
  ◌++◌, length, drop, get_or, bit_and, ◌==◌,
}

-- The bytes of a seek frame with the given flags, whose size takes the offset back to the frame.
unfoldable pub seek_frame : ℕ → ℕ → List ℕ → List ℕ
seek_frame a b rest = codes "SEEK" ++ (be32 (2 ^ 32 - 10) ++ a ∷ b ∷ rest)

module _ (f : InputFile) (others : OtherReaders f.State) (base : ℕ) where
  open f use {State, bytes}

  -- An encrypted seek frame is passed by, and the offset stays.
  follow_type_stays :
      (c : Cursor) (flag : ℕ) (p : Parser State)
      → c.i < 2 ^ 32
      → p.frame_size ≡ 2 ^ 32 - 10
      → follow_type f others v2_3 base c unrecognized flag (2 ^ 32 - 10) p ≡ (returned (next c), p)
  unfolding follow_type is_seek read_length is_v2_4 read_frame is_looked_at is_unrecognized
      is_invalid is_eend behind_frame frame_header_size is_v2_2
  follow_type_stays c flag p small size =
      let at : (c.i + p.frame_size + 10) % 2 ^ 32 ≡ c.i = omega arith in
      step_eq _ (ap (λ k. (returned (next (record c { i = k })), p)) at)

  follow_header_stays :
      (c : Cursor) (p : Parser State)
      → c.i < 2 ^ 32
      → p.frame_size ≡ 2 ^ 32 - 10
      → (bit_and (get_or p.frame_flag 1 0) 0xC0 == 0) ≡ false
      → follow_header f others v2_3 base c seek (2 ^ 32 - 10) p ≡ (returned (next c), p)
  unfolding follow_header is_seek
  follow_header_stays c p small size flagged =
      let type : unless_encrypted v2_3 (get_or p.frame_flag 1 0) seek ≡ unrecognized =
        rw (flagged, unless_encrypted) refl in
      step_eq _ (
        step_eq _ (
          ap (λ u. follow_type f others v2_3 base c u (get_or p.frame_flag 1 0) (2 ^ 32 - 10) p)
            type
          ∙ follow_type_stays c (get_or p.frame_flag 1 0) p small size))

  seek-supported :
      (q : Parser State) (r : List ℕ)
      → q.frame_id ≡ codes "SEEK" ++ r
      → supported v2_3 none q ≡ (returned seek, q)
  unfolding supported frame_supported frame_supported_version frame_supported_v2_3 match_entry
      frame_table starts_with mark
  seek-supported q r e = rw e refl

  round_stays :
      (c : Cursor) (a b : ℕ) (before rest : List ℕ) (p : Parser State)
      → (bit_and b 0xC0 == 0) ≡ false
      → base + c.i ≡ length before
      → base + c.i < 2 ^ 32
      → bytes ≡ before ++ seek_frame a b rest
      → (t : State) × (round f others v2_3 base c p
          ≡ (returned (next c), behind_header p t (codes "SEEK") (2 ^ 32 - 10) (a ∷ b ∷ [])))
  unfolding round seek_frame
  round_stays c a b before rest p flagged e low whole =
      let (s, sought, sought_here) =
        seek_to_placed f ((base + c.i) % 2 ^ 32) before (seek_frame a b rest) p (omega arith)
          whole in
      let (t, headed, headed_here) =
        read_frame_header-Placed f v2_3 (codes "SEEK") (2 ^ 32 - 10) a b rest
          (record p { input = s }) tt refl (omega arith) sought_here in
      let q = behind_header (record p { input = s }) t (codes "SEEK") (2 ^ 32 - 10) (a ∷ b ∷ []) in
      (
        t,
        behind_eq _ sought (
            behind_eq _ headed (
              step_eq _ (
                behind_eq _ (seek-supported q (0 ∷ drop 5 p.frame_id) (unfold overwrite in refl))
                  (follow_header_stays c q (omega arith) refl (unfold overwrite in flagged))))),
      )

  -- In a tag of ID3v2.3, at an offset inside it, a seek frame with a flag for compression or
  -- encryption and the size 2 ^ 32 - 10: whatever the fuel, the loop over the frames still runs when
  -- the fuel is used up.
  pub tag_loop-seek_frame :
      (n : ℕ) (c : Cursor) (a b : ℕ) (before rest : List ℕ) (p : Parser State)
      → (bit_and b 0xC0 == 0) ≡ false
      → c.i ≤ p.tag_size
      → base + c.i ≡ length before
      → base + c.i < 2 ^ 32
      → bytes ≡ before ++ seek_frame a b rest
      → (tag_loop f others v2_3 base n c p).0 ≡ running
  unfolding tag_loop
  tag_loop-seek_frame zero c a b before rest p flagged inside e low whole = refl
  tag_loop-seek_frame (suc n) c a b before rest p flagged inside e low whole =
      let (t, one) = round_stays c a b before rest p flagged e low whole in
      let q = behind_header p t (codes "SEEK") (2 ^ 32 - 10) (a ∷ b ∷ []) in
      ap (λ r. r.0) (tag_loop_goes f others v2_3 base n c c p q _ inside one refl)
      ∙ tag_loop-seek_frame n c a b before rest q flagged inside e low whole
