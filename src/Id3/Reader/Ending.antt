-- ===== src/Id3/Reader/Ending.antt =====
-- The round of the loop over the frames of a tag that meets the padding: the loop ends.
use foodie_note.Id3.FrameIds.{frame_supported, frame_supported_v2_3, match_entry}
use foodie_note.Id3.FrameTables.{frame_table}
use foodie_note.Id3.KvpKey.{eend, Version}
use foodie_note.Prelude.Text.{starts_with}
use foodie_note.Id3.Reader.Access.{be32, seek_to_placed}
use foodie_note.Id3.Reader.Frames.{
  Cursor, next, behind_frame, read_frame, read_length, follow_type, follow_header,
  frame_header_size, is_seek, round, unless_encrypted,
}
use foodie_note.Id3.Reader.Headers.{is_eend, overwrite, supported}
use foodie_note.Id3.Reader.Input.{InputFile}
use foodie_note.Id3.Reader.ReadHeader.{behind_header, read_frame_header-Placed}
use foodie_note.Id3.Reader.State.{Parser, returned, behind_eq, step_eq}
use foodie_note.Id3.Reader.Values.{OtherReaders}
use foodie_note.Id3.Reader.Written.{IsPlain, IsPlain-tests}
use foodie_note.Prelude.{
  ℕ, ◌+◌, ◌%◌, ◌^◌, ◌<◌, ◌≡◌, ◌∙◌, refl, ap, arith, none, List, [], ◌∷◌, ◌++◌, length, drop, get_or,
  le→ltb_false,
}

-- The padding that the loop reads.
abbrev pub padding : List ℕ
padding = 0 ∷ 0 ∷ 0 ∷ 0 ∷ 0 ∷ 0 ∷ 0 ∷ 0 ∷ 0 ∷ 0 ∷ []

-- The variables behind the padding.
abbrev pub behind_end : Cursor → ℕ → Cursor
behind_end c tag_size = record c { i = tag_size + 11 }

module _ (f : InputFile) (others : OtherReaders f.State) (v : Version) (base : ℕ) where
  open f use {State, bytes}

  read_frame_eend :
      (c : Cursor) (p : Parser State)
      → IsPlain v 0
      → p.frame_size ≡ 0
      → p.tag_size + 11 < 2 ^ 32
      → read_frame f others v base c eend 0 p ≡ (returned (next (behind_end c p.tag_size)), p)
  unfolding read_frame is_eend behind_frame
  read_frame_eend c p plain zero_size small =
      let size = (IsPlain-tests v 0 eend [] [] p.found plain).4 in
      let at : (p.tag_size + 1 + p.frame_size + frame_header_size v) % 2 ^ 32 ≡ p.tag_size + 11 =
        omega (arith, size) in
      step_eq _ (ap (λ k. (returned (next (record c { i = k })), p)) at)

  follow_type_eend :
      (c : Cursor) (p : Parser State)
      → IsPlain v 0
      → p.frame_size ≡ 0
      → p.tag_size + 11 < 2 ^ 32
      → follow_type f others v base c eend 0 0 p ≡ (returned (next (behind_end c p.tag_size)), p)
  unfolding follow_type read_length is_seek
  follow_type_eend c p plain zero_size small =
      rw ((IsPlain-tests v 0 eend [] [] p.found plain).2, read_length)
        (read_frame_eend c p plain zero_size small)

  follow_header_eend :
      (c : Cursor) (p : Parser State)
      → IsPlain v 0
      → p.frame_size ≡ 0
      → p.tag_size + 11 < 2 ^ 32
      → get_or p.frame_flag 1 0 ≡ 0
      → follow_header f others v base c eend 0 p ≡ (returned (next (behind_end c p.tag_size)), p)
  unfolding follow_header is_seek is_eend
  follow_header_eend c p plain zero_size small flag =
      let typed : unless_encrypted v (get_or p.frame_flag 1 0) eend ≡ eend =
        ap (λ x. unless_encrypted v x eend) flag ∙ (IsPlain-tests v 0 eend [] [] p.found plain).3 in
      step_eq _ (
        rw (le→ltb_false p.tag_size 0 (omega arith)) (
          step_eq _ (
            ap (λ u. follow_type f others v base c u (get_or p.frame_flag 1 0) 0 p) typed
            ∙ (ap (λ x. follow_type f others v base c eend x 0 p) flag
                ∙ follow_type_eend c p plain zero_size small))))

  zeros_supported :
      (q : Parser State) (r : List ℕ)
      → IsPlain v 0
      → q.frame_id ≡ 0 ∷ 0 ∷ 0 ∷ 0 ∷ r
      → supported v none q ≡ (returned eend, q)
  unfolding supported frame_supported frame_supported_v2_3 match_entry frame_table starts_with
  zeros_supported q r plain e =
      rw e
        (rw ((IsPlain-tests v 0 eend (0 ∷ 0 ∷ 0 ∷ 0 ∷ r) (0 ∷ 0 ∷ 0 ∷ 0 ∷ r) q.found plain).5) refl)

  -- A round that meets the padding.
  pub round-padding :
      (c : Cursor) (before rest : List ℕ) (p : Parser State)
      → IsPlain v 0
      → p.tag_size + 11 < 2 ^ 32
      → base + c.i ≡ length before
      → base + c.i < 2 ^ 32
      → bytes ≡ before ++ (padding ++ rest)
      → (t : State) × (round f others v base c p ≡ (
        returned (next (behind_end c p.tag_size)),
        behind_header p t (0 ∷ 0 ∷ 0 ∷ 0 ∷ []) 0 (0 ∷ 0 ∷ []),
      ))
  unfolding round
  round-padding c before rest p plain small e low whole =
      let (s, sought, sought_here) =
        seek_to_placed f ((base + c.i) % 2 ^ 32) before (padding ++ rest) p (omega arith) whole in
      let (t, headed, headed_here) =
        read_frame_header-Placed f v (0 ∷ 0 ∷ 0 ∷ 0 ∷ []) 0 0 0 rest (record p { input = s }) plain
          refl (omega arith) (unfold be32 in sought_here) in
      let q = behind_header (record p { input = s }) t (0 ∷ 0 ∷ 0 ∷ 0 ∷ []) 0 (0 ∷ 0 ∷ []) in
      (
        t,
        behind_eq _ sought (
            behind_eq _ headed (
              step_eq _ (
                behind_eq _
                  (zeros_supported q (0 ∷ drop 5 p.frame_id) plain (unfold overwrite in refl))
                  (follow_header_eend c q plain refl small (unfold overwrite in refl))))),
      )
