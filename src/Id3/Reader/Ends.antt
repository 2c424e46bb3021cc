-- ===== src/Id3/Reader/Ends.antt =====
-- The loop over the frames of a tag of ID3v2.2 ends, whatever the file holds.
use foodie_note.Id3.KvpKey.{charset_iso88591, FrameType, v2_2}
use foodie_note.Id3.Reader.Frames.{
  Cursor, Round, next, ends_with, round, follow_header, follow_type, read_length, read_frame,
  read_content, counted_round, behind_frame, is_seek, is_looked_at, is_lyrics_comm, is_album_art,
  read_lyrics_comm_frame, read_album_art_frame, frame_header_size, unless_encrypted, tag_loop,
}
use foodie_note.Id3.Reader.Headers.{
  is_eend, is_invalid, is_v2_2, is_v2_4, read_frame_header, read_frame_header_v2_2, read_frame_id,
  read_frame_size, supported,
}
use foodie_note.Id3.Reader.Input.{InputFile}
use foodie_note.Id3.Reader.Kept.{
  HasEnded, Keeps, bind-Keeps, if_Keeps, read_some-Keeps, seek_to-Keeps, read_word-Keeps,
  after_other_keeps, then_true-Keeps, handle_frame_data-Keeps, read_frame_data-Keeps,
}
use foodie_note.Id3.Reader.State.{
  Parser, Ended, returned, left, overrun, running, behind, ◌>>=◌, pure, read_word,
}
use foodie_note.Id3.Reader.Values.{OtherReaders}
use foodie_note.Prelude.{
  ℕ, zero, suc, ◌+◌, ◌-◌, ◌*◌, ◌^◌, ◌≤◌, ◌<◌, ◌≡◌, ◌∙◌, refl, sym, ap, arith, Bool, Bool-cases, inl,
  inr, true, false, not, ◌&&◌, ◌||◌, none, some, if◌then◌else◌, ltb, ltb_false→le, ◌==◌, get_or,
  length,
}
use foodie_note.Id3.Reader.Advances.{
  sizes, tag_size_of, Advances, step-Advances, step_ended, From, if_From, option-From, Keeps-From,
}
use foodie_note.Id3.Reader.NoSeek.{IsNoSeek, frame_supported-IsNoSeek}

module _ (f : InputFile) (others : OtherReaders f.State) (base : ℕ) where
  open f use {State}

  read_content-Keeps :
      (c : Cursor) (t : FrameType) (check len : ℕ)
      → Keeps sizes (read_content f others v2_2 base c t check len)
  unfolding read_content read_lyrics_comm_frame read_album_art_frame
  read_content-Keeps c t check len =
      if_Keeps sizes (is_lyrics_comm t) _ _
        (bind-Keeps sizes _ _
          (λ p.
            after_other_keeps f others sizes (λ p t xs lang fd. refl)
              (others.read_lyrics_comm p.version check (len - 1) t p.language p.input) p)
          (λ x p. (tt, refl)))
        (if_Keeps sizes (is_album_art t) _ _
          (if_Keeps sizes (ltb 3000000 len) _ _ (λ p. (tt, refl))
            (λ p.
              after_other_keeps f others sizes (λ p t xs lang fd. refl)
                (others.read_album_art p.version t check len p.language p.input) p))
          (if_Keeps sizes (ltb check 4) _ _
            (read_frame_data-Keeps f others sizes (λ p t xs lang fd. refl) check t _ len)
            (then_true-Keeps f others sizes (λ p t xs lang fd. refl) _
              (handle_frame_data-Keeps f others sizes (λ p t xs lang fd. refl) t charset_iso88591 _
                len))))

  -- A parser inside a tag of the given size, at a frame that fits into it.
  abbrev Inside : Cursor → ℕ → Parser State → Type 0
  Inside c size p = (c.i ≤ size) × (size < 2 ^ 28) × (p.tag_size ≡ size) × (p.frame_size ≤ size)

  Inside-kept :
      (c : Cursor) (size : ℕ) (p q : Parser State)
      → Inside c size p
      → sizes q ≡ sizes p
      → Inside c size q
  Inside-kept c size p q (inside, small, e, room) same =
      let tag = ap (λ z. z.0) same in
      let frame = ap (λ z. z.1) same in (inside, small, tag ∙ e, omega (arith, frame, room))

  counted-Advances :
      (c : Cursor) (size : ℕ) (b : Bool) (p : Parser State)
      → Inside c size p
      → Advances c size (counted_round f others v2_2 base c b p)
  unfolding counted_round behind_frame frame_header_size is_v2_2
  counted-Advances c size false p h = tt
  counted-Advances c size true p (inside, small, e, room) = (omega arith, e)

  passed-Advances :
      (c : Cursor) (size : ℕ) (ends : Bool) (p : Parser State)
      → Inside c size p
      → Advances c size
          (behind_frame f others v2_2 base (if ends then record c { i = p.tag_size + 1 } else c) p)
  unfolding behind_frame frame_header_size is_v2_2
  passed-Advances c size true p (inside, small, e, room) = (omega arith, e)
  passed-Advances c size false p (inside, small, e, room) = (omega arith, e)

  read_content_advances :
      (c : Cursor) (t : FrameType) (len size : ℕ)
      → From c size (Inside c size) (
          read_word f 8 1 >>= λ check. elim check [
            | none ↦ pure (ends_with c.count)
            | some b ↦
                read_content f others v2_2 base c t b len >>= counted_round f others v2_2 base c
          ])
  read_content_advances c t len size =
      Keeps-From c size (Inside c size) sizes _ _ (Inside-kept c size)
        (read_word-Keeps f sizes (λ p t. refl) 8 1)
        (λ o.
          option-From c size (Inside c size) o _ _ (λ p h. tt)
            (λ b.
              Keeps-From c size (Inside c size) sizes _ _ (Inside-kept c size)
                (read_content-Keeps c t b len) (λ goes p h. counted-Advances c size goes p h)))

  read_frame_advances :
      (c : Cursor) (t : FrameType) (len size : ℕ)
      → From c size (Inside c size) (read_frame f others v2_2 base c t len)
  unfolding read_frame
  read_frame_advances c t len size =
      if_From c size (Inside c size) (ltb 1 len && is_looked_at t) _ _
        (read_content_advances c t len size)
        (λ p h. step-Advances c size _ _ p (passed-Advances c size (is_eend t || is_invalid t) p h))

  follow_type-Advances :
      (c : Cursor) (t : FrameType) (flag len size : ℕ) (p : Parser State)
      → IsNoSeek t
      → Inside c size p
      → Advances c size (follow_type f others v2_2 base c t flag len p)
  unfolding follow_type read_length is_v2_4
  follow_type-Advances c t flag len size p other h = rw other (read_frame_advances c t len size p h)

  -- Behind the header, whose size may be larger than the tag.
  follow_header-Advances :
      (c : Cursor) (t : FrameType) (size : ℕ) (p : Parser State)
      → IsNoSeek t
      → c.i ≤ size
      → size < 2 ^ 28
      → p.tag_size ≡ size
      → Advances c size (follow_header f others v2_2 base c t p.frame_size p)
  unfolding follow_header unless_encrypted frame_header_size is_v2_2
  follow_header-Advances c t size p other inside small e =
      step-Advances c size _ _ p
        (elim (Bool-cases (not (is_seek t) && ltb p.tag_size p.frame_size)) [
          | inl large ↦ rw large tt
          | inr fits ↦ rw fits (elim (Bool-cases (p.frame_size == 0 && not (is_eend t))) [
            | inl empty ↦ rw empty (omega arith, e)
            | inr full ↦ rw full (
                step-Advances c size _ _ p (
                  follow_type-Advances c t (get_or p.frame_flag 1 0) p.frame_size size p other
                    (inside, small, e, room fits)))
          ])
        ])
    where
      room : (not (is_seek t) && ltb p.tag_size p.frame_size) ≡ false → p.frame_size ≤ size
      room fits =
          let within : ltb p.tag_size p.frame_size ≡ false =
            sym (ap (λ b. not b && ltb p.tag_size p.frame_size) other) ∙ fits in
          omega (arith, ltb_false→le p.tag_size p.frame_size within, e)

  -- The header of ID3v2.2 leaves the size of the tag.
  read_frame_header-Keeps : Keeps tag_size_of (read_frame_header f v2_2)
  unfolding read_frame_header is_v2_2 read_frame_header_v2_2 read_frame_id read_frame_size
  read_frame_header-Keeps =
      bind-Keeps tag_size_of _ _
        (bind-Keeps tag_size_of _ _ (read_some-Keeps f tag_size_of (λ p t. refl) 3) (λ bs.
          if_Keeps tag_size_of (ltb (length bs) 3) _ _
            (bind-Keeps tag_size_of _ _ (λ p. (tt, refl)) (λ x p. (tt, refl)))
            (bind-Keeps tag_size_of _ _ (λ p. (tt, refl)) (λ x p. (tt, refl)))))
        (λ named.
          if_Keeps tag_size_of named _ _
            (bind-Keeps tag_size_of _ _
              (bind-Keeps tag_size_of _ _ (read_word-Keeps f tag_size_of (λ p t. refl) 32 3)
                (λ n. bind-Keeps tag_size_of _ _ (λ p. (tt, refl)) (λ x p. (tt, refl))))
              (λ x p. (tt, refl)))
            (λ p. (tt, refl)))

  abbrev HasTagSize : ℕ → Parser State → Type 0
  HasTagSize size p = p.tag_size ≡ size

  round_advances :
      (c : Cursor) (size : ℕ)
      → c.i ≤ size
      → size < 2 ^ 28
      → From c size (HasTagSize size) (round f others v2_2 base c)
  unfolding round supported
  round_advances c size inside small =
      Keeps-From c size (HasTagSize size) tag_size_of _ _ (λ p q h same. same ∙ h)
        (seek_to-Keeps f tag_size_of (λ p t. refl) _)
        (λ sought.
          if_From c size (HasTagSize size) (not sought) _ _ (λ p h. tt)
            (Keeps-From c size (HasTagSize size) tag_size_of _ _ (λ p q h same. same ∙ h)
              read_frame_header-Keeps
              (λ x r h. step-Advances c size _ _ r (
                step-Advances c size _ _ _ (
                  follow_header-Advances c _ size _ (frame_supported-IsNoSeek r.frame_id r.found)
                    inside small h)))))

  -- What follows a round that advances.
  tag_loop_after :
      (n size : ℕ) (c : Cursor) (r : Ended Round × Parser State)
      → Advances c size r
      → ((d : Cursor) (q : Parser State)
          → c.i + 6 ≤ d.i
          → q.tag_size ≡ size
          → HasEnded (tag_loop f others v2_2 base n d q).0)
      → HasEnded
          (behind r (λ s. elim s [
            | ends_with count ↦ pure count
            | next d ↦ tag_loop f others v2_2 base n d
          ])).0
  unfolding behind
  tag_loop_after n size c (returned (ends_with k), q) a h = tt
  tag_loop_after n size c (returned (next d), q) (far, e) h = h d q far e
  tag_loop_after n size c (left, q) a h = tt
  tag_loop_after n size c (overrun, q) a h = tt
  tag_loop_after n size c (running, q) a h = absurd a

  -- For every file and every parser in a tag of ID3v2.2 of a size below 2 ^ 28: with fuel for a
  -- sixth of the bytes that are left of the tag and one round more, the loop over the frames ends.
  pub tag_loop-HasEnded :
      (n size : ℕ) (c : Cursor) (p : Parser State)
      → p.tag_size ≡ size
      → size < 2 ^ 28
      → size < c.i + 6 * n
      → HasEnded (tag_loop f others v2_2 base (suc n) c p).0
  unfolding tag_loop
  tag_loop-HasEnded zero size c p e small enough = elim (Bool-cases (ltb p.tag_size c.i)) [
    | inl out ↦ step_ended _ _ p (rw out tt)
    | inr inside ↦ absurd (omega (arith, ltb_false→le p.tag_size c.i inside))
  ]
  tag_loop-HasEnded (suc n) size c p e small enough = elim (Bool-cases (ltb p.tag_size c.i)) [
    | inl out ↦ step_ended _ _ p (rw out tt)
    | inr inside ↦
        let within : c.i ≤ size = omega (arith, ltb_false→le p.tag_size c.i inside, e) in
        step_ended _ _ p (
          rw inside (
            tag_loop_after (suc n) size c (round f others v2_2 base c p)
              (round_advances c size within small p e)
              (λ d q far kept.
                tag_loop-HasEnded n size d q kept small (omega (arith, far, enough)))))
  ]
