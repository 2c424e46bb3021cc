-- ===== src/Id3/Reader/ReadTag.antt =====
-- The loop over the frames of a tag, on written text frames and padding.
use foodie_note.Id3.FrameTables.{Found}
use foodie_note.Id3.KvpKey.{Version}
use foodie_note.Id3.Kvp.{Kvp}
use foodie_note.Id3.Reader.Ending.{behind_end, padding, round-padding}
use foodie_note.Id3.Reader.Frames.{Cursor, next, tag_loop, round}
use foodie_note.Id3.Reader.Input.{InputFile}
use foodie_note.Id3.Reader.ReadHeader.{be32-length, behind_header}
use foodie_note.Id3.Reader.ReadRound.{pair_read, round_placed}
use foodie_note.Id3.Reader.State.{Parser, Ended, returned, behind_eq, step_eq}
use foodie_note.Id3.Reader.Values.{OtherReaders}
use foodie_note.Id3.Reader.Written.{
  IsTextType, IsWritable, IsPlain, text_type_tests, id_of, WrittenFrame, data_bytes, frame_bytes,
  tag_bytes,
}
use foodie_note.Id3.Reader.Access.{be32}
use foodie_note.Prelude.{
  ℕ, zero, suc, ◌+◌, ◌^◌, ◌≤◌, ◌<◌, ◌≡◌, ◌∙◌, refl, sym, ap, arith, List, [], ◌∷◌, ◌++◌, map,
  length, length-append, append_assoc, append-nil, All, le→ltb_false, lt→ltb,
}

-- A frame that a writer of the version can write: a type of text, text that fits its character set,
-- and a size that the version stores as it is.
abbrev pub IsWrittenFrame : Version → WrittenFrame → Type 0
IsWrittenFrame v x =
    IsTextType x.frame_type × IsWritable x.charset x.cells × IsPlain v (length (data_bytes x))

length-frame_bytes :
    (v : Version) (x : WrittenFrame)
    → IsWrittenFrame v x
    → length (frame_bytes x) ≡ length (data_bytes x) + 10
unfolding frame_bytes
length-frame_bytes v x h = omega (
  arith,
  (text_type_tests x.frame_type h.0).7,
  be32-length (length (data_bytes x)),
  length-append (id_of x.frame_type) (be32 (length (data_bytes x)) ++ 0 ∷ 0 ∷ data_bytes x),
  length-append (be32 (length (data_bytes x))) (0 ∷ 0 ∷ data_bytes x),
)

same_read :
    {S : Type 0} (q : Parser S) (a b : ℕ) (ks js : List Kvp)
    → a ≡ b
    → ks ≡ js
    → ◌≡◌ {A = Ended ℕ × Parser S}
        (returned a, record q { frames = ks })
        (returned b, record q { frames = js })
same_read q a b ks js e d = rw (e, d) refl

module _ (f : InputFile) (others : OtherReaders f.State) (v : Version) (base : ℕ) where
  open f use {State, bytes}

  -- A run of the loop that returns a count and hands out pairs; the other members of the parser are
  -- as they were.
  abbrev pub LoopReads : ℕ → Cursor → Parser State → ℕ → List Kvp → Type 0
  LoopReads n c p count xs =
      (t : State) × (fd : Found) × (id : List ℕ) × (size : ℕ) × (fl : List ℕ) × (tag_loop f others v
          base n c p
        ≡ (
          returned count,
          record p {
            input = t;
            frames = p.frames ++ xs;
            found = fd;
            frame_id = id;
            frame_size = size;
            frame_flag = fl;
          },
        ))

  -- Behind the end of the tag.
  tag_loop_behind :
      (n : ℕ) (c : Cursor) (p : Parser State)
      → 1 ≤ n
      → p.tag_size < c.i
      → tag_loop f others v base n c p ≡ (returned c.count, p)
  unfolding tag_loop
  tag_loop_behind zero c p enough out = absurd (omega arith)
  tag_loop_behind (suc n) c p enough out = step_eq _ (rw (lt→ltb p.tag_size c.i out) refl)

  -- A round that goes on, and the rest of the loop.
  pub tag_loop_goes :
      (n : ℕ) (c d : Cursor) (p q : Parser State) (z : Ended ℕ × Parser State)
      → c.i ≤ p.tag_size
      → round f others v base c p ≡ (returned (next d), q)
      → tag_loop f others v base n d q ≡ z
      → tag_loop f others v base (suc n) c p ≡ z
  unfolding tag_loop
  tag_loop_goes n c d p q z inside one rest =
      step_eq _ (rw (le→ltb_false p.tag_size c.i inside) (behind_eq _ one rest))

  pub tag_loop_written :
      (n : ℕ) (c : Cursor) (xs : List WrittenFrame) (before rest : List ℕ) (p : Parser State)
      → length xs + 2 ≤ n
      → All (IsWrittenFrame v) xs
      → IsPlain v 0
      → c.i + length (tag_bytes xs) ≤ p.tag_size
      → base + p.tag_size + 11 < 2 ^ 31
      → c.data_len_indicator_size ≡ 0
      → base + c.i ≡ length before
      → bytes ≡ before ++ (tag_bytes xs ++ (padding ++ rest))
      → LoopReads n c p (c.count + length xs) (map (pair_read p.version p.language) xs)
  unfolding tag_bytes
  tag_loop_written zero c xs before rest p enough h plain room low zero_size e whole =
      absurd (omega arith)
  tag_loop_written (suc n) c [] before rest p enough h plain room low zero_size e whole =
      let (t, ended) =
        round-padding f others v base c before rest p plain (omega arith) e (omega arith) whole in
      let q = behind_header p t (0 ∷ 0 ∷ 0 ∷ 0 ∷ []) 0 (0 ∷ 0 ∷ []) in
      (
        t,
        p.found,
        q.frame_id,
        0,
        q.frame_flag,
        tag_loop_goes n c (behind_end c p.tag_size) p q _ (omega arith) ended
              (tag_loop_behind n (behind_end c p.tag_size) q (omega arith) (omega arith))
            ∙ same_read q c.count (c.count + 0) p.frames (p.frames ++ []) (omega arith)
                (sym (append-nil p.frames)),
      )
  tag_loop_written (suc n) c (x ∷ xs) before rest p enough (hx, hxs) plain room low zero_size e
        whole =
      let len = length (data_bytes x) in
      let size = length-frame_bytes v x hx in
      let total = length-append (frame_bytes x) (tag_bytes xs) in
      let (t, fd, id, fl, one) =
        round_placed f others v base c x before (tag_bytes xs ++ (padding ++ rest)) p hx.0 hx.1 hx.2
          (omega (arith, size, total, room)) (omega (arith, size, total, room, low)) zero_size e
          (omega (arith, size, total, room, low))
          (whole
            ∙ ap (λ z. before ++ z)
                (append_assoc (frame_bytes x) (tag_bytes xs) (padding ++ rest))) in
      let k = pair_read p.version p.language x in
      let q = record p {
        input = t;
        frames = p.frames ++ k ∷ [];
        found = fd;
        frame_id = id;
        frame_size = len;
        frame_flag = fl;
      } in
      let d = record c { i = c.i + len + 10; count = c.count + 1 } in
      let (u, gd, jd, size2, gl, rest_read) =
        tag_loop_written n d xs (before ++ frame_bytes x) rest q (omega arith) hxs plain
          (omega (arith, size, total, room)) low zero_size
          (omega (arith, size, e, length-append before (frame_bytes x)))
          (whole
            ∙ (ap (λ z. before ++ z) (append_assoc (frame_bytes x) (tag_bytes xs) (padding ++ rest))
                ∙ sym (append_assoc before (frame_bytes x) (tag_bytes xs ++ (padding ++ rest))))) in
      (
        u,
        gd,
        jd,
        size2,
        gl,
        tag_loop_goes n c d p q _ (omega (arith, size, total, room)) one rest_read
            ∙ same_read
                (record q {
                  input = u;
                  found = gd;
                  frame_id = jd;
                  frame_size = size2;
                  frame_flag = gl;
                })
                (c.count + 1 + length xs) (c.count + length (x ∷ xs)) _ _ (omega arith)
                (append_assoc p.frames (k ∷ []) _),
      )
