-- ===== src/Id3/Reader/ReadRound.antt =====
-- One round of the loop over the frames of a tag, from the header of a written frame on.
use foodie_note.Id3.FrameIds.{frame_supported}
use foodie_note.Id3.FrameTables.{Found}
use foodie_note.Id3.Kvp.{Kvp}
use foodie_note.Id3.KvpKey.{
  CharacterSet, charset_invalid, charset_iso88591, charset_utf16, charset_utf16be, charset_utf8,
  charset_end, construct_kvp_key, FrameType, Version,
}
use foodie_note.Id3.Reader.Access.{be32, seek_to_placed}
use foodie_note.Id3.Reader.Frames.{Cursor, next, round}
use foodie_note.Id3.Reader.Headers.{overwrite, supported}
use foodie_note.Id3.Reader.Input.{InputFile}
use foodie_note.Id3.Reader.ReadFrame.{follow_header-Placed}
use foodie_note.Id3.Reader.ReadHeader.{be32-length, behind_header, read_frame_header-Placed}
use foodie_note.Id3.Reader.State.{Parser, returned, behind_eq, step_eq}
use foodie_note.Id3.Reader.Values.{OtherReaders, until_zero}
use foodie_note.Id3.Reader.Written.{
  IsTextType, id_of, IsWritable, IsPlain, payload, check_of, order_bytes, value_read,
  text_type_tests, IsPlain-tests, id_of-recognised, WrittenFrame, data_bytes, frame_bytes,
}
use foodie_note.Id3.WideCharText.{utf16_bytes}
use foodie_note.Prelude.{
  ℕ, ◌+◌, ◌%◌, ◌^◌, ◌≤◌, ◌<◌, ◌≡◌, ◌∙◌, refl, ap, arith, none, List, [], ◌∷◌, ◌++◌, length,
  length-append, append_assoc, drop, get_or,
}

-- Data that is written is longer than the byte of the character set.
data_bytes_long : (x : WrittenFrame) → IsWritable x.charset x.cells → 1 < length (data_bytes x)
data_bytes_long x w = long x.charset x.cells w
  where
    long :
        (c : CharacterSet) (cells : List ℕ)
        → IsWritable c cells
        → 1 < length (check_of c ∷ (order_bytes c ++ payload c cells))
    long charset_iso88591 cells w = omega arith
    long charset_utf8 cells w = omega arith
    long charset_utf16 cells w = omega arith
    long charset_utf16be [] w = absurd (omega (arith, w.1))
    long charset_utf16be (u ∷ us) w = unfold utf16_bytes in omega arith
    long charset_invalid cells w = absurd w
    long charset_end cells w = absurd w

module _ (k : ℕ) where
  frame-append :
      (a b c d e : List ℕ)
      → (a ++ (b ++ 0 ∷ 0 ∷ k ∷ (c ++ d))) ++ e ≡ a ++ (b ++ 0 ∷ 0 ∷ k ∷ (c ++ (d ++ e)))
  frame-append a b c d e =
      rw
        (
          append_assoc a (b ++ 0 ∷ 0 ∷ k ∷ (c ++ d)) e,
          append_assoc b (0 ∷ 0 ∷ k ∷ (c ++ d)) e,
          append_assoc c d e,
        )
        refl

  behind_check :
      (before a b z : List ℕ)
      → before ++ (a ++ (b ++ 0 ∷ 0 ∷ k ∷ z)) ≡ (before ++ (a ++ (b ++ 0 ∷ 0 ∷ k ∷ []))) ++ z
  behind_check before a b z =
      rw
        (
          append_assoc before (a ++ (b ++ 0 ∷ 0 ∷ k ∷ [])) z,
          append_assoc a (b ++ 0 ∷ 0 ∷ k ∷ []) z,
          append_assoc b (0 ∷ 0 ∷ k ∷ []) z,
        )
        refl

overwrite_id :
    (old id : List ℕ) → overwrite old (id ++ 0 ∷ []) ≡ id ++ 0 ∷ drop (length (id ++ 0 ∷ [])) old
unfolding overwrite
overwrite_id old id = append_assoc id (0 ∷ []) _

frame_supported_id :
    (v : Version) (len : ℕ) (t : FrameType) (r : List ℕ) (found : Found)
    → IsTextType t
    → IsPlain v len
    → (frame_supported v (id_of t ++ 0 ∷ r) none found).0 ≡ t
unfolding frame_supported
frame_supported_id v len t r found text plain =
    let known = IsPlain-tests v len t (id_of t ++ 0 ∷ r) (id_of t ++ 0 ∷ r) found plain in
    let rec = id_of-recognised t r found text in rw (rec.2, known.5) rec.0

-- The pair that is handed out for a written frame, by the parser's version and language.
abbrev pub pair_read : Version → List ℕ → WrittenFrame → Kvp
pair_read w lang x = record {
  key = (construct_kvp_key w (id_of x.frame_type) lang x.frame_type x.charset).0;
  value = value_read x.charset x.cells;
}

module _ (f : InputFile) (others : OtherReaders f.State) (v : Version) (base : ℕ) where
  open f use {State, bytes}

  supported_id :
      (len : ℕ) (t : FrameType) (old : List ℕ) (q : Parser State)
      → IsTextType t
      → IsPlain v len
      → q.frame_id ≡ overwrite old (id_of t ++ 0 ∷ [])
      → (fd : Found) × (supported v none q ≡ (returned t, record q { found = fd }))
  unfolding supported
  supported_id len t old q text plain e =
      let same = e ∙ overwrite_id old (id_of t) in
      let r = frame_supported v q.frame_id none q.found in
      let type : r.0 ≡ t =
        ap (λ id. (frame_supported v id none q.found).0) same
        ∙ frame_supported_id v len t _ q.found text plain in
      (r.1, ap (λ u. (returned u, record q { found = r.1 })) type)

  -- A round that goes on behind a written frame, and hands out its pair.
  abbrev pub Goes : Cursor → Parser State → WrittenFrame → Type 0
  Goes c p x =
      (t : State) × (fd : Found) × (id : List ℕ) × (fl : List ℕ) × (round f others v base c p ≡ (
        returned (next (record c { i = c.i + length (data_bytes x) + 10; count = c.count + 1 })),
        record p {
          input = t;
          frames = p.frames ++ pair_read p.version p.language x ∷ [];
          found = fd;
          frame_id = id;
          frame_size = length (data_bytes x);
          frame_flag = fl;
        },
      ))

  pub round_placed :
      (c : Cursor) (x : WrittenFrame) (before rest : List ℕ) (p : Parser State)
      → IsTextType x.frame_type
      → IsWritable x.charset x.cells
      → IsPlain v (length (data_bytes x))
      → length (data_bytes x) ≤ p.tag_size
      → c.i + length (data_bytes x) + 12 < 2 ^ 32
      → c.data_len_indicator_size ≡ 0
      → base + c.i ≡ length before
      → base + c.i + 11 < 2 ^ 32
      → bytes ≡ before ++ (frame_bytes x ++ rest)
      → Goes c p x
  unfolding round frame_bytes
  round_placed c x before rest p text w plain room fits zero_size e small whole =
      let len = length (data_bytes x) in
      let id = id_of x.frame_type in
      let check = check_of x.charset in
      let four = (text_type_tests x.frame_type text).7 in
      let content = order_bytes x.charset ++ (payload x.charset x.cells ++ rest) in
      let here : bytes ≡ before ++ (id ++ (be32 len ++ 0 ∷ 0 ∷ check ∷ content)) =
        whole
        ∙ ap (λ z. before ++ z)
            (frame-append check id (be32 len) (order_bytes x.charset) (payload x.charset x.cells)
              rest) in
      let front = before ++ (id ++ (be32 len ++ 0 ∷ 0 ∷ check ∷ [])) in
      let front_length : base + c.i + 11 ≡ length front = omega (
        arith,
        e,
        four,
        be32-length len,
        length-append before (id ++ (be32 len ++ 0 ∷ 0 ∷ check ∷ [])),
        length-append id (be32 len ++ 0 ∷ 0 ∷ check ∷ []),
        length-append (be32 len) (0 ∷ 0 ∷ check ∷ []),
      ) in
      let (s, sought, sought_here) =
        seek_to_placed f ((base + c.i) % 2 ^ 32) before _ p (omega (arith, e, small)) here in
      let (u, headed, headed_here) =
        read_frame_header-Placed f v id len 0 0 (check ∷ content) (record p { input = s }) plain
          four (omega arith) sought_here in
      let q = behind_header (record p { input = s }) u id len (0 ∷ 0 ∷ []) in
      let (fd, known) = supported_id len x.frame_type p.frame_id q text plain refl in
      let r = record q { found = fd } in
      let (t, gd, followed) =
        follow_header-Placed f others v base c x.frame_type x.charset len x.cells front rest r text
          w plain (omega arith) (data_bytes_long x w) fits zero_size refl front_length small
          (here ∙ behind_check check before id (be32 len) content) headed_here room
          (flag_zero p.frame_flag) in
      let named : until_zero q.frame_id ≡ id =
        ap until_zero (overwrite_id p.frame_id id)
        ∙ (id_of-recognised x.frame_type _ p.found text).1 in
      (
        t,
        gd,
        q.frame_id,
        q.frame_flag,
        behind_eq _ sought (behind_eq _ headed (step_eq _ (behind_eq _ known followed)))
            ∙ ap
                (λ k. (
                  returned (next (record c { i = c.i + len + 10; count = c.count + 1 })),
                  record r {
                    input = t;
                    frames =
                        p.frames
                        ++ record {
                          key = (construct_kvp_key p.version k p.language x.frame_type x.charset).0;
                          value = value_read x.charset x.cells;
                        }
                          ∷ [];
                    found = gd;
                  },
                ))
                named,
      )
    where
      flag_zero : (old : List ℕ) → get_or (overwrite old (0 ∷ 0 ∷ [])) 1 0 ≡ 0
      flag_zero old = unfold overwrite in refl
