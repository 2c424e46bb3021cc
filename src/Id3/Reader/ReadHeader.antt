-- ===== src/Id3/Reader/ReadHeader.antt =====
-- What ReadFrameHeaderID3V2 reads of the header of a written frame.
use foodie_note.Id3.KvpKey.{eend, Version}
use foodie_note.Id3.Reader.Access.{
  be32, join_bytes-be32, Placed, read_some-Placed, read_word-Placed,
}
use foodie_note.Id3.Reader.Headers.{
  overwrite, read_frame_id, read_frame_size, read_frame_flag, settle_size, read_frame_header,
}
use foodie_note.Id3.Reader.Input.{InputFile}
use foodie_note.Id3.Reader.State.{Parser, returned, behind_eq, step_eq}
use foodie_note.Id3.Reader.Written.{IsPlain, IsPlain-tests}
use foodie_note.Prelude.{
  ℕ, ◌^◌, ◌<◌, ◌≡◌, refl, sym, ap, arith, true, List, [], ◌∷◌, ◌++◌, length, le→ltb_false,
}

pub be32-length : (n : ℕ) → 4 ≡ length (be32 n)
unfolding be32
be32-length n = refl

-- The parser behind the header of a frame of `len` bytes.
abbrev pub behind_header : {S : Type 0} → Parser S → S → List ℕ → ℕ → List ℕ → Parser S
behind_header p t id len flags = record p {
  input = t;
  frame_id = overwrite p.frame_id (id ++ 0 ∷ []);
  frame_size = len;
  frame_flag = overwrite p.frame_flag flags;
}

module _ (f : InputFile) where
  open f use {State}

  read_frame_id-Placed :
      (n : ℕ) (id rest : List ℕ) (p : Parser State)
      → n ≡ length id
      → Placed f p.input (id ++ rest)
      → (t : State) × (read_frame_id f n p
          ≡ (returned true, record p { input = t; frame_id = overwrite p.frame_id (id ++ 0 ∷ []) }))
        × Placed f t rest
  unfolding read_frame_id
  read_frame_id-Placed n id rest p e h =
      let (t, same, placed) = read_some-Placed f n id rest p e h in
      (t, behind_eq _ same (rw (le→ltb_false (length id) n (omega arith)) (step_eq _ refl)), placed)

  read_frame_size-Placed :
      (len : ℕ) (rest : List ℕ) (p : Parser State)
      → len < 2 ^ 32
      → Placed f p.input (be32 len ++ rest)
      → (t : State) × (read_frame_size f 4 p
          ≡ (returned true, record p { input = t; frame_size = len }))
        × Placed f t rest
  unfolding read_frame_size
  read_frame_size-Placed len rest p small h =
      let (t, same, placed) = read_word-Placed f 32 4 (be32 len) rest p (be32-length len) h in
      (
        t,
        behind_eq _ same (
            step_eq _ (
              ap (λ n. (returned true, record p { input = t; frame_size = n }))
                (join_bytes-be32 len small))),
        placed,
      )

  read_frame_flag-Placed :
      (flags rest : List ℕ) (p : Parser State)
      → 2 ≡ length flags
      → Placed f p.input (flags ++ rest)
      → (t : State) × (read_frame_flag f p
          ≡ (returned true, record p { input = t; frame_flag = overwrite p.frame_flag flags }))
        × Placed f t rest
  unfolding read_frame_flag
  read_frame_flag-Placed flags rest p e h =
      let (t, same, placed) = read_some-Placed f 2 flags rest p e h in
      (
        t,
        behind_eq _ same (step_eq _ (rw (le→ltb_false (length flags) 2 (omega arith)) refl)),
        placed,
      )

  pub read_frame_header-Placed :
      (v : Version) (id : List ℕ) (len a b : ℕ) (rest : List ℕ) (p : Parser State)
      → IsPlain v len
      → length id ≡ 4
      → len < 2 ^ 32
      → Placed f p.input (id ++ (be32 len ++ a ∷ b ∷ rest))
      → (t : State) × (read_frame_header f v p
          ≡ (returned tt, behind_header p t id len (a ∷ b ∷ [])))
        × Placed f t rest
  unfolding read_frame_header settle_size
  read_frame_header-Placed v id len a b rest p plain four small h =
      let known = IsPlain-tests v len eend [] [] p.found plain in
      let (s, named, named_here) = read_frame_id-Placed 4 id _ p (sym four) h in
      let p1 = record p { input = s; frame_id = overwrite p.frame_id (id ++ 0 ∷ []) } in
      let (t, sized, sized_here) = read_frame_size-Placed len (a ∷ b ∷ rest) p1 small named_here in
      let p2 = record p1 { input = t; frame_size = len } in
      let (u, flagged, here) = read_frame_flag-Placed (a ∷ b ∷ []) rest p2 refl sized_here in
      let settled : settle_size f v len (behind_header p u id len (a ∷ b ∷ []))
          ≡ (returned tt, behind_header p u id len (a ∷ b ∷ [])) =
        rw (known.1, settle_size) refl in
      (
        u,
        rw known.0
            (behind_eq _ named (behind_eq _ sized (behind_eq _ flagged (step_eq _ settled)))),
        here,
      )
