-- ===== src/Id3/Reader/OldTagRead.antt =====
-- ReadID3V1Tag: the fields behind the year, where no tag before it had them.
use foodie_note.Id3.FrameTables.{Found, comment_flag, track_number_flag, genre_flag, mark}
use foodie_note.Id3.Kvp.{uint32_value}
use foodie_note.Id3.KvpKey.{
  comment, genre, charset_iso88591, charset_invalid, construct_kvp_key, Version, v1, v1_1,
}
use foodie_note.Id3.Reader.Access.{Placed, read_byte_data-Placed}
use foodie_note.Id3.Reader.Headers.{seek_by}
use foodie_note.Id3.Reader.Input.{InputFile}
use foodie_note.Id3.Reader.OldTag.{
  is_found, is_marked, set_found, push_value, push_track_number, push_comment, read_comment,
  take_comment, take_genre, read_genre,
}
use foodie_note.Id3.Reader.State.{Parser, returned, behind, behind_eq, ◌>>◌}
use foodie_note.Id3.Reader.Values.{OtherReaders, or_leave, until_zero}
use foodie_note.Prelude.Text.{codes}
use foodie_note.Prelude.{
  ℕ, ◌≡◌, ◌∙◌, inl, inr, refl, sym, ap, Bool, Bool-cases, true, false, ◌&&◌, if◌then◌else◌, List,
  [], ◌∷◌, ◌++◌, length, append-nil, ◌⊎◌, get_or, some,
}
use foodie_note.Id3.Reader.OldTagWritten.{has_track, track_pairs, comment_pair, genre_pair}

tests_eq : {a b : Bool} → a ≡ false → b ≡ false → (a && b) ≡ false
tests_eq {b = b} ha hb = ap (λ x. x && b) ha

genre_unmarked :
    (x : Found) → is_found genre_flag (mark (some comment_flag) x) ≡ is_found genre_flag x
unfolding mark is_found
genre_unmarked x = refl

module _ (f : InputFile) (others : OtherReaders f.State) where
  open f use {State, bytes}

  -- The versions whose keys for a comment have no language.
  abbrev IsOld : Version → Type 0
  IsOld v = (v ≡ v1) ⊎ (v ≡ v1_1)

  comment_key_old :
      (v : Version) (id lang : List ℕ)
      → IsOld v
      → construct_kvp_key v id lang comment charset_iso88591 ≡ (codes "comment;valtype=char*", true)
  unfolding construct_kvp_key
  comment_key_old v id lang (inl e) = rw e refl
  comment_key_old v id lang (inr e) = rw e refl

  push_track_number-Pushes :
      (bs : List ℕ) (p : Parser State)
      → is_found track_number_flag p.found ≡ false
      → p.version ≡ v1
      → (q : Parser State) × (push_track_number f others bs p ≡ (returned tt, q))
        × (q.frames ≡ p.frames ++ track_pairs bs)
        × (q.input ≡ p.input)
        × IsOld q.version
        × (is_found comment_flag q.found ≡ is_found comment_flag p.found)
        × (is_found genre_flag q.found ≡ is_found genre_flag p.found)
  unfolding push_track_number is_marked set_found push_value or_leave construct_kvp_key mark
      is_found behind
  push_track_number-Pushes bs p fresh old = elim (Bool-cases (has_track bs)) [
    | inl has ↦ (
      record p {
        version = v1_1;
        frames =
            p.frames
            ++ record {
              key = codes "track-info/track-number;valtype=uint32";
              value = uint32_value (get_or bs 29 0);
            }
              ∷ [];
        found = mark (some track_number_flag) p.found;
      },
      rw (fresh, has) refl,
      rw has refl,
      refl,
      inr refl,
      refl,
      refl,
    )
    | inr none ↦
        (p, rw (fresh, none) refl, rw none (sym (append-nil p.frames)), refl, inl old, refl, refl)
  ]

  push_comment_eq :
      (bs : List ℕ) (p : Parser State)
      → is_found comment_flag p.found ≡ false
      → IsOld p.version
      → push_comment f others bs p ≡ (
        returned tt,
        record p {
          frames = p.frames ++ comment_pair bs ∷ [];
          found = mark (some comment_flag) p.found;
        },
      )
  unfolding push_comment is_marked set_found push_value or_leave behind
  push_comment_eq bs p fresh old =
      rw (fresh, comment_key_old p.version (until_zero p.frame_id) p.language old) refl

  take_comment-Placed :
      (bs rest : List ℕ) (p : Parser State)
      → length bs ≡ 30
      → is_found comment_flag p.found ≡ false
      → is_found track_number_flag p.found ≡ false
      → p.version ≡ v1
      → Placed f p.input (bs ++ rest)
      → (q : Parser State) × (take_comment f others p ≡ (returned true, q))
        × (q.frames ≡ (p.frames ++ track_pairs bs) ++ comment_pair bs ∷ [])
        × Placed f q.input rest
        × (is_found genre_flag q.found ≡ is_found genre_flag p.found)
  unfolding take_comment
  take_comment-Placed bs rest p long fresh no_track old h =
      let (s, got, placed) = read_byte_data-Placed f 30 bs rest p (sym long) h in
      let p1 = record p { input = s } in
      let (q, pushed, pairs, same, is_old, marked, genre_kept) =
        push_track_number-Pushes bs p1 no_track old in
      (
        record q {
          frames = q.frames ++ comment_pair bs ∷ [];
          found = mark (some comment_flag) q.found;
        },
        behind_eq _ got
            (behind_eq _ (behind_eq _ pushed (push_comment_eq bs q (marked ∙ fresh) is_old)) refl),
        rw pairs refl,
        rw same placed,
        genre_unmarked q.found ∙ genre_kept,
      )

  pub read_comment-Placed :
      (bs rest : List ℕ) (p : Parser State)
      → length bs ≡ 30
      → is_found comment_flag p.found ≡ false
      → is_found track_number_flag p.found ≡ false
      → p.version ≡ v1
      → Placed f p.input (bs ++ rest)
      → (q : Parser State) × (read_comment f others p ≡ (returned true, q))
        × (q.frames ≡ (p.frames ++ track_pairs bs) ++ comment_pair bs ∷ [])
        × Placed f q.input rest
        × (is_found genre_flag q.found ≡ is_found genre_flag p.found)
  unfolding read_comment is_marked behind
  read_comment-Placed bs rest p long fresh no_track old h =
      let (q, took, pairs, placed, kept) =
        take_comment-Placed bs rest p long fresh no_track old h in
      (
        q,
        ap (λ b. (if b then seek_by f 30 else take_comment f others) p) (tests_eq fresh no_track)
            ∙ took,
        pairs,
        placed,
        kept,
      )

  push_genre_eq :
      (g : ℕ) (p : Parser State)
      → (push_value f others genre charset_invalid (uint32_value g)
            >> set_found f others genre_flag)
          p
        ≡ (
          returned tt,
          record p {
            frames = p.frames ++ genre_pair g ∷ [];
            found = mark (some genre_flag) p.found;
          },
        )
  unfolding set_found push_value or_leave construct_kvp_key behind
  push_genre_eq g p = refl

  take_genre-Placed :
      (g : ℕ) (rest : List ℕ) (p : Parser State)
      → Placed f p.input (g ∷ rest)
      → (q : Parser State) × (take_genre f others p ≡ (returned tt, q))
        × (q.frames ≡ p.frames ++ genre_pair g ∷ [])
  unfolding take_genre
  take_genre-Placed g rest p h =
      let (s, got, placed) = read_byte_data-Placed f 1 (g ∷ []) rest p refl h in
      (
        record p {
          input = s;
          frames = p.frames ++ genre_pair g ∷ [];
          found = mark (some genre_flag) p.found;
        },
        behind_eq _ got (push_genre_eq g (record p { input = s })),
        refl,
      )

  pub read_genre-Placed :
      (g : ℕ) (rest : List ℕ) (p : Parser State)
      → is_found genre_flag p.found ≡ false
      → Placed f p.input (g ∷ rest)
      → (q : Parser State) × (read_genre f others p ≡ (returned tt, q))
        × (q.frames ≡ p.frames ++ genre_pair g ∷ [])
  unfolding read_genre is_marked behind
  read_genre-Placed g rest p fresh h =
      let (q, took, pairs) = take_genre-Placed g rest p h in
      (
        q,
        ap (λ b. (if b then seek_by f 1 >> (λ t. (returned tt, t)) else take_genre f others) p)
              fresh
            ∙ took,
        pairs,
      )
