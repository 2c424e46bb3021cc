-- ===== src/Id3/FrameFlags.antt =====
-- What the recognition of an ID3 frame does: the flag that it sets is the flag of the type that it
-- returns, and every type of a frame that is handed on has a key.
use foodie_note.Id3.FrameIds.{
  match_entry, frame_validated, frame_supported, frame_supported_version, frame_supported_v2_2,
  frame_supported_v2_3, looked_at,
}
use foodie_note.Id3.FrameTables.{
  Flag, title_flag, artist_flag, album_flag, year_flag, comment_flag, track_number_flag, genre_flag,
  Found, mark, Entry, entry, frame_table, frame_table_v2_2,
}
use foodie_note.Id3.KvpKey.{
  Version, invalid_version, v1, v1_1, v2_2, v2_3, v2_4, FrameType, title, artist, album, year,
  comment, track_number, genre, recording_time,
}
use foodie_note.Prelude.{
  ℕ, ◌≡◌, refl, arith, Option, none, some, List, [], ◌∷◌, All, Bool-cases, inl, inr, get_or, ◌==◌,
}
use foodie_note.Prelude.Text.{starts_with}

-- The flag for the ID3v1 field that a frame of a type replaces; the recording time is a year.
unfoldable pub flag_of : FrameType → Option Flag
flag_of title = some title_flag
flag_of artist = some artist_flag
flag_of album = some album_flag
flag_of year = some year_flag
flag_of recording_time = some year_flag
flag_of comment = some comment_flag
flag_of track_number = some track_number_flag
flag_of genre = some genre_flag
flag_of _ = none

abbrev IsMarked : Found → FrameType × Found → Type 0
IsMarked found r = r.1 ≡ mark (flag_of r.0) found

abbrev HasFlag : Entry → Type 0
HasFlag (entry key type flag) = flag ≡ flag_of type

match_entry-IsMarked :
    (entries : List Entry) (id : List ℕ) (found : Found) (other : FrameType × Found)
    → All HasFlag entries
    → IsMarked found other
    → IsMarked found (match_entry entries id found other)
unfolding match_entry
match_entry-IsMarked [] id found other h marked = marked
match_entry-IsMarked (entry key type flag ∷ entries) id found other (e, h) marked =
    elim (Bool-cases (starts_with id key)) [
      | inl m ↦ rw (m, e) refl
      | inr m ↦ rw m (match_entry-IsMarked entries id found other h marked)
    ]

frame_table-HasFlag : All HasFlag frame_table
unfolding frame_table flag_of
frame_table-HasFlag = (
  refl,
  (
    refl,
    (
      refl,
      (
        refl,
        (
          refl,
          (
            refl,
            (
              refl,
              (
                refl,
                (
                  refl,
                  (
                    refl,
                    (refl, (refl, (refl, (refl, (refl, (refl, (refl, (refl, (refl, tt))))))))),
                  ),
                ),
              ),
            ),
          ),
        ),
      ),
    ),
  ),
)

frame_table_v2_2-HasFlag : All HasFlag frame_table_v2_2
unfolding frame_table_v2_2 flag_of
frame_table_v2_2-HasFlag = (
  refl,
  (
    refl,
    (
      refl,
      (
        refl,
        (
          refl,
          (
            refl,
            (
              refl,
              (refl, (refl, (refl, (refl, (refl, (refl, (refl, (refl, (refl, (refl, tt)))))))))),
            ),
          ),
        ),
      ),
    ),
  ),
)

-- The end of the chains sets no flag.
frame_validated_unmarked : (id : List ℕ) → flag_of (frame_validated id) ≡ none
unfolding frame_validated flag_of
frame_validated_unmarked id = ground arith

frame_supported_v2_2-IsMarked :
    (own : List ℕ) (found : Found) → IsMarked found (frame_supported_v2_2 own found)
unfolding frame_supported_v2_2
frame_supported_v2_2-IsMarked own found =
    match_entry-IsMarked frame_table_v2_2 own found _ frame_table_v2_2-HasFlag
      (elim (Bool-cases (starts_with own (0 ∷ 0 ∷ 0 ∷ []))) [
        | inl z ↦ rw z (unfold mark flag_of in refl)
        | inr z ↦ rw z (unfold mark flag_of in refl)
      ])

frame_supported_v2_3-IsMarked :
    (id : List ℕ) (found : Found) → IsMarked found (frame_supported_v2_3 id found)
unfolding frame_supported_v2_3
frame_supported_v2_3-IsMarked id found =
    match_entry-IsMarked frame_table id found _ frame_table-HasFlag
      (elim (Bool-cases (starts_with id (0 ∷ 0 ∷ 0 ∷ 0 ∷ []))) [
        | inl z ↦ rw z (unfold mark flag_of in refl)
        | inr z ↦ rw (z, frame_validated_unmarked id) (unfold mark in refl)
      ])

frame_supported_version-IsMarked :
    (v : Version) (own id : List ℕ) (found : Found)
    → IsMarked found (frame_supported_version v own id found)
unfolding frame_supported_version
frame_supported_version-IsMarked invalid_version own id found =
    frame_supported_v2_3-IsMarked id found
frame_supported_version-IsMarked v1 own id found = frame_supported_v2_3-IsMarked id found
frame_supported_version-IsMarked v1_1 own id found = frame_supported_v2_3-IsMarked id found
frame_supported_version-IsMarked v2_2 own id found = frame_supported_v2_2-IsMarked own found
frame_supported_version-IsMarked v2_3 own id found = frame_supported_v2_3-IsMarked id found
frame_supported_version-IsMarked v2_4 own id found = frame_supported_v2_3-IsMarked id found

-- For every version and identifier: of the found flags exactly the one that belongs to the returned
-- type is set, if there is one, and the others stay as they are.
pub frame_supported-mark :
    (v : Version) (own : List ℕ) (given : Option (List ℕ)) (found : Found)
    → (frame_supported v own given found).1
      ≡ mark (flag_of (frame_supported v own given found).0) found
unfolding frame_supported
frame_supported-mark v own given found =
    elim (Bool-cases (get_or (looked_at own given) 0 0 == 0xff)) [
      | inl z ↦ rw z (unfold mark flag_of in refl)
      | inr z ↦ rw z (frame_supported_version-IsMarked v own (looked_at own given) found)
    ]
