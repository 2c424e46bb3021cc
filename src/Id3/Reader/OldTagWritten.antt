-- ===== src/Id3/Reader/OldTagWritten.antt =====
-- A tag of ID3v1 as bytes, and the pairs that ReadID3V1Tag hands out for it.
use foodie_note.Id3.Kvp.{Kvp, p_char_value, uint32_value}
use foodie_note.Id3.Reader.OldTag.{strncpy}
use foodie_note.Prelude.Text.{codes}
use foodie_note.Prelude.{
  ℕ, ◌≡◌, Bool, not, ◌&&◌, if◌then◌else◌, List, [], ◌∷◌, ◌++◌, length, get_or, ◌==◌,
}

-- The fields of a tag of ID3v1, as bytes.
pub record OldTag : Type 0 where
  pub title_bytes : List ℕ
  pub artist_bytes : List ℕ
  pub album_bytes : List ℕ
  pub year_bytes : List ℕ
  pub comment_bytes : List ℕ
  pub genre_byte : ℕ

abbrev pub HasWidths : OldTag → Type 0
HasWidths x =
    (length x.title_bytes ≡ 30)
    × (length x.artist_bytes ≡ 30)
    × (length x.album_bytes ≡ 30)
    × (length x.year_bytes ≡ 4)
    × (length x.comment_bytes ≡ 30)

abbrev pub fields : OldTag → List ℕ
fields x =
    x.title_bytes
    ++ (x.artist_bytes
        ++ (x.album_bytes ++ (x.year_bytes ++ (x.comment_bytes ++ x.genre_byte ∷ []))))

abbrev pub text_pair : List ℕ → List ℕ → Kvp
text_pair key bs = record { key = key; value = p_char_value (bs ++ 0 ∷ []) }

-- A comment of 28 characters, a zero and a track number.
abbrev pub has_track : List ℕ → Bool
has_track bs = get_or bs 28 0 == 0 && not (get_or bs 29 0 == 0)

abbrev pub track_pairs : List ℕ → List Kvp
track_pairs bs =
    if has_track bs
    then record {
      key = codes "track-info/track-number;valtype=uint32";
      value = uint32_value (get_or bs 29 0);
    }
      ∷ []
    else []

abbrev pub comment_pair : List ℕ → Kvp
comment_pair bs = record {
  key = codes "comment;valtype=char*";
  value = p_char_value (strncpy 31 bs);
}

abbrev pub genre_pair : ℕ → Kvp
genre_pair g = record { key = codes "genre;valtype=uint32;format=id3v1"; value = uint32_value g }

-- What is handed out for a tag of ID3v1.
abbrev pub old_pairs : OldTag → List Kvp
old_pairs x =
    text_pair (codes "title;valtype=char*") x.title_bytes
    ∷ text_pair (codes "artist;valtype=char*") x.artist_bytes
    ∷ text_pair (codes "album;valtype=char*") x.album_bytes
    ∷ text_pair (codes "year;valtype=char*") x.year_bytes
    ∷ (track_pairs x.comment_bytes ++ comment_pair x.comment_bytes ∷ genre_pair x.genre_byte ∷ [])
