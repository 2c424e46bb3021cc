-- ===== src/Tests/OldTag.antt =====
-- Runs of the reader of ID3v1 tags on a file in memory.
use foodie_note.Id3.Reader.OldTagWhole.{read_old_tag-fields}
use foodie_note.Id3.Reader.OldTagWritten.{OldTag, HasWidths, fields, old_pairs}
use foodie_note.Id3.Reader.State.{Parser, new_parser, returned}
use foodie_note.Id3.Reader.Tag.{read_old_tag}
use foodie_note.Prelude.Text.{codes}
use foodie_note.Prelude.{ℕ, ◌≡◌, refl, true, List, [], ◌∷◌, ◌++◌}
use foodie_note.Scanner.Frames.{zeros}
use foodie_note.Tests.Reader.{memory_file, no_others}

abbrev old_song : OldTag
old_song = record {
  title_bytes = codes "song" ++ zeros 26;
  artist_bytes = codes "singer" ++ zeros 24;
  album_bytes = codes "disc" ++ zeros 26;
  year_bytes = codes "1999";
  comment_bytes = codes "none" ++ (zeros 25 ++ 7 ∷ []);
  genre_byte = 17;
}

abbrev old_audio : List ℕ
old_audio = 255 ∷ 251 ∷ []

abbrev old_bytes : List ℕ
old_bytes = old_audio ++ (codes "TAG" ++ fields old_song)

abbrev old_start : Parser ℕ
old_start = record (new_parser 0 (0 ∷ []) 0 []) { file_size = 130 }

old_song-HasWidths : HasWidths old_song
unfolding zeros
old_song-HasWidths = (refl, refl, refl, refl, refl)

read_old_tag-fields_example :
    (q : Parser ℕ) × (read_old_tag (memory_file old_bytes) no_others old_start ≡ (returned true, q))
    × (q.frames ≡ old_start.frames ++ old_pairs old_song)
unfolding new_parser zeros
read_old_tag-fields_example =
    read_old_tag-fields (memory_file old_bytes) no_others old_song old_audio old_start
      old_song-HasWidths refl refl refl
