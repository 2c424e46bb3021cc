-- ===== src/Tests/Reader.antt =====
-- Runs of the ID3 tag reader on files in memory.
use foodie_note.Id3.Kvp.{p_char_value}
use foodie_note.Id3.KvpKey.{
  construct_kvp_key, Version, title, artist, genre, year, charset_iso88591, charset_utf8,
  charset_utf16, v2_2, v2_3,
}
use foodie_note.Id3.Reader.Input.{InputFile}
use foodie_note.Id3.Reader.State.{Parser, Ended, behind, new_parser, returned, running, overrun}
use foodie_note.Id3.Reader.Tag.{parse_id3_tag}
use foodie_note.Id3.Reader.Values.{OtherReaders, read_frame_data}
use foodie_note.Id3.FrameIds.{frame_supported}
use foodie_note.Id3.SyncSafe.{safe_synch_int_to_int32}
use foodie_note.Id3.Reader.Access.{be32}
use foodie_note.Id3.Reader.Ends.{tag_loop-HasEnded}
use foodie_note.Id3.Reader.Frames.{Cursor, tag_loop}
use foodie_note.Id3.Reader.Kept.{HasEnded}
use foodie_note.Id3.Reader.Overrun.{read_frame_data_overrun}
use foodie_note.Id3.Reader.ReadRound.{pair_read}
use foodie_note.Id3.Reader.SeekLoop.{seek_frame, tag_loop-seek_frame}
use foodie_note.Id3.Reader.Written.{WrittenFrame, frame_bytes, tag_bytes}
use foodie_note.Scanner.Frames.{zeros}
use foodie_note.Scanner.TaggedFile.{TagText, written}
use foodie_note.Id3.Reader.Parse.{file_bytes, parse_id3_tag-file_bytes}
use foodie_note.Prelude.Text.{codes, starts_with}
use foodie_note.Prelude.{
  ℕ, ◌+◌, ◌-◌, ◌≤◌, ◌≡◌, refl, arith, Bool, true, false, some, List, [], ◌∷◌, ◌++◌, length, take,
  drop, map, inl, ◌<◌,
}

pub some_injective : (a b : ℕ) → some a ≡ some b → a ≡ b
some_injective a b h = cc

abbrev pub memory_file : List ℕ → InputFile
memory_file bs = record {
  State = ℕ;
  bytes = bs;
  tell = λ s. s;
  remaining = λ s. length bs - s;
  seek_set = λ s n. some n;
  read = λ s n. (take n (drop s bs), s + length (take n (drop s bs)));
  seek_set_moves = λ s n t e. omega (arith, some_injective n t e);
  seek_set_inside = λ s n h. (n, refl);
  remaining_bytes = λ s h. omega arith;
  read_bytes = λ s n. refl;
  read_moves = λ s n. refl;
}

abbrev pub no_others : OtherReaders ℕ
no_others = record {
  read_lyrics_comm = λ v check size t lang s. record {
    succeeds = false;
    behind_it = s;
    pairs = [];
    language_id = lang;
  };
  read_album_art = λ v t check size lang s. record {
    succeeds = false;
    behind_it = s;
    pairs = [];
    language_id = lang;
  };
  read_track_length =
      λ v size c lang s. record { succeeds = false; behind_it = s; pairs = []; language_id = lang };
}

abbrev two_frames : List ℕ
two_frames =
    codes "ID3"
    ++ 3 ∷ 0 ∷ 0 ∷ 0 ∷ 0 ∷ 0 ∷ 36 ∷ []
    ++ codes "TIT2"
    ++ 0 ∷ 0 ∷ 0 ∷ 3 ∷ 0 ∷ 0 ∷ 3 ∷ codes "ab"
    ++ codes "TPE1"
    ++ 0 ∷ 0 ∷ 0 ∷ 3 ∷ 0 ∷ 0 ∷ 3 ∷ codes "cd"
    ++ 0 ∷ 0 ∷ 0 ∷ 0 ∷ 0 ∷ 0 ∷ 0 ∷ 0 ∷ 0 ∷ 0 ∷ 255 ∷ []

parse_two : Ended Bool × Parser ℕ
unfolding parse_id3_tag new_parser
parse_two =
    parse_id3_tag (memory_file two_frames) no_others 2 10 100
      (new_parser 0 (0 ∷ 0 ∷ 0 ∷ 0 ∷ 0 ∷ []) 0 [])

parse_two_frames :
    parse_two.1.frames
    ≡ record {
      key = codes "title;valtype=char*;char-encoding=UTF8";
      value = p_char_value (codes "ab" ++ 0 ∷ []);
    }
      ∷ record {
        key = codes "artist;valtype=char*;char-encoding=UTF8";
        value = p_char_value (codes "cd" ++ 0 ∷ []);
      }
      ∷ []
unfolding parse_two starts_with safe_synch_int_to_int32 frame_supported construct_kvp_key behind
parse_two_frames = refl

-- A tag of ID3v2.3 with a title in UTF-8 and an artist in UTF-16.
abbrev two_texts : List TagText
two_texts =
    record { text_type = title; text_charset = charset_utf8; letters = codes "a" ++ 0xe9 ∷ [] }
    ∷ record { text_type = artist; text_charset = charset_utf16; letters = 0x5f20 ∷ 0x5b66 ∷ [] }
    ∷ []

abbrev tagged_file : InputFile
tagged_file = memory_file (file_bytes v2_3 40 (map written two_texts) (255 ∷ 251 ∷ []))

-- A tag of ID3v2.3 with a genre in ISO-8859-1 and a year.
abbrev two_written : List WrittenFrame
two_written =
    record { frame_type = genre; charset = charset_iso88591; cells = 0xe9 ∷ 0xe8 ∷ [] }
    ∷ record { frame_type = year; charset = charset_iso88591; cells = codes "1999" }
    ∷ []

abbrev written_file : InputFile
written_file = memory_file (file_bytes v2_3 40 two_written (255 ∷ 251 ∷ []))

written_fits : length (tag_bytes two_written) ≤ 40
unfolding tag_bytes frame_bytes be32
written_fits = omega arith

written_is_short : length (written_file.bytes) < 128
unfolding file_bytes tag_bytes frame_bytes be32
written_is_short = omega arith

parse_id3_tag-file_bytes_example :
    (q : Parser ℕ) × (parse_id3_tag written_file no_others 1 4 100 (new_parser 0 (zeros 5) 0 [])
      ≡ (returned true, q))
    × (q.frames ≡ map (pair_read v2_3 []) two_written)
    × (q.byte_offset ≡ 40 + 10)
    × (written_file.tell q.input ≡ 0)
parse_id3_tag-file_bytes_example =
    parse_id3_tag-file_bytes written_file no_others 0 4 100 40 v2_3 two_written (255 ∷ 251 ∷ []) 0
      (zeros 5) 0 [] (omega arith) ((tt, omega arith, tt), ((tt, omega arith, tt), tt)) tt
      (omega arith) written_fits refl (inl written_is_short) refl

-- A parser inside a tag of the given version and size.
abbrev parser_in : Version → ℕ → Parser ℕ
unfolding new_parser
parser_in v size = record (new_parser 0 (zeros 5) 0 []) { version = v; tag_size = size }

abbrev first_round : Cursor
first_round = record { i = 0; data_len_indicator_size = 0; count = 0 }

tag_loop-HasEnded_example :
    HasEnded
      (tag_loop (memory_file (codes "TT2")) no_others v2_2 0 3 first_round (parser_in v2_2 8)).0
unfolding parser_in
tag_loop-HasEnded_example =
    tag_loop-HasEnded (memory_file (codes "TT2")) no_others 0 2 8 first_round (parser_in v2_2 8)
      refl (omega arith) (omega arith)

tag_loop-seek_frame_example :
    (tag_loop
      (memory_file (seek_frame 0 0x80 []))
      no_others
      v2_3
      0
      1000
      first_round
      (parser_in v2_3 10)).0
    ≡ running
unfolding parser_in
tag_loop-seek_frame_example =
    tag_loop-seek_frame (memory_file (seek_frame 0 0x80 [])) no_others 0 1000 first_round 0 0x80 []
      [] (parser_in v2_3 10) refl (omega arith) refl (omega arith) refl

read_frame_data_overrun_example :
    (q : Parser ℕ) × (read_frame_data
        (memory_file (255 ∷ 254 ∷ 1 ∷ 2 ∷ []))
        no_others
        1
        title
        0
        2
        (parser_in v2_3 100)
      ≡ (overrun, q))
unfolding parser_in
read_frame_data_overrun_example =
    read_frame_data_overrun (memory_file (255 ∷ 254 ∷ 1 ∷ 2 ∷ [])) no_others title 0 [] (1 ∷ 2 ∷ [])
      (parser_in v2_3 100) tt (omega arith) (omega arith) refl refl (omega arith, refl)
