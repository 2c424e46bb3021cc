-- ===== src/Scanner/TaggedFile.antt =====
-- From the bytes of a file to the client of the media scanner: the frames that ParseID3Tag makes of a
-- written tag, handed to the loop of parseMP3.
use foodie_note.Id3.KvpKey.{CharacterSet, charset_utf16, charset_utf8, FrameType, Version}
use foodie_note.Id3.Reader.Written.{IsTextType, IsPlain, id_of, WrittenFrame, data_bytes}
use foodie_note.Id3.WideCharText.{IsUnit16}
use foodie_note.Prelude.{ℕ, ◌≤◌, List, [], length, All}
use foodie_note.Scanner.Tags.{TextFrame}
use foodie_note.Utf8.Accepts.{IsBasicText}
use foodie_note.Utf8.Reference.{utf8_text}

-- A text of a tag: its type, the character set that it is written in, and its characters.
pub record TagText : Type 0 where
  pub text_type : FrameType
  pub text_charset : CharacterSet
  pub letters : List ℕ

-- The frame that a writer makes of it.
unfoldable pub written_cells : CharacterSet → List ℕ → List ℕ
written_cells charset_utf8 text = utf8_text text
written_cells _ text = text

unfoldable pub written : TagText → WrittenFrame
unfolding written_cells
written x = record {
  frame_type = x.text_type;
  charset = x.text_charset;
  cells = written_cells x.text_charset x.letters;
}

-- The frame as the scanner sees it.
unfoldable pub seen_frame : Version → List ℕ → TagText → TextFrame
seen_frame v lang x = record {
  tag_version = v;
  frame_id = id_of x.text_type;
  language = lang;
  frame_type = x.text_type;
  charset = x.text_charset;
  text = x.letters;
  rest = [];
}

-- UTF-8 text that is not empty, or little-endian UTF-16 text of characters below 0x10000.
abbrev pub IsEncoded : CharacterSet → List ℕ → Type 0
IsEncoded charset_utf8 text = 1 ≤ length (utf8_text text)
IsEncoded charset_utf16 text = All IsUnit16 text
IsEncoded _ text = ⊥

abbrev pub IsTagText : Version → TagText → Type 0
IsTagText v x =
    IsTextType x.text_type
    × IsEncoded x.text_charset x.letters
    × All IsBasicText x.letters
    × IsPlain v (length (data_bytes (written x)))
