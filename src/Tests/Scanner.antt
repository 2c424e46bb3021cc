-- ===== src/Tests/Scanner.antt =====
-- Runs of the media scanner, with a client that keeps the tags and refuses the third.
use foodie_note.Id3.Kvp.{uint32_value}
use foodie_note.Id3.KvpKey.{title, track_number, charset_utf16, charset_utf8, v2_3}
use foodie_note.Prelude.Results.{ok, fault, out_of_bounds}
use foodie_note.Prelude.Text.{IsNonzero, codes, behind_first_of, starts_with}
use foodie_note.Prelude.{
  ◌-◌, ◌^◌, ℕ, zero, suc, ◌+◌, ◌≤◌, ◌≡◌, inl, refl, arith, true, false, none, some, List, [], ◌∷◌,
  ◌++◌, map, take, length, ltb, if◌then◌else◌, All,
}
use foodie_note.Scanner.Delivery.{handle_frames-deliver}
use foodie_note.Scanner.Frames.{
  Iconv, Client, change_code, handle_frames, handle_gbk, handle_utf8, handle_frame, client_key,
  branch_of,
}
use foodie_note.Scanner.Gbk.{handle_gbk_fits, handle_gbk_full, handle_utf8_any}
use foodie_note.Scanner.Number.{number_from, IsDecimal, handle_frame_number}
use foodie_note.Scanner.ParseMp3.{pvmf_failure, Services, mp3_status, parse_mp3, parse_mp3-deliver}
use foodie_note.Scanner.Tags.{TextFrame, IsTextFrame, kvp_of, Tag, tags_of, deliver}
use foodie_note.Utf8.Accepts.{IsBasicText}
use foodie_note.Utf8.Reference.{utf8_text}
use foodie_note.Utf8.RoundTrip.{wide_32}
use foodie_note.Utf8.Validate.{Checked, is_valid_utf8}

abbrev pub log_client : Client
log_client = record {
  State = List Tag;
  handle_string_tag = λ log key value.
      if ltb (length log) 2 then (true, log ++ (key, value) ∷ []) else (false, log);
}

-- A conversion that copies what has room.
abbrev pub copy_iconv : Iconv
copy_iconv = record {
  Descriptor = Unit;
  iconv_open = λ to from. some tt;
  iconv = λ h input room. (0, take room input);
}

-- "aé" and "中", as a title and as a track number.
abbrev frames : List TextFrame
frames =
    record {
      tag_version = v2_3;
      frame_id = [];
      language = [];
      frame_type = title;
      charset = charset_utf8;
      text = 0x61 ∷ 0xe9 ∷ [];
      rest = [];
    }
    ∷ record {
      tag_version = v2_3;
      frame_id = [];
      language = [];
      frame_type = track_number;
      charset = charset_utf16;
      text = 0x4e2d ∷ [];
      rest = 7 ∷ [];
    }
    ∷ []

sample-IsBasicText : IsBasicText 0x61 × IsBasicText 0xe9 × IsBasicText 0x4e2d
sample-IsBasicText = (
  (omega arith, (omega arith, inl (omega arith))),
  (omega arith, (omega arith, inl (omega arith))),
  (omega arith, (omega arith, inl (omega arith))),
)

frames-IsTextFrame : All IsTextFrame frames
frames-IsTextFrame = (
  (tt, tt, (sample-IsBasicText.0, (sample-IsBasicText.1, tt))),
  ((tt, tt, (sample-IsBasicText.2, tt)), tt),
)

handle_frames-deliver_example :
    handle_frames copy_iconv log_client (map kvp_of frames) []
    ≡ ok (deliver log_client (tags_of frames) [])
handle_frames-deliver_example =
    handle_frames-deliver copy_iconv log_client frames [] frames-IsTextFrame

-- The file "/中", whose MP3 part does not parse.
abbrev services : Services
services = record {
  File = Unit;
  connect = true;
  open_file = λ name. some tt;
  id3_frames = λ file. map kvp_of frames;
  construct_error = λ name. none;
  parse_error = λ name. some 5;
}

path-IsBasicText : All IsBasicText (0x2f ∷ 0x4e2d ∷ [])
path-IsBasicText = ((omega arith, (omega arith, inl (omega arith))), (sample-IsBasicText.2, tt))

parse_mp3-deliver_example :
    parse_mp3 copy_iconv log_client services (utf8_text (0x2f ∷ 0x4e2d ∷ []) ++ 0 ∷ []) []
    ≡ ok (
      if (deliver log_client (tags_of frames) []).0
          then mp3_status copy_iconv log_client services (map wide_32 (0x2f ∷ 0x4e2d ∷ []))
          else pvmf_failure,
      (deliver log_client (tags_of frames) []).1,
    )
parse_mp3-deliver_example =
    parse_mp3-deliver copy_iconv log_client services (0x2f ∷ 0x4e2d ∷ []) [] tt frames [] refl
      path-IsBasicText (omega arith) refl refl frames-IsTextFrame

abbrev key : List ℕ
key = 0x6b ∷ []

abbrev word : List ℕ
word = 0x61 ∷ 0xe4 ∷ []

word-IsNonzero : All IsNonzero word
word-IsNonzero = (omega arith, (omega arith, tt))

word-converted : (change_code copy_iconv [] [] word 100).1 ≡ word
unfolding change_code
word-converted = refl

handle_gbk_fits_example :
    handle_gbk copy_iconv log_client key (word ++ 0 ∷ []) [] ≡ ok (true, (key, word) ∷ [])
unfolding change_code
handle_gbk_fits_example =
    handle_gbk_fits copy_iconv log_client key word [] [] word-IsNonzero word-IsNonzero (omega arith)

letters : ℕ → List ℕ
letters zero = []
letters (suc n) = 0x61 ∷ letters n

letters-IsNonzero : (n : ℕ) → All IsNonzero (letters n)
unfolding letters
letters-IsNonzero zero = tt
letters-IsNonzero (suc n) = (omega arith, letters-IsNonzero n)

handle_gbk_full_example :
    handle_gbk copy_iconv log_client key (letters 120 ++ 0 ∷ []) [] ≡ fault out_of_bounds
unfolding change_code letters
handle_gbk_full_example =
    handle_gbk_full copy_iconv log_client key (letters 120) [] [] (letters-IsNonzero 120)
      (letters-IsNonzero 100) refl

handle_utf8_any_example :
    (c : Checked) × (is_valid_utf8 (length (word ++ 0 ∷ []) + 1) (word ++ 0 ∷ []) 0 0 ≡ some c)
    × (c.position ≤ 2)
    × (handle_utf8 copy_iconv log_client key (word ++ 0 ∷ []) [] ≡ (
        if c.valid
        then ok (true, (key, word) ∷ [])
        else handle_gbk copy_iconv log_client key (word ++ 0 ∷ []) []))
handle_utf8_any_example = handle_utf8_any copy_iconv log_client key word [] [] word-IsNonzero

-- The key of a number.
abbrev number_key : List ℕ
number_key = codes "duration;valtype=uint32"

handle_frame_number_example :
    (digits : List ℕ) × (handle_frame copy_iconv log_client
        (record { key = number_key; value = uint32_value 0xfffffffe })
        []
      ≡ ok (
          log_client.handle_string_tag []
            (client_key number_key (codes "valtype=uint32"))
            (if ltb 0xfffffffe (2 ^ 31) then digits else b'-' ∷ digits)))
    × IsDecimal digits
    × (number_from 0 digits ≡ (if ltb 0xfffffffe (2 ^ 31) then 0xfffffffe else 2 ^ 32 - 0xfffffffe))
unfolding behind_first_of branch_of starts_with
handle_frame_number_example =
    handle_frame_number copy_iconv log_client number_key (codes "valtype=uint32") 0xfffffffe [] refl
      refl (omega arith)
