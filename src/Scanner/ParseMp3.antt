-- ===== src/Scanner/ParseMp3.antt =====
-- listener/src/main/jni/mediascanner.cpp: parseMP3 as a whole. The file, the ID3 parser's frames and
-- IMpeg3File are parameters by what the function reads of them; the duration, which it formats and
-- then does not use, is left out.
use foodie_note.Prelude.Results.{Result, ok, fault, ◌>>=◌}
use foodie_note.Prelude.Text.{c_string, c_string-text, IsNonzero}
use foodie_note.Prelude.{
  ℕ, ◌≡◌, ◌<◌, refl, arith, Bool, true, false, Option, none, some, List, [], ◌∷◌, ◌++◌, map, length,
  if◌then◌else◌, All,
}
use foodie_note.Scanner.Delivery.{handle_frames-deliver, utf8_text-IsNonzero}
use foodie_note.Id3.Kvp.{Kvp}
use foodie_note.Scanner.Frames.{Iconv, Client, handle_frames}
use foodie_note.Scanner.Tags.{TextFrame, IsTextFrame, kvp_of, tags_of, deliver}
use foodie_note.Utf8.Accepts.{IsBasicText, IsBasicText-IsBasicPlane}
use foodie_note.Utf8.Convert.{utf8_to_unicode}
use foodie_note.Utf8.Reference.{utf8_text}
use foodie_note.Utf8.RoundTrip.{wide_32, utf8_to_unicode_32}

-- What parseMP3 returns: PVMFSuccess, PVMFFailure, or an error number of IMpeg3File.
pub data Status : Type 0 where
  pvmf_success pvmf_failure : Status
  mp3_error : ℕ → Status

-- The services: whether the file server connects, the file under a wide name, the frames that
-- ParseID3Tag and GetID3Frames make of it, and the errors of IMpeg3File's constructor and of
-- ParseMp3File, where `none` is MP3_SUCCESS.
pub record Services : Type 1 where
  pub File : Type 0
  pub connect : Bool
  pub open_file : List ℕ → Option File
  pub id3_frames : File → List Kvp
  pub construct_error : List ℕ → Option ℕ
  pub parse_error : List ℕ → Option ℕ

module _ (lib : Iconv) (client : Client) (services : Services) where
  open client use {State}
  open services use {File, connect, open_file, id3_frames, construct_error, parse_error}

  -- The part behind the loop.
  unfoldable pub mp3_status : List ℕ → Status
  mp3_status output = elim (construct_error output) [
    | some e ↦ mp3_error e
    | none ↦ elim (parse_error output) [ some e ↦ mp3_error e | none ↦ pvmf_success ]
  ]

  -- Behind the loop over the frames: a client that refuses a tag ends the function.
  unfoldable pub behind_frames : List ℕ → Result (Bool × State) → Result (Status × State)
  behind_frames output (fault e) = fault e
  behind_frames output (ok (false, t)) = ok (pvmf_failure, t)
  behind_frames output (ok (true, t)) = ok (mp3_status output, t)

  unfoldable pub scan_file : List ℕ → Option File → State → Result (Status × State)
  scan_file output none s = ok (pvmf_failure, s)
  scan_file output (some f) s = behind_frames output (handle_frames lib client (id3_frames f) s)

  -- parseMP3 on the buffer of the path: `output` has 1024 wide characters, and the result of the
  -- conversion is not looked at.
  unfoldable pub parse_mp3 : List ℕ → State → Result (Status × State)
  parse_mp3 filename s = if not_connected then ok (pvmf_failure, s) else do
    path ← c_string filename
    output ← c_string (utf8_to_unicode 32 path 1024).written
    scan_file output (open_file output) s
    where
      not_connected : Bool
      not_connected = if connect then false else true

  wide_32-IsNonzero : (cs : List ℕ) → All IsBasicText cs → All IsNonzero (map wide_32 cs)
  wide_32-IsNonzero [] h = tt
  wide_32-IsNonzero (c ∷ cs) ((nonzero, basic), hcs) =
      (unfold wide_32 in ground arith, wide_32-IsNonzero cs hcs)

  -- A connected server, a path in UTF-8 of fewer than 1024 characters, a file under its wide name whose
  -- frames are text frames in UTF-8 or UTF-16, path and texts of characters of the basic plane only (from
  -- 1 to 0xffff and none from 0xd801 to 0xdffe): the scan ends without a fault, the client has got the
  -- tags in order up to the first that it refuses, and the status is a failure if it refused one and
  -- otherwise what the MP3 parser says of the file.
  pub parse_mp3-deliver :
      (cs rest : List ℕ) (f : File) (xs : List TextFrame) (s : State)
      → connect ≡ true
      → All IsBasicText cs
      → length cs < 1024
      → open_file (map wide_32 cs) ≡ some f
      → id3_frames f ≡ map kvp_of xs
      → All IsTextFrame xs
      → parse_mp3 (utf8_text cs ++ 0 ∷ rest) s
        ≡ ok (
          if (deliver client (tags_of xs) s).0 then mp3_status (map wide_32 cs) else pvmf_failure,
          (deliver client (tags_of xs) s).1,
        )
  unfolding parse_mp3 scan_file behind_frames mp3_status
  parse_mp3-deliver cs rest f xs s connected text short opened frames h =
      rw
        (
          connected,
          c_string-text (utf8_text cs) rest (utf8_text-IsNonzero cs text),
          utf8_to_unicode_32 cs 1024 (IsBasicText-IsBasicPlane cs text) short,
          c_string-text (map wide_32 cs) [] (wide_32-IsNonzero cs text),
          opened,
          frames,
          handle_frames-deliver lib client xs s h,
        )
        (ended (deliver client (tags_of xs) s))
    where
      ended :
          (r : Bool × State)
          → behind_frames (map wide_32 cs) (ok r)
            ≡ ok (if r.0 then mp3_status (map wide_32 cs) else pvmf_failure, r.1)
      ended (true, t) = refl
      ended (false, t) = refl
