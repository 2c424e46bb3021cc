-- ===== src/Mp3/State.antt =====
-- listener/src/main/jni/pvmi/mp3parser.h: the members of MP3Parser that finding a frame, reading
-- frames and scanning a file use, and how the calls on it follow one another. iMaxSyncBufferSize is
-- 627 wherever it is read, and pSyncBuffer lives within one call of mp3FindSync. `input` is the file
-- that the calls get: fp, or in a scan the file for scanning, beside which `playing` is fp.
use foodie_note.Mp3.File.{PvFile, Error, SeekType, seek_to_offset, read_byte_data}
use foodie_note.Mp3.Header.{HeaderInfo, ConfigInfo, FileType}
use foodie_note.Prelude.Int.{ℤ}
use foodie_note.Prelude.{ℕ, Bool, Option, List}

pub record Mp3Parser (S : Type 0) : Type 0 where
  pub input : S
  pub header_info : HeaderInfo
  pub config_info : ConfigInfo
  pub mp3_type : FileType
  pub xing_flags : ℕ
  pub local_file_size : ℕ
  pub file_size_from_external_source : ℕ
  pub init_search_file_size : ℕ
  pub local_file_size_set : Bool
  pub enable_crc_calc : Bool
  pub v1_present : Bool
  pub tag_size : ℕ
  pub start_offset : ℕ
  pub curr_frame_number : ℕ
  pub number_of_frames : ℕ
  pub avg_bitrate : ℕ
  pub timestamp : ℕ
  pub clip_duration_from_metadata : ℕ
  pub clip_duration_from_vbri_header : ℕ
  pub clip_duration_computed : ℕ
  pub first_scan : Bool
  pub duration_scan_complete : Bool
  pub last_scan_position : ℕ
  pub scanned_frame_count : ℕ
  pub scan_timestamp : ℕ
  pub avg_bitrate_from_complete_scan : ℕ
  pub toc : Option (List ℕ)
  pub toc_filled_count : ℕ
  pub timestamp_prev : ℕ
  pub bin_width : ℕ
  pub avg_bitrate_from_random_scan : ℕ
  pub vbri_entries_toc : ℕ
  pub playing : S

-- How a call ends: it goes on with a value, the function returns an error, it writes beyond a
-- buffer, or it still runs when the fuel of a loop is used up.
pub data Exit {ℓ} (A : Type ℓ) : Type ℓ where
  went : A → Exit A
  ended : Error → Exit A
  overrun running : Exit A

abbrev pub Call : Type 0 → Type 0 → Type 0
Call S A = Mp3Parser S → Exit A × Mp3Parser S

module _ {S : Type 0} where
  abbrev pub pure : {A : Type 0} → A → Call S A
  pure a p = (went a, p)

  abbrev pub end_with : {A : Type 0} → Error → Call S A
  end_with e p = (ended e, p)

  abbrev pub overflow : {A : Type 0} → Call S A
  overflow p = (overrun, p)

  abbrev pub run_on : {A : Type 0} → Call S A
  run_on p = (running, p)

  abbrev pub gets : {A : Type 0} → (Mp3Parser S → A) → Call S A
  gets g p = (went (g p), p)

  abbrev pub modify : (Mp3Parser S → Mp3Parser S) → Call S (Unit {0})
  modify g p = (went tt, g p)

  unfoldable pub behind :
      {A B : Type 0} → Exit A × Mp3Parser S → (A → Call S B) → Exit B × Mp3Parser S
  behind (went a, p) k = k a p
  behind (ended e, p) k = (ended e, p)
  behind (overrun, p) k = (overrun, p)
  behind (running, p) k = (running, p)

infixl 5 ◌>>=◌ ◌>>◌
abbrev pub ◌>>=◌ : {S A B : Type 0} → Call S A → (A → Call S B) → Call S B
◌>>=◌ m k p = behind (m p) k

abbrev pub ◌>>◌ : {S A B : Type 0} → Call S A → Call S B → Call S B
m >> k = m >>= λ _. k

module _ (f : PvFile) where
  open f use {State}

  -- SeektoOffset on the parser's file, with its result as a value.
  unfoldable pub seek : ℤ → SeekType → Call State Error
  seek off kind p =
      let r = seek_to_offset f p.input off kind in (went r.0, record p { input = r.1 })

  -- readByteData on the parser's file.
  unfoldable pub read_bytes : ℕ → Call State (Option (List ℕ))
  read_bytes n p = let r = read_byte_data f p.input n in (went r.0, record p { input = r.1 })
