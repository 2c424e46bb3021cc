-- ===== src/Id3/FrameTables.antt =====
-- listener/src/main/jni/pvmi/pv_id3_parcom.cpp: the identifiers that FrameSupportedID3V2,
-- FrameSupportedID3V2_2 and FrameValidatedID3V2_4 compare with, and the members that note what was
-- found. A chain of comparisons is the list of its entries, in the order of the source.
use foodie_note.Id3.KvpKey.{
  FrameType, title, artist, album, year, comment, track_number, genre, copyright, track_length,
  date, pic, apic, lyrics, seek, recording_time, author, composer, description, version,
  part_of_set,
}
use foodie_note.Prelude.Text.{codes}
use foodie_note.Prelude.{ℕ, Bool, true, Option, none, some, List, [], ◌∷◌}

-- The members iTitleFoundFlag to iGenereFoundFlag, and their names.
pub data Flag : Type 0 where
  title_flag artist_flag album_flag year_flag comment_flag track_number_flag genre_flag : Flag

pub record Found : Type 0 where
  pub title_found : Bool
  pub artist_found : Bool
  pub album_found : Bool
  pub year_found : Bool
  pub comment_found : Bool
  pub track_number_found : Bool
  pub genre_found : Bool

unfoldable pub mark : Option Flag → Found → Found
mark none f = f
mark (some title_flag) f = record f { title_found = true }
mark (some artist_flag) f = record f { artist_found = true }
mark (some album_flag) f = record f { album_found = true }
mark (some year_flag) f = record f { year_found = true }
mark (some comment_flag) f = record f { comment_found = true }
mark (some track_number_flag) f = record f { track_number_found = true }
mark (some genre_flag) f = record f { genre_found = true }

-- A comparison of the chain: the identifier, the type, and the flag that is set.
pub data Entry : Type 0 where
  entry : List ℕ → FrameType → Option Flag → Entry

unfoldable pub frame_table : List Entry
frame_table =
    entry (codes "TIT2") title (some title_flag)
    ∷ entry (codes "TPE1") artist (some artist_flag)
    ∷ entry (codes "TPOS") part_of_set none
    ∷ entry (codes "TALB") album (some album_flag)
    ∷ entry (codes "TCOP") copyright none
    ∷ entry (codes "TCON") genre (some genre_flag)
    ∷ entry (codes "TRCK") track_number (some track_number_flag)
    ∷ entry (codes "TLEN") track_length none
    ∷ entry (codes "COMM") comment (some comment_flag)
    ∷ entry (codes "TYER") year (some year_flag)
    ∷ entry (codes "TDRC") recording_time (some year_flag)
    ∷ entry (codes "TDAT") date none
    ∷ entry (codes "APIC") apic none
    ∷ entry (codes "USLT") lyrics none
    ∷ entry (codes "SEEK") seek none
    ∷ entry (codes "TEXT") author none
    ∷ entry (codes "TCOM") composer none
    ∷ entry (codes "TIT3") description none
    ∷ entry (codes "TENC") version none
    ∷ []

unfoldable pub frame_table_v2_2 : List Entry
frame_table_v2_2 =
    entry (codes "TT2") title (some title_flag)
    ∷ entry (codes "TP1") artist (some artist_flag)
    ∷ entry (codes "TPA") part_of_set none
    ∷ entry (codes "TAL") album (some album_flag)
    ∷ entry (codes "TCR") copyright none
    ∷ entry (codes "TCO") genre (some genre_flag)
    ∷ entry (codes "TRK") track_number (some track_number_flag)
    ∷ entry (codes "TLE") track_length none
    ∷ entry (codes "COM") comment (some comment_flag)
    ∷ entry (codes "TYE") year (some year_flag)
    ∷ entry (codes "TDA") date none
    ∷ entry (codes "PIC") pic none
    ∷ entry (codes "ULT") lyrics none
    ∷ entry (codes "TXT") author none
    ∷ entry (codes "TCM") composer none
    ∷ entry (codes "TT3") description none
    ∷ entry (codes "TEN") version none
    ∷ []

-- The frames of ID3v2.4 that are known and not supported.
unfoldable pub known_ids : List (List ℕ)
known_ids =
    codes "AENC"
    ∷ codes "ASPI"
    ∷ codes "COMR"
    ∷ codes "ENCR"
    ∷ codes "EQU2"
    ∷ codes "ETCO"
    ∷ codes "GEOB"
    ∷ codes "GRID"
    ∷ codes "LINK"
    ∷ codes "MCDI"
    ∷ codes "MLLT"
    ∷ codes "OWNE"
    ∷ codes "PRIV"
    ∷ codes "PCNT"
    ∷ codes "POPM"
    ∷ codes "POSS"
    ∷ codes "RBUF"
    ∷ codes "RVA2"
    ∷ codes "RVRB"
    ∷ codes "SYLT"
    ∷ codes "SYTC"
    ∷ codes "TBPM"
    ∷ codes "TDLY"
    ∷ codes "TFLT"
    ∷ codes "TIT1"
    ∷ codes "TKEY"
    ∷ codes "TLAN"
    ∷ codes "TMED"
    ∷ codes "TOAL"
    ∷ codes "TOFN"
    ∷ codes "TOLY"
    ∷ codes "TOPE"
    ∷ codes "TOWN"
    ∷ codes "TPE2"
    ∷ codes "TPE3"
    ∷ codes "TPE4"
    ∷ codes "TPOS"
    ∷ codes "TPUB"
    ∷ codes "TRSN"
    ∷ codes "TRSO"
    ∷ codes "TSRC"
    ∷ codes "TSSE"
    ∷ codes "UFID"
    ∷ codes "USER"
    ∷ codes "WCOM"
    ∷ codes "WCOP"
    ∷ codes "WOAF"
    ∷ codes "WOAR"
    ∷ codes "WOAS"
    ∷ codes "WORS"
    ∷ codes "WPAY"
    ∷ codes "WPUB"
    ∷ codes "WXXX"
    ∷ codes "SIGN"
    ∷ codes "TDEN"
    ∷ codes "TDOR"
    ∷ codes "TDRL"
    ∷ codes "TDTG"
    ∷ codes "TIPL"
    ∷ codes "TMCL"
    ∷ codes "TMOO"
    ∷ codes "TPRO"
    ∷ codes "TSOA"
    ∷ codes "TSOP"
    ∷ codes "TSOT"
    ∷ codes "TSST"
    ∷ codes "TXXX"
    ∷ []
