-- ===== src/Id3/KeyedTypes.antt =====
-- The types for which ConstructKvpKey makes a key.
use foodie_note.Id3.KvpKey.{
  Version, invalid_version, v1, v1_1, v2_2, v2_3, v2_4, CharacterSet, charset_invalid,
  charset_iso88591, charset_utf16, charset_utf16be, charset_utf8, charset_end, charset_type,
  construct_kvp_key, with_charset, FrameType, frame_invalid, candidate, unrecognized, title, artist,
  album, year, comment, track_number, genre, copyright, track_length, date, padded, pic, apic,
  lyrics, seek, recording_time, author, composer, description, version, part_of_set, eend,
}
use foodie_note.Prelude.{ℕ, ◌≡◌, refl, true, List}

-- The types that ConstructKvpKey knows.
abbrev pub HasKey : FrameType → Type 0
HasKey frame_invalid = ⊥
HasKey candidate = Unit
HasKey unrecognized = Unit
HasKey title = Unit
HasKey artist = Unit
HasKey album = Unit
HasKey year = Unit
HasKey comment = Unit
HasKey track_number = Unit
HasKey genre = Unit
HasKey copyright = Unit
HasKey track_length = Unit
HasKey date = Unit
HasKey padded = ⊥
HasKey pic = Unit
HasKey apic = Unit
HasKey lyrics = Unit
HasKey seek = ⊥
HasKey recording_time = Unit
HasKey author = Unit
HasKey composer = Unit
HasKey description = Unit
HasKey version = Unit
HasKey part_of_set = Unit
HasKey eend = ⊥

-- The types on which the parser ends or passes the frame by.
abbrev pub IsPassed : FrameType → Type 0
IsPassed eend = Unit
IsPassed seek = Unit
IsPassed frame_invalid = Unit
IsPassed _ = ⊥

pub construct_kvp_key-succeeds :
    (v : Version) (id lang : List ℕ) (t : FrameType) (c : CharacterSet)
    → (charset_type c).1 ≡ true
    → HasKey t
    → (construct_kvp_key v id lang t c).1 ≡ true
unfolding construct_kvp_key with_charset charset_type
construct_kvp_key-succeeds v id lang frame_invalid c known keyed = absurd keyed
construct_kvp_key-succeeds v id lang candidate c known keyed = refl
construct_kvp_key-succeeds v id lang unrecognized c known keyed = refl
construct_kvp_key-succeeds v id lang title c known keyed = known
construct_kvp_key-succeeds v id lang artist c known keyed = known
construct_kvp_key-succeeds v id lang album c known keyed = known
construct_kvp_key-succeeds v id lang year c known keyed = known
construct_kvp_key-succeeds invalid_version id lang comment c known keyed = refl
construct_kvp_key-succeeds v1 id lang comment c known keyed = known
construct_kvp_key-succeeds v1_1 id lang comment c known keyed = known
construct_kvp_key-succeeds v2_2 id lang comment c known keyed = refl
construct_kvp_key-succeeds v2_3 id lang comment c known keyed = refl
construct_kvp_key-succeeds v2_4 id lang comment c known keyed = refl
construct_kvp_key-succeeds v id lang track_number charset_iso88591 known keyed = refl
construct_kvp_key-succeeds v id lang track_number charset_utf16 known keyed = refl
construct_kvp_key-succeeds v id lang track_number charset_utf16be known keyed = refl
construct_kvp_key-succeeds v id lang track_number charset_utf8 known keyed = refl
construct_kvp_key-succeeds v id lang track_number charset_invalid known keyed = refl
construct_kvp_key-succeeds v id lang track_number charset_end known keyed = known
construct_kvp_key-succeeds v id lang genre charset_iso88591 known keyed = refl
construct_kvp_key-succeeds v id lang genre charset_utf16 known keyed = refl
construct_kvp_key-succeeds v id lang genre charset_utf16be known keyed = refl
construct_kvp_key-succeeds v id lang genre charset_utf8 known keyed = refl
construct_kvp_key-succeeds v id lang genre charset_invalid known keyed = refl
construct_kvp_key-succeeds v id lang genre charset_end known keyed = known
construct_kvp_key-succeeds v id lang copyright c known keyed = known
construct_kvp_key-succeeds v id lang track_length c known keyed = refl
construct_kvp_key-succeeds v id lang date c known keyed = known
construct_kvp_key-succeeds v id lang padded c known keyed = absurd keyed
construct_kvp_key-succeeds v id lang pic c known keyed = refl
construct_kvp_key-succeeds v id lang apic c known keyed = refl
construct_kvp_key-succeeds invalid_version id lang lyrics c known keyed = refl
construct_kvp_key-succeeds v1 id lang lyrics c known keyed = known
construct_kvp_key-succeeds v1_1 id lang lyrics c known keyed = known
construct_kvp_key-succeeds v2_2 id lang lyrics c known keyed = refl
construct_kvp_key-succeeds v2_3 id lang lyrics c known keyed = refl
construct_kvp_key-succeeds v2_4 id lang lyrics c known keyed = refl
construct_kvp_key-succeeds v id lang seek c known keyed = absurd keyed
construct_kvp_key-succeeds v id lang recording_time c known keyed = known
construct_kvp_key-succeeds v id lang author c known keyed = known
construct_kvp_key-succeeds v id lang composer c known keyed = known
construct_kvp_key-succeeds v id lang description c known keyed = known
construct_kvp_key-succeeds v id lang version c known keyed = known
construct_kvp_key-succeeds v id lang part_of_set c known keyed = known
construct_kvp_key-succeeds v id lang eend c known keyed = absurd keyed
