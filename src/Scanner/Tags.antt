-- ===== src/Scanner/Tags.antt =====
-- Text frames as the ID3 parser hands them out, and the tags that the client is to get for them.
use foodie_note.Id3.KvpKey.{
  Version, v1, v1_1, invalid_version, v2_2, v2_3, v2_4, CharacterSet, charset_utf16,
  charset_utf16be, charset_utf8, charset_invalid, charset_iso88591, charset_end, charset_type,
  FrameType, frame_invalid, candidate, unrecognized, track_length, padded, pic, apic, lyrics, seek,
  eend, title, artist, album, year, comment, track_number, genre, copyright, date, recording_time,
  author, composer, description, version, part_of_set, construct_kvp_key, with_charset,
}
use foodie_note.Prelude.Text.{codes, behind_first_of, starts_with}
use foodie_note.Prelude.{ℕ, ◌≡◌, refl, Bool, true, false, some, List, [], ◌∷◌, ◌++◌, All}
use foodie_note.Id3.Kvp.{Value, p_char_value, p_wchar_value, Kvp}
use foodie_note.Scanner.Frames.{client_key, Client}
use foodie_note.Utf8.Accepts.{IsBasicText}
use foodie_note.Utf8.Reference.{utf8_text}

-- A frame with text: the parser's version and frame id and language, the type, the character set,
-- the text, and what stands in the value's buffer behind the terminator.
pub record TextFrame : Type 0 where
  pub tag_version : Version
  pub frame_id : List ℕ
  pub language : List ℕ
  pub frame_type : FrameType
  pub charset : CharacterSet
  pub text : List ℕ
  pub rest : List ℕ

-- The types whose value is text; a comment only in ID3v1, since later ones are structured values.
abbrev pub HasText : Version → FrameType → Type 0
HasText v title = Unit
HasText v artist = Unit
HasText v part_of_set = Unit
HasText v album = Unit
HasText v copyright = Unit
HasText v genre = Unit
HasText v track_number = Unit
HasText v year = Unit
HasText v date = Unit
HasText v recording_time = Unit
HasText v author = Unit
HasText v composer = Unit
HasText v description = Unit
HasText v version = Unit
HasText v1 comment = Unit
HasText v1_1 comment = Unit
HasText _ _ = ⊥

-- The character sets of Unicode.
abbrev pub IsUnicode : CharacterSet → Type 0
IsUnicode charset_utf16 = Unit
IsUnicode charset_utf16be = Unit
IsUnicode charset_utf8 = Unit
IsUnicode _ = ⊥

abbrev pub IsTextFrame : TextFrame → Type 0
IsTextFrame x = HasText x.tag_version x.frame_type × IsUnicode x.charset × All IsBasicText x.text

-- The value of a frame: UTF-8, or wide characters in the byte order of the machine.
unfoldable pub value_of : CharacterSet → List ℕ → List ℕ → Value
value_of charset_utf8 text rest = p_char_value (utf8_text text ++ 0 ∷ rest)
value_of _ text rest = p_wchar_value (text ++ 0 ∷ rest)

unfoldable pub kvp_of : TextFrame → Kvp
unfolding value_of
kvp_of x = record {
  key = (construct_kvp_key x.tag_version x.frame_id x.language x.frame_type x.charset).0;
  value = value_of x.charset x.text x.rest;
}

-- The name that Java expects.
unfoldable pub client_name : FrameType → List ℕ
client_name title = codes "title"
client_name artist = codes "artist"
client_name part_of_set = codes "set"
client_name album = codes "album"
client_name copyright = codes "copyright"
client_name genre = codes "genre"
client_name track_number = codes "tracknumber"
client_name year = codes "year"
client_name date = codes "date"
client_name recording_time = codes "year"
client_name author = codes "author"
client_name composer = codes "composer"
client_name description = codes "description"
client_name version = codes "version"
client_name comment = codes "comment"
client_name _ = []

abbrev pub Tag : Type 0
Tag = List ℕ × List ℕ

abbrev pub tag_key : TextFrame → List ℕ
tag_key x = client_name x.frame_type ++ b';' ∷ (charset_type x.charset).0

-- The tags for a frame: none for wide text that is empty.
unfoldable pub tag_of : CharacterSet → List ℕ → List ℕ → List Tag
tag_of charset_utf8 key text = (key, utf8_text text) ∷ []
tag_of _ key [] = []
tag_of _ key text = (key, utf8_text text) ∷ []

unfoldable pub tags_of : List TextFrame → List Tag
unfolding tag_of
tags_of [] = []
tags_of (x ∷ xs) = tag_of x.charset (tag_key x) x.text ++ tags_of xs

-- The client gets the tags in order, until it refuses one.
module _ (client : Client) where
  open client use {State, handle_string_tag}

  -- What follows an answer of the client.
  abbrev pub if_accepted : Bool × State → (State → Bool × State) → Bool × State
  if_accepted (true, t) k = k t
  if_accepted (false, t) k = (false, t)

  unfoldable pub deliver : List Tag → State → Bool × State
  deliver [] s = (true, s)
  deliver ((key, value) ∷ tags) s =
      if_accepted (handle_string_tag s key value) (λ t. deliver tags t)

-- What the scanner makes of a key: the type behind the first semicolon, and the client's key.
abbrev pub KeyIs : List ℕ → FrameType → List ℕ → Type 0
KeyIs key t type =
    (behind_first_of b';' key ≡ some type) × (client_key key type ≡ client_name t ++ b';' ∷ type)

-- For a text type and a Unicode character set, the scanner finds in the key of ConstructKvpKey the
-- type that stands for the set, and gives the client the Java name of the frame with that type.
pub construct_kvp_key-KeyIs :
    (v : Version) (id lang : List ℕ) (t : FrameType) (c : CharacterSet)
    → HasText v t
    → IsUnicode c
    → KeyIs (construct_kvp_key v id lang t c).0 t (charset_type c).0
unfolding construct_kvp_key with_charset behind_first_of client_key client_name starts_with
construct_kvp_key-KeyIs v id lang title c h u = (refl, refl)
construct_kvp_key-KeyIs v id lang artist c h u = (refl, refl)
construct_kvp_key-KeyIs v id lang part_of_set c h u = (refl, refl)
construct_kvp_key-KeyIs v id lang album c h u = (refl, refl)
construct_kvp_key-KeyIs v id lang copyright c h u = (refl, refl)
construct_kvp_key-KeyIs v id lang genre charset_utf8 h u = (refl, refl)
construct_kvp_key-KeyIs v id lang genre charset_utf16 h u = (refl, refl)
construct_kvp_key-KeyIs v id lang genre charset_utf16be h u = (refl, refl)
construct_kvp_key-KeyIs v id lang track_number charset_utf8 h u = (refl, refl)
construct_kvp_key-KeyIs v id lang track_number charset_utf16 h u = (refl, refl)
construct_kvp_key-KeyIs v id lang track_number charset_utf16be h u = (refl, refl)
construct_kvp_key-KeyIs v id lang year c h u = (refl, refl)
construct_kvp_key-KeyIs v id lang date c h u = (refl, refl)
construct_kvp_key-KeyIs v id lang recording_time c h u = (refl, refl)
construct_kvp_key-KeyIs v id lang author c h u = (refl, refl)
construct_kvp_key-KeyIs v id lang composer c h u = (refl, refl)
construct_kvp_key-KeyIs v id lang description c h u = (refl, refl)
construct_kvp_key-KeyIs v id lang version c h u = (refl, refl)
construct_kvp_key-KeyIs v1 id lang comment c h u = (refl, refl)
construct_kvp_key-KeyIs v1_1 id lang comment c h u = (refl, refl)
construct_kvp_key-KeyIs v id lang frame_invalid c h u = absurd h
construct_kvp_key-KeyIs v id lang candidate c h u = absurd h
construct_kvp_key-KeyIs v id lang unrecognized c h u = absurd h
construct_kvp_key-KeyIs v id lang track_length c h u = absurd h
construct_kvp_key-KeyIs v id lang padded c h u = absurd h
construct_kvp_key-KeyIs v id lang pic c h u = absurd h
construct_kvp_key-KeyIs v id lang apic c h u = absurd h
construct_kvp_key-KeyIs v id lang lyrics c h u = absurd h
construct_kvp_key-KeyIs v id lang seek c h u = absurd h
construct_kvp_key-KeyIs v id lang eend c h u = absurd h
construct_kvp_key-KeyIs invalid_version id lang comment c h u = absurd h
construct_kvp_key-KeyIs v2_2 id lang comment c h u = absurd h
construct_kvp_key-KeyIs v2_3 id lang comment c h u = absurd h
construct_kvp_key-KeyIs v2_4 id lang comment c h u = absurd h
construct_kvp_key-KeyIs v id lang genre charset_invalid h u = absurd u
construct_kvp_key-KeyIs v id lang genre charset_iso88591 h u = absurd u
construct_kvp_key-KeyIs v id lang genre charset_end h u = absurd u
construct_kvp_key-KeyIs v id lang track_number charset_invalid h u = absurd u
construct_kvp_key-KeyIs v id lang track_number charset_iso88591 h u = absurd u
construct_kvp_key-KeyIs v id lang track_number charset_end h u = absurd u
