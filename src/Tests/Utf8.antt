-- ===== src/Tests/Utf8.antt =====
-- Runs of the UTF-8 conversions and of the validator.
use foodie_note.Prelude.{
  ℕ, ◌≡◌, inl, refl, arith, true, some, List, [], ◌∷◌, ◌++◌, map, take, length, All,
}
use foodie_note.Prelude.Text.{IsNonzero}
use foodie_note.Utf8.Accepts.{IsBasicText, is_valid_utf8-unicode_to_utf8}
use foodie_note.Utf8.Convert.{finish, unicode_to_utf8, utf8_to_unicode}
use foodie_note.Utf8.Reference.{IsBasicPlane, utf8, utf8_text}
use foodie_note.Utf8.RoundTrip.{decode-encode, wide_32, utf8_to_unicode_32, encode-decode_32}
use foodie_note.Utf8.Validate.{is_valid_utf8}
use foodie_note.Utf8.Validity.{EndsIn, is_valid_utf8-EndsIn}

-- "aé中"
abbrev chars : List ℕ
chars = 0x61 ∷ 0xe9 ∷ 0x4e2d ∷ []

chars-IsBasicPlane : All IsBasicPlane chars
chars-IsBasicPlane = (
  (omega arith, inl (omega arith)),
  ((omega arith, inl (omega arith)), ((omega arith, inl (omega arith)), tt)),
)

chars-IsBasicText : All IsBasicText chars
chars-IsBasicText = (
  (omega arith, chars-IsBasicPlane.0),
  ((omega arith, chars-IsBasicPlane.1.0), ((omega arith, chars-IsBasicPlane.1.1.0), tt)),
)

chars-length : length (utf8_text chars) ≡ 6
unfolding utf8_text utf8
chars-length = refl

is_valid_utf8-unicode_to_utf8_example :
    is_valid_utf8 4 (unicode_to_utf8 chars 10).written 0 0
    ≡ some (record { valid = true; characters = 3; position = (unicode_to_utf8 chars 10).returned })
is_valid_utf8-unicode_to_utf8_example =
    is_valid_utf8-unicode_to_utf8 4 chars 10 chars-IsBasicText (omega arith)
      (omega (arith, chars-length))

decode-encode_example :
    utf8_to_unicode 16
      (take (unicode_to_utf8 chars 10).returned (unicode_to_utf8 chars 10).written)
      4
    ≡ finish chars
decode-encode_example = decode-encode chars 10 4 chars-IsBasicPlane (omega arith) (omega arith)

encode-decode_32_example :
    unicode_to_utf8
      (take
        (utf8_to_unicode 32 (utf8_text chars) 4).returned
        (utf8_to_unicode 32 (utf8_text chars) 4).written)
      7
    ≡ finish (utf8_text chars)
encode-decode_32_example =
    encode-decode_32 chars 4 7 chars-IsBasicPlane (omega arith) (omega (arith, chars-length))

utf8_to_unicode_32_example : utf8_to_unicode 32 (utf8_text chars) 4 ≡ finish (map wide_32 chars)
utf8_to_unicode_32_example = utf8_to_unicode_32 chars 4 chars-IsBasicPlane (omega arith)

-- A truncated character in front of the terminator.
abbrev cut : List ℕ
cut = 0x61 ∷ 0xe4 ∷ 0xb8 ∷ []

cut-IsNonzero : All IsNonzero cut
cut-IsNonzero = (omega arith, (omega arith, (omega arith, tt)))

is_valid_utf8-EndsIn_example : EndsIn 0 3 (is_valid_utf8 4 (cut ++ 0 ∷ 0x62 ∷ []) 0 0)
is_valid_utf8-EndsIn_example = is_valid_utf8-EndsIn 4 cut (0x62 ∷ []) cut-IsNonzero (omega arith)
