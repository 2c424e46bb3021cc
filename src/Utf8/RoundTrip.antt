-- ===== src/Utf8/RoundTrip.antt =====
-- The two conversions one after the other, at wide characters of 16 and of 32 bits (the NDK's
-- `wchar_t` has 32, on which osclconfig_unix_android.h puts `oscl_wchar`).
use foodie_note.Prelude.{
  ℕ, ◌+◌, ◌*◌, ◌/◌, ◌<◌, ◌≡◌, refl, ◌∙◌, arith, List, [], ◌∷◌, ◌++◌, map, bit_or, ltb,
  if◌then◌else◌, length, length-append, append_assoc, append-nil, shr, take, All, lt→ltb, all_below,
  eq_below, low_bits,
}
use foodie_note.Utf8.Convert.{finish, encode_unit, encode_loop, unicode_to_utf8, utf8_to_unicode}
use foodie_note.Utf8.Decode.{decoded, utf8_to_unicode_utf8}
use foodie_note.Utf8.Encode.{unicode_to_utf8_fits, length-utf8_text, encode_unit_basic}
use foodie_note.Utf8.Reference.{IsBasicPlane, utf8, utf8_text}

take-length {ℓ} : {A : Type ℓ} (xs ys : List A) → take (length xs) (xs ++ ys) ≡ xs
take-length [] ys = refl
take-length (x ∷ xs) ys = rw (take-length xs ys)

decoded_16 : (c : ℕ) → c < 65536 → decoded 16 c ≡ c
unfolding decoded
decoded_16 c h = ground arith

map-decoded_16 : (cs : List ℕ) → All IsBasicPlane cs → map (decoded 16) cs ≡ cs
map-decoded_16 [] h = refl
map-decoded_16 (c ∷ cs) (hc, hcs) = rw (decoded_16 c hc.0, map-decoded_16 cs hcs)

-- At 16 bits, text of characters below 0x10000, none from 0xd801 to 0xdffe, written with three bytes of room for each and one more, and
-- read back into a buffer with a cell for each and one more, is the same text.
pub decode-encode :
    (src : List ℕ) (m n : ℕ)
    → All IsBasicPlane src
    → 3 * length src < m
    → length src < n
    → utf8_to_unicode 16 (take (unicode_to_utf8 src m).returned (unicode_to_utf8 src m).written) n
      ≡ finish src
decode-encode src m n h room cells = rw (
  unicode_to_utf8_fits src m h (omega (arith, length-utf8_text src h)),
  take-length (utf8_text src) (0 ∷ []),
  utf8_to_unicode_utf8 16 src n h cells,
  map-decoded_16 src h,
)

-- At 32 bits a value of three bytes keeps the signature of its lead byte above bit 16.
unfoldable pub wide_32 : ℕ → ℕ
wide_32 c = if ltb c 0x800 then c else 0xe0000 + c

decoded_32 : (c : ℕ) → c < 65536 → decoded 32 c ≡ wide_32 c
unfolding decoded wide_32
decoded_32 c h = ground arith

map-decoded_32 : (cs : List ℕ) → All IsBasicPlane cs → map (decoded 32) cs ≡ map wide_32 cs
map-decoded_32 [] h = refl
map-decoded_32 (c ∷ cs) (hc, hcs) = rw (decoded_32 c hc.0, map-decoded_32 cs hcs)

-- At 32 bits the UTF-8 bytes of characters of the basic plane only, below 0x10000 and none from 0xd801
-- to 0xdffe, become those characters below 0x800, and 0xe0000 more than the character from 0x800 on.
pub utf8_to_unicode_32 :
    (cs : List ℕ) (n : ℕ)
    → All IsBasicPlane cs
    → length cs < n
    → utf8_to_unicode 32 (utf8_text cs) n ≡ finish (map wide_32 cs)
utf8_to_unicode_32 cs n h lt = utf8_to_unicode_utf8 32 cs n h lt ∙ rw (map-decoded_32 cs h)

or_e0_signed : (y : ℕ) → y < 16 → bit_or (0xe0 + y) 0xe0 ≡ 0xe0 + y
unfolding all_below
or_e0_signed y h = eq_below 16 (λ x. bit_or (0xe0 + x) 0xe0) (λ x. 0xe0 + x) y refl h

or_80 : (y : ℕ) → y < 64 → bit_or y 0x80 ≡ y + 0x80
unfolding all_below
or_80 y h = eq_below 64 (λ x. bit_or x 0x80) (λ x. x + 0x80) y refl h

-- The surplus goes again when the wide character is written as bytes.
encode_unit-wide_32 :
    (c : ℕ)
    → IsBasicPlane c
    → ((encode_unit (wide_32 c)).bytes ≡ utf8 c)
      × ((encode_unit (wide_32 c)).room ≡ length (utf8 c))
unfolding encode_unit utf8 wide_32
encode_unit-wide_32 c h = ground (
  arith,
  encode_unit_basic c h,
  or_e0_signed (c / 4096),
  or_80 (low_bits (shr (0xe0000 + c) 6) 6),
  or_80 (low_bits (0xe0000 + c) 6),
)

encode_loop-wide_32 :
    (n : ℕ) (cs out : List ℕ)
    → All IsBasicPlane cs
    → length out + length (utf8_text cs) < n
    → encode_loop n (map wide_32 cs) out ≡ finish (out ++ utf8_text cs)
unfolding encode_loop utf8_text
encode_loop-wide_32 n [] out h fits = rw (append-nil out)
encode_loop-wide_32 n (c ∷ cs) out (hc, hcs) fits =
    let e = encode_unit-wide_32 c hc in
    let l = length-append (utf8 c) (utf8_text cs) in
    let r = lt→ltb (length out + length (utf8 c)) n (omega arith) in
    rw (e.1, e.0, r)
      (encode_loop-wide_32 n cs (out ++ utf8 c) hcs (omega (arith, length-append out (utf8 c)))
        ∙ rw (append_assoc out (utf8 c) (utf8_text cs)))

-- A file name of characters of the basic plane only, below 0x10000 and none from 0xd801 to 0xdffe, goes
-- through wide characters of 32 bits and back unchanged: what
-- oscl_UTF8ToUnicode makes of its bytes is turned by oscl_UnicodeToUTF8 into the same bytes.
pub encode-decode_32 :
    (cs : List ℕ) (m n : ℕ)
    → All IsBasicPlane cs
    → length cs < m
    → length (utf8_text cs) < n
    → unicode_to_utf8
        (take
          (utf8_to_unicode 32 (utf8_text cs) m).returned
          (utf8_to_unicode 32 (utf8_text cs) m).written)
        n
      ≡ finish (utf8_text cs)
unfolding unicode_to_utf8
encode-decode_32 cs m n h cells room =
    rw (utf8_to_unicode_32 cs m h cells, take-length (map wide_32 cs) (0 ∷ []))
      (ground (arith, encode_loop-wide_32 n cs [] h))
