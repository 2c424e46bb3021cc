-- ===== src/Utf8/Convert.antt =====
-- listener/src/main/jni/oscl_config/oscl_utf8conv.cpp: oscl_UnicodeToUTF8 and oscl_UTF8ToUnicode.
-- A wide character is its unsigned value. The destination buffer is the list of the cells that were
-- written, from index 0 on; its size `n` is 0 where the source has `nDestLen <= 0`.
use foodie_note.Prelude.{
  ℕ, ◌+◌, ◌*◌, ◌%◌, ◌^◌, ◌&&◌, List, [], ◌∷◌, ◌++◌, bit_or, ltb, leb, ◌==◌, if◌then◌else◌, length,
  shr, low_bits, field,
}

-- What a call returns, and the cells of the destination that it wrote.
pub record Conversion : Type 0 where
  pub returned : ℕ
  pub written : List ℕ

-- The buffer is too small: a terminating 0 is written at the cursor and 0 is returned.
abbrev pub stop : List ℕ → Conversion
stop out = record { returned = 0; written = out ++ 0 ∷ [] }

-- The source is used up: a terminating 0, and the number of units in front of it.
abbrev pub finish : List ℕ → Conversion
finish out = record { returned = length out; written = out ++ 0 ∷ [] }

-- The low byte of a computed value, which the cast to `char` keeps.
abbrev pub char_of : ℕ → ℕ
char_of x = x % 2 ^ 8

-- One unit of the chain of branches for `szSrc[i]`: the room that the branch asks for, and the
-- bytes that it writes.
pub record Unit8 : Type 0 where
  pub room : ℕ
  pub bytes : List ℕ

unfoldable pub encode_unit : ℕ → Unit8
encode_unit c =
    if ltb c 0x80
    then record { room = 1; bytes = char_of c ∷ [] }
    else if ltb c 0x800
    then record {
      room = 2;
      bytes = char_of (bit_or (shr c 6) 0xc0) ∷ char_of (bit_or (low_bits c 6) 0x80) ∷ [];
    }
    else if ltb c 0xdfff && ltb 0xd800 c
    then record {
      room = 4;
      bytes =
          char_of (bit_or (shr (field c 6 4 + 1) 2) 0xf0)
          ∷ char_of (bit_or (bit_or (low_bits (field c 6 4 + 1) 2) 0x80) (field c 2 4))
          ∷ [];
    }
    else record {
      room = 3;
      bytes =
          char_of (bit_or (shr c 12) 0xe0)
          ∷ char_of (bit_or (low_bits (shr c 6) 6) 0x80)
          ∷ char_of (bit_or (low_bits c 6) 0x80)
          ∷ [];
    }

-- The loop over `szSrc`, with the bytes written so far.
unfoldable pub encode_loop : ℕ → List ℕ → List ℕ → Conversion
encode_loop n [] out = finish out
encode_loop n (c ∷ cs) out =
    let u = encode_unit c in
    let rest = encode_loop n cs (out ++ u.bytes) in
    if ltb (length out + u.room) n then rest else stop out

unfoldable pub unicode_to_utf8 : List ℕ → ℕ → Conversion
unicode_to_utf8 src n =
    if n == 0 then record { returned = 0; written = [] } else encode_loop n src []

-- The three branches of oscl_UTF8ToUnicode, for wide characters of `w` bits.
unfoldable pub wide3 : ℕ → ℕ → ℕ → ℕ → ℕ
wide3 w b b1 b2 = bit_or (bit_or (b * 2 ^ 12) (low_bits b1 6 * 2 ^ 6)) (low_bits b2 6) % 2 ^ w

unfoldable pub wide2 : ℕ → ℕ → ℕ → ℕ
wide2 w b b1 = bit_or (low_bits b 6 * 2 ^ 6) (low_bits b1 7) % 2 ^ w

-- The loop over the bytes that are left; a lead byte of three bytes is 0xe0 or above, of two 0xc0.
unfoldable pub decode_loop : ℕ → ℕ → List ℕ → List ℕ → Conversion
decode_loop w n [] out = finish out
decode_loop w n (b ∷ []) out =
    let one = decode_loop w n [] (out ++ b ∷ []) in
    if leb 0xe0 b
    then stop out
    else if leb 0xc0 b
    then stop out
    else if ltb (length out + 1) n
    then one
    else stop out
decode_loop w n (b ∷ b1 ∷ []) out =
    let one = decode_loop w n (b1 ∷ []) (out ++ b ∷ []) in
    let two = decode_loop w n [] (out ++ wide2 w b b1 ∷ []) in
    if leb 0xe0 b
    then stop out
    else if leb 0xc0 b
    then (if ltb (length out + 1) n then two else stop out)
    else if ltb (length out + 1) n
    then one
    else stop out
decode_loop w n (b ∷ b1 ∷ b2 ∷ r) out =
    let one = decode_loop w n (b1 ∷ b2 ∷ r) (out ++ b ∷ []) in
    let two = decode_loop w n (b2 ∷ r) (out ++ wide2 w b b1 ∷ []) in
    let three = decode_loop w n r (out ++ wide3 w b b1 b2 ∷ []) in
    if leb 0xe0 b
    then (if ltb (length out + 1) n then three else stop out)
    else if leb 0xc0 b
    then (if ltb (length out + 1) n then two else stop out)
    else if ltb (length out + 1) n
    then one
    else stop out

unfoldable pub utf8_to_unicode : ℕ → List ℕ → ℕ → Conversion
utf8_to_unicode w src n =
    if n == 0 then record { returned = 0; written = [] } else decode_loop w n src []
