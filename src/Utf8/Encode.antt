-- ===== src/Utf8/Encode.antt =====
-- oscl_UnicodeToUTF8: bounds of its writes, and its agreement with the reference.
use foodie_note.Prelude.{
  ℕ, ◌+◌, ◌*◌, ◌≤◌, ◌<◌, ◌≡◌, refl, arith, List, [], ◌∷◌, ◌++◌, bit_or, lt→ltb, append-nil, ◌∙◌,
  length, length-append, append_assoc, shr, low_bits, All, all_below, eq_below,
}
use foodie_note.Utf8.Convert.{finish, encode_unit, encode_loop, unicode_to_utf8}
use foodie_note.Utf8.Reference.{IsBasicPlane, utf8, utf8_text}

-- No branch writes more bytes than the room that it asked for.
length-encode_unit : (c : ℕ) → length (encode_unit c).bytes ≤ (encode_unit c).room
unfolding encode_unit
length-encode_unit c = ground arith

encode_loop_bound :
    (n : ℕ) (cs out : List ℕ) → length out < n → length (encode_loop n cs out).written ≤ n
unfolding encode_loop
encode_loop_bound n [] out h = omega (arith, length-append {0} out (0 ∷ []))
encode_loop_bound n (c ∷ cs) out h = ground (
  arith,
  length-encode_unit c,
  length-append out (encode_unit c).bytes,
  length-append out (0 ∷ []),
  encode_loop_bound n cs (out ++ (encode_unit c).bytes),
)

-- The three signatures that the branches put over the low bits.
or_c0 : (y : ℕ) → y < 32 → bit_or y 0xc0 ≡ y + 0xc0
unfolding all_below
or_c0 y h = eq_below 32 (λ x. bit_or x 0xc0) (λ x. x + 0xc0) y refl h

or_e0 : (y : ℕ) → y < 16 → bit_or y 0xe0 ≡ y + 0xe0
unfolding all_below
or_e0 y h = eq_below 16 (λ x. bit_or x 0xe0) (λ x. x + 0xe0) y refl h

or_80 : (y : ℕ) → y < 64 → bit_or y 0x80 ≡ y + 0x80
unfolding all_below
or_80 y h = eq_below 64 (λ x. bit_or x 0x80) (λ x. x + 0x80) y refl h

-- On a basic character the branches are the reference, and ask for the room that they use.
pub encode_unit_basic :
    (c : ℕ)
    → IsBasicPlane c
    → ((encode_unit c).bytes ≡ utf8 c) × ((encode_unit c).room ≡ length (utf8 c))
unfolding encode_unit utf8
encode_unit_basic c h =
    ground
      (arith, or_c0 (shr c 6), or_80 (low_bits c 6), or_e0 (shr c 12), or_80 (low_bits (shr c 6) 6))

encode_loop_fits :
    (n : ℕ) (cs out : List ℕ)
    → All IsBasicPlane cs
    → length out + length (utf8_text cs) < n
    → encode_loop n cs out ≡ finish (out ++ utf8_text cs)
unfolding encode_loop utf8_text
encode_loop_fits n [] out h fits = rw (append-nil out)
encode_loop_fits n (c ∷ cs) out (hc, hcs) fits =
    let e = encode_unit_basic c hc in
    let l = length-append (utf8 c) (utf8_text cs) in
    let r = lt→ltb (length out + length (utf8 c)) n (omega arith) in
    rw (e.1, e.0, r)
      (encode_loop_fits n cs (out ++ utf8 c) hcs (omega (arith, length-append out (utf8 c)))
        ∙ rw (append_assoc out (utf8 c) (utf8_text cs)))

encode_loop_short :
    (n : ℕ) (cs out : List ℕ)
    → All IsBasicPlane cs
    → length out < n
    → n ≤ length out + length (utf8_text cs)
    → (encode_loop n cs out).returned ≡ 0
unfolding encode_loop utf8_text
encode_loop_short n [] out h lt short = absurd (omega arith)
encode_loop_short n (c ∷ cs) out (hc, hcs) lt short = ground (
  arith,
  encode_unit_basic c hc,
  length-append (utf8 c) (utf8_text cs),
  length-append out (utf8 c),
  encode_loop_short n cs (out ++ utf8 c) hcs,
)

pub unicode_to_utf8_fits :
    (src : List ℕ) (n : ℕ)
    → All IsBasicPlane src
    → length (utf8_text src) < n
    → unicode_to_utf8 src n ≡ finish (utf8_text src)
unfolding unicode_to_utf8
unicode_to_utf8_fits src n h lt = ground (arith, encode_loop_fits n src [] h)

-- Text of such characters whose UTF-8 bytes and a terminating 0 do not fit: 0 is returned.
unicode_to_utf8_short :
    (src : List ℕ) (n : ℕ)
    → All IsBasicPlane src
    → n ≤ length (utf8_text src)
    → (unicode_to_utf8 src n).returned ≡ 0
unfolding unicode_to_utf8
unicode_to_utf8_short src n h le = ground (arith, encode_loop_short n src [] h)

length-utf8 : (c : ℕ) → c < 65536 → length (utf8 c) ≤ 3
unfolding utf8
length-utf8 c h = ground arith

-- Three bytes for each character and one for the terminating 0 are room enough.
pub length-utf8_text :
    (src : List ℕ) → All IsBasicPlane src → length (utf8_text src) ≤ 3 * length src
unfolding utf8_text
length-utf8_text [] h = omega arith
length-utf8_text (c ∷ cs) (hc, hcs) =
    omega
      (arith, length-utf8 c hc.0, length-utf8_text cs hcs, length-append (utf8 c) (utf8_text cs))
