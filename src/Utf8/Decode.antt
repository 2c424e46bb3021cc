-- ===== src/Utf8/Decode.antt =====
-- oscl_UTF8ToUnicode: bounds of its writes, and what it makes of the reference's bytes at any width
-- of the wide character.
use foodie_note.Prelude.Words.{bit_or_disjoint}
use foodie_note.Prelude.{
  ℕ, ◌+◌, ◌*◌, ◌/◌, ◌%◌, ◌^◌, ◌≤◌, ◌<◌, ◌≡◌, ◌∙◌, arith, List, [], ◌∷◌, ◌++◌, map, bit_or, ltb,
  if◌then◌else◌, length, length-append, append_assoc, append-nil, low_bits, All,
}
use foodie_note.Utf8.Convert.{finish, wide2, wide3, decode_loop, utf8_to_unicode}
use foodie_note.Utf8.Reference.{IsBasicPlane, utf8, utf8_text}

decode_loop_bound :
    (w n : ℕ) (bs out : List ℕ) → length out < n → length (decode_loop w n bs out).written ≤ n
unfolding decode_loop
decode_loop_bound w n [] out h = omega (arith, length-append {0} out (0 ∷ []))
decode_loop_bound w n (b ∷ []) out h = ground (
  arith,
  length-append out (0 ∷ []),
  length-append out (b ∷ []),
  decode_loop_bound w n [] (out ++ b ∷ []),
)
decode_loop_bound w n (b ∷ b1 ∷ []) out h = ground (
  arith,
  length-append out (0 ∷ []),
  length-append out (b ∷ []),
  length-append out (wide2 w b b1 ∷ []),
  decode_loop_bound w n (b1 ∷ []) (out ++ b ∷ []),
  decode_loop_bound w n [] (out ++ wide2 w b b1 ∷ []),
)
decode_loop_bound w n (b ∷ b1 ∷ b2 ∷ r) out h = ground (
  arith,
  length-append out (0 ∷ []),
  length-append out (b ∷ []),
  length-append out (wide2 w b b1 ∷ []),
  length-append out (wide3 w b b1 b2 ∷ []),
  decode_loop_bound w n (b1 ∷ b2 ∷ r) (out ++ b ∷ []),
  decode_loop_bound w n (b2 ∷ r) (out ++ wide2 w b b1 ∷ []),
  decode_loop_bound w n r (out ++ wide3 w b b1 b2 ∷ []),
)

-- Whatever the bytes and the size of the buffer, no cell beyond the buffer is written.
utf8_to_unicode_bound :
    (w : ℕ) (src : List ℕ) (n : ℕ) → length (utf8_to_unicode w src n).written ≤ n
unfolding utf8_to_unicode
utf8_to_unicode_bound w src n = ground (arith, decode_loop_bound w n src [])

-- The wide character of `w` bits that the code makes of the bytes of a basic character. The lead byte
-- of three is shifted with its signature, which stays above bit 16.
unfoldable pub decoded : ℕ → ℕ → ℕ
decoded w c = if ltb c 0x80 then c else if ltb c 0x800 then c % 2 ^ w else (0xe0000 + c) % 2 ^ w

wide2_utf8 : (w c : ℕ) → c < 0x800 → wide2 w (0xc0 + c / 64) (0x80 + c % 64) ≡ c % 2 ^ w
unfolding wide2
wide2_utf8 w c h =
    let hi : low_bits (0xc0 + c / 64) 6 ≡ c / 64 = omega arith in
    let lo : low_bits (0x80 + c % 64) 7 ≡ c % 64 = omega arith in
    let joined : bit_or (c / 64 * 2 ^ 6) (c % 64) ≡ c =
      bit_or_disjoint 6 (c / 64) (c % 64) (omega arith) ∙ omega arith in
    rw (hi, lo, joined)

wide3_utf8 :
    (w c : ℕ)
    → c < 65536
    → wide3 w (0xe0 + c / 4096) (0x80 + c / 64 % 64) (0x80 + c % 64) ≡ (0xe0000 + c) % 2 ^ w
unfolding wide3
wide3_utf8 w c h =
    let mid : low_bits (0x80 + c / 64 % 64) 6 ≡ c / 64 % 64 = omega arith in
    let lo : low_bits (0x80 + c % 64) 6 ≡ c % 64 = omega arith in
    let upper : bit_or ((0xe0 + c / 4096) * 2 ^ 12) (c / 64 % 64 * 2 ^ 6)
        ≡ (0x3800 + c / 64) * 2 ^ 6 =
      bit_or_disjoint 12 (0xe0 + c / 4096) (c / 64 % 64 * 2 ^ 6) (omega arith) ∙ omega arith in
    let joined : bit_or ((0x3800 + c / 64) * 2 ^ 6) (c % 64) ≡ 0xe0000 + c =
      bit_or_disjoint 6 (0x3800 + c / 64) (c % 64) (omega arith) ∙ omega arith in
    rw (mid, lo, upper, joined)

-- One round of the loop on the bytes of a basic character, with any bytes behind them.
decode_unit :
    (w n c : ℕ) (rest out : List ℕ)
    → c < 65536
    → length out + 1 < n
    → decode_loop w n (utf8 c ++ rest) out ≡ decode_loop w n rest (out ++ decoded w c ∷ [])
unfolding decode_loop utf8 decoded
decode_unit w n c [] out h room = ground (arith, wide2_utf8 w c, wide3_utf8 w c)
decode_unit w n c (x ∷ []) out h room = ground (arith, wide2_utf8 w c, wide3_utf8 w c)
decode_unit w n c (x ∷ y ∷ r) out h room = ground (arith, wide2_utf8 w c, wide3_utf8 w c)

decode_loop_utf8 :
    (w n : ℕ) (cs out : List ℕ)
    → All IsBasicPlane cs
    → length out + length cs < n
    → decode_loop w n (utf8_text cs) out ≡ finish (out ++ map (decoded w) cs)
unfolding utf8_text
decode_loop_utf8 w n [] out h fits = unfold decode_loop in rw (append-nil out)
decode_loop_utf8 w n (c ∷ cs) out (hc, hcs) fits =
    decode_unit w n c (utf8_text cs) out hc.0 (omega arith)
    ∙ (decode_loop_utf8 w n cs (out ++ decoded w c ∷ []) hcs
          (omega (arith, length-append {0} out (decoded w c ∷ [])))
        ∙ rw (append_assoc out (decoded w c ∷ []) (map (decoded w) cs)))

-- The bytes of basic characters, in a buffer with a cell for each and one more, at a width of `w`
-- bits: each value becomes its decoded wide character, and their number is returned.
pub utf8_to_unicode_utf8 :
    (w : ℕ) (cs : List ℕ) (n : ℕ)
    → All IsBasicPlane cs
    → length cs < n
    → utf8_to_unicode w (utf8_text cs) n ≡ finish (map (decoded w) cs)
unfolding utf8_to_unicode
utf8_to_unicode_utf8 w cs n h lt = ground (arith, decode_loop_utf8 w n cs [] h)
