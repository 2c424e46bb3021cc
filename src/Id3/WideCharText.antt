-- ===== src/Id3/WideCharText.antt =====
-- What EightBitToWideCharBufferTransfer makes of UTF-16 text, by byte order and by the size of a
-- wide character.
use foodie_note.Id3.WideChar.{
  Endian, big, little, join16, wide_unit, transfer_loop, eight_bit_to_wide_char_buffer_transfer,
}
use foodie_note.Prelude.Words.{bit_or_disjoint}
use foodie_note.Prelude.{
  ℕ, ◌*◌, ◌/◌, ◌%◌, ◌^◌, ◌<◌, ◌≡◌, ◌⊎◌, ◌∙◌, inr, refl, arith, false, ◌&&◌, some, List, [], ◌∷◌,
  ◌++◌, map, append_assoc, append-nil, ◌==◌, if◌then◌else◌, length, length-append, All,
}

-- The bytes of 16-bit units.
unfoldable pub utf16_bytes : Endian → List ℕ → List ℕ
utf16_bytes e [] = []
utf16_bytes little (u ∷ us) = u % 256 ∷ u / 256 ∷ utf16_bytes little us
utf16_bytes big (u ∷ us) = u / 256 ∷ u % 256 ∷ utf16_bytes big us

-- A unit of text: 16 bits, and no terminator.
abbrev pub IsUnit16 : ℕ → Type 0
IsUnit16 u = (0 < u) × (u < 65536)

-- The wide character that is written for a unit of text.
unfoldable pub seen : Endian → ℕ → ℕ → ℕ
seen little w u = u
seen big w u = if w == 4 then 1 else u

join16_unit : (u : ℕ) → u < 65536 → join16 (u / 256) (u % 256) ≡ u
unfolding join16
join16_unit u h =
    let hi : u / 256 * 2 ^ 8 % 2 ^ 16 ≡ u / 256 * 2 ^ 8 = omega arith in
    rw (hi, bit_or_disjoint 8 (u / 256) (u % 256) (omega arith)) (omega arith)

-- One round on a pair that is not zero.
transfer_pair :
    (e : Endian) (w a b v : ℕ) (r out : List ℕ)
    → (a == 0 && b == 0) ≡ false
    → wide_unit e w a b ≡ some v
    → transfer_loop e w (a ∷ b ∷ r) out ≡ transfer_loop e w r (out ++ v ∷ [])
unfolding transfer_loop
transfer_pair e w a b v [] out nonzero unit =
    rw (nonzero, unit) (ground (arith, length-append out (v ∷ [])))
transfer_pair e w a b v (c ∷ []) out nonzero unit =
    rw (nonzero, unit) (ground (arith, length-append out (v ∷ [])))
transfer_pair e w a b v (c ∷ d ∷ r) out nonzero unit = rw (nonzero, unit)

wide_unit_big :
    (w u : ℕ)
    → IsUnit16 u
    → (w ≡ 2) ⊎ (w ≡ 4)
    → wide_unit big w (u / 256) (u % 256) ≡ some (seen big w u)
unfolding wide_unit seen
wide_unit_big w u h two = rw (join16_unit u h.1) (ground arith)

-- One round on a unit of text.
transfer_unit :
    (e : Endian) (w u : ℕ) (r out : List ℕ)
    → IsUnit16 u
    → (w ≡ 2) ⊎ (w ≡ 4)
    → transfer_loop e w (utf16_bytes e (u ∷ []) ++ r) out
      ≡ transfer_loop e w r (out ++ seen e w u ∷ [])
unfolding utf16_bytes seen
transfer_unit little w u r out h two =
    transfer_pair little w (u % 256) (u / 256) u r out (ground arith)
      (unfold wide_unit in rw (join16_unit u h.1))
transfer_unit big w u r out h two =
    transfer_pair big w (u / 256) (u % 256) (seen big w u) r out (ground arith)
      (wide_unit_big w u h two)

utf16_bytes-cons :
    (e : Endian) (u : ℕ) (us : List ℕ)
    → utf16_bytes e (u ∷ us) ≡ utf16_bytes e (u ∷ []) ++ utf16_bytes e us
unfolding utf16_bytes
utf16_bytes-cons little u us = refl
utf16_bytes-cons big u us = refl

transfer_text :
    (e : Endian) (w : ℕ) (us r out : List ℕ)
    → All IsUnit16 us
    → (w ≡ 2) ⊎ (w ≡ 4)
    → transfer_loop e w (utf16_bytes e us ++ r) out ≡ transfer_loop e w r (out ++ map (seen e w) us)
transfer_text e w [] r out h two = unfold utf16_bytes in rw (append-nil out)
transfer_text e w (u ∷ us) r out (hu, hus) two =
    rw (utf16_bytes-cons e u us, append_assoc (utf16_bytes e (u ∷ [])) (utf16_bytes e us) r)
      (transfer_unit e w u (utf16_bytes e us ++ r) out hu two
        ∙ (transfer_text e w us r (out ++ seen e w u ∷ []) hus two
            ∙ rw (append_assoc out (seen e w u ∷ []) (map (seen e w) us))))

-- Text without a terminator, at wide characters of two or four bytes: the function writes one wide
-- character for each unit and returns their number.
pub eight_bit_to_wide_char_buffer_transfer_text :
    (e : Endian) (w : ℕ) (us : List ℕ)
    → All IsUnit16 us
    → (w ≡ 2) ⊎ (w ≡ 4)
    → eight_bit_to_wide_char_buffer_transfer e w (utf16_bytes e us)
      ≡ record { index = length (map (seen e w) us); cells = map (seen e w) us }
unfolding eight_bit_to_wide_char_buffer_transfer
eight_bit_to_wide_char_buffer_transfer_text e w us h two =
    rw (← append-nil (utf16_bytes e us))
      (transfer_text e w us [] [] h two ∙ unfold transfer_loop in refl)

map-seen_little : (w : ℕ) (us : List ℕ) → map (seen little w) us ≡ us
unfolding seen
map-seen_little w [] = refl
map-seen_little w (u ∷ us) = rw (map-seen_little w us)

-- Little-endian text without a terminator arrives as it is, at wide characters of two or four bytes.
pub transfer_little :
    (w : ℕ) (us : List ℕ)
    → All IsUnit16 us
    → (w ≡ 2) ⊎ (w ≡ 4)
    → (eight_bit_to_wide_char_buffer_transfer little w (utf16_bytes little us)).cells ≡ us
transfer_little w us h two =
    rw (eight_bit_to_wide_char_buffer_transfer_text little w us h two) (map-seen_little w us)

map-seen_big : (us : List ℕ) → map (seen big 4) us ≡ map (λ (u : ℕ). 1) us
unfolding seen
map-seen_big [] = refl
map-seen_big (u ∷ us) = rw (map-seen_big us)

-- Big-endian text without a terminator, at wide characters of four bytes: every unit arrives as the
-- character 1.
pub transfer_big_wide :
    (us : List ℕ)
    → All IsUnit16 us
    → (eight_bit_to_wide_char_buffer_transfer big 4 (utf16_bytes big us)).cells
      ≡ map (λ (u : ℕ). 1) us
transfer_big_wide us h =
    rw (eight_bit_to_wide_char_buffer_transfer_text big 4 us h (inr refl)) (map-seen_big us)

skipped :
    (e : Endian) (w v : ℕ) (vs out : List ℕ)
    → transfer_loop e w (0 ∷ 0 ∷ utf16_bytes e (v ∷ vs)) out
      ≡ transfer_loop e w (utf16_bytes e vs) (out ++ 0 ∷ [])
unfolding transfer_loop utf16_bytes
skipped little w v vs out = refl
skipped big w v vs out = refl

-- Two texts with a terminator and a unit `v` between them, at wide characters of two or four bytes:
-- the unit behind the terminator is skipped, and the second text follows the terminator.
transfer_terminator :
    (e : Endian) (w v : ℕ) (us vs : List ℕ)
    → All IsUnit16 us
    → All IsUnit16 vs
    → (w ≡ 2) ⊎ (w ≡ 4)
    → (eight_bit_to_wide_char_buffer_transfer e w
        (utf16_bytes e us ++ 0 ∷ 0 ∷ utf16_bytes e (v ∷ vs))).cells
      ≡ map (seen e w) us ++ 0 ∷ map (seen e w) vs
unfolding eight_bit_to_wide_char_buffer_transfer
transfer_terminator e w v us vs hu hv two =
    rw
      (
        transfer_text e w us (0 ∷ 0 ∷ utf16_bytes e (v ∷ vs)) [] hu two,
        skipped e w v vs (map (seen e w) us),
        ← append-nil (utf16_bytes e vs),
        transfer_text e w vs [] (map (seen e w) us ++ 0 ∷ []) hv two,
      )
      (unfold transfer_loop in append_assoc (map (seen e w) us) (0 ∷ []) (map (seen e w) vs))
