-- ===== src/Utf8/Accepts.antt =====
-- The validator accepts the bytes of the reference, hence what oscl_UnicodeToUTF8 writes for basic
-- values, and counts their characters.
use foodie_note.Prelude.{
  ℕ, zero, suc, ◌+◌, ◌-◌, ◌/◌, ◌%◌, ◌<◌, ◌≡◌, ◌≢◌, refl, ◌∙◌, arith, true, some, List, [], ◌∷◌,
  ◌++◌, append_assoc, bit_and, ◌==◌, length, length-append, drop, All, all_below, eq_below,
}
use foodie_note.Utf8.Convert.{unicode_to_utf8}
use foodie_note.Utf8.Encode.{unicode_to_utf8_fits}
use foodie_note.Utf8.Reference.{IsBasicPlane, utf8, utf8_text}
use foodie_note.Utf8.Validate.{
  advance, move, Limits, is_done, check_loop, is_valid_utf8, is_valid_and_truncate_utf8,
}

-- `f` is constant below `n`.
constant_below :
    (n : ℕ) (f : ℕ → ℕ) (v x : ℕ) → all_below n (λ y. f y == v) ≡ true → x < n → f x ≡ v
constant_below n f v x h lt = eq_below n f (λ y. v) x h lt

ascii_top : (c : ℕ) → c < 0x80 → bit_and c 0x80 ≡ 0
unfolding all_below
ascii_top c h = constant_below 128 (λ x. bit_and x 0x80) 0 c refl h

trail_top : (y : ℕ) → y < 64 → bit_and (0x80 + y) 0xc0 ≡ 0x80
unfolding all_below
trail_top y h = constant_below 64 (λ x. bit_and (0x80 + x) 0xc0) 0x80 y refl h

lead2_top : (y : ℕ) → y < 32 → (bit_and (0xc0 + y) 0x80 ≡ 0x80) × (bit_and (0xc0 + y) 0xe0 ≡ 0xc0)
unfolding all_below
lead2_top y h = (
  constant_below 32 (λ x. bit_and (0xc0 + x) 0x80) 0x80 y refl h,
  constant_below 32 (λ x. bit_and (0xc0 + x) 0xe0) 0xc0 y refl h,
)

lead3_top :
    (y : ℕ)
    → y < 16
    → (bit_and (0xe0 + y) 0x80 ≡ 0x80)
      × (bit_and (0xe0 + y) 0xe0 ≡ 0xe0)
      × (bit_and (0xe0 + y) 0xf0 ≡ 0xe0)
unfolding all_below
lead3_top y h = (
  constant_below 16 (λ x. bit_and (0xe0 + x) 0x80) 0x80 y refl h,
  constant_below 16 (λ x. bit_and (0xe0 + x) 0xe0) 0xe0 y refl h,
  constant_below 16 (λ x. bit_and (0xe0 + x) 0xf0) 0xe0 y refl h,
)

-- The bytes of one basic character are one character.
move-utf8 :
    (c : ℕ) (rest : List ℕ)
    → c ≢ 0
    → c < 65536
    → move 0 0 (utf8 c ++ rest) ≡ some (advance (length (utf8 c)))
unfolding move utf8
move-utf8 c rest h lt = ground (
  arith,
  ascii_top c,
  lead2_top (c / 64),
  lead3_top (c / 4096),
  trail_top (c % 64),
  trail_top (c / 64 % 64),
)

-- A character of the basic plane other than 0 and the surrogates that the code knows.
abbrev pub IsBasicText : ℕ → Type 0
IsBasicText c = (c ≢ 0) × IsBasicPlane c

pub IsBasicText-IsBasicPlane : (cs : List ℕ) → All IsBasicText cs → All IsBasicPlane cs
IsBasicText-IsBasicPlane [] h = tt
IsBasicText-IsBasicPlane (c ∷ cs) (hc, hcs) = (hc.1, IsBasicText-IsBasicPlane cs hcs)

drop-length {ℓ} : {A : Type ℓ} (s t : List A) → drop (length s) (s ++ t) ≡ t
drop-length [] t = refl
drop-length (x ∷ s) t = drop-length s t

abbrev unlimited : Limits
unlimited = record { wanted = 0; max_bytes = 0; max_chars = 0 }

check_loop-utf8 :
    (f total pos : ℕ) (cs rest : List ℕ)
    → All IsBasicText cs
    → length cs < f
    → check_loop f unlimited 0 total pos (utf8_text cs ++ 0 ∷ rest)
      ≡ some (record {
        valid = true;
        characters = total + length cs;
        position = pos + length (utf8_text cs);
      })
unfolding check_loop is_done utf8_text
check_loop-utf8 zero total pos cs rest h lt = absurd (omega arith)
check_loop-utf8 (suc f) total pos [] rest h lt = unfold move in ground arith
check_loop-utf8 (suc f) total pos (c ∷ cs) rest (hc, hcs) lt =
    let same : 0 - length (utf8 c) ≡ 0 = omega arith in
    rw (append_assoc (utf8 c) (utf8_text cs) (0 ∷ rest)) (
      rw (move-utf8 c (utf8_text cs ++ 0 ∷ rest) hc.0 hc.1.0, check_loop)
        (rw (same, drop-length (utf8 c) (utf8_text cs ++ 0 ∷ rest))
          (check_loop-utf8 f (total + 1) (pos + length (utf8 c)) cs rest hcs (omega arith)
            ∙ ground (arith, length-append (utf8 c) (utf8_text cs)))))

-- The same at the entry of the validator, whatever stands behind the zero byte.
pub is_valid_utf8-utf8_text :
    (f : ℕ) (cs rest : List ℕ)
    → All IsBasicText cs
    → length cs < f
    → is_valid_utf8 f (utf8_text cs ++ 0 ∷ rest) 0 0
      ≡ some (record { valid = true; characters = length cs; position = length (utf8_text cs) })
unfolding is_valid_utf8 is_valid_and_truncate_utf8
is_valid_utf8-utf8_text f cs rest text lt = check_loop-utf8 f 0 0 cs rest text lt ∙ ground arith

-- Text of characters of the basic plane only, from 1 to 0xffff and none from 0xd801 to 0xdffe, that
-- oscl_UnicodeToUTF8 writes into a buffer with room for it is accepted by the validator without limits, with fuel for each character and one more: it counts
-- the characters and stops at the terminating 0.
pub is_valid_utf8-unicode_to_utf8 :
    (f : ℕ) (cs : List ℕ) (n : ℕ)
    → All IsBasicText cs
    → length cs < f
    → length (utf8_text cs) < n
    → is_valid_utf8 f (unicode_to_utf8 cs n).written 0 0
      ≡ some (record {
        valid = true;
        characters = length cs;
        position = (unicode_to_utf8 cs n).returned;
      })
unfolding is_valid_utf8 is_valid_and_truncate_utf8
is_valid_utf8-unicode_to_utf8 f cs n text lt room =
    rw (unicode_to_utf8_fits cs n (IsBasicText-IsBasicPlane cs text) room)
      (check_loop-utf8 f 0 0 cs [] text lt ∙ ground arith)
