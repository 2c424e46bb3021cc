-- ===== src/Mp3/CrcReference.antt =====
-- CalcCRC16 is the division by the polynomial x^16 + x^15 + x^2 + 1 of the bits of the header behind
-- its first two bytes and of the bytes behind the check.
use foodie_note.Mp3.Crc.{Crc, shift_in, next_bit, crc_round, crc_loop, calc_crc16}
use native.Mathlib.Nat.{pow-suc}
use foodie_note.Prelude.{
  ℕ, zero, suc, ◌+◌, ◌-◌, ◌*◌, ◌/◌, ◌%◌, ◌^◌, ◌≤◌, ◌<◌, ◌≡◌, ◌⊎◌, inl, inr, ◌∙◌, refl, ap, arith,
  Bool, true, false, not, ◌||◌, List, [], ◌∷◌, ◌==◌, ltb, leb, if◌then◌else◌, get_or, drop, length,
  bit_and, bit_xor, drop_sum,
}

-- A bit of a word.
abbrev has_bit : ℕ → ℕ → Bool
has_bit x place = not (bit_and x (2 ^ place) == 0)

-- The register by one bit of the dividend: the divisor is taken off where the bit that is shifted out
-- differs from that of the dividend.
divide : ℕ → Bool → ℕ
divide r true = if has_bit r 15 then r * 2 % 2 ^ 16 else bit_xor (r * 2 % 2 ^ 16) 0x8005
divide r false = if has_bit r 15 then bit_xor (r * 2 % 2 ^ 16) 0x8005 else r * 2 % 2 ^ 16

-- The bits of a byte from the most significant on, below `n`.
divide_byte : ℕ → ℕ → ℕ → ℕ
unfolding divide
divide_byte zero r b = r
divide_byte (suc n) r b = divide_byte n (divide r (has_bit b n)) b

unfoldable pub crc16 : ℕ → List ℕ → ℕ
unfolding divide_byte
crc16 r [] = r
crc16 r (b ∷ bs) = crc16 (divide_byte 8 r b) bs

shift_in-divide : (r b place : ℕ) → shift_in r b (2 ^ place) ≡ divide r (has_bit b place)
unfolding shift_in divide
shift_in-divide r b place = ground arith

-- The bytes that count: those of the header behind the first two, and those behind the check.
abbrev Counts : ℕ → Type 0
Counts k = (k < 4) ⊎ (6 ≤ k)

in_byte : (k n : ℕ) → Counts k → 8 * k ≤ n → n < 8 * k + 8 → (ltb n 32 || leb 48 n) ≡ true
in_byte k n (inl h) low high = ground arith
in_byte k n (inr h) low high = ground arith

module _ (buffer : List ℕ) (k : ℕ) (counts : Counts k) where
  round_first :
      (n : ℕ) (c : Crc)
      → n ≡ 8 * k
      → crc_round buffer n c ≡ next_bit (get_or buffer k 0) (2 ^ 7) c.crc
  unfolding crc_round
  round_first n c e =
      let whole : (n % 8 == 0) ≡ true = ground arith in
      let at_k : n / 8 ≡ k = omega arith in
      rw (in_byte k n counts (omega arith) (omega arith), whole, at_k) refl

  round_next :
      (n i : ℕ) (c : Crc)
      → n ≡ 8 * k + suc i
      → i < 7
      → crc_round buffer n c ≡ next_bit c.tmpchar (c.crcmask / 2) c.crc
  unfolding crc_round
  round_next n i c e small =
      let part : (n % 8 == 0) ≡ false = ground arith in
      rw (in_byte k n counts (omega arith) (omega arith), part) refl

  -- The other rounds of a byte.
  rounds :
      (m n r char crc : ℕ)
      → m ≤ 7
      → n + m ≡ 8 * k + 8
      → crc_loop buffer (m + r) n (record { tmpchar = char; crcmask = 2 ^ m; crc = crc })
        ≡ crc_loop buffer r
            (8 * k + 8)
            (record { tmpchar = char; crcmask = 1; crc = divide_byte m crc char })
  unfolding crc_loop divide_byte
  rounds zero n r char crc small e =
      let same : n ≡ 8 * k + 8 = omega arith in
      let same' : 0 + r ≡ r = omega arith in rw (same, same') refl
  rounds (suc m) n r char crc small e =
      let more : suc m + r ≡ suc (m + r) = omega arith in
      let half : 2 ^ suc m / 2 ≡ 2 ^ m = rw (pow-suc 2 m) (omega arith) in
      let c : Crc = record { tmpchar = char; crcmask = 2 ^ suc m; crc = crc } in
      let once : crc_round buffer n c
          ≡ record { tmpchar = char; crcmask = 2 ^ m; crc = divide crc (has_bit char m) } =
        round_next n (6 - m) c (omega arith) (omega arith)
        ∙ ap (λ h. next_bit char h crc) half
        ∙ ap (λ x. record { tmpchar = char; crcmask = 2 ^ m; crc = x })
            (shift_in-divide crc char m) in
      ap (λ x. crc_loop buffer x n c) more
      ∙ ap (λ x. crc_loop buffer (m + r) (n + 1) x) once
      ∙ rounds m (n + 1) r char (divide crc (has_bit char m)) (omega arith) (omega arith)

  byte_rounds :
      (r : ℕ) (c : Crc)
      → crc_loop buffer (suc (7 + r)) (8 * k) c
        ≡ crc_loop buffer r (8 * k + 8) (record {
          tmpchar = get_or buffer k 0;
          crcmask = 1;
          crc = divide_byte 8 c.crc (get_or buffer k 0);
        })
  unfolding crc_loop divide_byte
  byte_rounds r c =
      let b = get_or buffer k 0 in
      let once : crc_round buffer (8 * k) c
          ≡ record { tmpchar = b; crcmask = 2 ^ 7; crc = divide c.crc (has_bit b 7) } =
        round_first (8 * k) c refl
        ∙ ap (λ x. record { tmpchar = b; crcmask = 2 ^ 7; crc = x }) (shift_in-divide c.crc b 7) in
      ap (λ x. crc_loop buffer (7 + r) (8 * k + 1) x) once
      ∙ rounds 7 (8 * k + 1) r b (divide c.crc (has_bit b 7)) (omega arith) (omega arith)

-- The bytes of the check are passed over.
skip_rounds :
    (buffer : List ℕ) (m n r : ℕ) (c : Crc)
    → 32 ≤ n
    → n + m ≤ 48
    → crc_loop buffer (m + r) n c ≡ crc_loop buffer r (n + m) c
unfolding crc_loop crc_round
skip_rounds buffer zero n r c low high =
    let same : 0 + r ≡ r = omega arith in
    let same' : n + 0 ≡ n = omega arith in rw (same, same') refl
skip_rounds buffer (suc m) n r c low high =
    let more : suc m + r ≡ suc (m + r) = omega arith in
    let next : n + suc m ≡ n + 1 + m = omega arith in
    let skip : (ltb n 32 || leb 48 n) ≡ false = ground arith in
    let passed : crc_round buffer n c ≡ c = rw (skip, crc_round) refl in
    ap (λ x. crc_loop buffer x n c) more
    ∙ ap (λ x. crc_loop buffer (m + r) (n + 1) x) passed
    ∙ rw next (skip_rounds buffer m (n + 1) r c (omega arith) (omega arith))

get_or-drop : (k b : ℕ) (bs xs : List ℕ) → drop k xs ≡ b ∷ bs → get_or xs k 0 ≡ b
get_or-drop zero b bs [] e = cc
get_or-drop zero b bs (x ∷ xs) e = cc
get_or-drop (suc k) b bs [] e = cc
get_or-drop (suc k) b bs (x ∷ xs) e = get_or-drop k b bs xs e

drop-next : (k b : ℕ) (bs xs : List ℕ) → drop k xs ≡ b ∷ bs → drop (k + 1) xs ≡ bs
drop-next k b bs xs e = drop_sum k 1 xs ∙ ap (drop 1) e

-- The bytes behind the check.
data_rounds :
    (buffer bs : List ℕ) (k : ℕ) (c : Crc)
    → 6 ≤ k
    → drop k buffer ≡ bs
    → (crc_loop buffer (8 * length bs) (8 * k) c).crc ≡ crc16 c.crc bs
unfolding crc16 crc_loop
data_rounds buffer [] k c far e = refl
data_rounds buffer (b ∷ bs) k c far e =
    let more : 8 * suc (length bs) ≡ suc (7 + 8 * length bs) = omega arith in
    let next : 8 * k + 8 ≡ 8 * (k + 1) = omega arith in
    ap (λ x. (crc_loop buffer x (8 * k) c).crc) more
    ∙ ap (λ x. x.crc) (byte_rounds buffer k (inr far) (8 * length bs) c)
    ∙ rw (next, get_or-drop k b bs buffer e)
        (data_rounds buffer bs (k + 1) _ (omega arith) (drop-next k b bs buffer e))

-- On a header of four bytes, a check of two and any number of bytes behind them, CalcCRC16 is the
-- remainder of the last two bytes of the header and of the bytes behind the check, bit by bit from
-- 0xffff on, by the divisor 0x8005.
pub calc_crc16_lem :
    (h0 h1 h2 h3 c0 c1 : ℕ) (bs : List ℕ)
    → calc_crc16 (h0 ∷ h1 ∷ h2 ∷ h3 ∷ c0 ∷ c1 ∷ bs) (48 + 8 * length bs)
      ≡ crc16 0xffff (h2 ∷ h3 ∷ bs)
unfolding calc_crc16 crc16
calc_crc16_lem h0 h1 h2 h3 c0 c1 bs =
    let buffer = h0 ∷ h1 ∷ h2 ∷ h3 ∷ c0 ∷ c1 ∷ bs in
    let n = 8 * length bs in
    let start : Crc = record { tmpchar = 0; crcmask = 0; crc = 0xffff } in
    let c2 : Crc = record { tmpchar = h2; crcmask = 1; crc = divide_byte 8 0xffff h2 } in
    let c3 : Crc = record { tmpchar = h3; crcmask = 1; crc = divide_byte 8 c2.crc h3 } in
    let all : 48 + n - 16 ≡ suc (7 + suc (7 + (16 + n))) = omega arith in
    ap (λ x. (crc_loop buffer x 16 start).crc) all
    ∙ ap (λ x. x.crc) (byte_rounds buffer 2 (inl (omega arith)) (suc (7 + (16 + n))) start)
    ∙ ap (λ x. x.crc) (byte_rounds buffer 3 (inl (omega arith)) (16 + n) c2)
    ∙ ap (λ x. x.crc) (skip_rounds buffer 16 32 n c3 (omega arith) (omega arith))
    ∙ data_rounds buffer bs 6 c3 (omega arith) refl
