-- ===== src/Scanner/Number.antt =====
-- The branch of parseMP3 for numbers: the decimal text that the client gets.
use native.Mathlib.Nat.{pow-suc}
use foodie_note.Prelude.{
  ℕ, zero, suc, ◌+◌, ◌-◌, ◌*◌, ◌/◌, ◌%◌, ◌^◌, ◌≤◌, ◌<◌, ◌≡◌, ◌∙◌, refl, ap, arith, List, [], ◌∷◌,
  Bool-cases, inl, inr, ◌⊎◌, ◌≢◌, All, true, some, ltb→lt, ltb_false→le, ltb, if◌then◌else◌, length,
  take,
}
use foodie_note.Id3.Kvp.{uint32_value}
use foodie_note.Prelude.Results.{ok}
use foodie_note.Prelude.Text.{behind_first_of}
use foodie_note.Scanner.Frames.{
  digits_from, print_int, snprintf, Iconv, Client, uint32_of, branch_of, number, client_key,
  handle_type, handle_frame,
}

cons_ne_nil : (d : ℕ) (ds : List ℕ) → (d ∷ ds) ≢ []
cons_ne_nil d ds h = cc

-- The number that decimal digits stand for, behind the digits of `n`.
unfoldable pub number_from : ℕ → List ℕ → ℕ
number_from n [] = n
number_from n (d ∷ ds) = number_from (n * 10 + (d - b'0')) ds

number_from-digits_from :
    (f x : ℕ) (acc : List ℕ) → x < 10 ^ f → number_from 0 (digits_from f x acc) ≡ number_from x acc
unfolding digits_from number_from
number_from-digits_from zero x acc h = let e : x ≡ 0 = omega arith in rw e refl
number_from-digits_from (suc f) x acc h =
    let here = (b'0' + x % 10) ∷ acc in
    elim (Bool-cases (ltb x 10)) [
      | inl one ↦
          let e : 0 * 10 + (b'0' + x % 10 - b'0') ≡ x = ground arith in
          rw one (ap (λ n. number_from n acc) e)
      | inr more ↦
          let e : x / 10 * 10 + (b'0' + x % 10 - b'0') ≡ x = omega arith in
          rw more (
            number_from-digits_from f (x / 10) here (omega (arith, pow-suc 10 f))
            ∙ ap (λ n. number_from n acc) e)
    ]

length-digits_from : (f x : ℕ) (acc : List ℕ) → length (digits_from f x acc) ≤ f + length acc
unfolding digits_from
length-digits_from zero x acc = omega arith
length-digits_from (suc f) x acc =
    ground (arith, length-digits_from f (x / 10) ((b'0' + x % 10) ∷ acc))

take_all {ℓ} : {A : Type ℓ} (n : ℕ) (xs : List A) → length xs ≤ n → take n xs ≡ xs
take_all zero [] h = refl
take_all zero (x ∷ xs) h = absurd (omega arith)
take_all (suc n) [] h = refl
take_all (suc n) (x ∷ xs) h = ap (λ ys. x ∷ ys) (take_all n xs (omega arith))

abbrev IsDigit : ℕ → Type 0
IsDigit d = (b'0' ≤ d) × (d ≤ b'9')

-- Decimal digits, at least one, and no 0 before others.
abbrev pub IsDecimal : List ℕ → Type 0
IsDecimal [] = ⊥
IsDecimal (d ∷ []) = IsDigit d
IsDecimal (d ∷ e ∷ ds) = (d ≢ b'0') × IsDigit d × All IsDigit (e ∷ ds)

leading-IsDecimal :
    (x : ℕ) (acc : List ℕ)
    → All IsDigit acc
    → (acc ≡ []) ⊎ (1 ≤ x)
    → x < 10
    → IsDecimal ((b'0' + x % 10) ∷ acc)
leading-IsDecimal x [] h one low = (omega arith, omega arith)
leading-IsDecimal x (d ∷ ds) h (inl empty) low = absurd (cons_ne_nil d ds empty)
leading-IsDecimal x (d ∷ ds) h (inr one) low = (omega arith, (omega arith, omega arith), h)

digits_from-IsDecimal :
    (f x : ℕ) (acc : List ℕ)
    → All IsDigit acc
    → (acc ≡ []) ⊎ (1 ≤ x)
    → x < 10 ^ suc f
    → IsDecimal (digits_from (suc f) x acc)
unfolding digits_from
digits_from-IsDecimal zero x acc h one low =
    let e : ltb x 10 ≡ true = ground arith in rw e (leading-IsDecimal x acc h one (omega arith))
digits_from-IsDecimal (suc f) x acc h one low = elim (Bool-cases (ltb x 10)) [
  | inl small ↦ rw small (leading-IsDecimal x acc h one (ltb→lt x 10 small))
  | inr large ↦
      let more = ltb_false→le x 10 large in
      rw large (
        digits_from-IsDecimal f (x / 10) ((b'0' + x % 10) ∷ acc) ((omega arith, omega arith), h)
          (inr (omega arith)) (omega (arith, pow-suc 10 (suc f))))
]

-- A number of 32 bits, written into 20 bytes.
snprintf-print_int :
    (x : ℕ)
    → x < 2 ^ 32
    → (digits : List ℕ) × (snprintf 20 (print_int x)
        ≡ (if ltb x (2 ^ 31) then digits else b'-' ∷ digits))
      × IsDecimal digits
      × (number_from 0 digits ≡ (if ltb x (2 ^ 31) then x else 2 ^ 32 - x))
unfolding snprintf print_int
snprintf-print_int x h = elim (Bool-cases (ltb x (2 ^ 31))) [
  | inl small ↦ (
    digits_from 10 x [],
    rw small (take_all 19 (digits_from 10 x []) (omega (arith, length-digits_from 10 x []))),
    digits_from-IsDecimal 9 x [] tt (inl refl) (omega arith),
    rw small (number_from-digits_from 10 x [] (omega arith) ∙ unfold number_from in refl),
  )
  | inr large ↦
      let y = 2 ^ 32 - x in
      (
        digits_from 10 y [],
        rw large
            (take_all 19 (b'-' ∷ digits_from 10 y []) (omega (arith, length-digits_from 10 y []))),
        digits_from-IsDecimal 9 y [] tt (inl refl) (omega arith),
        rw large (number_from-digits_from 10 y [] (omega arith) ∙ unfold number_from in refl),
      )
]

-- A frame whose key has a type behind its first semicolon that begins as the type for numbers, with a
-- value of 32 bits: the loop gives the client one text under its key and goes on as the client says.
-- Below 2 ^ 31 the text is the decimal digits of the value, at least one and no 0 before others, and
-- from there on a minus sign with those of what is missing to 2 ^ 32; nothing is cut.
pub handle_frame_number :
    (lib : Iconv) (client : Client) (key type : List ℕ) (x : ℕ) (s : client.State)
    → behind_first_of b';' key ≡ some type
    → branch_of type ≡ number
    → x < 2 ^ 32
    → (digits : List ℕ) × (handle_frame lib client (record { key = key; value = uint32_value x }) s
        ≡ ok (
            client.handle_string_tag s
              (client_key key type)
              (if ltb x (2 ^ 31) then digits else b'-' ∷ digits)))
      × IsDecimal digits
      × (number_from 0 digits ≡ (if ltb x (2 ^ 31) then x else 2 ^ 32 - x))
unfolding handle_frame handle_type uint32_of
handle_frame_number lib client key type x s typed is_number word =
    let (digits, text, decimal, value) = snprintf-print_int x word in
    (
      digits,
      rw (typed, handle_frame, is_number, handle_type)
          (ap (λ t. ok (client.handle_string_tag s (client_key key type) t)) text),
      decimal,
      value,
    )
