-- ===== src/Scanner/Gbk.antt =====
-- The branch of parseMP3 for 8-bit text, which converts from GBK into a buffer of 100 bytes.
use foodie_note.Prelude.Results.{ok, fault, out_of_bounds}
use foodie_note.Prelude.Text.{codes, c_string-text, c_string-full, IsNonzero}
use foodie_note.Prelude.{
  ℕ, zero, suc, ◌+◌, ◌-◌, ◌≤◌, ◌<◌, ◌≡◌, refl, arith, Option, none, some, List, ◌∷◌, ◌++◌,
  append-nil, Bool-cases, inl, inr, if◌then◌else◌, length, length-append, All,
}
use foodie_note.Scanner.Frames.{
  Iconv, Client, change_code, gbk_buffer, zeros, handle_gbk, handle_utf8,
}
use foodie_note.Utf8.Validate.{Checked, is_valid_utf8}
use foodie_note.Utf8.Validity.{EndsIn, is_valid_utf8-EndsIn}

module _ (lib : Iconv) (client : Client) where
  open client use {State, handle_string_tag}

  -- The bytes that the conversion of a text writes.
  abbrev pub converted : List ℕ → List ℕ
  converted text = (change_code lib (codes "GBK") (codes "UTF-8") text 100).1

  zeros-suc : (n : ℕ) → 0 < n → (m : ℕ) × (zeros n ≡ 0 ∷ zeros m)
  unfolding zeros
  zeros-suc zero h = absurd (omega arith)
  zeros-suc (suc n) h = (n, refl)

  -- 8-bit text whose conversion has fewer than 100 bytes, none of them zero: the client gets these
  -- bytes.
  pub handle_gbk_fits :
      (key text rest : List ℕ) (s : State)
      → All IsNonzero text
      → All IsNonzero (converted text)
      → length (converted text) < 100
      → handle_gbk lib client key (text ++ 0 ∷ rest) s
        ≡ ok (handle_string_tag s key (converted text))
  unfolding handle_gbk gbk_buffer
  handle_gbk_fits key text rest s h nonzero room =
      let (m, e) = zeros-suc (100 - length (converted text)) (omega arith) in
      rw (c_string-text text rest h, e, c_string-text (converted text) (zeros m) nonzero)

  -- 8-bit text whose conversion fills the buffer with bytes that are not zero: the value that is
  -- handed to the client is read beyond the buffer.
  pub handle_gbk_full :
      (key text rest : List ℕ) (s : State)
      → All IsNonzero text
      → All IsNonzero (converted text)
      → length (converted text) ≡ 100
      → handle_gbk lib client key (text ++ 0 ∷ rest) s ≡ fault out_of_bounds
  unfolding handle_gbk gbk_buffer zeros
  handle_gbk_full key text rest s h nonzero full = rw (
    c_string-text text rest h,
    full,
    append-nil (converted text),
    c_string-full (converted text) nonzero,
  )

  -- A frame in UTF-8 with any text: the validator ends inside the buffer, and the client gets the
  -- text unchanged if it is valid; else the text goes through the conversion from GBK.
  pub handle_utf8_any :
      (key text rest : List ℕ) (s : State)
      → All IsNonzero text
      → (c : Checked) × (is_valid_utf8 (length (text ++ 0 ∷ rest) + 1) (text ++ 0 ∷ rest) 0 0
          ≡ some c)
        × (c.position ≤ length text)
        × (handle_utf8 lib client key (text ++ 0 ∷ rest) s ≡ (
            if c.valid
            then ok (handle_string_tag s key text)
            else handle_gbk lib client key (text ++ 0 ∷ rest) s))
  unfolding handle_utf8
  handle_utf8_any key text rest s h =
      go (is_valid_utf8 (length (text ++ 0 ∷ rest) + 1) (text ++ 0 ∷ rest) 0 0) refl (
        is_valid_utf8-EndsIn (length (text ++ 0 ∷ rest) + 1) text rest h
          (omega (arith, length-append text (0 ∷ rest))))
    where
      go :
          (o : Option Checked)
          → is_valid_utf8 (length (text ++ 0 ∷ rest) + 1) (text ++ 0 ∷ rest) 0 0 ≡ o
          → EndsIn 0 (length text) o
          → (c : Checked) × (o ≡ some c)
            × (c.position ≤ length text)
            × (handle_utf8 lib client key (text ++ 0 ∷ rest) s ≡ (
                if c.valid
                then ok (handle_string_tag s key text)
                else handle_gbk lib client key (text ++ 0 ∷ rest) s))
      go none e ends = absurd ends
      go (some c) e ends = (
        c,
        refl,
        omega (arith, ends.0),
        elim (Bool-cases c.valid) [
          | inl v ↦ rw (e, handle_utf8, v, c_string-text text rest h) refl
          | inr v ↦ rw (e, handle_utf8, v) refl
        ],
      )
