-- ===== src/Scanner/Frames.antt =====
-- listener/src/main/jni/mediascanner.cpp: the loop of parseMP3 over the ID3 frames, with ChangeCode.
-- A wide character is its unsigned value; a frame's value is the member of the union that was set,
-- and to read text from another member is a fault. iconv (listener/src/main/jni/iconv) and the
-- client (its implementation calls Java) are parameters.
use foodie_note.Id3.Kvp.{Kvp, Value, p_char_value, p_wchar_value, uint32_value}
use foodie_note.Prelude.Results.{Result, ok, fault, out_of_bounds, ◌>>=◌}
use foodie_note.Prelude.Text.{codes, c_string, starts_with, behind_first_of}
use foodie_note.Prelude.{
  ℕ, zero, suc, ◌+◌, ◌-◌, ◌*◌, ◌/◌, ◌%◌, ◌^◌, Bool, true, false, ◌||◌, Option, none, some, List, [],
  ◌∷◌, ◌++◌, ltb, ◌==◌, if◌then◌else◌, length, take,
}
use foodie_note.Utf8.Convert.{unicode_to_utf8}
use foodie_note.Utf8.Validate.{is_valid_utf8}

-- The constants of pvmi/pv_id3_parcom_constants.h.
abbrev pub kvp_valtype_utf8_char : List ℕ
kvp_valtype_utf8_char = codes "valtype=char*;char-encoding=UTF8"

abbrev pub kvp_valtype_iso88591_char : List ℕ
kvp_valtype_iso88591_char = codes "valtype=char*"

abbrev pub kvp_valtype_utf16be_wchar : List ℕ
kvp_valtype_utf16be_wchar = codes "valtype=wchar*;char-encoding=UTF16BE"

abbrev pub kvp_valtype_utf16_wchar : List ℕ
kvp_valtype_utf16_wchar = codes "valtype=wchar*"

abbrev pub kvp_valtype_uint32 : List ℕ
kvp_valtype_uint32 = codes "valtype=uint32"

-- snprintf with a buffer of `n` bytes: what does not fit is cut.
unfoldable pub snprintf : ℕ → List ℕ → List ℕ
snprintf n text = take (n - 1) text

-- The key for the client: the track number gets the name that Java expects.
unfoldable pub client_key : List ℕ → List ℕ → List ℕ
unfolding snprintf
client_key key type =
    if starts_with key (codes "track-info/track-number;")
    then snprintf 100 (codes "tracknumber;" ++ type)
    else key

-- The decimal digits of a number, with fuel, in front of those already there.
unfoldable pub digits_from : ℕ → ℕ → List ℕ → List ℕ
digits_from zero x acc = acc
digits_from (suc f) x acc =
    let here = (b'0' + x % 10) ∷ acc in
    let rest = digits_from f (x / 10) here in if ltb x 10 then here else rest

-- "%d" of a uint32 that is cast to int; ten digits are enough for 32 bits.
unfoldable pub print_int : ℕ → List ℕ
unfolding digits_from
print_int x = if ltb x (2 ^ 31) then digits_from 10 x [] else b'-' ∷ digits_from 10 (2 ^ 32 - x) []

-- What the loop makes of a value: the text for the client.
pub data Branch : Type 0 where
  utf8_chars iso88591_chars wide_chars number unknown : Branch

-- The chain of comparisons on the type, in the order of the source.
unfoldable pub branch_of : List ℕ → Branch
branch_of type =
    if starts_with type kvp_valtype_utf8_char
    then utf8_chars
    else if starts_with type kvp_valtype_iso88591_char
    then iso88591_chars
    else if starts_with type kvp_valtype_utf16be_wchar || starts_with type kvp_valtype_utf16_wchar
    then wide_chars
    else if starts_with type kvp_valtype_uint32
    then number
    else unknown

-- The buffer of a string of bytes, and of wide characters.
unfoldable pub chars_of : Value → Result (List ℕ)
chars_of (p_char_value cells) = ok cells
chars_of _ = fault out_of_bounds

unfoldable pub wide_chars_of : Value → Result (List ℕ)
wide_chars_of (p_wchar_value cells) = ok cells
wide_chars_of _ = fault out_of_bounds

-- The low word of the union; the loop reads it as a number whatever was set, so that a pointer's
-- word is unknown and counts as a fault.
unfoldable pub uint32_of : Value → Result ℕ
uint32_of (uint32_value x) = ok x
uint32_of _ = fault out_of_bounds

-- iconv by what one call leaves: `iconv_open` may refuse the character sets; `iconv` returns a
-- number and writes bytes into the buffer of the given size.
pub record Iconv : Type 1 where
  pub Descriptor : Type 0
  pub iconv_open : List ℕ → List ℕ → Option Descriptor
  pub iconv : Descriptor → List ℕ → ℕ → ℕ × List ℕ

-- ChangeCode: what it returns (`none` for -1) and the bytes written to the buffer.
unfoldable pub change_code : (lib : Iconv) → List ℕ → List ℕ → List ℕ → ℕ → Option ℕ × List ℕ
change_code lib from to input room = elim (lib.iconv_open to from) [
  | none ↦ (none, [])
  | some h ↦ (some (lib.iconv h input room).0, (lib.iconv h input room).1)
]

unfoldable pub zeros : ℕ → List ℕ
zeros zero = []
zeros (suc n) = 0 ∷ zeros n

-- sOutBuf behind the memset and the call: the bytes that were written, in front of zeros.
unfoldable pub gbk_buffer : Iconv → List ℕ → List ℕ
unfolding change_code zeros
gbk_buffer lib text =
    let out = (change_code lib (codes "GBK") (codes "UTF-8") text 100).1 in
    out ++ zeros (100 - length out)

-- A client: its state, and handleStringTag.
pub record Client : Type 1 where
  pub State : Type 0
  pub handle_string_tag : State → List ℕ → List ℕ → Bool × State

module _ (lib : Iconv) (client : Client) where
  open client use {State, handle_string_tag}

  -- The branch for ISO-8859-1, which is taken for GBK.
  unfoldable pub handle_gbk : List ℕ → List ℕ → State → Result (Bool × State)
  handle_gbk key cells s = do
    text ← c_string cells
    out ← c_string (gbk_buffer lib text)
    ok (handle_string_tag s key out)

  -- The branch for UTF-8: text that is not valid is treated as ISO-8859-1.
  unfoldable pub handle_utf8 : List ℕ → List ℕ → State → Result (Bool × State)
  unfolding handle_gbk
  handle_utf8 key cells s = elim (is_valid_utf8 (length cells + 1) cells 0 0) [
    | none ↦ fault out_of_bounds
    | some c ↦ elim c.valid [
      | true ↦ do text ← c_string cells; ok (handle_string_tag s key text)
      | false ↦ handle_gbk key cells s
    ]
  ]

  -- The branch for wide characters.
  unfoldable pub handle_wide : List ℕ → List ℕ → State → Result (Bool × State)
  handle_wide key cells s = do
    src ← c_string cells
    let dest = unicode_to_utf8 src (length src * 3 + 1)
    if dest.returned == 0
        then ok (true, s)
        else do text ← c_string dest.written; ok (handle_string_tag s key text)

  -- One round of the loop: whether it goes on, and the client behind it.
  unfoldable pub handle_type : List ℕ → List ℕ → Value → State → Result (Bool × State)
  unfolding handle_utf8 handle_gbk handle_wide client_key chars_of wide_chars_of uint32_of branch_of
      snprintf
  handle_type key type value s = elim (branch_of type) [
    | utf8_chars ↦ do cells ← chars_of value; handle_utf8 (client_key key type) cells s
    | iso88591_chars ↦ do cells ← chars_of value; handle_gbk (client_key key type) cells s
    | wide_chars ↦ do cells ← wide_chars_of value; handle_wide (client_key key type) cells s
    | number ↦ do
      x ← uint32_of value
      ok (handle_string_tag s (client_key key type) (snprintf 20 (print_int x)))
    | unknown ↦ ok (true, s)
  ]

  unfoldable pub handle_frame : Kvp → State → Result (Bool × State)
  unfolding handle_type
  handle_frame frame s = elim (behind_first_of b';' frame.key) [
    | none ↦ ok (true, s)
    | some type ↦ handle_type frame.key type frame.value s
  ]

  -- What follows a round: the loop ends at the first frame whose tag the client refuses.
  unfoldable pub if_handled :
      Result (Bool × State) → (State → Result (Bool × State)) → Result (Bool × State)
  if_handled (ok (true, t)) k = k t
  if_handled (ok (false, t)) k = ok (false, t)
  if_handled (fault e) k = fault e

  unfoldable pub handle_frames : List Kvp → State → Result (Bool × State)
  unfolding handle_frame if_handled
  handle_frames [] s = ok (true, s)
  handle_frames (frame ∷ frames) s = if_handled (handle_frame frame s) (λ t. handle_frames frames t)
