-- ===== src/Id3/Reader/State.antt =====
-- listener/src/main/jni/pvmi/pv_id3_parcom.h: the members of PVID3ParCom and of TID3TagInfo that
-- reading a tag uses, and the calls that read and change them. iTextType is written and never read,
-- and is left out.
use foodie_note.Id3.FrameTables.{Found}
use foodie_note.Id3.Kvp.{Kvp}
use foodie_note.Id3.KvpKey.{Version, invalid_version}
use foodie_note.Id3.Reader.Input.{InputFile}
use foodie_note.Prelude.{
  ℕ, zero, suc, ◌*◌, ◌%◌, ◌^◌, Bool, true, false, Option, none, some, List, [], ◌∷◌, bit_or, ltb,
  if◌then◌else◌, length, ◌≡◌, ◌∙◌, refl, ap,
}

abbrev pub no_flags : Found
no_flags = record {
  title_found = false;
  artist_found = false;
  album_found = false;
  year_found = false;
  comment_found = false;
  track_number_found = false;
  genre_found = false;
}

pub record Parser (S : Type 0) : Type 0 where
  pub input : S
  pub version : Version
  pub frames : List Kvp
  pub found : Found
  pub file_size : ℕ
  pub byte_offset : ℕ
  pub v1_present : Bool
  pub v2_present : Bool
  pub tag_at_bof : Bool
  pub seek_frame_found : Bool
  pub frame_id : List ℕ
  pub frame_size : ℕ
  pub frame_flag : List ℕ
  pub seek_offset : ℕ
  pub tag_flags : ℕ
  pub ext_size : ℕ
  pub tag_size : ℕ
  pub footer_present : Bool
  pub language : List ℕ

-- The constructor of PVID3ParCom, which leaves the identifier, the offset of a seek frame and the
-- language as they are in memory.
unfoldable pub new_parser : {S : Type 0} → S → List ℕ → ℕ → List ℕ → Parser S
new_parser s id offset lang = record {
  input = s;
  version = invalid_version;
  frames = [];
  found = no_flags;
  file_size = 0;
  byte_offset = 0;
  v1_present = false;
  v2_present = false;
  tag_at_bof = false;
  seek_frame_found = false;
  frame_id = id;
  frame_size = 0;
  frame_flag = 0 ∷ 0 ∷ [];
  seek_offset = offset;
  tag_flags = 0;
  ext_size = 0;
  tag_size = 0;
  footer_present = false;
  language = lang;
}

-- A call returns, or ends by OSCL_LEAVE, which nothing up to the scanner catches, or it writes beyond
-- a buffer, or it still runs when the fuel of a loop is used up.
pub data Ended {ℓ} (A : Type ℓ) : Type ℓ where
  returned : A → Ended A
  left overrun running : Ended A

abbrev pub Action : Type 0 → Type 0 → Type 0
Action S A = Parser S → Ended A × Parser S

module _ {S : Type 0} where
  abbrev pub pure : {A : Type 0} → A → Action S A
  pure a p = (returned a, p)

  abbrev pub leave : {A : Type 0} → Action S A
  leave p = (left, p)

  abbrev pub overflow : {A : Type 0} → Action S A
  overflow p = (overrun, p)

  abbrev pub run_on : {A : Type 0} → Action S A
  run_on p = (running, p)

  abbrev pub gets : {A : Type 0} → (Parser S → A) → Action S A
  gets g p = (returned (g p), p)

  abbrev pub modify : (Parser S → Parser S) → Action S (Unit {0})
  modify g p = (returned tt, g p)

  unfoldable pub behind :
      {A B : Type 0} → Ended A × Parser S → (A → Action S B) → Ended B × Parser S
  behind (returned a, p) k = k a p
  behind (left, p) k = (left, p)
  behind (overrun, p) k = (overrun, p)
  behind (running, p) k = (running, p)

infixl 5 ◌>>=◌ ◌>>◌
abbrev pub ◌>>=◌ : {S A B : Type 0} → Action S A → (A → Action S B) → Action S B
◌>>=◌ m k p = behind (m p) k

abbrev pub ◌>>◌ : {S A B : Type 0} → Action S A → Action S B → Action S B
m >> k = m >>= λ _. k

-- The bytes of a word from the most significant on, `w` bits wide.
unfoldable pub join_bytes : ℕ → ℕ → List ℕ → ℕ
join_bytes w acc [] = acc
join_bytes w acc (b ∷ bs) = join_bytes w (bit_or (acc * 2 ^ 8 % 2 ^ w) b) bs

-- What follows a call that returns.
behind_returned :
    {S A B : Type 0} (k : A → Action S B) (a : A) (q : Parser S) → behind (returned a, q) k ≡ k a q
unfolding behind
behind_returned k a q = refl

pub step_eq :
    {S A B : Type 0} {a : A} {q : Parser S} (k : A → Action S B) {z : Ended B × Parser S}
    → k a q ≡ z
    → behind (returned a, q) k ≡ z
step_eq {a = a} {q = q} k rest = behind_returned k a q ∙ rest

-- What follows a call that writes beyond a buffer.
pub behind_overrun :
    {S A B : Type 0} {r : Ended A × Parser S} {q : Parser S} (k : A → Action S B)
    → r ≡ (overrun, q)
    → behind r k ≡ (overrun, q)
unfolding behind
behind_overrun {q = q} k e = rw e refl

pub behind_eq :
    {S A B : Type 0} {r : Ended A × Parser S} {a : A} {q : Parser S} (k : A → Action S B)
    {z : Ended B × Parser S}
    → r ≡ (returned a, q)
    → k a q ≡ z
    → behind r k ≡ z
behind_eq {a = a} {q = q} k e rest = ap (λ r. behind r k) e ∙ step_eq k rest

module _ (f : InputFile) where
  open f use {State, seek_set, read}

  -- Read, with the number of bytes that it returns as the length of the list.
  unfoldable pub read_some : ℕ → Action State (List ℕ)
  read_some n p = (returned (read p.input n).0, record p { input = (read p.input n).1 })

  -- A Seek from the start of the file, and whether it succeeds.
  unfoldable pub seek_to : ℕ → Action State Bool
  seek_to n p = elim (seek_set p.input n) [
    | none ↦ (returned false, p)
    | some t ↦ (returned true, record p { input = t })
  ]

  -- readByteData: all bytes, or `none` with the file behind those that were read.
  abbrev pub all_of : ℕ → List ℕ → Option (List ℕ)
  all_of n bs = if ltb (length bs) n then none else some bs

  unfoldable pub read_byte_data : ℕ → Action State (Option (List ℕ))
  unfolding read_some
  read_byte_data zero = pure (some [])
  read_byte_data (suc n) = do bs ← read_some (suc n); pure (all_of (suc n) bs)

  -- readByteData into a buffer with room for `room` bytes.
  unfoldable pub read_into : ℕ → ℕ → Action State (Option (List ℕ))
  unfolding read_some
  read_into room n = do
    bs ← read_some n
    if ltb room (length bs) then overflow else pure (all_of n bs)

  -- read8, read16, read24 and read32, by the number of bytes; where it fails the variable is 0.
  unfoldable pub read_word : ℕ → ℕ → Action State (Option ℕ)
  unfolding read_some join_bytes
  read_word w n = do
    bs ← read_some n
    pure (if ltb (length bs) n then none else some (join_bytes w 0 bs))

-- The value that a read leaves in its variable.
abbrev pub or_zero : Option ℕ → ℕ
or_zero none = 0
or_zero (some x) = x
