-- ===== src/Id3/WideChar.antt =====
-- listener/src/main/jni/pvmi/pv_id3_parcom.cpp: EightBitToWideCharBufferTransfer, which turns the
-- bytes of UTF-16 text into wide characters. The pointers are not NULL; the bytes are the first
-- `aSize` of the frame.
use foodie_note.Prelude.{
  ℕ, ◌+◌, ◌*◌, ◌%◌, ◌^◌, ◌&&◌, Option, none, some, List, [], ◌∷◌, ◌++◌, bit_or, ◌==◌, if◌then◌else◌,
  length,
}

-- `aEndianType`: UNICODE_BIG_ENDIAN, or any other value.
pub data Endian : Type 0 where
  big little : Endian

-- The returned index, and the wide characters that were written.
pub record Transfer : Type 0 where
  pub index : ℕ
  pub cells : List ℕ

-- (uint16)((((uint16)(hi << 8)) | lo))
unfoldable pub join16 : ℕ → ℕ → ℕ
join16 hi lo = bit_or (hi * 2 ^ 8 % 2 ^ 16) lo % 2 ^ 16

-- The wide character for a pair that is not zero; `none` where the function returns 0. The line for
-- big-endian text and wide characters of four bytes is `(tempFrameData16 << 16) && 0xff00`.
unfoldable pub wide_unit : Endian → ℕ → ℕ → ℕ → Option ℕ
wide_unit little wchar_size a b = some (join16 b a)
wide_unit big wchar_size a b =
    if wchar_size == 4
    then some (if join16 a b * 2 ^ 16 % 2 ^ 32 == 0 then 0 else 1)
    else if wchar_size == 2
    then some (join16 a b)
    else none

-- The round for the last pair.
unfoldable pub last_pair : Endian → ℕ → ℕ → ℕ → List ℕ → Transfer
last_pair e w a b out =
    if a == 0 && b == 0
    then record { index = length out + 1; cells = out ++ 0 ∷ [] }
    else elim (wide_unit e w a b) [
      | none ↦ record { index = 0; cells = out }
      | some u ↦ record { index = length out + 1; cells = out ++ u ∷ [] }
    ]

-- The loop over the pairs that are left, with the characters written so far. A pair of zeros writes
-- a terminator and counts x up a second time.
unfoldable pub transfer_loop : Endian → ℕ → List ℕ → List ℕ → Transfer
unfolding last_pair
transfer_loop e w [] out = record { index = length out; cells = out }
transfer_loop e w (a ∷ []) out = record { index = length out; cells = out }
transfer_loop e w (a ∷ b ∷ []) out = last_pair e w a b out
transfer_loop e w (a ∷ b ∷ c ∷ []) out = last_pair e w a b out
transfer_loop e w (a ∷ b ∷ c ∷ d ∷ r) out =
    let skip = transfer_loop e w r (out ++ 0 ∷ []) in
    let next : Transfer = elim (wide_unit e w a b) [
      | none ↦ record { index = 0; cells = out }
      | some u ↦ transfer_loop e w (c ∷ d ∷ r) (out ++ u ∷ [])
    ] in
    if a == 0 && b == 0 then skip else next

unfoldable pub eight_bit_to_wide_char_buffer_transfer : Endian → ℕ → List ℕ → Transfer
eight_bit_to_wide_char_buffer_transfer e w bytes = transfer_loop e w bytes []
