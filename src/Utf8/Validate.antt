-- ===== src/Utf8/Validate.antt =====
-- listener/src/main/jni/oscl_config/oscl_string_utf8.cpp: the validator of UTF-8 and the functions
-- on top of it. The buffer is the list of its cells; a read behind the last one is `none`. The
-- counters are counted up without a wrap, since they stay below the length of the buffer.
use foodie_note.Prelude.{
  ℕ, zero, suc, ◌+◌, ◌-◌, Bool, true, false, not, ◌&&◌, ◌||◌, Option, none, some, ◌>>=◌, List, [],
  ◌∷◌, bit_and, ltb, leb, ◌==◌, if◌then◌else◌, drop,
}

-- What one round of the loop decides: the text ends here, the character is invalid, or the cursor
-- moves on by some bytes.
pub data Move : Type 0 where
  accept reject : Move
  advance : ℕ → Move

pub is_trail : ℕ → Bool
is_trail b = bit_and b 0xc0 == 0x80

-- The conditions of a character of two bytes, behind its lead byte.
two : ℕ → List ℕ → Option Move
two b [] = none
two b (b1 ∷ r) = some (if not (is_trail b1) || ltb b 0xc2 then reject else advance 2)

-- Of three bytes; `||` reads the third byte only if the second is a trail byte.
three_last : ℕ → ℕ → List ℕ → Option Move
three_last b b1 [] = none
three_last b b1 (b2 ∷ r) =
    some (if not (is_trail b2) || (b == 0xe0 && ltb b1 0xa0) then reject else advance 3)

three : ℕ → List ℕ → Option Move
three b [] = none
three b (b1 ∷ r) = if is_trail b1 then three_last b b1 r else some reject

-- Of four bytes.
four_last : ℕ → ℕ → List ℕ → Option Move
four_last b b1 [] = none
four_last b b1 (b3 ∷ r) =
    some
      (if not (is_trail b3) || ltb 0xf4 b || (b == 0xf4 && ltb 0x8f b1) then reject else advance 4)

four_third : ℕ → ℕ → List ℕ → Option Move
four_third b b1 [] = none
four_third b b1 (b2 ∷ r) = if is_trail b2 then four_last b b1 r else some reject

four : ℕ → List ℕ → Option Move
four b [] = none
four b (b1 ∷ r) = if is_trail b1 then four_third b b1 r else some reject

-- The chain of branches for `*ptr`, by `max_bytes` and `bytes_left`.
unfoldable pub move : ℕ → ℕ → List ℕ → Option Move
unfolding two three three_last four four_third four_last is_trail
move max_bytes left [] = none
move max_bytes left (b ∷ r) =
    if bit_and b 0x80 == 0x00
    then some (if b == 0 && max_bytes == 0 then accept else advance 1)
    else if bit_and b 0xe0 == 0xc0
    then (if max_bytes == 0 || leb 2 left then two b r else some reject)
    else if bit_and b 0xf0 == 0xe0
    then (if max_bytes == 0 || leb 3 left then three b r else some reject)
    else if bit_and b 0xf8 == 0xf0
    then (if max_bytes == 0 || leb 4 left then four b r else some reject)
    else some reject

-- The arguments that stay the same: the number of characters wanted (`num_valid_characters` at the
-- call), `max_bytes` and `max_char_2_valid`; 0 stands for no limit.
pub record Limits : Type 0 where
  pub wanted : ℕ
  pub max_bytes : ℕ
  pub max_chars : ℕ

-- The result with `num_valid_characters` and `truncate_pos_index`.
pub record Checked : Type 0 where
  pub valid : Bool
  pub characters : ℕ
  pub position : ℕ

-- The test for `done` behind a character, on the bytes left and the characters so far. `bytes_left`
-- is 0 from the start where there is no limit on bytes.
unfoldable pub is_done : Limits → ℕ → ℕ → Bool
is_done l left total =
    (not (l.max_bytes == 0) && left == 0)
    || (not (l.wanted == 0) && total == l.wanted)
    || (l.wanted == 0 && not (l.max_chars == 0) && total == l.max_chars)

-- The loop, with fuel, over the cells from `ptr` on.
unfoldable pub check_loop : ℕ → Limits → ℕ → ℕ → ℕ → List ℕ → Option Checked
check_loop zero l left total pos cells = none
check_loop (suc f) l left total pos cells = elim (move l.max_bytes left cells) [
  | none ↦ none
  | some m ↦ elim m [
    | accept ↦ some (record { valid = true; characters = total; position = pos })
    | reject ↦ some (record { valid = false; characters = total; position = pos })
    | advance k ↦ elim (is_done l (left - k) (total + 1)) [
      | true ↦ some (record { valid = true; characters = total + 1; position = pos + k })
      | false ↦ check_loop f l (left - k) (total + 1) (pos + k) (drop k cells)
    ]
  ]
]

-- oscl_str_is_valid_and_truncate_utf8, with fuel.
unfoldable pub is_valid_and_truncate_utf8 : ℕ → List ℕ → Limits → Option Checked
is_valid_and_truncate_utf8 fuel cells l = check_loop fuel l l.max_bytes 0 0 cells

-- oscl_str_is_valid_utf8; the position is `*num_byte_4_char`.
unfoldable pub is_valid_utf8 : ℕ → List ℕ → ℕ → ℕ → Option Checked
is_valid_utf8 fuel cells max_bytes max_chars =
    is_valid_and_truncate_utf8 fuel cells
      (record { wanted = 0; max_bytes = max_bytes; max_chars = max_chars })

-- A write of one cell; behind the buffer it is a fault.
pub store : List ℕ → ℕ → ℕ → Option (List ℕ)
store [] i v = none
store (x ∷ xs) zero v = some (v ∷ xs)
store (x ∷ xs) (suc i) v = do ys ← store xs i v; some (x ∷ ys)

-- oscl_str_truncate_utf8: the number of characters, and the buffer behind the call.
unfoldable pub truncate_utf8 : ℕ → List ℕ → ℕ → ℕ → Option (ℕ × List ℕ)
truncate_utf8 fuel cells max_chars max_bytes = do
  c ←
      is_valid_and_truncate_utf8 fuel cells
        (record { wanted = max_chars; max_bytes = max_bytes; max_chars = 0 })
  cut ←
      if max_bytes == 0 || leb c.position (max_bytes - 1)
      then store cells c.position 0
      else some cells
  some (c.characters, cut)
