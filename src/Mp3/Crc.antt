-- ===== src/Mp3/Crc.antt =====
-- listener/src/main/jni/pvmi/mp3parser.cpp: CalcCRC16 and mp3VerifyCRC. A buffer that is not deleted
-- on an early return is memory only, and not modelled.
use foodie_note.Mp3.File.{
  PvFile, Error, success, insufficient_data, error_unknown, crc_err, seek_cur_pos,
}
use foodie_note.Mp3.Header.{HeaderInfo, ConfigInfo}
use foodie_note.Mp3.State.{Call, pure, gets, ◌>>=◌, ◌>>◌, seek, read_bytes}
use foodie_note.Prelude.Int.{pos, neg}
use foodie_note.Prelude.{
  ℕ, zero, suc, ◌+◌, ◌-◌, ◌*◌, ◌/◌, ◌%◌, ◌^◌, Bool, true, false, not, ◌||◌, Option, none, some,
  List, ◌==◌, ltb, leb, if◌then◌else◌, get_or, bit_and, bit_xor,
}

-- The variables of the loop.
pub record Crc : Type 0 where
  pub tmpchar : ℕ
  pub crcmask : ℕ
  pub crc : ℕ

-- `!tmpi ^ !(tmpchar & crcmask)`.
abbrev pub differ : Bool → Bool → Bool
differ true b = not b
differ false b = b

-- The register of 16 bits, shifted by one bit of data.
unfoldable pub shift_in : ℕ → ℕ → ℕ → ℕ
shift_in crc char mask =
    let shifted = crc * 2 % 2 ^ 16 in
    if differ (bit_and crc 0x8000 == 0) (bit_and char mask == 0)
    then bit_xor shifted 0x8005
    else shifted

unfoldable pub next_bit : ℕ → ℕ → ℕ → Crc
unfolding shift_in
next_bit char mask crc = record { tmpchar = char; crcmask = mask; crc = shift_in crc char mask }

-- The body of the loop at bit `n`, which passes over the two bytes of the check itself.
unfoldable pub crc_round : List ℕ → ℕ → Crc → Crc
unfolding next_bit
crc_round buffer n c =
    if ltb n 32 || leb 48 n
    then next_bit (if n % 8 == 0 then get_or buffer (n / 8) 0 else c.tmpchar)
        ((if n % 8 == 0 then 2 ^ 8 else c.crcmask) / 2) c.crc
    else c

unfoldable pub crc_loop : List ℕ → ℕ → ℕ → Crc → Crc
unfolding crc_round
crc_loop buffer zero n c = c
crc_loop buffer (suc k) n c = crc_loop buffer k (n + 1) (crc_round buffer n c)

-- CalcCRC16 on a buffer that has the bits.
unfoldable pub calc_crc16 : List ℕ → ℕ → ℕ
unfolding crc_loop
calc_crc16 buffer bits =
    (crc_loop buffer (bits - 16) 16 (record { tmpchar = 0; crcmask = 0; crc = 0xffff })).crc

-- The number of bits that are protected, by layer; `none` where there is nothing to check.
unfoldable pub protected_bits : HeaderInfo → ConfigInfo → Option ℕ
protected_bits h c =
    let bound = (if h.ch_mode == 1 then 4 + h.mode_extn * 4 else 32) in
    if h.layer_id == 3
    then some (4 * (c.number_of_channels * bound + (32 - bound)))
    else if h.layer_id == 1
    then some (
        if h.frame_ver == 3
        then (if h.ch_mode == 3 then 17 * 8 else 32 * 8)
        else (if h.ch_mode == 3 then 9 * 8 else 17 * 8))
    else none

unfoldable pub number_of_bytes : ℕ → ℕ
number_of_bytes bits = if bits % 8 == 0 then bits / 8 else bits / 8 + 1

-- SwapFileToHostByteOrderInt16 on the two bytes of the check.
unfoldable pub crc_value : List ℕ → ℕ
crc_value crc_data = get_or crc_data 1 0 + 2 ^ 8 * get_or crc_data 0 0

module _ (f : PvFile) where
  open f use {State, remaining}

  -- A result behind a seek back over `back` bytes, whose own result is not looked at.
  unfoldable pub back_with : ℕ → Error → Call State Error
  unfolding seek
  back_with back e = seek f (neg back) seek_cur_pos >> pure e

  -- The comparison, behind a seek back over all that was read.
  unfoldable pub compare_crc : ℕ → ℕ → Option (List ℕ) → Call State Error
  unfolding back_with crc_value
  compare_crc back calculated none = back_with back insufficient_data
  compare_crc back calculated (some crc_data) = do
    sought ← seek f (neg (back + 2)) seek_cur_pos
    pure (elim sought [
      | success ↦ if calculated == crc_value crc_data then success else crc_err
      | e ↦ e
    ])

  -- The bytes that are compared with, four behind what was read.
  unfoldable pub read_crc : ℕ → ℕ → Option ℕ → Call State Error
  unfolding back_with compare_crc read_bytes
  read_crc bytes calculated none = back_with bytes error_unknown
  read_crc bytes calculated (some left) =
      if leb 4 left
      then (do
        seek f (pos 4) seek_cur_pos
        crc_data ← read_bytes f 2
        compare_crc (bytes + 4) calculated crc_data)
      else back_with bytes insufficient_data

  unfoldable pub check_bits : ℕ → Option (List ℕ) → Call State Error
  unfolding read_crc number_of_bytes
  check_bits bits none = pure insufficient_data
  check_bits bits (some buffer) = do
    left ← gets (λ p. remaining p.input)
    read_crc (number_of_bytes bits) (calc_crc16 buffer bits) left

  unfoldable pub check_protected : Option ℕ → Call State Error
  unfolding check_bits read_bytes number_of_bytes
  check_protected none = pure success
  check_protected (some data_bits) =
      let bits = data_bits + 48 in read_bytes f (number_of_bytes bits) >>= check_bits bits

  -- mp3VerifyCRC.
  unfoldable pub verify_crc : HeaderInfo → ConfigInfo → Call State Error
  unfolding protected_bits check_protected
  verify_crc h c p =
      (if not p.enable_crc_calc || not (h.crc_follows == 0)
          then pure success
          else check_protected (protected_bits h c))
        p
