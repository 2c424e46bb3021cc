-- ===== src/Id3/SyncSafe.antt =====
-- listener/src/main/jni/pvmi/pv_id3_parcom.cpp: ConvertToSyncSafeInt and SafeSynchIntToInt32, the
-- integers of ID3v2 that keep the top bit of each byte clear.
use foodie_note.Prelude.Words.{bit_or_disjoint}
use foodie_note.Prelude.{ℕ, zero, suc, ◌+◌, ◌*◌, ◌%◌, ◌^◌, ◌<◌, ◌≡◌, ◌∙◌, arith, bit_or, field}

-- Each mask takes seven bits, which the shift moves up by 3, 2, 1 and 0.
unfoldable pub convert_to_sync_safe_int : ℕ → ℕ
convert_to_sync_safe_int src =
    bit_or
      (bit_or (bit_or (field src 21 7 * 2 ^ 24) (field src 14 7 * 2 ^ 16)) (field src 7 7 * 2 ^ 8))
      (field src 0 7)

-- The loop over the bytes of the integer from the lowest: `n` rounds are left, from byte `i` on.
unfoldable pub sync_safe_loop : ℕ → ℕ → ℕ → ℕ → ℕ
sync_safe_loop a zero i integer = integer
sync_safe_loop a (suc n) i integer =
    sync_safe_loop a n (i + 1) ((integer + field a (8 * i) 8 % 2 ^ 7 * 2 ^ (7 * i)) % 2 ^ 32)

unfoldable pub safe_synch_int_to_int32 : ℕ → ℕ
unfolding sync_safe_loop
safe_synch_int_to_int32 a = sync_safe_loop a 4 0 0

-- The value of four groups of seven bits.
groups : ℕ → ℕ
groups a = field a 0 7 + 2 ^ 7 * field a 8 7 + 2 ^ 14 * field a 16 7 + 2 ^ 21 * field a 24 7

safe_synch_int_to_int32-groups : (a : ℕ) → safe_synch_int_to_int32 a ≡ groups a
unfolding safe_synch_int_to_int32 groups
safe_synch_int_to_int32-groups a = omega arith

-- The composed integer is the sum of its groups.
convert_to_sync_safe_int-sum :
    (x : ℕ)
    → convert_to_sync_safe_int x
      ≡ field x 21 7 * 2 ^ 24 + field x 14 7 * 2 ^ 16 + field x 7 7 * 2 ^ 8 + field x 0 7
unfolding convert_to_sync_safe_int
convert_to_sync_safe_int-sum x =
    let upper : bit_or (field x 21 7 * 2 ^ 24) (field x 14 7 * 2 ^ 16)
        ≡ (field x 21 7 * 2 ^ 8 + field x 14 7) * 2 ^ 16 =
      bit_or_disjoint 24 (field x 21 7) (field x 14 7 * 2 ^ 16) (omega arith) ∙ omega arith in
    let middle : bit_or ((field x 21 7 * 2 ^ 8 + field x 14 7) * 2 ^ 16) (field x 7 7 * 2 ^ 8)
        ≡ (field x 21 7 * 2 ^ 16 + field x 14 7 * 2 ^ 8 + field x 7 7) * 2 ^ 8 =
      bit_or_disjoint 16 (field x 21 7 * 2 ^ 8 + field x 14 7) (field x 7 7 * 2 ^ 8) (omega arith)
      ∙ omega arith in
    rw (upper, middle)
      (bit_or_disjoint 8 (field x 21 7 * 2 ^ 16 + field x 14 7 * 2 ^ 8 + field x 7 7) (field x 0 7)
          (omega arith)
        ∙ omega arith)

groups-convert : (x : ℕ) → groups (convert_to_sync_safe_int x) ≡ x % 2 ^ 28
unfolding groups
groups-convert x = rw (convert_to_sync_safe_int-sum x) (omega arith)

-- Composing a size and reading it back keeps its low 28 bits.
pub safe_synch_int_to_int32-convert_to_sync_safe_int :
    (x : ℕ) → safe_synch_int_to_int32 (convert_to_sync_safe_int x) ≡ x % 2 ^ 28
safe_synch_int_to_int32-convert_to_sync_safe_int x =
    safe_synch_int_to_int32-groups (convert_to_sync_safe_int x) ∙ groups-convert x

-- An integer below 2 ^ 32 whose four bytes are below 128.
abbrev pub IsSyncSafe : ℕ → Type 0
IsSyncSafe a =
    (a < 2 ^ 32)
    × (field a 0 8 < 128)
    × (field a 8 8 < 128)
    × (field a 16 8 < 128)
    × (field a 24 8 < 128)

-- What is composed is sync-safe: no byte of it has its top bit set, for every size.
pub convert_to_sync_safe_int-IsSyncSafe : (x : ℕ) → IsSyncSafe (convert_to_sync_safe_int x)
convert_to_sync_safe_int-IsSyncSafe x = rw (convert_to_sync_safe_int-sum x) (omega arith)

-- A sync-safe integer that is read and composed again is unchanged.
convert_to_sync_safe_int-safe_synch_int_to_int32 :
    (a : ℕ) → IsSyncSafe a → convert_to_sync_safe_int (safe_synch_int_to_int32 a) ≡ a
convert_to_sync_safe_int-safe_synch_int_to_int32 a h =
    rw (safe_synch_int_to_int32-groups a, convert_to_sync_safe_int-sum (groups a))
      (unfold groups in omega arith)
