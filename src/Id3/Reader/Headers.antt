-- ===== src/Id3/Reader/Headers.antt =====
-- listener/src/main/jni/pvmi/pv_id3_parcom.cpp: the header of an ID3v2 frame. ReadFrameHeaderID3V2,
-- ReadFrameHeaderID3V2_2, ValidateFrameLengthV2_4 and ValidateFrameV2_4. A file position fits into
-- 31 bits.
use foodie_note.Id3.FrameIds.{frame_supported}
use foodie_note.Id3.KvpKey.{FrameType, frame_invalid, candidate, eend, Version, v2_2, v2_4}
use foodie_note.Id3.Reader.Input.{InputFile}
use foodie_note.Id3.Reader.State.{
  Action, pure, leave, gets, modify, ◌>>=◌, ◌>>◌, read_some, read_byte_data, read_word, seek_to,
  or_zero, returned,
}
use foodie_note.Id3.SyncSafe.{safe_synch_int_to_int32}
use foodie_note.Prelude.{
  ℕ, ◌+◌, ◌-◌, ◌%◌, ◌^◌, Bool, true, false, not, ◌&&◌, ◌||◌, Option, none, some, List, [], ◌∷◌,
  ◌++◌, ◌==◌, ltb, if◌then◌else◌, length, drop, get_or, bit_and,
}

-- Bytes that are written over the front of an array.
unfoldable pub overwrite : List ℕ → List ℕ → List ℕ
overwrite old bs = bs ++ drop (length bs) old

unfoldable pub is_eend : FrameType → Bool
is_eend eend = true
is_eend _ = false

unfoldable pub is_invalid : FrameType → Bool
is_invalid frame_invalid = true
is_invalid _ = false

unfoldable pub is_candidate : FrameType → Bool
is_candidate candidate = true
is_candidate _ = false

unfoldable pub is_v2_2 : Version → Bool
is_v2_2 v2_2 = true
is_v2_2 _ = false

unfoldable pub is_v2_4 : Version → Bool
is_v2_4 v2_4 = true
is_v2_4 _ = false

-- FrameSupportedID3V2 on the members.
unfoldable pub supported : {S : Type 0} → Version → Option (List ℕ) → Action S FrameType
supported v given p =
    let r = frame_supported v p.frame_id given p.found in (returned r.0, record p { found = r.1 })

-- The outcome of the validation with each size: the choice of the actual length.
unfoldable pub choose_length : ℕ → Bool × FrameType → Bool × FrameType → ℕ
unfolding is_candidate
choose_length size (sync_valid, sync_type) (raw_valid, raw_type) =
    if sync_valid && not (is_candidate sync_type)
    then safe_synch_int_to_int32 size
    else if raw_valid && not (is_candidate raw_type)
    then size
    else if not sync_valid && raw_valid
    then size
    else safe_synch_int_to_int32 size

-- The verification of a size and of the two bytes of flags.
unfoldable pub is_valid_size : ℕ → ℕ → List ℕ → Bool
is_valid_size tag_size size flags =
    not (size == 0 || ltb tag_size ((size + 10) % 2 ^ 32))
    && bit_and (get_or flags 0 0) 31 == 0
    && bit_and (get_or flags 1 0) 31 == 0

module _ (f : InputFile) where
  open f use {State, tell}

  -- A Seek from the current position by a signed number of 32 bits.
  unfoldable pub seek_by : ℕ → Action State Bool
  unfolding seek_to
  seek_by n = do
    here ← gets (λ p. tell p.input)
    if ltb n (2 ^ 31)
        then seek_to f (here + n)
        else if ltb (here + n) (2 ^ 32)
        then pure false
        else seek_to f (here + n - 2 ^ 32)

  unfoldable pub validate_size : FrameType → ℕ → Action State (Bool × FrameType)
  unfolding read_byte_data is_valid_size
  validate_size t size = do
    flags ← read_byte_data f 2
    elim flags [
      | none ↦ pure (false, t)
      | some bs ↦ gets (λ p. (is_valid_size p.tag_size size bs, t))
    ]

  -- ValidateFrameV2_4: the result and the type.
  unfoldable pub validate_frame_v2_4 : Bool → Action State (Bool × FrameType)
  unfolding read_byte_data read_word supported is_eend is_invalid validate_size
  validate_frame_v2_4 sync_safe = do
    id ← read_byte_data f 4
    elim id [
      | none ↦ pure (false, frame_invalid)
      | some bs ↦ do
        t ← supported v2_4 (some (bs ++ 0 ∷ []))
        if is_invalid t || is_eend t then pure (false, t) else (do
          size ← read_word f 32 4
          elim size [
            | none ↦ pure (false, t)
            | some n ↦ validate_size t (if sync_safe then safe_synch_int_to_int32 n else n)
          ])
    ]

  -- The length without the last seek: first by the syncsafe size, then by the plain one.
  unfoldable pub actual_length : ℕ → ℕ → Action State ℕ
  unfolding seek_to seek_by validate_frame_v2_4 choose_length
  actual_length here size = do
    sought ← seek_by (safe_synch_int_to_int32 size)
    if not sought then pure (safe_synch_int_to_int32 size) else (do
      by_sync ← validate_frame_v2_4 true
      tag_size ← gets (λ p. p.tag_size)
      if ltb tag_size ((size + 10) % 2 ^ 32) then pure (safe_synch_int_to_int32 size) else (do
        back ← seek_to f here
        if not back then leave else (do
          moved ← seek_by size
          if not moved then pure (safe_synch_int_to_int32 size) else (do
            by_raw ← validate_frame_v2_4 false
            pure (choose_length size by_sync by_raw)))))

  -- ValidateFrameLengthV2_4.
  unfoldable pub validate_frame_length_v2_4 : ℕ → Action State ℕ
  unfolding seek_to actual_length
  validate_frame_length_v2_4 size = do
    here ← gets (λ p. tell p.input)
    len ← actual_length here size
    back ← seek_to f here
    if back then pure len else leave

  -- The identifier of `n` bytes, with a terminator, and whether it is read.
  unfoldable pub read_frame_id : ℕ → Action State Bool
  unfolding read_some overwrite
  read_frame_id n = do
    bs ← read_some f n
    if ltb (length bs) n
        then modify (λ p. record p { frame_id = overwrite p.frame_id bs }) >> pure false
        else modify (λ p. record p { frame_id = overwrite p.frame_id (bs ++ 0 ∷ []) }) >> pure true

  -- The size by the number of its bytes, and whether it is read.
  unfoldable pub read_frame_size : ℕ → Action State Bool
  unfolding read_word
  read_frame_size n = do
    size ← read_word f 32 n
    modify (λ p. record p { frame_size = or_zero size })
    pure (elim size [ none ↦ false | some x ↦ true ])

  unfoldable pub read_frame_flag : Action State Bool
  unfolding read_some overwrite
  read_frame_flag = do
    bs ← read_some f 2
    modify (λ p. record p { frame_flag = overwrite p.frame_flag bs })
    pure (not (ltb (length bs) 2))

  -- The last step for ID3v2.4.
  unfoldable pub settle_size : Version → ℕ → Action State (Unit {0})
  unfolding validate_frame_length_v2_4 is_v2_4
  settle_size v size =
      if is_v2_4 v && ltb 127 size
      then (do len ← validate_frame_length_v2_4 size; modify (λ p. record p { frame_size = len }))
      else pure tt

  -- ReadFrameHeaderID3V2_2, and ReadFrameHeaderID3V2.
  unfoldable pub read_frame_header_v2_2 : Action State (Unit {0})
  unfolding read_frame_id read_frame_size
  read_frame_header_v2_2 = do
    named ← read_frame_id 3
    if named then read_frame_size 3 >> pure tt else pure tt

  unfoldable pub read_frame_header : Version → Action State (Unit {0})
  unfolding read_frame_id read_frame_size read_frame_flag settle_size read_frame_header_v2_2 is_v2_2
  read_frame_header v = if is_v2_2 v then read_frame_header_v2_2 else (do
    named ← read_frame_id 4
    if not named then pure tt else (do
      sized ← read_frame_size 4
      if not sized then pure tt else (do
        flagged ← read_frame_flag
        size ← gets (λ p. p.frame_size)
        if flagged then settle_size v size else pure tt)))
