-- ===== src/Mp3/Sync.antt =====
-- listener/src/main/jni/pvmi/mp3parser.cpp: mp3FindSync, which looks for the first frame that is
-- followed by three more. pSyncBuffer is the last byte of the block before, 0 at first, and a block
-- of 627 bytes.
use foodie_note.Mp3.File.{
  PvFile, Error, success, insufficient_data, end_of_file, error_unknown_object, seek_cur_pos,
  get_current_file_size,
}
use foodie_note.Mp3.Frame.{header_word, is_valid_frame_header}
use foodie_note.Mp3.State.{
  Mp3Parser, Call, went, pure, end_with, run_on, modify, ◌>>=◌, ◌>>◌, seek, read_bytes,
}
use foodie_note.Prelude.Int.{sub_ℕ}
use foodie_note.Prelude.{
  ℕ, zero, suc, ◌+◌, ◌-◌, ◌%◌, ◌^◌, min, Bool, true, false, not, ◌&&◌, ◌||◌, Option, none, some,
  List, ◌∷◌, ◌==◌, ltb, leb, if◌then◌else◌, get_or, drop, length, bit_and,
}

abbrev pub max_sync_buffer_size : ℕ
max_sync_buffer_size = 627

-- A sync marker, of MPEG 1 and 2 or of MPEG 2.5.
unfoldable pub is_marker : ℕ → ℕ → Bool
is_marker b c = b == 0xff && (bit_and c 0xf0 == 0xf0 || bit_and c 0xf0 == 0xe0)

module _ (f : PvFile) where
  open f use {State, tell, remaining, buffering_capacity, content_length}

  -- IsValidFrame on the four bytes at an index of the buffer.
  unfoldable pub is_valid_frame : List ℕ → Call State Error
  is_valid_frame bs p =
      let r = is_valid_frame_header f (header_word bs) p.input in
      (went r.0, record p { input = r.1 })

  -- What is done with the verdict on a marker at index `i` of the block `j`: whether it is found.
  unfoldable pub behind_marker : ℕ → ℕ → Error → Call State Bool
  unfolding seek
  behind_marker j i success = seek f (sub_ℕ 1 (j + i)) seek_cur_pos >> pure true
  behind_marker j i insufficient_data = end_with insufficient_data
  behind_marker j i _ = seek f (sub_ℕ (max_sync_buffer_size + 1) i) seek_cur_pos >> pure false

  -- A marker at index `i` of the block `j`, with the rest of the buffer from there on.
  unfoldable pub check_marker : ℕ → ℕ → List ℕ → Call State Bool
  unfolding seek is_valid_frame behind_marker
  check_marker j i bs = do
    seek f (sub_ℕ i (max_sync_buffer_size + 1)) seek_cur_pos
    verdict ← is_valid_frame bs
    behind_marker j i verdict

  -- The body of the loop over a block.
  unfoldable pub look_at : ℕ → ℕ → List ℕ → Call State Bool
  unfolding is_marker check_marker
  look_at j i bs =
      if is_marker (get_or bs 0 0) (get_or bs 1 0) then check_marker j i bs else pure false

  -- The loop over a block, with `k` indices left: the index of a frame.
  unfoldable pub search_block : ℕ → ℕ → ℕ → List ℕ → Call State (Option ℕ)
  unfolding look_at
  search_block j zero i bs = pure none
  search_block j (suc k) i bs = do
    found ← look_at j i bs
    if found then pure (some i) else search_block j k (i + 1) (drop 1 bs)

  -- Behind a block: the offset of a frame, `j + i - 1`, or the next block by its byte before.
  unfoldable pub behind_search : ℕ → Call State (Option ℕ) → Option ℕ → Call State (Option ℕ)
  behind_search j next (some i) = pure (some (j + i - 1))
  behind_search j next none = next

  -- A block that is read; three bytes or fewer end the loop by `break`.
  unfoldable pub search_in :
      ℕ → ℕ → (ℕ → Call State (Option ℕ)) → Option (List ℕ) → Call State (Option ℕ)
  unfolding search_block behind_search
  search_in j before next none = end_with error_unknown_object
  search_in j before next (some bs) =
      if ltb 3 (length bs)
      then search_block j (length bs - 3) 0 (before ∷ bs)
        >>= behind_search j (next (get_or bs (max_sync_buffer_size - 1) 0))
      else pure none

  -- The loop over the blocks up to `limit`, with fuel.
  unfoldable pub search_blocks : ℕ → ℕ → ℕ → ℕ → Call State (Option ℕ)
  unfolding read_bytes search_in
  search_blocks zero limit j before = run_on
  search_blocks (suc m) limit j before =
      let next = search_blocks m limit (j + max_sync_buffer_size) in
      if ltb j limit
      then read_bytes f max_sync_buffer_size >>= search_in j before next
      else pure none

  -- The size of a file that is being loaded, and whether it is known.
  unfoldable pub current_size : Mp3Parser State → ℕ × Bool
  current_size p =
      if ltb 0 (buffering_capacity p.input)
      then (
        get_current_file_size f p.input,
        elim (remaining p.input) [ none ↦ false | some r ↦ true ],
      )
      else (p.local_file_size, p.local_file_size_set)

  unfoldable pub note_current_size : Call State (Unit {0})
  unfolding current_size
  note_current_size = modify (λ p. record p {
    local_file_size = (current_size p).0;
    local_file_size_set = (current_size p).1;
  })

  -- The ends of the file that is known of.
  unfoldable pub is_behind_content : ℕ → Mp3Parser State → Bool
  is_behind_content seek_point p =
      not (content_length p.input == 0)
      && leb (content_length p.input) ((seek_point + max_sync_buffer_size) % 2 ^ 32)

  unfoldable pub is_behind_file : ℕ → Mp3Parser State → Bool
  is_behind_file seek_point p =
      not (p.local_file_size == 0)
      && ltb p.local_file_size ((seek_point + max_sync_buffer_size) % 2 ^ 32)

  -- maxSearchOffset.
  unfoldable pub max_search_offset : Mp3Parser State → ℕ
  max_search_offset p =
      if p.local_file_size_set
      then min p.init_search_file_size ((p.local_file_size + 2 ^ 32 - tell p.input) % 2 ^ 32)
      else elim (remaining p.input) [ none ↦ 0 | some r ↦ min p.init_search_file_size r ]

  -- The member behind a frame that is found.
  unfoldable pub search_size : Mp3Parser State → ℕ
  search_size p = if p.local_file_size_set then p.local_file_size else elim (remaining p.input) [
    | none ↦ p.init_search_file_size
    | some r ↦ min p.init_search_file_size r
  ]

  unfoldable pub note_search_size : Call State (Unit {0})
  unfolding search_size
  note_search_size = modify (λ p. record p { init_search_file_size = search_size p })

  unfoldable pub behind_blocks : Option ℕ → Call State ℕ
  unfolding note_search_size
  behind_blocks none = end_with end_of_file
  behind_blocks (some n) = note_search_size >> pure n

  -- mp3FindSync with fuel for the blocks: syncOffset, where it returns MP3_SUCCESS.
  unfoldable pub find_sync : ℕ → ℕ → Call State ℕ
  unfolding note_current_size is_behind_content is_behind_file max_search_offset search_blocks
      behind_blocks
  find_sync m seek_point = do
    note_current_size
    λ p.
        (if is_behind_content seek_point p
            then end_with end_of_file
            else if is_behind_file seek_point p
            then end_with insufficient_data
            else search_blocks m (max_search_offset p) 0 0 >>= behind_blocks)
          p
