-- ===== src/Id3/Reader/Tag.antt =====
-- listener/src/main/jni/pvmi/pv_id3_parcom.cpp: the ID3 tags of a file. ParseID3Tag with
-- CheckForTagID3V2, ReadHeaderID3V2 and ReadExtendedHeader, and
-- IsID3V2Present of a file. Tell succeeds, the file pointer is not NULL, a file is smaller than
-- 2 ^ 31 bytes.
use foodie_note.Id3.KvpKey.{Version, v1, v2_2, v2_3, v2_4}
use foodie_note.Id3.Reader.Footer.{look_for_v2_4_footer}
use foodie_note.Id3.Reader.Frames.{read_tag}
use foodie_note.Id3.Reader.Headers.{is_v2_2, is_v2_4, seek_by}
use foodie_note.Id3.Reader.Input.{InputFile}
use foodie_note.Id3.Reader.OldTag.{check_for_tag_id3v1, read_id3v1_tag}
use foodie_note.Id3.Reader.State.{
  Parser, Action, pure, leave, gets, modify, run_on, ◌>>=◌, ◌>>◌, read_byte_data, read_word,
  seek_to, or_zero,
}
use foodie_note.Id3.Reader.Values.{OtherReaders}
use foodie_note.Id3.SyncSafe.{safe_synch_int_to_int32}
use foodie_note.Prelude.Text.{codes, starts_with}
use foodie_note.Prelude.{
  ℕ, zero, suc, ◌+◌, ◌-◌, ◌%◌, ◌^◌, Bool, true, false, not, ◌||◌, Option, none, some, [], ◌==◌, ltb,
  if◌then◌else◌, bit_and,
}

unfoldable pub is_v2_3 : Version → Bool
is_v2_3 v2_3 = true
is_v2_3 _ = false

-- iVersion by the major version of the header, which another number leaves as it is.
unfoldable pub version_of : ℕ → Version → Version
version_of major v =
    if major == 2 then v2_2 else if major == 3 then v2_3 else if major == 4 then v2_4 else v

-- The size of the tag and the start of the audio frames.
unfoldable pub note_size : {S : Type 0} → ℕ → ℕ → Parser S → Parser S
note_size flags size p =
    let footer = if bit_and flags 16 == 0 then p.footer_present else true in
    let both = size + 10 + (if footer then 10 else 0) in
    record p {
      footer_present = footer;
      tag_size = size;
      byte_offset = if p.tag_at_bof then both else 0;
    }

module _ (f : InputFile) (others : OtherReaders f.State) where
  open f use {State, tell, remaining}

  -- CheckForTagID3V2.
  unfoldable pub check_for_tag_id3v2 : Action State Bool
  unfolding read_byte_data
  check_for_tag_id3v2 = do
    id ← read_byte_data f 3
    elim id [
      | none ↦ pure false
      | some bs ↦
          if starts_with bs (codes "ID3")
          then modify (λ p. record p { tag_at_bof = true; v2_present = true }) >> pure true
          else pure false
    ]

  unfoldable pub set_ext_size : (ℕ → ℕ) → Action State (Unit {0})
  set_ext_size change = modify (λ p. record p { ext_size = change p.ext_size % 2 ^ 32 })

  -- The flags of the extended header of ID3v2.4: a tag that is no update drops the frames of those
  -- before it.
  unfoldable pub read_ext_flags : Action State Bool
  unfolding read_word set_ext_size
  read_ext_flags = do
    flag_size ← read_word f 8 1
    elim flag_size [
      | none ↦ pure false
      | some n ↦ if ltb 1 n then pure false else (do
        flags ← read_word f 8 1
        elim flags [
          | none ↦ pure false
          | some x ↦ do
            modify (λ p. if bit_and x 64 == 0 then record p { frames = [] } else p)
            set_ext_size (λ n. n + 2 ^ 32 - 2)
            pure true
        ])
    ]

  -- ReadExtendedHeader.
  unfoldable pub read_extended_header : Action State Bool
  unfolding read_word set_ext_size read_ext_flags is_v2_3 is_v2_4
  read_extended_header = do
    size ← read_word f 32 4
    elim size [
      | none ↦ pure false
      | some x ↦ do
        set_ext_size (λ n. safe_synch_int_to_int32 x)
        v ← gets (λ p. p.version)
        if is_v2_4 v
            then set_ext_size (λ n. n + 2 ^ 32 - 4) >> read_ext_flags
            else if is_v2_3 v
            then set_ext_size (λ n. n + 6) >> pure true
            else pure true
    ]

  -- The extended header, if the flags announce one; compression of ID3v2.2 ends the parser.
  unfoldable pub read_extension : ℕ → Action State Bool
  unfolding read_extended_header is_v2_2
  read_extension flags = do
    v ← gets (λ p. p.version)
    if bit_and flags 64 == 0 then pure true else if is_v2_2 v then leave else read_extended_header

  -- From BEGIN_V2 to the reading of the frames.
  unfoldable pub begin_v2 : Action State Bool
  unfolding read_word read_extension note_size
  begin_v2 = do
    flags ← read_word f 8 1
    modify (λ p. record p { tag_flags = or_zero flags })
    elim flags [
      | none ↦ pure false
      | some x ↦ do
        size ← read_word f 32 4
        elim size [
          | none ↦ pure false
          | some n ↦ do
            extended ← read_extension x
            if not extended
                then pure false
                else (do modify (note_size x (safe_synch_int_to_int32 n)); pure true)
        ]
    ]

  -- The jump to the tag that a seek frame announces; whether a tag of ID3v2.4 is there.
  unfoldable pub jump : Action State Bool
  unfolding seek_to seek_by check_for_tag_id3v2 read_word
  jump = do
    p ← gets (λ p. p)
    sought ← seek_to f (p.tag_size + 10 + (if p.footer_present then 10 else 0))
    if not sought then pure false else (do
      moved ← seek_by f p.seek_offset
      if not moved then pure false else (do
        present ← check_for_tag_id3v2
        if not present then pure false else (do
          major ← read_word f 8 1
          elim major [
            | none ↦ pure false
            | some x ↦ do
              minor ← read_word f 8 1
              modify (λ q. record q {
                seek_frame_found =
                    if elim minor [ none ↦ false | some y ↦ x == 4 ]
                    then false
                    else q.seek_frame_found;
              })
              pure (elim minor [ none ↦ false | some y ↦ x == 4 ])
          ])))

  -- The tag and those that seek frames announce, with fuel `n` for these and `m` for the frames of a
  -- tag; `result` is the variable of that name.
  unfoldable pub read_tags : ℕ → ℕ → Bool → Action State Bool
  unfolding begin_v2 read_tag jump
  read_tags zero m result = run_on
  read_tags (suc n) m result = do
    begun ← begin_v2
    if not begun then pure false else (do
      v ← gets (λ p. p.version)
      count ← read_tag f others m v
      sought ← gets (λ p. p.seek_frame_found)
      if not sought then pure (result || ltb 0 count) else (do
        there ← jump
        if there then read_tags n m (result || ltb 0 count) else pure false))

  -- ReadHeaderID3V2; `reads` is aReadTags.
  unfoldable pub read_header_id3v2 : ℕ → ℕ → Bool → Action State Bool
  unfolding read_word version_of begin_v2 read_tags
  read_header_id3v2 n m reads = do
    major ← read_word f 8 1
    elim major [
      | none ↦ pure false
      | some x ↦ do
        minor ← read_word f 8 1
        elim minor [
          | none ↦ pure false
          | some y ↦ do
            modify (λ p. record p { version = version_of x p.version })
            if reads then read_tags n m false else begin_v2 >> pure false
        ]
    ]

  -- The end of ParseID3Tag: back to where the file was.
  unfoldable pub return_to : ℕ → Action State Bool
  unfolding seek_to
  return_to here = seek_to f here

  -- The size of the file, with the file back where it was; whether that succeeds.
  unfoldable pub measure : ℕ → Action State Bool
  unfolding seek_to
  measure here = do
    sought ← seek_to f 0
    if not sought
        then modify (λ p. record p { file_size = 0 }) >> pure true
        else (do modify (λ p. record p { file_size = remaining p.input }); seek_to f here)

  -- The tag of ID3v1, where there is one.
  unfoldable pub read_old_tag : Action State Bool
  unfolding check_for_tag_id3v1 read_id3v1_tag
  read_old_tag = do
    present ← check_for_tag_id3v1 f others
    if not present
        then pure false
        else (do modify (λ p. record p { version = v1 }); read_id3v1_tag f others; pure true)

  -- ParseID3Tag; `room` is buffsize. Whether it returns PVMFSuccess.
  unfoldable pub parse_id3_tag : ℕ → ℕ → ℕ → Action State Bool
  unfolding measure check_for_tag_id3v2 look_for_v2_4_footer read_header_id3v2 read_old_tag
      return_to
  parse_id3_tag n m room = do
    here ← gets (λ p. tell p.input)
    measured ← measure here
    if not measured then pure false else (do
      in_front ← check_for_tag_id3v2
      present ← if in_front then pure true else look_for_v2_4_footer f others room
      if present then (do read_header_id3v2 n m true; read_old_tag; return_to here) else (do
        old ← read_old_tag
        if not old
            then pure false
            else (do modify (λ p. record p { byte_offset = 0 }); return_to here)))

  -- IsID3V2Present of a file, with the size of the tag.
  unfoldable pub is_id3v2_present : ℕ → ℕ → Action State (Option ℕ)
  unfolding check_for_tag_id3v2 read_header_id3v2
  is_id3v2_present n m = do
    known ← gets (λ p. p.v2_present)
    present ← if known then pure false else check_for_tag_id3v2
    if known
        then gets (λ p. some p.byte_offset)
        else if present
        then (do read_header_id3v2 n m false; gets (λ p. some p.byte_offset))
        else pure none
