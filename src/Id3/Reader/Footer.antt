-- ===== src/Id3/Reader/Footer.antt =====
-- listener/src/main/jni/pvmi/pv_id3_parcom.cpp: the search for a tag at the end of a file, by its
-- footer. LookForV2_4Footer and SearchTagV2_4, from the end of the file on (aFileOffset is 0). Memory
-- is there for the buffer.
use foodie_note.Id3.Reader.Headers.{seek_by}
use foodie_note.Id3.Reader.Input.{InputFile}
use foodie_note.Id3.Reader.State.{
  Action, pure, gets, overflow, ◌>>=◌, read_byte_data, read_word, seek_to,
}
use foodie_note.Id3.Reader.Values.{OtherReaders}
use foodie_note.Id3.SyncSafe.{safe_synch_int_to_int32}
use foodie_note.Prelude.Text.{codes, starts_with}
use foodie_note.Prelude.{
  ℕ, ◌+◌, ◌-◌, ◌^◌, Bool, false, not, none, some, List, [], ◌∷◌, ◌==◌, ltb, if◌then◌else◌,
}

-- The search for "3DI" in a buffer: at an offset, nowhere, or the comparison goes on beyond the end
-- of the bytes that were read.
pub data Search : Type 0 where
  found_at : ℕ → Search
  absent beyond : Search

unfoldable pub find_footer : ℕ → List ℕ → Search
find_footer i [] = absent
find_footer i (b ∷ bs) =
    let rest = find_footer (i + 1) bs in
    if starts_with (b ∷ bs) (codes "3DI")
    then found_at i
    else if starts_with (codes "3DI") (b ∷ bs)
    then beyond
    else rest

module _ (f : InputFile) (others : OtherReaders f.State) where
  open f use {State}

  -- The search of the `n` bytes from a position on; 0 where it fails.
  unfoldable pub search_from : ℕ → ℕ → Action State ℕ
  unfolding seek_to read_byte_data find_footer
  search_from pos n = do
    sought ← seek_to f pos
    if not sought then pure 0 else (do
      bytes_read ← read_byte_data f n
      elim bytes_read [
        | none ↦ pure 0
        | some bs ↦ elim (find_footer 0 bs) [
          | found_at i ↦ pure (pos + i)
          | absent ↦ pure 0
          | beyond ↦ overflow
        ]
      ])

  -- SearchTagV2_4, from the end of the file.
  unfoldable pub search_tag_v2_4 : ℕ → Action State ℕ
  unfolding search_from
  search_tag_v2_4 room = do
    size ← gets (λ p. p.file_size)
    if size == 0
        then pure 0
        else if ltb size room
        then search_from 0 size
        else search_from (size - room) room

  -- LookForV2_4Footer, with the file behind the identifier of the tag's header.
  unfoldable pub look_for_v2_4_footer : ℕ → Action State Bool
  unfolding search_tag_v2_4 seek_to read_word seek_by
  look_for_v2_4_footer room = do
    at_bof ← gets (λ p. p.tag_at_bof)
    if at_bof then pure false else (do
      footer ← search_tag_v2_4 room
      if footer == 0 then pure false else (do
        sought ← seek_to f (footer + 6)
        if not sought then pure false else (do
          size ← read_word f 32 4
          elim size [
            | none ↦ pure false
            | some x ↦ seek_by f (2 ^ 32 - (safe_synch_int_to_int32 x + 17))
          ])))
