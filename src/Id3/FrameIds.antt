-- ===== src/Id3/FrameIds.antt =====
-- listener/src/main/jni/pvmi/pv_id3_parcom.cpp: FrameSupportedID3V2, FrameSupportedID3V2_2 and
-- FrameValidatedID3V2_4, which recognise a frame by its identifier and note that it was found. An
-- identifier is the bytes from its pointer on, at least as many as are compared.
use foodie_note.Id3.KvpKey.{Version, v2_2, FrameType, frame_invalid, candidate, unrecognized, eend}
use foodie_note.Id3.FrameTables.{
  Found, mark, Entry, entry, frame_table, frame_table_v2_2, known_ids,
}
use foodie_note.Prelude.Text.{starts_with}
use foodie_note.Prelude.{
  ℕ, Bool, false, ◌&&◌, ◌||◌, Option, none, some, List, [], ◌∷◌, leb, ◌==◌, if◌then◌else◌, get_or,
}

-- The first entry that the identifier matches; `other` is what the end of the chain does.
unfoldable pub match_entry : List Entry → List ℕ → Found → FrameType × Found → FrameType × Found
match_entry [] id found other = other
match_entry (entry key type flag ∷ entries) id found other =
    let rest = match_entry entries id found other in
    if starts_with id key then (type, mark flag found) else rest

unfoldable pub is_known : List ℕ → List (List ℕ) → Bool
is_known id [] = false
is_known id (key ∷ keys) = let rest = is_known id keys in starts_with id key || rest

-- IS_VALID_FRAME_ID_CHAR and IS_POTENTIAL_FRAME_ID.
unfoldable pub is_valid_frame_id_char : ℕ → Bool
is_valid_frame_id_char c = (leb b'A' c && leb c b'Z') || (leb b'0' c && leb c b'9')

unfoldable pub is_potential_frame_id : List ℕ → Bool
unfolding is_valid_frame_id_char
is_potential_frame_id id =
    is_valid_frame_id_char (get_or id 0 0)
    && is_valid_frame_id_char (get_or id 1 0)
    && is_valid_frame_id_char (get_or id 2 0)
    && is_valid_frame_id_char (get_or id 3 0)

-- FrameValidatedID3V2_4.
unfoldable pub frame_validated : List ℕ → FrameType
unfolding is_known is_potential_frame_id known_ids
frame_validated id =
    if is_known id known_ids
    then unrecognized
    else if is_potential_frame_id id
    then candidate
    else frame_invalid

-- FrameSupportedID3V2_2 on the member iID3V2FrameID.
unfoldable pub frame_supported_v2_2 : List ℕ → Found → FrameType × Found
unfolding match_entry frame_table_v2_2
frame_supported_v2_2 own found =
    match_entry frame_table_v2_2 own found
      (if starts_with own (0 ∷ 0 ∷ 0 ∷ []) then eend else unrecognized, found)

-- The branch of FrameSupportedID3V2 for ID3v2.3 and ID3v2.4.
unfoldable pub frame_supported_v2_3 : List ℕ → Found → FrameType × Found
unfolding match_entry frame_table frame_validated
frame_supported_v2_3 id found =
    match_entry frame_table id found
      (if starts_with id (0 ∷ 0 ∷ 0 ∷ 0 ∷ []) then eend else frame_validated id, found)

unfoldable pub frame_supported_version : Version → List ℕ → List ℕ → Found → FrameType × Found
unfolding frame_supported_v2_2 frame_supported_v2_3
frame_supported_version v2_2 own id found = frame_supported_v2_2 own found
frame_supported_version _ own id found = frame_supported_v2_3 id found

-- The identifier that is looked at: that behind the pointer, or the member where it is NULL.
abbrev pub looked_at : List ℕ → Option (List ℕ) → List ℕ
looked_at own none = own
looked_at own (some id) = id

-- FrameSupportedID3V2 by the member iID3V2FrameID and the pointer.
unfoldable pub frame_supported : Version → List ℕ → Option (List ℕ) → Found → FrameType × Found
unfolding frame_supported_version
frame_supported v own given found =
    if get_or (looked_at own given) 0 0 == 0xff
    then (eend, found)
    else frame_supported_version v own (looked_at own given) found
