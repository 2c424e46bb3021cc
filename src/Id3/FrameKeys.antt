-- ===== src/Id3/FrameKeys.antt =====
-- The parser gets a key for every frame that it goes on to read.
use foodie_note.Id3.FrameIds.{
  match_entry, frame_validated, is_known, is_potential_frame_id, frame_supported,
  frame_supported_version, frame_supported_v2_2, frame_supported_v2_3, looked_at,
}
use foodie_note.Id3.FrameTables.{Found, Entry, entry, frame_table, frame_table_v2_2, known_ids}
use foodie_note.Id3.KeyedTypes.{HasKey, IsPassed, construct_kvp_key-succeeds}
use foodie_note.Id3.KvpKey.{
  Version, invalid_version, v1, v1_1, v2_2, v2_3, v2_4, CharacterSet, charset_type,
  construct_kvp_key, FrameType, frame_invalid, candidate, unrecognized, eend,
}
use foodie_note.Prelude.Text.{starts_with}
use foodie_note.Prelude.{
  ℕ, ◌≡◌, ◌⊎◌, Bool, true, false, Option, List, [], ◌∷◌, All, if◌then◌else◌, Bool-cases, inl, inr,
  get_or, ◌==◌,
}

abbrev IsRead : FrameType → Type 0
IsRead t = HasKey t ⊎ IsPassed t

abbrev EntryIsRead : Entry → Type 0
EntryIsRead (entry key type flag) = IsRead type

match_entry-IsRead :
    (entries : List Entry) (id : List ℕ) (found : Found) (other : FrameType × Found)
    → All EntryIsRead entries
    → IsRead other.0
    → IsRead (match_entry entries id found other).0
unfolding match_entry
match_entry-IsRead [] id found other h last = last
match_entry-IsRead (entry key type flag ∷ entries) id found other (e, h) last =
    elim (Bool-cases (starts_with id key)) [
      | inl m ↦ rw m e
      | inr m ↦ rw m (match_entry-IsRead entries id found other h last)
    ]

frame_table-IsRead : All EntryIsRead frame_table
unfolding frame_table
frame_table-IsRead = (
  inl tt,
  (
    inl tt,
    (
      inl tt,
      (
        inl tt,
        (
          inl tt,
          (
            inl tt,
            (
              inl tt,
              (
                inl tt,
                (
                  inl tt,
                  (
                    inl tt,
                    (
                      inl tt,
                      (
                        inl tt,
                        (inl tt, (inl tt, (inr tt, (inl tt, (inl tt, (inl tt, (inl tt, tt))))))),
                      ),
                    ),
                  ),
                ),
              ),
            ),
          ),
        ),
      ),
    ),
  ),
)

frame_table_v2_2-IsRead : All EntryIsRead frame_table_v2_2
unfolding frame_table_v2_2
frame_table_v2_2-IsRead = (
  inl tt,
  (
    inl tt,
    (
      inl tt,
      (
        inl tt,
        (
          inl tt,
          (
            inl tt,
            (
              inl tt,
              (
                inl tt,
                (
                  inl tt,
                  (
                    inl tt,
                    (inl tt, (inl tt, (inl tt, (inl tt, (inl tt, (inl tt, (inl tt, tt))))))),
                  ),
                ),
              ),
            ),
          ),
        ),
      ),
    ),
  ),
)

choose_IsRead : (b : Bool) (t u : FrameType) → IsRead t → IsRead u → IsRead (if b then t else u)
choose_IsRead true t u p q = p
choose_IsRead false t u p q = q

frame_validated-IsRead : (id : List ℕ) → IsRead (frame_validated id)
unfolding frame_validated
frame_validated-IsRead id =
    choose_IsRead (is_known id known_ids) unrecognized
      (if is_potential_frame_id id then candidate else frame_invalid) (inl tt)
      (choose_IsRead (is_potential_frame_id id) candidate frame_invalid (inl tt) (inr tt))

frame_supported_v2_2-IsRead :
    (own : List ℕ) (found : Found) → IsRead (frame_supported_v2_2 own found).0
unfolding frame_supported_v2_2
frame_supported_v2_2-IsRead own found =
    match_entry-IsRead frame_table_v2_2 own found _ frame_table_v2_2-IsRead
      (choose_IsRead (starts_with own (0 ∷ 0 ∷ 0 ∷ [])) eend unrecognized (inr tt) (inl tt))

frame_supported_v2_3-IsRead :
    (id : List ℕ) (found : Found) → IsRead (frame_supported_v2_3 id found).0
unfolding frame_supported_v2_3
frame_supported_v2_3-IsRead id found =
    match_entry-IsRead frame_table id found _ frame_table-IsRead (
      choose_IsRead (starts_with id (0 ∷ 0 ∷ 0 ∷ 0 ∷ [])) eend (frame_validated id) (inr tt)
        (frame_validated-IsRead id))

frame_supported_version-IsRead :
    (v : Version) (own id : List ℕ) (found : Found)
    → IsRead (frame_supported_version v own id found).0
unfolding frame_supported_version
frame_supported_version-IsRead invalid_version own id found = frame_supported_v2_3-IsRead id found
frame_supported_version-IsRead v1 own id found = frame_supported_v2_3-IsRead id found
frame_supported_version-IsRead v1_1 own id found = frame_supported_v2_3-IsRead id found
frame_supported_version-IsRead v2_2 own id found = frame_supported_v2_2-IsRead own found
frame_supported_version-IsRead v2_3 own id found = frame_supported_v2_3-IsRead id found
frame_supported_version-IsRead v2_4 own id found = frame_supported_v2_3-IsRead id found

frame_supported-IsRead :
    (v : Version) (own : List ℕ) (given : Option (List ℕ)) (found : Found)
    → IsRead (frame_supported v own given found).0
unfolding frame_supported
frame_supported-IsRead v own given found =
    elim (Bool-cases (get_or (looked_at own given) 0 0 == 0xff)) [
      | inl z ↦ rw z (inr tt)
      | inr z ↦ rw z (frame_supported_version-IsRead v own (looked_at own given) found)
    ]

-- For every version, identifier and known character set: ConstructKvpKey makes a key for the type
-- that FrameSupportedID3V2 returns, or that type is the end, a seek frame or an invalid frame.
pub frame_supported-construct_kvp_key :
    (v : Version) (own : List ℕ) (given : Option (List ℕ)) (found : Found) (lang : List ℕ)
    (c : CharacterSet)
    → (charset_type c).1 ≡ true
    → ((construct_kvp_key v own lang (frame_supported v own given found).0 c).1 ≡ true)
      ⊎ IsPassed (frame_supported v own given found).0
frame_supported-construct_kvp_key v own given found lang c known =
    elim (frame_supported-IsRead v own given found) [
      | inl keyed ↦ inl (construct_kvp_key-succeeds v own lang _ c known keyed)
      | inr passed ↦ inr passed
    ]
