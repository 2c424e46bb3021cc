-- ===== src/Mp3/Tables.antt =====
-- The constant tables of listener/src/main/jni/pvmi/mp3parser.cpp. A row is a list; a subscript
-- outside a table, which C does not define, is `none`.
use foodie_note.Prelude.{ℕ, zero, suc, Option, none, some, ◌>>=◌, List, [], ◌∷◌}

abbrev pub get_elem? {ℓ} : {A : Type ℓ} → List A → ℕ → Option A
get_elem? [] i = none
get_elem? (x ∷ xs) zero = some x
get_elem? (x ∷ xs) (suc i) = get_elem? xs i

-- One row for each layer; rows 1, 2 and 3 are Layer III, II and I.
abbrev zeros : List ℕ
zeros = 0 ∷ 0 ∷ 0 ∷ 0 ∷ 0 ∷ 0 ∷ 0 ∷ 0 ∷ 0 ∷ 0 ∷ 0 ∷ 0 ∷ 0 ∷ 0 ∷ 0 ∷ 0 ∷ []

unfoldable pub br_index_table_v1 : List (List ℕ)
br_index_table_v1 =
    zeros
    ∷ (0 ∷ 32 ∷ 40 ∷ 48 ∷ 56 ∷ 64 ∷ 80 ∷ 96 ∷ 112 ∷ 128 ∷ 160 ∷ 192 ∷ 224 ∷ 256 ∷ 320 ∷ 0 ∷ [])
    ∷ (0 ∷ 32 ∷ 48 ∷ 56 ∷ 64 ∷ 80 ∷ 96 ∷ 112 ∷ 128 ∷ 160 ∷ 192 ∷ 224 ∷ 256 ∷ 320 ∷ 384 ∷ 0 ∷ [])
    ∷ (0 ∷ 32 ∷ 64 ∷ 96 ∷ 128 ∷ 160 ∷ 192 ∷ 224 ∷ 256 ∷ 288 ∷ 320 ∷ 352 ∷ 384 ∷ 416 ∷ 448 ∷ 0 ∷ [])
    ∷ []

unfoldable pub br_index_table_v2 : List (List ℕ)
br_index_table_v2 =
    zeros
    ∷ (0 ∷ 8 ∷ 16 ∷ 24 ∷ 32 ∷ 40 ∷ 48 ∷ 56 ∷ 64 ∷ 80 ∷ 96 ∷ 112 ∷ 128 ∷ 144 ∷ 160 ∷ 0 ∷ [])
    ∷ (0 ∷ 8 ∷ 16 ∷ 24 ∷ 32 ∷ 40 ∷ 48 ∷ 56 ∷ 64 ∷ 80 ∷ 96 ∷ 112 ∷ 128 ∷ 144 ∷ 160 ∷ 0 ∷ [])
    ∷ (0 ∷ 32 ∷ 48 ∷ 56 ∷ 64 ∷ 80 ∷ 96 ∷ 112 ∷ 128 ∷ 144 ∷ 160 ∷ 176 ∷ 192 ∷ 224 ∷ 256 ∷ 0 ∷ [])
    ∷ []

-- MPEG 2.5, reserved, MPEG 2, MPEG 1, four entries each.
unfoldable pub sr_index_table : List ℕ
sr_index_table =
    11025 ∷ 12000 ∷ 8000 ∷ 0 ∷ 0 ∷ 0 ∷ 0 ∷ 0 ∷ 22050 ∷ 24000 ∷ 16000 ∷ 0 ∷ 44100 ∷ 48000 ∷ 32000 ∷ 0
    ∷ []

-- Samples per frame, by version and layer.
unfoldable pub spf_index_table : List (List ℕ)
spf_index_table =
    (0 ∷ 576 ∷ 1152 ∷ 384 ∷ [])
    ∷ (0 ∷ 0 ∷ 0 ∷ 0 ∷ [])
    ∷ (0 ∷ 576 ∷ 1152 ∷ 384 ∷ [])
    ∷ (0 ∷ 1152 ∷ 1152 ∷ 384 ∷ [])
    ∷ []

-- table[i][j]
unfoldable pub at : List (List ℕ) → ℕ → ℕ → Option ℕ
at table i j = do row ← get_elem? table i; get_elem? row j
