-- ===== src/Utf8/Reference.antt =====
-- UTF-8, written by arithmetic from the table in the header of
-- listener/src/main/jni/oscl_config/oscl_utf8conv.h: the description that the code is compared to. The
-- last row is by the code point that the two surrogates of the table stand for.
use foodie_note.Prelude.{ℕ, ◌+◌, ◌/◌, ◌%◌, ◌<◌, ◌≤◌, ◌⊎◌, List, [], ◌∷◌, ◌++◌, ltb, if◌then◌else◌}

-- A character below 0x10000 that is not among 0xd801 to 0xdffe, which the code takes for surrogates
-- (0xd800 and 0xdfff pass its test).
abbrev pub IsBasicPlane : ℕ → Type 0
IsBasicPlane c = (c < 65536) × ((c ≤ 0xd800) ⊎ (0xdfff ≤ c))

unfoldable pub utf8 : ℕ → List ℕ
utf8 c =
    if ltb c 0x80
    then c ∷ []
    else if ltb c 0x800
    then (0xc0 + c / 64) ∷ (0x80 + c % 64) ∷ []
    else if ltb c 0x10000
    then (0xe0 + c / 4096) ∷ (0x80 + c / 64 % 64) ∷ (0x80 + c % 64) ∷ []
    else (0xf0 + c / 262144) ∷ (0x80 + c / 4096 % 64) ∷ (0x80 + c / 64 % 64) ∷ (0x80 + c % 64) ∷ []

unfoldable pub utf8_text : List ℕ → List ℕ
utf8_text [] = []
utf8_text (c ∷ cs) = utf8 c ++ utf8_text cs
