-- ===== src/Id3/Reader/NoSeek.antt =====
-- A frame of ID3v2.2 is never recognised as a seek frame.
use foodie_note.Id3.FrameIds.{
  match_entry, frame_supported, frame_supported_version, frame_supported_v2_2,
}
use foodie_note.Id3.FrameTables.{Found, Entry, entry, frame_table_v2_2}
use foodie_note.Id3.KvpKey.{eend, unrecognized, FrameType, v2_2}
use foodie_note.Id3.Reader.Frames.{is_seek}
use foodie_note.Prelude.Text.{starts_with}
use foodie_note.Prelude.{
  ℕ, ◌≡◌, refl, Bool, Bool-cases, inl, inr, true, false, none, List, [], ◌∷◌, All, if◌then◌else◌,
  ◌==◌, get_or,
}

-- A type that is no seek frame.
abbrev pub IsNoSeek : FrameType → Type 0
IsNoSeek t = is_seek t ≡ false

abbrev pub EntryIsNoSeek : Entry → Type 0
EntryIsNoSeek (entry key type flag) = IsNoSeek type

pub match_entry-IsNoSeek :
    (entries : List Entry) (id : List ℕ) (found : Found) (other : FrameType × Found)
    → All EntryIsNoSeek entries
    → IsNoSeek other.0
    → IsNoSeek (match_entry entries id found other).0
unfolding match_entry
match_entry-IsNoSeek [] id found other h last = last
match_entry-IsNoSeek (entry key type flag ∷ entries) id found other (e, h) last =
    elim (Bool-cases (starts_with id key)) [
      | inl m ↦ rw m e
      | inr m ↦ rw m (match_entry-IsNoSeek entries id found other h last)
    ]

pub end_IsNoSeek : (b : Bool) → IsNoSeek (if b then eend else unrecognized)
unfolding is_seek
end_IsNoSeek true = refl
end_IsNoSeek false = refl

pub frame_table_v2_2-IsNoSeek : All EntryIsNoSeek frame_table_v2_2
unfolding frame_table_v2_2 is_seek
frame_table_v2_2-IsNoSeek = (
  refl,
  (
    refl,
    (
      refl,
      (
        refl,
        (
          refl,
          (
            refl,
            (
              refl,
              (refl, (refl, (refl, (refl, (refl, (refl, (refl, (refl, (refl, (refl, tt)))))))))),
            ),
          ),
        ),
      ),
    ),
  ),
)

pub frame_supported-IsNoSeek :
    (own : List ℕ) (found : Found) → IsNoSeek (frame_supported v2_2 own none found).0
unfolding frame_supported frame_supported_version frame_supported_v2_2 is_seek
frame_supported-IsNoSeek own found = elim (Bool-cases (get_or own 0 0 == 0xff)) [
  | inl z ↦ rw z refl
  | inr z ↦ rw z (
      match_entry-IsNoSeek frame_table_v2_2 own found _ frame_table_v2_2-IsNoSeek
        (end_IsNoSeek (starts_with own (0 ∷ 0 ∷ 0 ∷ []))))
]
