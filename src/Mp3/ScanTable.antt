-- ===== src/Mp3/ScanTable.antt =====
-- What ScanMP3File has FillTOCTable write stays inside the table of contents.
use foodie_note.Mp3.Ends.{Ends, behind-Ends, if_Ends}
use foodie_note.Mp3.File.{Error, success}
use foodie_note.Mp3.Floats.{Floats}
use foodie_note.Mp3.FrameLength.{IsInTables}
use foodie_note.Mp3.Header.{HeaderInfo}
use foodie_note.Mp3.Scan.{unless_unknown, fill_in, stop_scan}
use foodie_note.Mp3.State.{Mp3Parser, pure}
use foodie_note.Mp3.Tables.{at, get_elem?, spf_index_table, sr_index_table}
use foodie_note.Mp3.Toc.{
  minus32, push_entry, push_bin, widen, compact, compact_bins, get_duration_from_complete_scan,
  push_last, fill, fill_given, fill_toc_table,
}
use foodie_note.Mp3.TocKept.{length-compact}
use foodie_note.Prelude.{
  ℕ, zero, suc, ◌+◌, ◌*◌, ◌≤◌, ◌<◌, ◌≡◌, ◌⊎◌, inl, inr, ◌∙◌, refl, sym, subst, arith, true, not,
  ◌&&◌, Option, some, List, [], ◌∷◌, ◌==◌, ltb, leb, set, length, length-set, Bool-cases,
}

table_entry :
    {A : Type 0} (xs : List A) (i : ℕ) → i < length xs → (x : A) × (get_elem? xs i ≡ some x)
table_entry [] i h = absurd (omega arith)
table_entry (x ∷ xs) zero h = (x, refl)
table_entry (x ∷ xs) (suc i) h = table_entry xs i (omega arith)

samples_known : (v l : ℕ) → v < 4 → l < 4 → (x : ℕ) × (at spf_index_table v l ≡ some x)
unfolding at spf_index_table
samples_known zero l hv hl = table_entry (0 ∷ 576 ∷ 1152 ∷ 384 ∷ []) l hl
samples_known (suc zero) l hv hl = table_entry (0 ∷ 0 ∷ 0 ∷ 0 ∷ []) l hl
samples_known (suc (suc zero)) l hv hl = table_entry (0 ∷ 576 ∷ 1152 ∷ 384 ∷ []) l hl
samples_known (suc (suc (suc zero))) l hv hl = table_entry (0 ∷ 1152 ∷ 1152 ∷ 384 ∷ []) l hl
samples_known (suc (suc (suc (suc v)))) l hv hl = absurd (omega arith)

rate_known : (i : ℕ) → i < 16 → (x : ℕ) × (get_elem? sr_index_table i ≡ some x)
unfolding sr_index_table
rate_known i h = table_entry sr_index_table i h

-- A table of 201 entries, of which 201 at most are filled in, and 200 at most as long as the scan is
-- not complete.
abbrev pub Shape : {S : Type 0} → Mp3Parser S → Type 0
Shape q =
    (toc : List ℕ) × (q.toc ≡ some toc)
    × (length toc ≡ 201)
    × (q.toc_filled_count ≤ 201)
    × ((q.duration_scan_complete ≡ true) ⊎ (q.toc_filled_count ≤ 200))

-- The table has room for an entry, and the header of the file is one of the tables.
abbrev pub RoomOf : Option (List ℕ) × ℕ × HeaderInfo → Type 0
RoomOf v = (toc : List ℕ) × (v.0 ≡ some toc) × (length toc ≡ 201) × (v.1 ≤ 200) × IsInTables v.2

abbrev pub view : {S : Type 0} → Mp3Parser S → Option (List ℕ) × ℕ × HeaderInfo
view q = (q.toc, q.toc_filled_count, q.header_info)

abbrev pub Room : {S : Type 0} → Mp3Parser S → Type 0
Room q = RoomOf (view q)

pub Room-Shape : {S : Type 0} (q : Mp3Parser S) → Room q → Shape q
Room-Shape q (toc, held, long, few, tables) = (toc, held, long, omega arith, inr few)

-- An early return with a table in shape.
abbrev pub Ended : {S : Type 0} → Error → Mp3Parser S → Type 0
Ended e q = Shape q

module _ (n : Floats) {S : Type 0} where
  abbrev Filled : Error → Mp3Parser S → Type 0
  Filled e q = (e ≡ success) × Shape q

  get_duration-Ends :
      (p : Mp3Parser S)
      → Shape p
      → IsInTables p.header_info
      → Ends (λ d r. Shape r) Ended (get_duration_from_complete_scan n p)
  unfolding get_duration_from_complete_scan
  get_duration-Ends p shape tables =
      let (samples, e) =
        samples_known p.header_info.frame_ver p.header_info.layer_id tables.ver_in
          tables.layer_in in
      let ver = tables.ver_in in
      let sr = tables.sr_in in
      let (rate, e') =
        rate_known (p.header_info.frame_ver * 4 + p.header_info.sr_index) (omega arith) in
      if_Ends (λ d r. Shape r) Ended (ltb 0 p.clip_duration_computed)
        (pure p.clip_duration_computed) _ p (λ known. shape)
        (λ unknown.
          rw (e, e')
            (behind-Ends (λ u r. Shape r) (λ d r. Shape r) Ended _ _ shape (λ u r kept. kept)))

  push_entry-Shape :
      (toc : List ℕ) (v : ℕ) (p : Mp3Parser S)
      → length toc ≡ 201
      → p.toc_filled_count ≤ 200
      → IsInTables p.header_info
      → (p.duration_scan_complete ≡ true) ⊎ (p.toc_filled_count < 200)
      → Ends (λ u r. Shape r × IsInTables r.header_info) Ended (push_entry toc v p)
  unfolding push_entry
  push_entry-Shape toc v p long few tables complete =
      let fits : ltb p.toc_filled_count (length toc) ≡ true = ground arith in
      rw fits (
        (
          set toc p.toc_filled_count v,
          refl,
          length-set toc p.toc_filled_count v ∙ long,
          omega arith,
          elim complete [ inl done ↦ inl done | inr below ↦ inr (omega arith) ],
        ),
        tables,
      )

  push_last-Shape :
      (toc : List ℕ) (file_pos : ℕ) (p : Mp3Parser S)
      → length toc ≡ 201
      → p.toc_filled_count ≤ 200
      → IsInTables p.header_info
      → p.duration_scan_complete ≡ true
      → Ends Filled Ended (push_last n toc file_pos p)
  unfolding push_last
  push_last-Shape toc file_pos p long few tables complete =
      behind-Ends (λ u r. Shape r × IsInTables r.header_info) Filled Ended _ _
        (push_entry-Shape toc file_pos p long few tables (inl complete))
        (λ u q (shape, tables').
          behind-Ends (λ (t : ℕ) r. Shape r × IsInTables r.header_info) Filled Ended _ _
            (shape, tables')
            (λ t r (shape', tables2).
              if_Ends Filled Ended (t == 0) _ (pure success) r
                (λ first.
                  behind-Ends (λ d w. Shape w) Filled Ended _ _ (get_duration-Ends r shape' tables2)
                    (λ d w kept.
                      behind-Ends (λ u x. Shape x) Filled Ended _ _ kept
                        (λ u x same. (refl, same))))
                (λ later. (refl, shape'))))

  push_bin-Shape :
      (toc : List ℕ) (file_pos ts : ℕ) (p : Mp3Parser S)
      → length toc ≡ 201
      → p.toc_filled_count < 200
      → IsInTables p.header_info
      → Ends Filled Ended (push_bin toc file_pos ts p)
  unfolding push_bin widen
  push_bin-Shape toc file_pos ts p long few tables =
      let Below : Mp3Parser S → Type 0 =
        λ r. (r.toc_filled_count < 200) × IsInTables r.header_info in
      behind-Ends (λ u r. Below r) Filled Ended _ _
        (elim (Bool-cases
          (not (p.timestamp_prev == ts) && ltb p.bin_width (minus32 ts p.timestamp_prev))) [
            | inl wide ↦ rw wide (few, tables)
            | inr narrow ↦ rw narrow (few, tables)
          ])
        (λ u q below.
          behind-Ends (λ (start : ℕ) r. Below r) Filled Ended _ _ below
            (λ start r (few', tables').
              behind-Ends (λ u w. Shape w × IsInTables w.header_info) Filled Ended _ _
                (push_entry-Shape toc (minus32 file_pos start) r long (omega arith) tables'
                  (inr few'))
                (λ u w (shape, tables2).
                  behind-Ends (λ u x. Shape x) Filled Ended _ _ shape (λ u x same. (refl, same)))))

  -- As long as there is room for an entry, FillTOCTable keeps to the table.
  fill_toc_table-Shape :
      (file_pos ts : ℕ) (p : Mp3Parser S)
      → Room p
      → Ends Filled Ended (fill_toc_table n file_pos ts p)
  unfolding fill_toc_table fill_given fill compact_bins
  fill_toc_table-Shape file_pos ts p (toc, held, long, few, tables) =
      subst (λ o. Ends Filled Ended (fill_given n o file_pos ts p)) (sym held)
        (if_Ends Filled Ended p.duration_scan_complete (push_last n toc file_pos) _ p
          (λ complete. push_last-Shape toc file_pos p long few tables complete)
          (λ going.
            if_Ends Filled Ended
              (ltb p.toc_filled_count 200 && leb p.bin_width (minus32 ts p.timestamp_prev))
              (push_bin toc file_pos ts) _ p
              (λ wide. push_bin-Shape toc file_pos ts p long (ground arith) tables)
              (λ narrow.
                if_Ends Filled Ended (p.toc_filled_count == 200) (compact_bins toc) (pure success) p
                  (λ full.
                    behind-Ends (λ u x. Shape x) Filled Ended _ _
                      (
                        compact 100 0 toc,
                        refl,
                        length-compact 100 0 toc ∙ long,
                        omega arith,
                        inr (omega arith),
                      )
                      (λ u x same. (refl, same)))
                  (λ free. (refl, (toc, held, long, omega arith, inr few))))))

  pub fill_in-Shape :
      (file_pos ts : ℕ) (p : Mp3Parser S)
      → Room p
      → Ends (λ u r. Shape r) Ended (fill_in n file_pos ts p)
  unfolding fill_in unless_unknown
  fill_in-Shape file_pos ts p room =
      behind-Ends Filled (λ u r. Shape r) Ended _ _ (fill_toc_table-Shape file_pos ts p room)
        (λ e r (good, shape). rw good shape)

  pub stop_scan-Shape :
      {A : Type 0} (Q : A → Mp3Parser S → Type 0) (offset : ℕ) (e : Error) (p : Mp3Parser S)
      → Room p
      → Ends Q Ended (stop_scan n offset e p)
  unfolding stop_scan
  stop_scan-Shape Q offset e p room =
      behind-Ends (λ u r. Room r) Q Ended _ _ room
        (λ u r room'.
          behind-Ends (λ (ts : ℕ) w. Room w) Q Ended _ _ room'
            (λ ts w room2.
              behind-Ends (λ u x. Shape x) Q Ended _ _ (fill_in-Shape offset ts w room2)
                (λ u x shape. shape)))
