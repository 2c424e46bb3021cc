-- ===== src/Mp3/TocOverrun.antt =====
-- FillTOCTable behind the end of the scan: its calls write beyond the table in the end.
use foodie_note.Mp3.File.{Error, success}
use foodie_note.Mp3.Floats.{Floats}
use foodie_note.Mp3.State.{Mp3Parser, Call, Exit, overrun, went, pure, behind, ◌>>◌}
use foodie_note.Mp3.Toc.{
  minus32, push_entry, push_bin, compact_bins, push_last, fill, fill_given, fill_toc_table,
}
use foodie_note.Prelude.{
  ℕ, ◌+◌, ◌≤◌, ◌<◌, ◌≡◌, ◌≢◌, ◌∙◌, refl, sym, ap, arith, Bool, true, false, ◌&&◌, some, List, [],
  ◌∷◌, ◌==◌, ltb, leb, if◌then◌else◌, set, length, length-set, Bool-cases, inl, inr, ltb→lt,
  ltb_false→le,
}

-- The table behind writes from an index on, as long as there is room.
unfoldable pub put : List ℕ → ℕ → List (ℕ × ℕ) → List ℕ
put toc i [] = toc
put toc i ((file_pos, ts) ∷ calls) =
    let rest = put (set toc i file_pos) (i + 1) calls in if ltb i (length toc) then rest else toc

module _ (n : Floats) {S : Type 0} where
  -- One call of FillTOCTable behind the other.
  unfoldable pub fill_all : List (ℕ × ℕ) → Call S (Unit {0})
  unfolding fill_toc_table
  fill_all [] = pure tt
  fill_all ((file_pos, ts) ∷ calls) = fill_toc_table n file_pos ts >> fill_all calls

  -- A call behind the end of the scan.
  at_complete :
      (toc : List ℕ) (file_pos ts : ℕ) (p : Mp3Parser S)
      → p.toc ≡ some toc
      → p.duration_scan_complete ≡ true
      → fill_toc_table n file_pos ts p ≡ push_last n toc file_pos p
  unfolding fill_toc_table fill_given fill
  at_complete toc file_pos ts p held complete =
      ap (λ o. fill_given n o file_pos ts p) held
      ∙ ap
          (λ b.
            (if b
                then push_last n toc file_pos
                else if ltb p.toc_filled_count 200 && leb p.bin_width (minus32 ts p.timestamp_prev)
                then push_bin toc file_pos ts
                else if p.toc_filled_count == 200
                then compact_bins toc
                else pure success)
              p)
          complete

  push_last_fits :
      (toc : List ℕ) (file_pos : ℕ) (p : Mp3Parser S)
      → ltb p.toc_filled_count (length toc) ≡ true
      → p.timestamp_prev ≢ 0
      → push_last n toc file_pos p ≡ (
        went success,
        record p {
          toc = some (set toc p.toc_filled_count file_pos);
          toc_filled_count = p.toc_filled_count + 1;
        },
      )
  unfolding push_last push_entry behind
  push_last_fits toc file_pos p fits later =
      let follows : (p.timestamp_prev == 0) ≡ false = ground arith in rw (fits, follows) refl

  push_last_beyond :
      (toc : List ℕ) (file_pos : ℕ) (p : Mp3Parser S)
      → ltb p.toc_filled_count (length toc) ≡ false
      → push_last n toc file_pos p ≡ (overrun, p)
  unfolding push_last push_entry behind
  push_last_beyond toc file_pos p beyond = rw beyond refl

  behind_call :
      (r s : Exit Error × Mp3Parser S) (calls : List (ℕ × ℕ))
      → r ≡ s
      → behind r (λ e. fill_all calls) ≡ behind s (λ e. fill_all calls)
  behind_call r s calls e = ap (λ x. behind x (λ e. fill_all calls)) e

  -- What the overrun leaves, by whether there was room for an entry.
  abbrev full_with : Bool → ℕ → List (ℕ × ℕ) → List ℕ → Mp3Parser S → Exit (Unit {0}) × Mp3Parser S
  full_with b file_pos calls toc p = (
    overrun,
    record p {
      toc = some (
          if b
          then put (set toc p.toc_filled_count file_pos) (p.toc_filled_count + 1) calls
          else toc);
      toc_filled_count = length toc;
    },
  )

  -- With the scan complete and the last time not 0, more calls of FillTOCTable than the table has
  -- room for: each writes its position behind the last, whatever its time, until the table is full,
  -- and the next one writes beyond the table.
  pub fill_all_overrun :
      (calls : List (ℕ × ℕ)) (toc : List ℕ) (p : Mp3Parser S)
      → p.toc ≡ some toc
      → p.toc_filled_count ≤ length toc
      → length toc < p.toc_filled_count + length calls
      → p.duration_scan_complete ≡ true
      → p.timestamp_prev ≢ 0
      → fill_all calls p ≡ (
        overrun,
        record p { toc = some (put toc p.toc_filled_count calls); toc_filled_count = length toc },
      )
  unfolding fill_all put behind
  fill_all_overrun [] toc p held room many complete later = absurd (omega arith)
  fill_all_overrun ((file_pos, ts) ∷ calls) toc p held room many complete later =
      elim (Bool-cases (ltb p.toc_filled_count (length toc))) [
        | inl fits ↦
            let long = length-set toc p.toc_filled_count file_pos in
            let low = ltb→lt p.toc_filled_count (length toc) fits in
            behind_call _ _ calls (
              at_complete toc file_pos ts p held complete
              ∙ push_last_fits toc file_pos p fits later)
            ∙ fill_all_overrun calls (set toc p.toc_filled_count file_pos)
                (record p {
                  toc = some (set toc p.toc_filled_count file_pos);
                  toc_filled_count = p.toc_filled_count + 1;
                })
                refl (omega arith) (omega arith) complete later
            ∙ ap
                (λ l. (
                  overrun,
                  record p {
                    toc =
                        some (
                          put (set toc p.toc_filled_count file_pos) (p.toc_filled_count + 1) calls);
                    toc_filled_count = l;
                  },
                ))
                long
            ∙ ap (λ b. full_with b file_pos calls toc p) (sym fits)
        | inr beyond ↦
            let full : p.toc_filled_count ≡ length toc =
              omega (arith, ltb_false→le p.toc_filled_count (length toc) beyond) in
            behind_call _ _ calls
              (at_complete toc file_pos ts p held complete ∙ push_last_beyond toc file_pos p beyond)
            ∙ ap (λ o. (overrun, record p { toc = o })) held
            ∙ ap (λ l. (overrun, record p { toc = some toc; toc_filled_count = l })) full
            ∙ ap (λ b. full_with b file_pos calls toc p) (sym beyond)
      ]
