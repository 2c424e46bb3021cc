-- ===== src/Mp3/TocFollows.antt =====
-- What FillTOCTable writes as long as the scan is not complete.
use foodie_note.Mp3.Ends.{Ends, behind-Ends, if_Ends}
use foodie_note.Mp3.File.{Error, success}
use foodie_note.Mp3.Floats.{Floats}
use foodie_note.Mp3.State.{Exit, Mp3Parser, went, ended, overrun, running, pure}
use foodie_note.Mp3.Toc.{
  minus32, compact, push_entry, push_bin, compact_bins, push_last, fill, fill_given, fill_toc_table,
}
use foodie_note.Prelude.{
  ◌⊎◌, ℕ, ◌+◌, ◌*◌, ◌≤◌, ◌<◌, ◌≡◌, inl, inr, ◌∙◌, refl, sym, ap, arith, true, false, ◌&&◌, some,
  List, ◌==◌, ltb, leb, get_or, set, length, subst, ==_iff,
}
use foodie_note.Mp3.TocKept.{
  true-ne-false, and_lt, get_or-compact, IsToc, Filled, NoError, widen-Ends, fill_toc_table-Filled,
}

module _ (n : Floats) {S : Type 0} where
  -- A position is written behind the last one.
  abbrev pub Pushed : List ℕ → ℕ → ℕ → Mp3Parser S → Mp3Parser S → Type 0
  Pushed toc file_pos ts p q =
      (p.toc_filled_count < 200)
      × (p.bin_width ≤ minus32 ts p.timestamp_prev)
      × (q.toc ≡ some (set toc p.toc_filled_count (minus32 file_pos p.start_offset)))
      × (q.toc_filled_count ≡ p.toc_filled_count + 1)

  -- The full table is reduced to every second entry.
  abbrev pub Halved : List ℕ → Mp3Parser S → Mp3Parser S → Type 0
  Halved toc p q =
      (p.toc_filled_count ≡ 200)
      × (q.toc_filled_count ≡ 100)
      × ((half : List ℕ) × (q.toc ≡ some half)
          × ((j : ℕ) → j < 100 → get_or half j 0 ≡ get_or toc (2 * j) 0))

  -- A position that is too near to the last one is left out.
  abbrev pub LeftOut : ℕ → Mp3Parser S → Mp3Parser S → Type 0
  LeftOut ts p q =
      (p.toc_filled_count < 200) × (minus32 ts p.timestamp_prev < p.bin_width) × (q ≡ p)

  abbrev pub Follows : List ℕ → ℕ → ℕ → Mp3Parser S → Error → Mp3Parser S → Type 0
  Follows toc file_pos ts p e q = Pushed toc file_pos ts p q ⊎ (Halved toc p q ⊎ LeftOut ts p q)

  push_entry-writes :
      (toc : List ℕ) (v v' count : ℕ) (p : Mp3Parser S)
      → length toc ≡ 201
      → count < 200
      → p.toc_filled_count ≡ count
      → v ≡ v'
      → Ends
          (λ u q. (q.toc ≡ some (set toc count v')) × (q.toc_filled_count ≡ count + 1))
          (NoError n)
          (push_entry toc v p)
  unfolding push_entry
  push_entry-writes toc v v' count p long few same at =
      let fits : ltb p.toc_filled_count (length toc) ≡ true = ground arith in
      rw fits (
        ap (λ i. some (set toc i v)) same ∙ ap (λ x. some (set toc count x)) at,
        ap (λ i. i + 1) same,
      )

  push_bin-Follows :
      (toc : List ℕ) (file_pos ts : ℕ) (p : Mp3Parser S)
      → length toc ≡ 201
      → p.toc_filled_count < 200
      → p.bin_width ≤ minus32 ts p.timestamp_prev
      → Ends (Follows toc file_pos ts p) (NoError n) (push_bin toc file_pos ts p)
  unfolding push_bin
  push_bin-Follows toc file_pos ts p long few wide =
      let Same : Mp3Parser S → Type 0 =
        λ q. (q.toc_filled_count ≡ p.toc_filled_count) × (q.start_offset ≡ p.start_offset) in
      let Written : Mp3Parser S → Type 0 = λ q.
        (q.toc ≡ some (set toc p.toc_filled_count (minus32 file_pos p.start_offset)))
        × (q.toc_filled_count ≡ p.toc_filled_count + 1) in
      behind-Ends (λ u q. Same q) (Follows toc file_pos ts p) (NoError n) _ _ (widen-Ends n ts p)
        (λ u q (same, start).
          behind-Ends
            (λ (offset : ℕ) r.
              (offset ≡ p.start_offset) × (r.toc_filled_count ≡ p.toc_filled_count))
            (Follows toc file_pos ts p) (NoError n) _ _ (start, same)
            (λ offset r (at_start, same').
              behind-Ends (λ u w. Written w) (Follows toc file_pos ts p) (NoError n) _ _
                (push_entry-writes toc (minus32 file_pos offset) (minus32 file_pos p.start_offset)
                  p.toc_filled_count r long few same' (ap (λ o. minus32 file_pos o) at_start))
                (λ u w written.
                  behind-Ends (λ u x. Written x) (Follows toc file_pos ts p) (NoError n) _ _ written
                    (λ u x (at, count). inl (few, wide, at, count)))))

  fill_toc_table-Follows :
      (toc : List ℕ) (file_pos ts : ℕ) (p : Mp3Parser S)
      → p.toc ≡ some toc
      → IsToc toc p.toc_filled_count
      → p.duration_scan_complete ≡ false
      → Ends (Follows toc file_pos ts p) (NoError n) (fill_toc_table n file_pos ts p)
  unfolding fill_toc_table fill_given fill compact_bins
  fill_toc_table-Follows toc file_pos ts p held (long, few, rises) going =
      subst (λ o. Ends (Follows toc file_pos ts p) (NoError n) (fill_given n o file_pos ts p))
        (sym held)
        (if_Ends (Follows toc file_pos ts p) (NoError n) p.duration_scan_complete
          (push_last n toc file_pos) _ p (λ complete. absurd (true-ne-false (sym complete ∙ going)))
          (λ still.
            if_Ends (Follows toc file_pos ts p) (NoError n)
              (ltb p.toc_filled_count 200 && leb p.bin_width (minus32 ts p.timestamp_prev))
              (push_bin toc file_pos ts) _ p
              (λ wide. push_bin-Follows toc file_pos ts p long (and_lt _ _ _ wide) (ground arith))
              (λ narrow.
                if_Ends (Follows toc file_pos ts p) (NoError n) (p.toc_filled_count == 200)
                  (compact_bins toc) (pure success) p
                  (λ full.
                    behind-Ends (λ u q. Halved toc p q) (Follows toc file_pos ts p) (NoError n) _ _
                      (
                        (==_iff p.toc_filled_count 200).0 full,
                        refl,
                        (
                          compact 100 0 toc,
                          refl,
                          λ j low.
                              get_or-compact 100 0 j toc (omega arith) (omega arith) (omega arith),
                        ),
                      )
                      (λ u q halved. inr (inl halved)))
                  (λ free. inr (inr (ground arith, ground arith, refl))))))

  both_Ends :
      (Q R : Error → Mp3Parser S → Type 0) (r : Exit Error × Mp3Parser S)
      → Ends Q (NoError n) r
      → Ends R (NoError n) r
      → Ends (λ e q. Q e q × R e q) (NoError n) r
  both_Ends Q R (went e, q) h k = (h, k)
  both_Ends Q R (ended e, q) h k = h
  both_Ends Q R (overrun, q) h k = h
  both_Ends Q R (running, q) h k = h

  -- As long as the scan is not complete, FillTOCTable succeeds on a table of 201 entries with at most
  -- 200 filled in by rising positions, for a position that is not before them, and leaves such a
  -- table. With fewer than 200 filled in, the position, from the start of the audio on, is written
  -- behind the last if its time is at least the width of a bin behind the last time, and otherwise
  -- nothing changes. With 200 filled in, 100 are left, the entries with an even number.
  pub fill_toc_table-IsToc :
      (toc : List ℕ) (file_pos ts : ℕ) (p : Mp3Parser S)
      → p.toc ≡ some toc
      → IsToc toc p.toc_filled_count
      → p.duration_scan_complete ≡ false
      → ((i : ℕ) → i < p.toc_filled_count → get_or toc i 0 ≤ minus32 file_pos p.start_offset)
      → Ends
          (λ e q. Filled n e q × Follows toc file_pos ts p e q)
          (NoError n)
          (fill_toc_table n file_pos ts p)
  fill_toc_table-IsToc toc file_pos ts p held is_toc going above =
      both_Ends (Filled n) (Follows toc file_pos ts p) (fill_toc_table n file_pos ts p)
        (fill_toc_table-Filled n toc file_pos ts p held is_toc going above)
        (fill_toc_table-Follows toc file_pos ts p held is_toc going)
