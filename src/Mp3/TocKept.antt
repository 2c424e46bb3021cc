-- ===== src/Mp3/TocKept.antt =====
-- FillTOCTable keeps a table of rising positions as long as the scan is not complete.
use foodie_note.Mp3.Ends.{Ends, behind-Ends, if_Ends}
use foodie_note.Mp3.File.{Error, success}
use foodie_note.Mp3.Floats.{Floats}
use foodie_note.Mp3.State.{Mp3Parser, pure}
use foodie_note.Mp3.Toc.{
  minus32, compact, push_entry, widen, push_bin, compact_bins, push_last, fill, fill_given,
  fill_toc_table,
}
use foodie_note.Prelude.{
  ℕ, zero, suc, ◌+◌, ◌*◌, ◌≤◌, ◌<◌, ◌≡◌, ◌≢◌, inl, inr, ◌∙◌, refl, sym, arith, Bool, true, false,
  not, ◌&&◌, some, List, ◌==◌, ltb, leb, if◌then◌else◌, get_or, set, length, length-set, get_or-set,
  Bool-cases, ltb→lt, subst, ==_iff,
}

pub true-ne-false : true ≢ false
true-ne-false h = cc

pub and_lt : (a b : ℕ) (c : Bool) → (ltb a b && c) ≡ true → a < b
and_lt a b c h = ground arith

pub length-compact : (k i : ℕ) (toc : List ℕ) → length (compact k i toc) ≡ length toc
unfolding compact
length-compact zero i toc = refl
length-compact (suc k) i toc =
    length-compact k (i + 1) (set toc i (get_or toc (2 * i) 0)) ∙ length-set toc i _

-- What stands before the index is not touched.
compact_before :
    (k i j : ℕ) (toc : List ℕ)
    → j < i
    → i + k ≤ length toc
    → get_or (compact k i toc) j 0 ≡ get_or toc j 0
unfolding compact
compact_before zero i j toc h room = refl
compact_before (suc k) i j toc h room =
    let v = get_or toc (2 * i) 0 in
    compact_before k (i + 1) j (set toc i v) (omega arith) (omega (arith, length-set toc i v))
    ∙ ground (arith, get_or-set toc i j v)

-- The compaction keeps every second entry.
pub get_or-compact :
    (k i j : ℕ) (toc : List ℕ)
    → i ≤ j
    → j < i + k
    → i + k ≤ length toc
    → get_or (compact k i toc) j 0 ≡ get_or toc (2 * j) 0
unfolding compact
get_or-compact zero i j toc low high room = absurd (omega arith)
get_or-compact (suc k) i j toc low high room =
    let v = get_or toc (2 * i) 0 in
    let kept = length-set toc i v in
    elim (Bool-cases (ltb i j)) [
      | inl later ↦
          get_or-compact k (i + 1) j (set toc i v) (omega (arith, ltb→lt i j later)) (omega arith)
            (omega arith)
          ∙ ground (arith, get_or-set toc i (2 * j) v)
      | inr here ↦
          compact_before k (i + 1) j (set toc i v) (ground arith) (omega arith)
          ∙ ground (arith, get_or-set toc i j v)
    ]

-- The positions that are filled in rise.
abbrev pub Rises : List ℕ → ℕ → Type 0
Rises toc count = (i j : ℕ) → i ≤ j → j < count → get_or toc i 0 ≤ get_or toc j 0

-- A table of 201 entries, of which 200 at most are filled in.
abbrev pub IsToc : List ℕ → ℕ → Type 0
IsToc toc count = (length toc ≡ 201) × (count ≤ 200) × Rises toc count

Rises-set :
    (toc : List ℕ) (count v : ℕ)
    → count < length toc
    → Rises toc count
    → ((i : ℕ) → i < count → get_or toc i 0 ≤ v)
    → Rises (set toc count v) (count + 1)
Rises-set toc count v room rises above i j low high =
    ground (arith, get_or-set toc count i v room, get_or-set toc count j v room, rises i j, above i)

Rises-compact : (toc : List ℕ) → length toc ≡ 201 → Rises toc 200 → Rises (compact 100 0 toc) 100
Rises-compact toc long rises i j low high =
    rw
      (
        get_or-compact 100 0 i toc (omega arith) (omega arith) (omega arith),
        get_or-compact 100 0 j toc (omega arith) (omega arith) (omega arith),
      )
      (rises (2 * i) (2 * j) (omega arith) (omega arith))

module _ (n : Floats) {S : Type 0} where
  abbrev pub Held : Mp3Parser S → Type 0
  Held q = (toc : List ℕ) × (q.toc ≡ some toc) × IsToc toc q.toc_filled_count

  -- The table behind a call.
  abbrev pub Filled : Error → Mp3Parser S → Type 0
  Filled e q = (e ≡ success) × Held q

  abbrev pub NoError : Error → Mp3Parser S → Type 0
  NoError e q = ⊥

  push_entry-Ends :
      (toc : List ℕ) (v count : ℕ) (p : Mp3Parser S)
      → p.toc_filled_count ≡ count
      → IsToc toc count
      → count < 200
      → ((i : ℕ) → i < count → get_or toc i 0 ≤ v)
      → Ends (λ u q. Held q) NoError (push_entry toc v p)
  unfolding push_entry
  push_entry-Ends toc v count p e (long, few, rises) room above =
      let fits : ltb p.toc_filled_count (length toc) ≡ true = ground arith in
      rw fits (
        set toc p.toc_filled_count v,
        refl,
        (
          length-set toc p.toc_filled_count v ∙ long,
          omega arith,
          Rises-set toc p.toc_filled_count v (omega arith) (subst (λ k. Rises toc k) (sym e) rises)
              (λ i low. above i (omega arith)),
        ),
      )

  pub widen-Ends :
      (ts : ℕ) (p : Mp3Parser S)
      → Ends
          (λ u q. (q.toc_filled_count ≡ p.toc_filled_count) × (q.start_offset ≡ p.start_offset))
          NoError
          (widen ts p)
  unfolding widen
  widen-Ends ts p =
      elim (Bool-cases
        (not (p.timestamp_prev == ts) && ltb p.bin_width (minus32 ts p.timestamp_prev))) [
          | inl wide ↦ rw wide (refl, refl)
          | inr narrow ↦ rw narrow (refl, refl)
        ]

  push_bin-Ends :
      (toc : List ℕ) (file_pos ts : ℕ) (p : Mp3Parser S)
      → IsToc toc p.toc_filled_count
      → p.toc_filled_count < 200
      → ((i : ℕ) → i < p.toc_filled_count → get_or toc i 0 ≤ minus32 file_pos p.start_offset)
      → Ends Filled NoError (push_bin toc file_pos ts p)
  unfolding push_bin
  push_bin-Ends toc file_pos ts p is_toc room above =
      behind-Ends
        (λ u q. (q.toc_filled_count ≡ p.toc_filled_count) × (q.start_offset ≡ p.start_offset))
        Filled NoError _ _ (widen-Ends ts p)
        (λ u q (same, start).
          behind-Ends
            (λ (offset : ℕ) r.
              (offset ≡ p.start_offset) × (r.toc_filled_count ≡ p.toc_filled_count))
            Filled NoError _ _ (start, same)
            (λ offset r (at_start, same').
              behind-Ends (λ u q. Held q) Filled NoError _ _
                (rw at_start (
                  push_entry-Ends toc (minus32 file_pos p.start_offset) p.toc_filled_count r same'
                    is_toc room above))
                (λ u t (toc', held, is_toc').
                  behind-Ends (λ u q. Held q) Filled NoError _ _ (toc', held, is_toc')
                    (λ u w kept. (refl, kept)))))

  compact_bins-Ends :
      (toc : List ℕ) (p : Mp3Parser S) → IsToc toc 200 → Ends Filled NoError (compact_bins toc p)
  unfolding compact_bins
  compact_bins-Ends toc p (long, few, rises) =
      behind-Ends (λ u q. Held q) Filled NoError _ _
        (
          compact 100 0 toc,
          refl,
          (length-compact 100 0 toc ∙ long, omega arith, Rises-compact toc long rises),
        )
        (λ u t kept. (refl, kept))

  -- What FillTOCTable leaves, as long as the scan is not complete.
  pub fill_toc_table-Filled :
      (toc : List ℕ) (file_pos ts : ℕ) (p : Mp3Parser S)
      → p.toc ≡ some toc
      → IsToc toc p.toc_filled_count
      → p.duration_scan_complete ≡ false
      → ((i : ℕ) → i < p.toc_filled_count → get_or toc i 0 ≤ minus32 file_pos p.start_offset)
      → Ends Filled NoError (fill_toc_table n file_pos ts p)
  unfolding fill_toc_table fill_given fill
  fill_toc_table-Filled toc file_pos ts p held is_toc going above =
      subst (λ o. Ends Filled NoError (fill_given n o file_pos ts p)) (sym held)
        (if_Ends Filled NoError p.duration_scan_complete (push_last n toc file_pos)
          (if ltb p.toc_filled_count 200 && leb p.bin_width (minus32 ts p.timestamp_prev)
            then push_bin toc file_pos ts
            else if p.toc_filled_count == 200
            then compact_bins toc
            else pure success)
          p (λ complete. absurd (true-ne-false (sym complete ∙ going)))
          (λ still.
            if_Ends Filled NoError
              (ltb p.toc_filled_count 200 && leb p.bin_width (minus32 ts p.timestamp_prev))
              (push_bin toc file_pos ts)
              (if p.toc_filled_count == 200 then compact_bins toc else pure success) p
              (λ wide. push_bin-Ends toc file_pos ts p is_toc (and_lt _ _ _ wide) above)
              (λ narrow.
                if_Ends Filled NoError (p.toc_filled_count == 200) (compact_bins toc) (pure success)
                  p
                  (λ full.
                    compact_bins-Ends toc p
                      (subst (λ k. IsToc toc k) ((==_iff p.toc_filled_count 200).0 full) is_toc))
                  (λ free. (refl, (toc, held, is_toc))))))
