-- ===== src/Mp3/RandomBounds.antt =====
-- ComputeDurationFromNRandomFrames on a file with contents: it returns, with an average bit rate
-- that Layer III has room for.
use foodie_note.Mp3.Ends.{Contents, Ends, behind-Ends, if_Ends}
use foodie_note.Mp3.File.{PvFile, Error, success, error_unknown}
use foodie_note.Mp3.Frame.{header_word, decode_word}
use foodie_note.Mp3.FrameLength.{all_layer3, all_layer3_sound, decode_mp3_header_bounds}
use foodie_note.Mp3.Header.{
  ConfigInfo, HeaderInfo, get_mp3_header, decode_mp3_header, bit_rate_of, sampling_rate_of,
  frame_sizes,
}
use foodie_note.Mp3.Random.{
  caught, config_of, next_average, skip_multiple, average_frames, average_found, find_at,
  average_at, divide_int32, average_places, behind_place, note_random,
  compute_duration_from_n_random_frames,
}
use foodie_note.Mp3.Sample.{average}
use foodie_note.Mp3.SampleEnter.{accepted-IsInTables, decode_word_eq}
use foodie_note.Mp3.State.{
  Mp3Parser, Exit, went, ended, overrun, running, Call, pure, seek, read_bytes,
}
use foodie_note.Mp3.SyncBlock.{Failed}
use foodie_note.Mp3.SyncFound.{FoundFrame, find_sync-Ends}
use foodie_note.Mp3.Tables.{at, br_index_table_v1, br_index_table_v2, sr_index_table}
use foodie_note.Prelude.{
  ℕ, zero, suc, ◌+◌, ◌-◌, ◌*◌, ◌%◌, ◌^◌, ◌≤◌, ◌<◌, ◌≡◌, ◌≢◌, ◌⊎◌, inl, inr, ◌∙◌, refl, sym, subst,
  arith, Bool, true, false, Option, none, some, List, ◌==◌, ltb, leb, Bool-cases, leb→le, all_below,
  ==_iff,
}
use native.Mathlib.Nat.{div-le_self, div-le_of_le-mul}

false_ne_true : false ≢ true
false_ne_true h = cc

-- No bit rate of Layer III is larger.
abbrev pub largest_rate : ℕ
largest_rate = 320000

average_bound : (avg rate count b : ℕ) → avg ≤ b → rate ≤ b → average avg rate count ≤ b
unfolding average
average_bound avg rate count b ha hr = elim (Bool-cases (leb avg rate)) [
  | inl below ↦ rw below (omega (arith, div-le_self (rate - avg) count, leb→le avg rate below))
  | inr above ↦ rw above (omega arith)
]

next_average-bound : (count avg rate b : ℕ) → avg ≤ b → rate ≤ b → next_average count avg rate ≤ b
unfolding next_average
next_average-bound count avg rate b ha hr = elim (Bool-cases (count == 1)) [
  | inl first ↦ rw first (average_bound rate rate count b hr hr)
  | inr later ↦ rw later (average_bound avg rate count b ha hr)
]

-- The test: the bit rate of a frame that the decoder accepts.
abbrev rate_fits : Option (ConfigInfo × Bool) → Bool
rate_fits none = true
rate_fits (some (c, false)) = true
rate_fits (some (c, true)) = leb c.bit_rate 320000

all_rates_fit : (h : HeaderInfo) → all_layer3 (λ x. rate_fits (decode_mp3_header x)) h ≡ true
unfolding all_layer3 all_below decode_mp3_header bit_rate_of sampling_rate_of frame_sizes at
    br_index_table_v1 br_index_table_v2 sr_index_table
all_rates_fit h = refl

rate_fits_sound :
    (r : ConfigInfo × Bool) → rate_fits (some r) ≡ true → r.1 ≡ true → r.0.bit_rate ≤ largest_rate
rate_fits_sound (c, false) fits decoded = absurd (false_ne_true decoded)
rate_fits_sound (c, true) fits decoded = leb→le c.bit_rate 320000 fits

decode_word-rate :
    (w : ℕ)
    → (get_mp3_header w).1 ≡ true
    → (decode_word w).1 ≡ true
    → (decode_word w).0.bit_rate ≤ largest_rate
decode_word-rate w good decoded =
    let (tables, layer) = accepted-IsInTables w good in
    let h = (get_mp3_header w).0 in
    let (r, e, bounds) = decode_mp3_header_bounds h tables layer in
    let all =
      all_layer3_sound (λ x. rate_fits (decode_mp3_header x)) h tables layer (all_rates_fit h) in
    rate_fits_sound (decode_word w)
      (subst (λ x. rate_fits (some x) ≡ true) (sym (decode_word_eq w r e))
        (subst (λ o. rate_fits o ≡ true) e all))
      decoded

config_of-cases :
    (o : Option (List ℕ))
    → ((e : Error) × (config_of o ≡ inl e))
      ⊎ ((c : ConfigInfo) × (config_of o ≡ inr c) × (c.bit_rate ≤ largest_rate))
unfolding config_of
config_of-cases none = inl (_, refl)
config_of-cases (some bs) = elim (Bool-cases (get_mp3_header (header_word bs)).1) [
  | inr bad ↦ rw bad (inl (_, refl))
  | inl good ↦ elim (Bool-cases (decode_word (header_word bs)).1) [
    | inr undecoded ↦ rw (good, undecoded) (inl (_, refl))
    | inl decoded ↦
        rw (good, decoded) (inr (_, refl, decode_word-rate (header_word bs) good decoded))
  ]
]

-- A call never returns early.
abbrev pub NoEnd : {S : Type 0} → Error → Mp3Parser S → Type 0
NoEnd e q = ⊥

caught-Ends :
    {S A : Type 0} (Q : A → Mp3Parser S → Type 0) (D : Error → Mp3Parser S → Type 0)
    (r : Exit A × Mp3Parser S)
    → Ends Q D r
    → Ends (λ x q. Unit {0}) NoEnd (caught r)
unfolding caught
caught-Ends Q D (went a, q) h = tt
caught-Ends Q D (ended e, q) h = tt
caught-Ends Q D (overrun, q) h = h
caught-Ends Q D (running, q) h = h

-- The average of the frames at a place, if there was one.
abbrev IsLow : Error ⊎ (ℕ × Error) → Type 0
IsLow (inl e) = Unit {0}
IsLow (inr r) = r.0 ≤ largest_rate

module _ (f : PvFile) (c : Contents f) where
  open f use {State, tell}

  average_frames-Ends :
      (k count avg : ℕ) (p : Mp3Parser State)
      → avg ≤ largest_rate
      → Ends (λ r q. r.0 ≤ largest_rate) NoEnd (average_frames f k count avg p)
  unfolding average_frames read_bytes seek
  average_frames-Ends zero count avg p low = low
  average_frames-Ends (suc k) count avg p low =
      behind-Ends (λ (o : Option (List ℕ)) q. Unit {0}) (λ r q. r.0 ≤ largest_rate) NoEnd _ _ tt
        (λ o q u. elim (config_of-cases o) [
          | inl (e, same) ↦ rw same low
          | inr (cfg, same, fits) ↦ rw same (
              behind-Ends (λ (e : Error) r. Unit {0}) (λ r q. r.0 ≤ largest_rate) NoEnd _ _ tt
                (λ e t u.
                  average_frames-Ends k (count + 1) _ t
                    (next_average-bound (count + 1) avg cfg.bit_rate largest_rate low fits)))
        ])

  average_found-Ends :
      (frames avg : ℕ) (x : Error ⊎ ℕ) (p : Mp3Parser State)
      → avg ≤ largest_rate
      → Ends (λ r q. IsLow r) NoEnd (average_found f frames avg x p)
  unfolding average_found seek
  average_found-Ends frames avg (inl e) p low = tt
  average_found-Ends frames avg (inr off) p low =
      behind-Ends (λ (e : Error) r. Unit {0}) (λ r q. IsLow r) NoEnd _ _ tt
        (λ e q u.
          behind-Ends (λ r t. r.0 ≤ largest_rate) (λ r t. IsLow r) NoEnd _ _
            (average_frames-Ends frames 0 avg q low) (λ r t fits. fits))

  average_at-Ends :
      (frames avg offset : ℕ) (p : Mp3Parser State)
      → avg ≤ largest_rate
      → Ends (λ r q. IsLow r) NoEnd (average_at f frames avg offset p)
  unfolding average_at seek find_at
  average_at-Ends frames avg offset p low =
      behind-Ends (λ (e : Error) r. Unit {0}) (λ r q. IsLow r) NoEnd _ _ tt
        (λ e q u.
          behind-Ends (λ (x : Error ⊎ ℕ) r. Unit {0}) (λ r q. IsLow r) NoEnd _ _
            (caught-Ends (FoundFrame f c (tell q.input)) Failed _ (
              find_sync-Ends f c (tell q.input) q.init_search_file_size offset q (omega arith)
                refl))
            (λ x t u'. average_found-Ends frames avg x t low))

  -- The sum for a number of places that leave it below 2 ^ 31.
  abbrev IsSum : ℕ × ℕ × Error → Type 0
  IsSum (count, total, err) = (total ≤ count * largest_rate) × (count ≤ 6000)

  -- Behind a place.
  behind_place-Ends :
      (x : Error ⊎ (ℕ × Error)) (count total : ℕ) (q : Mp3Parser State)
      (next : ℕ → ℕ → Error → Call State (ℕ × ℕ × Error))
      → total ≤ count * largest_rate
      → count + 1 ≤ 6000
      → IsLow x
      → ((total' avg' : ℕ) (err' : Error) (t : Mp3Parser State)
          → total' ≤ (count + 1) * largest_rate
          → avg' ≤ largest_rate
          → Ends (λ r q. IsSum r) NoEnd (next total' avg' err' t))
      → Ends (λ r q. IsSum r) NoEnd (behind_place f count total next x q)
  unfolding behind_place
  behind_place-Ends (inl e) count total q next sum few fits rest = (sum, omega arith)
  behind_place-Ends (inr (avg', err')) count total q next sum few fits rest =
      rest ((total + avg') % 2 ^ 32) avg' err' q (omega arith) fits

  average_places-Ends :
      (k frames skip count total avg : ℕ) (err : Error) (p : Mp3Parser State)
      → total ≤ count * largest_rate
      → count + k ≤ 6000
      → avg ≤ largest_rate
      → Ends (λ r q. IsSum r) NoEnd (average_places f k frames skip count total avg err p)
  unfolding average_places
  average_places-Ends zero frames skip count total avg err p sum few low = (sum, omega arith)
  average_places-Ends (suc k) frames skip count total avg err p sum few low =
      if_Ends (λ r q. IsSum r) NoEnd (ltb p.local_file_size ((tell p.input + skip) % 2 ^ 32))
        (pure (count, total, err)) _ p (λ behind_it. (sum, omega arith))
        (λ inside.
          behind-Ends (λ r q. IsLow r) (λ r q. IsSum r) NoEnd _ _
            (average_at-Ends frames avg ((tell p.input + skip) % 2 ^ 32) p low)
            (λ x q fits.
              behind_place-Ends x count total q (average_places f k frames skip (count + 1)) sum
                (omega arith) fits
                (λ total' avg' err' t sum' low'.
                  average_places-Ends k frames skip (count + 1) total' avg' err' t sum'
                    (omega arith) low')))

  -- The average that is kept, which is unknown where it is 0.
  abbrev pub Averaged : Error → Mp3Parser State → Type 0
  Averaged e q =
      (q.avg_bitrate_from_random_scan ≤ largest_rate)
      × (((q.avg_bitrate_from_random_scan ≡ 0) × (e ≡ error_unknown))
          ⊎ (0 < q.avg_bitrate_from_random_scan))

  note_random-Ends :
      (r : ℕ × ℕ × Error) (q : Mp3Parser State) → IsSum r → Ends Averaged NoEnd (note_random f r q)
  unfolding note_random divide_int32
  note_random-Ends (count, total, err) q (sum, few) =
      let positive : ltb total (2 ^ 31) ≡ true = ground arith in
      behind-Ends (λ u x. x.avg_bitrate_from_random_scan ≤ largest_rate) Averaged NoEnd _ _
        (elim (Bool-cases (ltb 0 count)) [
          | inl some_places ↦ rw (some_places, positive) (div-le_of_le-mul count sum)
          | inr none_at_all ↦ rw none_at_all (omega arith)
        ])
        (λ u x low.
          behind-Ends
            (λ a y.
              (a ≡ y.avg_bitrate_from_random_scan)
              × (y.avg_bitrate_from_random_scan ≤ largest_rate))
            Averaged NoEnd _ _ (refl, low)
            (λ a y (same, low'). elim (Bool-cases (a == 0)) [
              | inl none_known ↦
                  rw none_known (low', inl (sym same ∙ (==_iff a 0).0 none_known, refl))
              | inr known ↦ rw known (low', inr (ground arith))
            ]))

  -- On a file with contents, for 6000 places at most, so that the sum of their averages is below
  -- 2 ^ 31, and any number of frames at each: ComputeDurationFromNRandomFrames returns, and the average
  -- bit rate that it keeps is 320000 at most; where it is 0, the result is MP3_ERROR_UNKNOWN.
  pub compute_duration_from_n_random_frames-Ends :
      (frames places : ℕ) (p : Mp3Parser State)
      → places ≤ 6000
      → Ends Averaged NoEnd (compute_duration_from_n_random_frames f frames places p)
  unfolding compute_duration_from_n_random_frames
  compute_duration_from_n_random_frames-Ends frames places p few =
      behind-Ends (λ r q. IsSum r) Averaged NoEnd _ _
        (average_places-Ends places frames (skip_multiple places p) 0 0 0 success p (omega arith)
          (omega arith) (omega arith))
        (λ r q sum. note_random-Ends r q sum)
