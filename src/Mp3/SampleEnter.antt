-- ===== src/Mp3/SampleEnter.antt =====
-- GetNextMediaSample on a file with contents, with the CRC check off: a frame that is entered.
use foodie_note.Mp3.Crc.{verify_crc, check_protected, protected_bits}
use foodie_note.Mp3.Ends.{Contents, Ends, Ends-mono, behind-Ends, if_Ends, seek-Ends}
use foodie_note.Mp3.File.{PvFile, Error, success, file_hdr_decode_err, seek_cur_pos}
use foodie_note.Mp3.Frame.{decode_word}
use foodie_note.Mp3.FrameLength.{decode_mp3_header_bounds, IsInTables}
use foodie_note.Mp3.Header.{ConfigInfo, get_mp3_header, decode_mp3_header}
use foodie_note.Mp3.Sample.{note_average, or_drop, drop_frame, behind_crc, enter_frame}
use foodie_note.Mp3.State.{Mp3Parser, went, pure, seek, behind, ◌>>=◌, ◌>>◌}
use foodie_note.Prelude.Int.{pos, neg}
use foodie_note.Prelude.{
  ℕ, ◌+◌, ◌-◌, ◌≤◌, ◌≡◌, ◌≢◌, ◌⊎◌, inl, inr, ◌∙◌, refl, sym, ap, subst, arith, Bool, true, false,
  not, ◌||◌, some, ◌==◌, if◌then◌else◌, length,
}

true-ne-false : true ≢ false
true-ne-false h = cc

not-false : (b : Bool) → not b ≡ false → b ≡ true
not-false true h = refl
not-false false h = cc

-- The fields of a header that is accepted are subscripts of the tables, of Layer III.
pub accepted-IsInTables :
    (w : ℕ)
    → (get_mp3_header w).1 ≡ true
    → IsInTables (get_mp3_header w).0 × ((get_mp3_header w).0.layer_id ≡ 1)
unfolding get_mp3_header
accepted-IsInTables w good = ground arith

decoded_bounds :
    (r : ConfigInfo × Bool)
    → r.1 ≡ true
    → ((r.1 ≡ false) ⊎ ((24 ≤ r.0.frame_length_in_bytes) × (r.0.frame_length_in_bytes ≤ 1441)))
    → (24 ≤ r.0.frame_length_in_bytes) × (r.0.frame_length_in_bytes ≤ 1441)
decoded_bounds r yes_it (inl not_it) = absurd (true-ne-false (sym yes_it ∙ not_it))
decoded_bounds r yes_it (inr bounds) = bounds

pub decode_word_eq :
    (w : ℕ) (r : ConfigInfo × Bool)
    → decode_mp3_header (get_mp3_header w).0 ≡ some r
    → decode_word w ≡ r
unfolding decode_word
decode_word_eq w r e = rw (e, decode_word) refl

pub frame_length_bounds :
    (w : ℕ)
    → (get_mp3_header w).1 ≡ true
    → (decode_word w).1 ≡ true
    → (24 ≤ (decode_word w).0.frame_length_in_bytes)
      × ((decode_word w).0.frame_length_in_bytes ≤ 1441)
frame_length_bounds w good decoded =
    let (tables, layer) = accepted-IsInTables w good in
    let (r, e, bounds) = decode_mp3_header_bounds (get_mp3_header w).0 tables layer in
    let same = decode_word_eq w r e in
    decoded_bounds (decode_word w) decoded (
      subst
        (λ x.
          (x.1 ≡ false) ⊎ ((24 ≤ x.0.frame_length_in_bytes) × (x.0.frame_length_in_bytes ≤ 1441)))
        (sym same) bounds)

module _ (f : PvFile) (c : Contents f) where
  open f use {State, tell}
  open c use {bytes}

  -- A failure, with the count of frames as it was.
  abbrev pub Uncounted : ℕ → Error → Mp3Parser State → Type 0
  Uncounted k e q = (e ≢ success) × (q.curr_frame_number ≡ k)

  -- The position, the count, the timestamp, and the CRC check that is off.
  abbrev pub At : ℕ → ℕ → ℕ → Mp3Parser State → Type 0
  At position k ts q =
      (tell q.input ≡ position)
      × (q.curr_frame_number ≡ k)
      × (q.timestamp ≡ ts)
      × (q.enable_crc_calc ≡ false)

  -- Seeks back and on over the header.
  seek_back-Ends :
      (here k ts : ℕ) (p : Mp3Parser State)
      → here + 4 ≤ length bytes
      → At (here + 4) k ts p
      → Ends
          (λ e q. (e ≡ success) × At here k ts q)
          (Uncounted (k - 1))
          (seek f (neg 4) seek_cur_pos p)
  seek_back-Ends here k ts p inside (at, count, time, off) =
      seek-Ends f c (λ e q. (e ≡ success) × At here k ts q) (Uncounted (k - 1)) (neg 4) p
        (omega arith) (omega arith) (omega arith)
        (λ t moved. (refl, (omega arith, count, time, off)))

  seek_on-Ends :
      (here k ts : ℕ) (p : Mp3Parser State)
      → here + 4 ≤ length bytes
      → At here k ts p
      → Ends
          (λ e q. (e ≡ success) × At (here + 4) k ts q)
          (Uncounted (k - 1))
          (seek f (pos 4) seek_cur_pos p)
  seek_on-Ends here k ts p inside (at, count, time, off) =
      seek-Ends f c (λ e q. (e ≡ success) × At (here + 4) k ts q) (Uncounted (k - 1)) (pos 4) p
        (omega arith) (omega arith) (omega arith)
        (λ t moved. (refl, (omega arith, count, time, off)))

  -- The CRC check that is off.
  verify_crc_off :
      (w : ℕ) (q : Mp3Parser State)
      → q.enable_crc_calc ≡ false
      → verify_crc f (get_mp3_header w).0 (decode_word w).0 q ≡ (went success, q)
  unfolding verify_crc
  verify_crc_off w q off =
      ap
        (λ b.
          (if not b || not ((get_mp3_header w).0.crc_follows == 0)
              then pure success
              else check_protected f (protected_bits (get_mp3_header w).0 (decode_word w).0))
            q)
        off

  or_drop-Ends :
      (k : ℕ) (P : Mp3Parser State → Type 0) (e : Error) (q : Mp3Parser State)
      → e ≡ success
      → P q
      → Ends (λ u t. P t) (Uncounted k) (or_drop e q)
  unfolding or_drop
  or_drop-Ends k P e q good h = rw good h

  behind_crc-Ends :
      (m here k ts : ℕ) (q : Mp3Parser State)
      → here + 4 ≤ length bytes
      → At here (k + 1) ts q
      → Ends
          (λ goes_on t. (goes_on ≡ true) × At (here + 4) (k + 1) ts t)
          (Uncounted k)
          (behind_crc f m here success q)
  unfolding behind_crc
  behind_crc-Ends m here k ts q inside at =
      let same : k + 1 - 1 ≡ k = omega arith in
      behind-Ends (λ e t. (e ≡ success) × At (here + 4) (k + 1) ts t)
        (λ goes_on t. (goes_on ≡ true) × At (here + 4) (k + 1) ts t) (Uncounted k) _ _
        (subst
          (λ i.
            Ends (λ e t. (e ≡ success) × At (here + 4) (k + 1) ts t) (Uncounted i)
              (seek f (pos 4) seek_cur_pos q))
          same (seek_on-Ends here (k + 1) ts q inside at))
        (λ e t (good, on_it).
          behind-Ends (λ u t. At (here + 4) (k + 1) ts t)
            (λ goes_on t. (goes_on ≡ true) × At (here + 4) (k + 1) ts t) (Uncounted k) _ _
            (or_drop-Ends k (At (here + 4) (k + 1) ts) e t good on_it)
            (λ u t on_it'. (refl, on_it')))

  drop_frame-Ends :
      {A : Type 0} (Q : A → Mp3Parser State → Type 0) (k : ℕ) (e : Error) (q : Mp3Parser State)
      → e ≢ success
      → q.curr_frame_number ≡ k + 1
      → Ends Q (Uncounted k) (drop_frame e q)
  unfolding drop_frame
  drop_frame-Ends Q k e q bad count =
      behind-Ends (λ u t. t.curr_frame_number ≡ k) Q (Uncounted k) _ _ (omega arith)
        (λ u t same. (bad, same))

  -- The frame is entered.
  abbrev pub Entered : ℕ → ℕ → ℕ → ℕ → Bool → Mp3Parser State → Type 0
  Entered w here k ts goes_on q =
      (goes_on ≡ true) × ((decode_word w).1 ≡ true) × At (here + 4) (k + 1) ts q

  behind_back-Ends :
      (m here w k ts : ℕ) (q : Mp3Parser State)
      → here + 4 ≤ length bytes
      → (decode_word w).1 ≡ true
      → Ends
          (λ e t. (e ≡ success) × At here (k + 1) ts t)
          (Uncounted k)
          (seek f (neg 4) seek_cur_pos q)
      → Ends (Entered w here k ts) (Uncounted k) (
          (do
            sought ← seek f (neg 4) seek_cur_pos
            or_drop sought
            verdict ← verify_crc f (get_mp3_header w).0 (decode_word w).0
            behind_crc f m here verdict)
            q)
  unfolding behind
  behind_back-Ends m here w k ts q inside decoded back =
      behind-Ends (λ e t. (e ≡ success) × At here (k + 1) ts t) (Entered w here k ts) (Uncounted k)
        _ _ back
        (λ e t (good, at).
          behind-Ends (λ u t. At here (k + 1) ts t) (Entered w here k ts) (Uncounted k) _ _
            (or_drop-Ends k (At here (k + 1) ts) e t good at)
            (λ u t at_frame.
              subst (λ r. Ends (Entered w here k ts) (Uncounted k) (behind r (behind_crc f m here)))
                (sym (verify_crc_off w t at_frame.3))
                (Ends-mono (λ goes_on t. (goes_on ≡ true) × At (here + 4) (k + 1) ts t)
                  (Entered w here k ts) (Uncounted k) (behind_crc f m here success t)
                  (behind_crc-Ends m here k ts t inside at_frame)
                  (λ goes_on t (going, at_it). (going, decoded, at_it)))))

  -- Behind the averaging.
  checked_frame-Ends :
      (m here w k ts : ℕ) (q : Mp3Parser State)
      → here + 4 ≤ length bytes
      → At (here + 4) (k + 1) ts q
      → (decode_word w).1 ≡ true
      → Ends (Entered w here k ts) (Uncounted k) (
          (do
            note_average (decode_word w).0
            sought ← seek f (neg 4) seek_cur_pos
            or_drop sought
            verdict ← verify_crc f (get_mp3_header w).0 (decode_word w).0
            behind_crc f m here verdict)
            q)
  unfolding note_average
  checked_frame-Ends m here w k ts q inside at decoded =
      let same : k + 1 - 1 ≡ k = omega arith in
      behind-Ends (λ u t. At (here + 4) (k + 1) ts t) (Entered w here k ts) (Uncounted k) _ _ at
        (λ u t at_header. behind_back-Ends m here w k ts t inside decoded (
          subst
            (λ i.
              Ends (λ e r. (e ≡ success) × At here (k + 1) ts r) (Uncounted i)
                (seek f (neg 4) seek_cur_pos t))
            same (seek_back-Ends here (k + 1) ts t inside at_header)))

  pub enter_frame-Ends :
      (m here w k ts : ℕ) (p : Mp3Parser State)
      → here + 4 ≤ length bytes
      → At (here + 4) k ts p
      → Ends (Entered w here k ts) (Uncounted k) (enter_frame f m here w p)
  unfolding enter_frame note_average
  enter_frame-Ends m here w k ts p inside (at, count, time, off) =
      behind-Ends (λ u q. At (here + 4) (k + 1) ts q) (Entered w here k ts) (Uncounted k) _ _
        (at, ap (λ i. i + 1) count, time, off)
        (λ u q at_header.
          if_Ends (Entered w here k ts) (Uncounted k) (not (decode_word w).1)
            (drop_frame file_hdr_decode_err) _ q
            (λ undecoded.
              drop_frame-Ends (Entered w here k ts) k file_hdr_decode_err q (λ e. cc) at_header.1)
            (λ decoded.
              checked_frame-Ends m here w k ts q inside at_header
                (not-false (decode_word w).1 decoded)))
