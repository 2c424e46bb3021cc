-- ===== src/Mp3/SampleDeliver.antt =====
-- GetNextMediaSample on a file with contents: a frame that is read behind its header.
use foodie_note.Mp3.Ends.{
  Contents, Ends, Ends-mono, behind-Ends, if_Ends, seek-Ends, read_bytes-Ends, size_known,
}
use foodie_note.Mp3.File.{PvFile, Error, success, end_of_file, get_current_file_size}
use foodie_note.Mp3.Floats.{Floats}
use foodie_note.Mp3.Header.{ConfigInfo}
use foodie_note.Mp3.Sample.{Sample, take_timestamp, at_file_end, read_body, deliver}
use foodie_note.Mp3.SampleEnter.{At}
use foodie_note.Mp3.SampleHeader.{members, read_into_eq}
use foodie_note.Mp3.State.{Mp3Parser, behind}
use foodie_note.Prelude.Int.{neg}
use foodie_note.Prelude.{
  ℕ, zero, suc, ◌+◌, ◌-◌, ◌%◌, ◌^◌, ◌≤◌, ◌<◌, ◌≡◌, ◌≢◌, ◌⊎◌, inl, inr, ◌∙◌, refl, sym, ap, subst,
  arith, false, not, ◌&&◌, Option, some, List, [], ◌∷◌, ◌++◌, ◌==◌, ltb, take, drop, drop_sum,
  length, ltb_false→le,
}

take_parts : (m n : ℕ) (xs : List ℕ) → take m xs ++ take n (drop m xs) ≡ take (m + n) xs
take_parts zero n xs = ap (λ i. take i xs) (omega arith)
take_parts (suc m) zero [] = let e : suc m + 0 ≡ suc m = omega arith in rw e refl
take_parts (suc m) (suc n) [] = let e : suc m + suc n ≡ suc (m + suc n) = omega arith in rw e refl
take_parts (suc m) n (x ∷ xs) =
    let e : suc m + n ≡ suc (m + n) = omega arith in rw e (ap (λ ys. x ∷ ys) (take_parts m n xs))

-- The test against the size of the file.
fits_file :
    (all position l : ℕ)
    → 4 ≤ l
    → position ≤ all
    → 4 ≤ position
    → position + l < 2 ^ 32
    → (not (all == 0) && ltb all ((position + (l - 4)) % 2 ^ 32)) ≡ false
    → position + l ≤ all + 4
fits_file all position l long inside behind_header fits h = ground arith

module _ (f : PvFile) (c : Contents f) where
  open f use {State, tell}
  open c use {bytes}

  frame_taken :
      (here l : ℕ)
      → 4 ≤ l
      → take 4 (drop here bytes) ++ take (l - 4) (drop (here + 4) bytes) ≡ take l (drop here bytes)
  frame_taken here l h =
      ap (λ xs. take 4 (drop here bytes) ++ take (l - 4) xs) (drop_sum here 4 bytes)
      ∙ take_parts 4 (l - 4) (drop here bytes)
      ∙ ap (λ i. take i (drop here bytes)) (omega arith)

  -- No early return.
  abbrev pub Never : Error → Mp3Parser State → Type 0
  Never e q = ⊥

  -- A result that is not a success: the frame is not counted, except at the end of the content.
  abbrev pub Failed : ℕ → Sample → Mp3Parser State → Type 0
  Failed k s q =
      (s.error ≢ success)
      × ((q.curr_frame_number ≡ k) ⊎ ((s.error ≡ end_of_file) × (q.curr_frame_number ≡ k + 1)))

  -- The frame at `here` of length `l`, with the file behind it.
  abbrev pub Delivered : ℕ → ℕ → ℕ → ℕ → Sample → Mp3Parser State → Type 0
  Delivered here l k ts s q =
      (s.error ≡ success)
      × (s.framesize ≡ l)
      × (s.frame_bytes ≡ take l (drop here bytes))
      × (s.sample_timestamp ≡ ts)
      × (here + l ≤ length bytes)
      × (tell q.input ≡ here + l)
      × (q.curr_frame_number ≡ k + 1)

  abbrev pub Sampled : ℕ → ℕ → ℕ → ℕ → Sample → Mp3Parser State → Type 0
  Sampled here l k ts s q = Delivered here l k ts s q ⊎ Failed k s q

  abbrev Stamped : ℕ → ℕ → ℕ → ℕ → Mp3Parser State → Type 0
  Stamped position k ts t q = (t ≡ ts) × (tell q.input ≡ position) × (q.curr_frame_number ≡ k)

  take_timestamp-Ends :
      (n : Floats) (c : ConfigInfo) (position k ts : ℕ) (p : Mp3Parser State)
      → tell p.input ≡ position
      → p.curr_frame_number ≡ k
      → p.timestamp ≡ ts
      → Ends (Stamped position k ts) Never (take_timestamp n c p)
  unfolding take_timestamp behind
  take_timestamp-Ends n c position k ts p at count time = (time, at, count)

  at_file_end-Ends :
      (n : Floats) (cfg : ConfigInfo) (here k ts : ℕ) (p : Mp3Parser State)
      → here + 4 ≤ length bytes
      → At f c (here + 4) (k + 1) ts p
      → Ends (Failed k) Never (at_file_end f n cfg p)
  unfolding at_file_end
  at_file_end-Ends n cfg here k ts p inside (at, count, time, off) =
      behind-Ends
        (λ u q. (tell q.input ≡ here + 4) × (q.curr_frame_number ≡ k) × (q.timestamp ≡ ts))
        (Failed k) Never _ _ (at, omega arith, time)
        (λ u q (at', count', time').
          behind-Ends (Stamped (here + 4) k ts) (Failed k) Never _ _
            (take_timestamp-Ends n cfg (here + 4) k ts q at' count' time')
            (λ t q (is_ts, at2, count2).
              behind-Ends (λ b r. Stamped (here + 4) k ts t r) (Failed k) Never _ _
                (is_ts, at2, count2)
                (λ b r (is_ts', at3, count3).
                  if_Ends (Failed k) Never b _ _ r (λ ended. ((λ e. cc), inl count3))
                    (λ going.
                      behind-Ends (λ e r'. (e ≡ success) × (r'.curr_frame_number ≡ k)) (Failed k)
                        Never _ _
                        (seek-Ends f c (λ e r'. (e ≡ success) × (r'.curr_frame_number ≡ k)) Never
                          (neg 4) r (omega arith) (omega arith) (omega arith)
                          (λ s moved. (refl, count3)))
                        (λ e r' (good, count4). rw good ((λ h. cc), inl count4))))))

  read_body-Ends :
      (size here k ts : ℕ) (cfg : ConfigInfo) (p : Mp3Parser State)
      → 24 ≤ cfg.frame_length_in_bytes
      → cfg.frame_length_in_bytes ≤ size
      → here + cfg.frame_length_in_bytes ≤ length bytes
      → tell p.input ≡ here + 4
      → p.curr_frame_number ≡ k + 1
      → Ends
          (Delivered here cfg.frame_length_in_bytes k ts)
          Never
          (read_body f size cfg (take 4 (drop here bytes)) ts p)
  unfolding read_body
  read_body-Ends size here k ts cfg p long room inside at count =
      let l = cfg.frame_length_in_bytes in
      let Got : Option (List ℕ) → Mp3Parser State → Type 0 = λ o q.
        (o ≡ some (take (l - 4) (drop (here + 4) bytes)))
        × (tell q.input ≡ here + l)
        × (q.curr_frame_number ≡ k + 1) in
      behind-Ends Got (Delivered here l k ts) Never _ _
        (subst (λ r. Ends Got Never r)
          (sym (read_into_eq f c (members p) (size - 4) (l - 4) p (omega arith)))
          (read_bytes-Ends f c Got Never (l - 4) p (λ t back few. absurd (omega arith))
            (λ t moved enough.
              (ap (λ i. some (take (l - 4) (drop i bytes))) at, omega arith, count))))
        (λ o q (e, at', count').
          rw e (refl, refl, frame_taken here l (omega arith), refl, inside, at', count'))

  pub deliver-Ends :
      (n : Floats) (size here k ts : ℕ) (cfg : ConfigInfo) (p : Mp3Parser State)
      → 24 ≤ cfg.frame_length_in_bytes
      → cfg.frame_length_in_bytes ≤ 1441
      → length bytes + 1441 < 2 ^ 32
      → here + 4 ≤ length bytes
      → At f c (here + 4) (k + 1) ts p
      → Ends
          (Sampled here cfg.frame_length_in_bytes k ts)
          Never
          (deliver f n size cfg (take 4 (drop here bytes)) p)
  unfolding deliver
  deliver-Ends n size here k ts cfg p long short fits inside (at, count, time, off) =
      let l = cfg.frame_length_in_bytes in
      let known = size_known f c p.input (omega arith) in
      if_Ends (Sampled here l k ts) Never
        (not (get_current_file_size f p.input == 0)
          && ltb (get_current_file_size f p.input) ((tell p.input + (l - 4)) % 2 ^ 32))
        (at_file_end f n cfg) _ p
        (λ beyond.
          Ends-mono (Failed k) (Sampled here l k ts) Never (at_file_end f n cfg p)
            (at_file_end-Ends n cfg here k ts p inside (at, count, time, off))
            (λ s q failed. inr failed))
        (λ held.
          let room =
            fits_file (get_current_file_size f p.input) (tell p.input) l (omega arith) (omega arith)
              (omega arith) (omega arith) held in
          if_Ends (Sampled here l k ts) Never (ltb size l) _ _ p
            (λ small.
              behind-Ends (λ u q. q.curr_frame_number ≡ k) (Sampled here l k ts) Never _ _
                (omega arith) (λ u q same. inr ((λ e. cc), inl same)))
            (λ roomy.
              behind-Ends (Stamped (here + 4) (k + 1) ts) (Sampled here l k ts) Never _ _
                (take_timestamp-Ends n cfg (here + 4) (k + 1) ts p at count time)
                (λ t q (is_ts, at', count').
                  behind-Ends (λ b r. Stamped (here + 4) (k + 1) ts t r) (Sampled here l k ts) Never
                    _ _ (is_ts, at', count')
                    (λ b r (is_ts', at2, count2).
                      if_Ends (Sampled here l k ts) Never b _ _ r
                        (λ ended. inr ((λ e. cc), inr (refl, count2)))
                        (λ going.
                          Ends-mono (Delivered here l k t) (Sampled here l k ts) Never _
                            (read_body-Ends size here k t cfg r long (ltb_false→le size l roomy)
                              (omega (arith, known, room)) at2 count2)
                            (λ s q' s_ok. inl (
                              s_ok.0,
                              s_ok.1,
                              s_ok.2,
                              s_ok.3 ∙ is_ts',
                              s_ok.4,
                              s_ok.5,
                              s_ok.6,
                            )))))))
