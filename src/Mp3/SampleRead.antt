-- ===== src/Mp3/SampleRead.antt =====
-- GetNextMediaSample on a file with contents, with the CRC check off: what it hands out.
use foodie_note.Mp3.Ends.{Contents, Ends, Ends-mono, behind-Ends, if_Ends}
use foodie_note.Mp3.File.{PvFile, Error}
use foodie_note.Mp3.Floats.{Floats}
use foodie_note.Mp3.Frame.{header_word, decode_word}
use foodie_note.Mp3.Header.{get_mp3_header}
use foodie_note.Mp3.Sample.{
  Sample, enter_frame, deliver, from_begin, returned, get_next_media_sample,
}
use foodie_note.Mp3.SampleEnter.{At, Entered, Uncounted, enter_frame-Ends, frame_length_bounds}
use foodie_note.Mp3.SampleDeliver.{Never, Failed, Delivered, Sampled, deliver-Ends}
use foodie_note.Mp3.SampleHeader.{members, FoundHeader, Lost, header_word-take4, find_header-Ends}
use foodie_note.Mp3.State.{Mp3Parser, Exit, went, ended, overrun, running, Call, ◌>>=◌}
use foodie_note.Prelude.{
  ℕ, suc, ◌+◌, ◌*◌, ◌^◌, ◌≤◌, ◌<◌, ◌≡◌, ◌≢◌, ◌⊎◌, inl, inr, ◌∙◌, refl, sym, ap, subst, true, false,
  if◌then◌else◌, take, drop, length,
}

module _ (f : PvFile) (c : Contents f) where
  open f use {State, tell}
  open c use {bytes}

  -- The header of the frame at a position, as a word.
  abbrev pub word : ℕ → ℕ
  word here = header_word (take 4 (drop here bytes))

  -- The frame at some position, its header accepted, handed out.
  abbrev pub FrameOut : ℕ → ℕ → ℕ → Sample → Mp3Parser State → Type 0
  FrameOut from k ts s q =
      (here : ℕ) × (from ≤ here)
      × ((get_mp3_header (word here)).1 ≡ true)
      × ((decode_word (word here)).1 ≡ true)
      × Delivered f c here (decode_word (word here)).0.frame_length_in_bytes k ts s q

  abbrev pub Result : ℕ → ℕ → ℕ → Sample → Mp3Parser State → Type 0
  Result from k ts s q = FrameOut from k ts s q ⊎ Failed f c k s q

  true_ne_false : true ≢ false
  true_ne_false h = cc

  Ends-weaken :
      {A : Type 0} (Q : A → Mp3Parser State → Type 0) (D E : Error → Mp3Parser State → Type 0)
      (r : Exit A × Mp3Parser State)
      → Ends Q D r
      → ((e : Error) (q : Mp3Parser State) → D e q → E e q)
      → Ends Q E r
  Ends-weaken Q D E (went a, q) h next = h
  Ends-weaken Q D E (ended e, q) h next = next e q h
  Ends-weaken Q D E (overrun, q) h next = h
  Ends-weaken Q D E (running, q) h next = h

  frame_out :
      (from here k ts : ℕ) (s : Sample) (q : Mp3Parser State)
      → from ≤ here
      → (get_mp3_header (word here)).1 ≡ true
      → (decode_word (word here)).1 ≡ true
      → Sampled f c here (decode_word (word here)).0.frame_length_in_bytes k ts s q
      → Result from k ts s q
  frame_out from here k ts s q later accepted decoded (inl out) =
      inl (here, later, accepted, decoded, out)
  frame_out from here k ts s q later accepted decoded (inr failed) = inr failed

  -- Behind the header of the frame at `here`.
  behind_header-Ends :
      (n : Floats) (m size from here k ts : ℕ) (again : Call State Sample) (p : Mp3Parser State)
      → from ≤ here
      → length bytes + 1441 < 2 ^ 32
      → here + 4 ≤ length bytes
      → (get_mp3_header (word here)).1 ≡ true
      → At f c (here + 4) k ts p
      → Ends (Result from k ts) (Uncounted f c k) (
          (do
            goes_on ← enter_frame f m here (word here)
            if goes_on
                then deliver f n size (decode_word (word here)).0 (take 4 (drop here bytes))
                else again)
            p)
  behind_header-Ends n m size from here k ts again p later fits inside accepted at =
      behind-Ends (Entered f c (word here) here k ts) (Result from k ts) (Uncounted f c k) _ _
        (enter_frame-Ends f c m here (word here) k ts p inside at)
        (λ goes_on q (going, decoded, at_header).
          let (long, short) = frame_length_bounds (word here) accepted decoded in
          if_Ends (Result from k ts) (Uncounted f c k) goes_on
            (deliver f n size (decode_word (word here)).0 (take 4 (drop here bytes))) again q
            (λ on.
              Ends-weaken (Result from k ts) (Never f c) (Uncounted f c k) _
                (Ends-mono (Sampled f c here (decode_word (word here)).0.frame_length_in_bytes k ts)
                  (Result from k ts) (Never f c) _
                  (deliver-Ends f c n size here k ts (decode_word (word here)).0 q long short fits
                    inside at_header)
                  (λ s r sampled. frame_out from here k ts s r later accepted decoded sampled))
                (λ e r none_such. absurd none_such))
            (λ stop. absurd (true_ne_false (sym going ∙ stop))))

  returned-Ends :
      (from k ts : ℕ) (r : Exit Sample × Mp3Parser State)
      → Ends (Result from k ts) (Uncounted f c k) r
      → Ends (Result from k ts) (Never f c) (returned f r)
  unfolding returned
  returned-Ends from k ts (went s, q) h = h
  returned-Ends from k ts (ended e, q) (bad, same) = inr (bad, inl same)
  returned-Ends from k ts (overrun, q) h = h
  returned-Ends from k ts (running, q) h = h

  from_begin-Ends :
      (n : Floats) (j m size : ℕ) (p : Mp3Parser State)
      → p.enable_crc_calc ≡ false
      → 4 ≤ size
      → p.init_search_file_size ≤ m * 627
      → tell p.input ≤ length bytes
      → length bytes + 1441 < 2 ^ 32
      → Ends
          (Result (tell p.input) p.curr_frame_number p.timestamp)
          (Uncounted f c p.curr_frame_number)
          (from_begin f n (suc j) (suc m) size p)
  unfolding from_begin
  from_begin-Ends n j m size p off room enough inside fits =
      behind-Ends (FoundHeader f c (members p) (tell p.input))
        (Result (tell p.input) p.curr_frame_number p.timestamp) (Uncounted f c p.curr_frame_number)
        _ _
        (Ends-weaken (FoundHeader f c (members p) (tell p.input)) (Lost f c (members p))
          (Uncounted f c p.curr_frame_number) _
          (find_header-Ends f c (members p) m size p room enough inside refl)
          (λ e q (bad, same). (bad, ap (λ v. v.0) same)))
        (λ (here, header) q (later, (e, at, within, same), accepted).
          subst
            (λ hs.
              Ends (Result (tell p.input) p.curr_frame_number p.timestamp)
                (Uncounted f c p.curr_frame_number)
                ((do
                  goes_on ← enter_frame f (suc m) here (header_word hs)
                  if goes_on
                      then deliver f n size (decode_word (header_word hs)).0 hs
                      else from_begin f n j (suc m) size)
                  q))
            (sym e)
            (behind_header-Ends n (suc m) size (tell p.input) here p.curr_frame_number p.timestamp
              (from_begin f n j (suc m) size) q later fits within
              (ap (λ w. (get_mp3_header w).1) (header_word-take4 (drop here bytes)) ∙ accepted)
              (at, ap (λ v. v.0) same, ap (λ v. v.1) same, ap (λ v. v.2) same ∙ off)))

  -- On a file with contents of less than 2 ^ 32 - 1441 bytes, read from a position inside it into a
  -- buffer of four bytes or more, with the CRC check off, with fuel for one block more than the search
  -- for a frame is long: GetNextMediaSample returns. Either it succeeds, then some position of the
  -- file, not before that where it was, has an accepted header, the buffer holds the whole frame that
  -- begins there, with its length and the parser's timestamp, the file stands behind it and the frame
  -- is counted; or it fails, then no frame is counted, or one with MP3_END_OF_FILE.
  pub get_next_media_sample-Ends :
      (n : Floats) (j m size : ℕ) (p : Mp3Parser State)
      → p.enable_crc_calc ≡ false
      → 4 ≤ size
      → p.init_search_file_size ≤ m * 627
      → tell p.input ≤ length bytes
      → length bytes + 1441 < 2 ^ 32
      → Ends
          (Result (tell p.input) p.curr_frame_number p.timestamp)
          (Never f c)
          (get_next_media_sample f n (suc j) (suc m) size p)
  unfolding get_next_media_sample
  get_next_media_sample-Ends n j m size p off room enough inside fits =
      returned-Ends (tell p.input) p.curr_frame_number p.timestamp _
        (from_begin-Ends n j m size p off room enough inside fits)
