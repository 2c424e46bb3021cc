-- ===== src/Mp3/SampleHeader.antt =====
-- GetNextMediaSample on a file with contents, with the CRC check off: the header of the next frame.
use foodie_note.Mp3.Ends.{Contents, Ends, behind-Ends, if_Ends, seek-Ends, read_bytes-Ends}
use foodie_note.Mp3.File.{PvFile, Error, success, end_of_file, file_hdr_read_err}
use foodie_note.Mp3.Frame.{header_word}
use foodie_note.Mp3.Header.{get_mp3_header}
use foodie_note.Mp3.Kept.{Ends-and, find_sync-Keeps}
use foodie_note.Mp3.Sample.{
  is_at_end, read_into, or_insufficient, read_header, or_end, recover, accept_or_recover,
  find_header,
}
use foodie_note.Mp3.State.{Mp3Parser, Call, pure, end_with, overflow, read_bytes}
use foodie_note.Mp3.Sync.{find_sync}
use foodie_note.Mp3.SyncFound.{FoundFrame, find_sync-Ends}
use foodie_note.Prelude.Int.{pos, neg}
use foodie_note.Prelude.{
  ℕ, suc, ◌+◌, ◌*◌, ◌≤◌, ◌≡◌, ◌≢◌, ◌∙◌, refl, sym, ap, subst, arith, Bool, true, false, Option,
  none, some, ◌⊎◌, inl, inr, List, [], ◌∷◌, ltb, if◌then◌else◌, take, drop, length, le→ltb_false,
}

-- The members that finding a header leaves alone.
abbrev pub members : {S : Type 0} → Mp3Parser S → ℕ × ℕ × Bool
members p = (p.curr_frame_number, p.timestamp, p.enable_crc_calc)

pub header_word-take4 : (xs : List ℕ) → header_word (take 4 xs) ≡ header_word xs
unfolding header_word
header_word-take4 [] = refl
header_word-take4 (a ∷ []) = refl
header_word-take4 (a ∷ b ∷ []) = refl
header_word-take4 (a ∷ b ∷ c ∷ []) = refl
header_word-take4 (a ∷ b ∷ c ∷ d ∷ xs) = refl

pub or_end-Ends :
    {S : Type 0} (P : Mp3Parser S → Type 0) (E : Error → Mp3Parser S → Type 0) (e : Error)
    (t : Mp3Parser S)
    → e ≡ success
    → P t
    → Ends (λ u q. P q) E (or_end e t)
unfolding or_end
or_end-Ends P E e t good h = rw good h

module _ (f : PvFile) (c : Contents f) (v : ℕ × ℕ × Bool) where
  open f use {State, tell, read, read_at_most}
  open c use {bytes}

  -- The header at a position, with the file behind it.
  abbrev pub HeaderAt : ℕ → List ℕ → Mp3Parser State → Type 0
  HeaderAt here bs q =
      (bs ≡ take 4 (drop here bytes))
      × (tell q.input ≡ here + 4)
      × (here + 4 ≤ length bytes)
      × (members q ≡ v)

  -- A failure, with the members as they were.
  abbrev pub Lost : Error → Mp3Parser State → Type 0
  Lost e q = (e ≢ success) × (members q ≡ v)

  -- Only the file has been moved.
  abbrev Moved : Mp3Parser State → Mp3Parser State → Type 0
  Moved p q = (t : State) × (q ≡ record p { input = t })

  abbrev MovedHeader : Mp3Parser State → ℕ → List ℕ → Mp3Parser State → Type 0
  MovedHeader p here bs q = HeaderAt here bs q × Moved p q

  pub read_into_eq :
      (room n : ℕ) (p : Mp3Parser State) → n ≤ room → read_into f room n p ≡ read_bytes f n p
  unfolding read_into
  read_into_eq room n p h =
      let fits : ltb room (length (read p.input n).0) ≡ false =
        le→ltb_false room (length (read p.input n).0) (omega (arith, read_at_most p.input n)) in
      ap (λ b. (if b then overflow else read_bytes f n) p) fits

  abbrev ReadHeader : Mp3Parser State → ℕ → Option (List ℕ) → Mp3Parser State → Type 0
  ReadHeader p here o q =
      ((o ≡ none) × (members q ≡ v)) ⊎ ((bs : List ℕ) × (o ≡ some bs) × MovedHeader p here bs q)

  pick_header :
      (p : Mp3Parser State) (here : ℕ) (o : Option (List ℕ)) (q : Mp3Parser State)
      → ReadHeader p here o q
      → Ends (MovedHeader p here) Lost (or_insufficient f o q)
  unfolding or_insufficient
  pick_header p here o q (inl (missing, same)) = rw missing ((λ e. cc), same)
  pick_header p here o q (inr (bs, got, held)) = rw got held

  read_header-Ends :
      (size here : ℕ) (p : Mp3Parser State)
      → 4 ≤ size
      → tell p.input ≡ here
      → here ≤ length bytes
      → members p ≡ v
      → Ends (MovedHeader p here) Lost (read_header f size here p)
  unfolding read_header
  read_header-Ends size here p room at inside same =
      if_Ends (MovedHeader p here) Lost (is_at_end f (here + 4) p) (end_with end_of_file) _ p
        (λ ended. ((λ e. cc), same))
        (λ going.
          behind-Ends (ReadHeader p here) (MovedHeader p here) Lost _ _
            (subst (λ r. Ends (ReadHeader p here) Lost r) (sym (read_into_eq size 4 p room))
              (read_bytes-Ends f c (ReadHeader p here) Lost 4 p (λ t back few. inl (refl, same))
                (λ t moved room4.
                  inr (_, refl, ((rw at refl, omega arith, omega arith, same), (t, refl))))))
            (pick_header p here))

  -- A header that GetMP3Header accepts, at its position, not before another.
  abbrev pub FoundHeader : ℕ → ℕ × List ℕ → Mp3Parser State → Type 0
  FoundHeader from x q =
      (from ≤ x.0) × HeaderAt x.0 x.1 q × ((get_mp3_header (header_word (drop x.0 bytes))).1 ≡ true)

  pub word_at :
      (here : ℕ) (bs : List ℕ)
      → bs ≡ take 4 (drop here bytes)
      → header_word bs ≡ header_word (drop here bytes)
  word_at here bs e = ap header_word e ∙ header_word-take4 (drop here bytes)

  accepted-Ends :
      (from here : ℕ) (bs : List ℕ) (q : Mp3Parser State) (other : Call State (ℕ × List ℕ))
      → from ≤ here
      → HeaderAt here bs q
      → Ends (FoundHeader from) Lost (other q)
      → Ends
          (FoundHeader from)
          Lost
          ((if (get_mp3_header (header_word bs)).1 then pure (here, bs) else other) q)
  accepted-Ends from here bs q other later held rest =
      if_Ends (FoundHeader from) Lost (get_mp3_header (header_word bs)).1 (pure (here, bs)) other q
        (λ good.
          (later, held, ap (λ w. (get_mp3_header w).1) (sym (word_at here bs held.0)) ∙ good))
        (λ bad. rest)

  -- The position of a frame that is found, with the members.
  abbrev Synced : ℕ → ℕ → Mp3Parser State → Type 0
  Synced here off q = FoundFrame f c here off q × (members q ≡ v)

  find_sync-members :
      (m here : ℕ) (p : Mp3Parser State)
      → p.init_search_file_size ≤ m * 627
      → tell p.input ≡ here
      → members p ≡ v
      → Ends (Synced here) Lost (find_sync f (suc m) here p)
  find_sync-members m here p enough at same =
      Ends-and members v (FoundFrame f c here) _ (find_sync f (suc m) here p)
        (find_sync-Ends f c here m here p enough at)
        (find_sync-Keeps f members (λ p t. refl) (λ p l b i. refl) (suc m) here p ∙ same)

  abbrev AtHeader : ℕ → ℕ → Error → Mp3Parser State → Type 0
  AtHeader here m e q =
      (tell q.input ≡ here) × (q.init_search_file_size ≤ m * 627) × (members q ≡ v)

  abbrev AtOffset : ℕ → Mp3Parser State → Type 0
  AtOffset there q = (tell q.input ≡ there) × (members q ≡ v)

  recover-Ends :
      (m size here : ℕ) (p : Mp3Parser State)
      → 4 ≤ size
      → p.init_search_file_size ≤ m * 627
      → tell p.input ≡ here + 4
      → here + 4 ≤ length bytes
      → members p ≡ v
      → Ends (FoundHeader here) Lost (recover f (suc m) size here p)
  unfolding recover
  recover-Ends m size here p room enough at inside same =
      behind-Ends (AtHeader here m) (FoundHeader here) Lost _ _
        (seek-Ends f c (AtHeader here m) Lost (neg 4) p (omega arith) (omega arith) (omega arith)
          (λ t moved. (omega arith, enough, same)))
        (λ e q (back, enough', same').
          behind-Ends (Synced here) (FoundHeader here) Lost _ _
            (find_sync-members m here q enough' back same')
            (λ off r ((there, gap, within, frame), same2).
              behind-Ends (λ e t. (e ≡ success) × AtOffset (here + off) t) (FoundHeader here) Lost _
                _
                (seek-Ends f c (λ e t. (e ≡ success) × AtOffset (here + off) t) Lost (pos off) r
                  (omega arith) (omega arith) (omega arith)
                  (λ t moved. (refl, (omega arith, same2))))
                (λ e t (good, at_off).
                  behind-Ends (λ u t. AtOffset (here + off) t) (FoundHeader here) Lost _ _
                    (or_end-Ends (AtOffset (here + off)) Lost e t good at_off)
                    (λ u t (at_off, same3).
                      behind-Ends (MovedHeader t (here + off)) (FoundHeader here) Lost _ _
                        (read_header-Ends size (here + off) t room at_off (omega arith) same3)
                        (λ bs q (held, moved).
                          accepted-Ends here (here + off) bs q (end_with file_hdr_read_err)
                            (omega arith) held ((λ e. cc), held.3))))))

  -- The header of the next frame is found, at the position of the file or behind it, or the parser
  -- fails.
  pub find_header-Ends :
      (m size : ℕ) (p : Mp3Parser State)
      → 4 ≤ size
      → p.init_search_file_size ≤ m * 627
      → tell p.input ≤ length bytes
      → members p ≡ v
      → Ends (FoundHeader (tell p.input)) Lost (find_header f (suc m) size p)
  unfolding find_header accept_or_recover
  find_header-Ends m size p room enough inside same =
      let here = tell p.input in
      behind-Ends (MovedHeader p here) (FoundHeader here) Lost _ _
        (read_header-Ends size here p room refl inside same)
        (λ bs q (held, (t, moved)).
          let kept : q.init_search_file_size ≡ p.init_search_file_size =
            ap (λ r. r.init_search_file_size) moved in
          accepted-Ends here here bs q (recover f (suc m) size here) (omega arith) held
            (recover-Ends m size here q room (omega arith) held.1 held.2 held.3))
