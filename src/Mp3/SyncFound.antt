-- ===== src/Mp3/SyncFound.antt =====
-- What mp3FindSync finds in a file with contents.
use foodie_note.Mp3.Ends.{Contents, Ends, behind-Ends, if_Ends, read_bytes-Ends}
use foodie_note.Mp3.File.{PvFile, insufficient_data, end_of_file}
use foodie_note.Mp3.State.{Mp3Parser, Call, pure, end_with}
use foodie_note.Mp3.Sync.{
  behind_search, search_in, search_blocks, max_search_offset, note_current_size, note_search_size,
  behind_blocks, is_behind_content, is_behind_file, find_sync,
}
use foodie_note.Prelude.{
  ℕ, zero, suc, ◌+◌, ◌-◌, ◌*◌, ◌%◌, ◌≤◌, ◌<◌, ◌≡◌, ◌⊎◌, inl, inr, refl, sym, arith, Option, none,
  some, List, get_or, take, drop, drop_sum, drop_at, length, length-drop, length-take, subst, ◌^◌,
  Bool-cases, Option-cases, ltb, ltb→lt,
}
use foodie_note.Mp3.SyncBlock.{Failed, IsFrameAt, Head, FoundIn, search_block-Ends}

module _ (f : PvFile) (c : Contents f) (start : ℕ) where
  open f use {State, tell}
  open c use {bytes}

  -- What is found by the loop over the blocks: a frame that does not begin at the last three
  -- indices of a block.
  abbrev pub FoundFrame : ℕ → Mp3Parser State → Type 0
  FoundFrame n q =
      (tell q.input ≡ start)
      × ((n + 1) % 627 < 624)
      × (start + n + 4 ≤ length bytes)
      × (IsFrameAt f c start) n

  abbrev FoundAny : Option ℕ → Mp3Parser State → Type 0
  FoundAny none q = Unit
  FoundAny (some n) q = FoundFrame n q

  Head-last :
      (j : ℕ)
      → start + j + 627 ≤ length bytes
      → (Head f c start) (get_or (take 627 (drop (start + j) bytes)) 626 0) (j + 627)
  Head-last j room =
      let at_last =
        drop_at 626 627 (drop (start + j) bytes) (omega arith)
          (omega (arith, length-drop (start + j) bytes)) in
      let e : start + (j + 626) ≡ (start + j) + 626 = omega arith in
      let e' : start + (j + 627) ≡ (start + j) + 627 = omega arith in
      inr (
        j + 626,
        omega arith,
        rw (e, e', drop_sum (start + j) 626 bytes, drop_sum (start + j) 627 bytes) at_last,
      )

  behind_search-Ends :
      (j k : ℕ) (found : Option ℕ) (next : Call State (Option ℕ)) (q : Mp3Parser State)
      → j ≡ k * 627
      → (FoundIn f c start) j found q
      → (tell q.input ≡ start + j + 627 → Ends FoundAny Failed (next q))
      → Ends FoundAny Failed (behind_search f j next found q)
  unfolding behind_search
  behind_search-Ends j k none next q e found rest = rest found
  behind_search-Ends j k (some i) next q e (n, at_n, here, small, within, frame) rest =
      let same : j + i - 1 ≡ n = omega arith in rw same (here, omega arith, within, frame)

  search_in-Ends :
      (j k before : ℕ) (next : ℕ → Call State (Option ℕ)) (q : Mp3Parser State)
      → j ≡ k * 627
      → start + j + 627 ≤ length bytes
      → tell q.input ≡ start + j + 627
      → (Head f c start) before j
      → ((b : ℕ) (r : Mp3Parser State)
          → tell r.input ≡ start + j + 627
          → (Head f c start) b (j + 627)
          → Ends FoundAny Failed (next b r))
      → Ends FoundAny Failed
          (search_in f j before next (some (take 627 (drop (start + j) bytes))) q)
  unfolding search_in
  search_in-Ends j k before next q e room here head rest =
      let bs = take 627 (drop (start + j) bytes) in
      let same : j + 0 ≡ j = omega arith in
      if_Ends FoundAny Failed (ltb 3 (length bs)) _ (pure none) q
        (λ long.
          behind-Ends ((FoundIn f c start) j) FoundAny Failed _ _
            (rw same at (
              (search_block-Ends f c start) (length bs - 3) j 0 before q
                (omega (arith, length-take 627 (drop (start + j) bytes))) room here
                (subst (λ z. (Head f c start) before z) (sym same) head)))
            (λ found r searched.
              behind_search-Ends j k found _ r e searched
                (λ behind_it. rest (get_or bs 626 0) r behind_it (Head-last j room))))
        (λ short. tt)

  -- A block that is read, or none.
  abbrev ReadAt : ℕ → Option (List ℕ) → Mp3Parser State → Type 0
  ReadAt j block q =
      (block ≡ none)
      ⊎ ((block ≡ some (take 627 (drop (start + j) bytes)))
          × (start + j + 627 ≤ length bytes)
          × (tell q.input ≡ start + j + 627))

  behind_read-Ends :
      (j k before : ℕ) (next : ℕ → Call State (Option ℕ)) (block : Option (List ℕ))
      (q : Mp3Parser State)
      → j ≡ k * 627
      → (Head f c start) before j
      → ReadAt j block q
      → ((b : ℕ) (r : Mp3Parser State)
          → tell r.input ≡ start + j + 627
          → (Head f c start) b (j + 627)
          → Ends FoundAny Failed (next b r))
      → Ends FoundAny Failed (search_in f j before next block q)
  unfolding search_in
  behind_read-Ends j k before next block q e head (inl missing) rest = rw missing (λ same. cc)
  behind_read-Ends j k before next block q e head (inr (read, room, here)) rest =
      rw read (search_in-Ends j k before next q e room here head rest)

  search_blocks-Ends :
      (m limit j k before : ℕ) (p : Mp3Parser State)
      → j ≡ k * 627
      → limit + 627 ≤ j + m * 627
      → j < limit + 627
      → tell p.input ≡ start + j
      → (Head f c start) before j
      → Ends FoundAny Failed (search_blocks f m limit j before p)
  unfolding search_blocks
  search_blocks-Ends zero limit j k before p e fuel going here head = absurd (omega arith)
  search_blocks-Ends (suc m) limit j k before p e fuel going here head =
      if_Ends FoundAny Failed (ltb j limit) _ (pure none) p
        (λ more.
          behind-Ends (ReadAt j) FoundAny Failed _ _
            (read_bytes-Ends f c (ReadAt j) Failed 627 p (λ t back few. inl refl)
              (λ t moved room. inr (rw here refl, omega arith, omega arith)))
            (λ block q at_block.
              behind_read-Ends j k before _ block q e head at_block (λ b r behind_it next_head.
                search_blocks-Ends m limit (j + 627) (k + 1) b r (omega arith) (omega arith)
                  (omega (arith, ltb→lt j limit more)) (omega arith) next_head)))
        (λ done. tt)

  max_search_offset-le : (p : Mp3Parser State) → max_search_offset f p ≤ p.init_search_file_size
  unfolding max_search_offset
  max_search_offset-le p =
      let size = (p.local_file_size + 2 ^ 32 - tell p.input) % 2 ^ 32 in
      elim (Bool-cases p.local_file_size_set) [
        | inl set ↦ rw set (omega arith)
        | inr unset ↦ rw unset (elim (Option-cases (f.remaining p.input)) [
          | inl unknown ↦ rw unknown (omega arith)
          | inr (r, known) ↦ rw known (omega arith)
        ])
      ]

  -- The members that the search begins with.
  abbrev Begins : ℕ → Mp3Parser State → Type 0
  Begins m q = (tell q.input ≡ start) × (q.init_search_file_size ≤ m * 627)

  note_current_size-Ends :
      (m : ℕ) (p : Mp3Parser State)
      → Begins m p
      → Ends (λ u q. Begins m q) Failed (note_current_size f p)
  unfolding note_current_size
  note_current_size-Ends m p h = h

  note_search_size-Ends :
      (n : ℕ) (p : Mp3Parser State)
      → FoundFrame n p
      → Ends (λ u q. FoundFrame n q) Failed (note_search_size f p)
  unfolding note_search_size
  note_search_size-Ends n p h = h

  behind_blocks-Ends :
      (found : Option ℕ) (q : Mp3Parser State)
      → FoundAny found q
      → Ends FoundFrame Failed (behind_blocks f found q)
  unfolding behind_blocks
  behind_blocks-Ends none q h = λ same. cc
  behind_blocks-Ends (some n) q h =
      behind-Ends (λ u r. FoundFrame n r) FoundFrame Failed _ _ (note_search_size-Ends n q h)
        (λ u r found. found)

  -- On a file with contents, whatever the members of the parser are, with fuel for one block more than
  -- the search is long: mp3FindSync ends. Where it succeeds with an offset, the file stands where it stood before, and
  -- at that offset behind it, four bytes or more before the end, stands a frame that is followed by
  -- three more; the frame does not begin with one of the last three bytes of a block of 627, counted
  -- from the byte before the start.
  pub find_sync-Ends :
      (m seek_point : ℕ) (p : Mp3Parser State)
      → p.init_search_file_size ≤ m * 627
      → tell p.input ≡ start
      → Ends FoundFrame Failed (find_sync f (suc m) seek_point p)
  unfolding find_sync
  find_sync-Ends m seek_point p enough here =
      behind-Ends (λ u q. Begins m q) FoundFrame Failed _ _
        (note_current_size-Ends m p (here, enough))
        (λ u q at_start.
          if_Ends FoundFrame Failed (is_behind_content f seek_point q) (end_with end_of_file) _ q
            (λ outside. λ same. cc)
            (λ inside.
              if_Ends FoundFrame Failed (is_behind_file f seek_point q) (end_with insufficient_data)
                _ q (λ outside. λ same. cc)
                (λ inside.
                  behind-Ends FoundAny FoundFrame Failed _ _
                    (search_blocks-Ends (suc m) (max_search_offset f q) 0 0 0 q (omega arith)
                      (omega (arith, max_search_offset-le q)) (omega arith) (omega arith)
                      (inl refl))
                    behind_blocks-Ends)))
