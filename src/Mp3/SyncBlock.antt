-- ===== src/Mp3/SyncBlock.antt =====
-- What mp3FindSync finds in a block of 627 bytes of a file with contents.
use foodie_note.Mp3.Ends.{Contents, Ends, behind-Ends, if_Ends, drop_next, seek-Ends}
use foodie_note.Mp3.File.{PvFile, Error, success, insufficient_data, seek_cur_pos}
use foodie_note.Mp3.Frame.{header_word, is_valid_frame_header}
use foodie_note.Mp3.FrameRestore.{is_valid_frame_header_restores}
use foodie_note.Mp3.State.{Mp3Parser, pure, seek, ◌>>◌}
use foodie_note.Mp3.Sync.{
  is_marker, is_valid_frame, behind_marker, check_marker, look_at, search_block,
}
use foodie_note.Prelude.Int.{sub_ℕ, sub_ℕ_parts}
use foodie_note.Prelude.{
  ℕ, zero, suc, ◌+◌, ◌-◌, ◌≤◌, ◌<◌, ◌≡◌, ◌≢◌, ◌⊎◌, inl, inr, ◌∙◌, refl, sym, ap, arith, Bool, true,
  false, Option, none, some, List, [], ◌∷◌, if◌then◌else◌, get_or, take, drop, length,
}

header_word-take :
    (k b : ℕ) (xs : List ℕ) → 3 ≤ k → header_word (b ∷ take k xs) ≡ header_word (b ∷ xs)
unfolding header_word
header_word-take zero b xs h = absurd (omega arith)
header_word-take (suc zero) b xs h = absurd (omega arith)
header_word-take (suc (suc zero)) b xs h = absurd (omega arith)
header_word-take (suc (suc (suc k))) b [] h = refl
header_word-take (suc (suc (suc k))) b (x ∷ []) h = refl
header_word-take (suc (suc (suc k))) b (x ∷ y ∷ []) h = refl
header_word-take (suc (suc (suc k))) b (x ∷ y ∷ z ∷ xs) h = refl

take_next :
    (m m' k k' : ℕ) (xs : List ℕ)
    → m < length xs
    → m' ≡ m + 1
    → k ≡ k' + 1
    → (d : ℕ) × (take k (drop m xs) ≡ d ∷ take k' (drop m' xs)) × (drop m xs ≡ d ∷ drop m' xs)
take_next m m' k k' xs h em ek =
    let (d, e) = drop_next m xs h in
    let em' : m' ≡ suc m = omega arith in
    let ek' : k ≡ suc k' = omega arith in (d, rw (em', ek', e) refl, rw (em', e) refl)

-- No failure is a success.
abbrev pub Failed : {S : Type 0} → Error → Mp3Parser S → Type 0
Failed e q = e ≢ success

module _ (f : PvFile) (c : Contents f) (start : ℕ) where
  open f use {State, tell}
  open c use {bytes}

  -- A frame that is followed by three more stands `n` bytes behind the start.
  abbrev pub IsFrameAt : ℕ → Type 0
  IsFrameAt n =
      (t : State) × (tell t ≡ start + n)
      × ((is_valid_frame_header f (header_word (drop (start + n) bytes)) t).0 ≡ success)

  -- What is known of the byte before the offset `next` from the start.
  abbrev pub Head : ℕ → ℕ → Type 0
  Head b next =
      (b ≡ 0)
      ⊎ ((n : ℕ) × (next ≡ n + 1) × (drop (start + n) bytes ≡ b ∷ drop (start + next) bytes))

  is_valid_frame-Ends :
      (b n : ℕ) (xs : List ℕ) (p : Mp3Parser State)
      → tell p.input ≡ start + n
      → header_word (b ∷ xs) ≡ header_word (drop (start + n) bytes)
      → Ends
          (λ e q. (tell q.input ≡ start + n) × ((e ≡ success) → IsFrameAt n))
          Failed
          (is_valid_frame f (b ∷ xs) p)
  unfolding is_valid_frame
  is_valid_frame-Ends b n xs p here word = (
    is_valid_frame_header_restores f (header_word (b ∷ xs)) p.input ∙ here,
    λ good. (p.input, here, ap (λ w. (is_valid_frame_header f w p.input).0) (sym word) ∙ good),
  )

  -- What is found at index `i` of the block `j`.
  abbrev pub FoundAt : ℕ → ℕ → Mp3Parser State → Type 0
  FoundAt j i q =
      (n : ℕ) × (j + i ≡ n + 1)
      × (tell q.input ≡ start)
      × (i < 624)
      × (start + n + 4 ≤ length bytes)
      × IsFrameAt n

  abbrev Looked : ℕ → ℕ → Bool → Mp3Parser State → Type 0
  Looked j i true q = FoundAt j i q
  Looked j i false q = tell q.input ≡ start + j + 627

  -- The seek behind the block.
  skip-Ends :
      (j i n : ℕ) (p : Mp3Parser State)
      → j + i ≡ n + 1
      → i < 624
      → start + j + 627 ≤ length bytes
      → tell p.input ≡ start + n
      → Ends (Looked j i) Failed ((seek f (sub_ℕ 628 i) seek_cur_pos >> pure false) p)
  skip-Ends j i n p next small room here =
      behind-Ends (λ e q. tell q.input ≡ start + j + 627) (Looked j i) Failed _ _
        (seek-Ends f c (λ e q. tell q.input ≡ start + j + 627) Failed (sub_ℕ 628 i) p (omega arith)
          (omega (arith, sub_ℕ_parts 628 i)) (omega (arith, sub_ℕ_parts 628 i))
          (λ t moved. omega (arith, sub_ℕ_parts 628 i)))
        (λ e q moved. moved)

  behind_marker-Ends :
      (j i n : ℕ) (e : Error) (p : Mp3Parser State)
      → j + i ≡ n + 1
      → i < 624
      → start + j + 627 ≤ length bytes
      → tell p.input ≡ start + n
      → ((e ≡ success) → IsFrameAt n)
      → Ends (Looked j i) Failed (behind_marker f j i e p)
  unfolding behind_marker
  behind_marker-Ends j i n success p next small room here good =
      behind-Ends (λ e q. tell q.input ≡ start) (Looked j i) Failed _ _
        (seek-Ends f c (λ e q. tell q.input ≡ start) Failed (sub_ℕ 1 (j + i)) p (omega arith)
          (omega (arith, sub_ℕ_parts 1 (j + i))) (omega (arith, sub_ℕ_parts 1 (j + i)))
          (λ t moved. omega (arith, sub_ℕ_parts 1 (j + i))))
        (λ e q moved. (n, next, moved, small, omega arith, good refl))
  behind_marker-Ends j i n insufficient_data p next small room here good = λ same. cc
  behind_marker-Ends j i n _ p next small room here good = skip-Ends j i n p next small room here

  check_marker-Ends :
      (j i n b : ℕ) (p : Mp3Parser State)
      → j + i ≡ n + 1
      → i < 624
      → start + j + 627 ≤ length bytes
      → tell p.input ≡ start + j + 627
      → drop (start + n) bytes ≡ b ∷ drop (start + (j + i)) bytes
      → Ends
          (Looked j i)
          Failed
          (check_marker f j i (b ∷ take (627 - i) (drop (start + (j + i)) bytes)) p)
  unfolding check_marker
  check_marker-Ends j i n b p next small room here before =
      behind-Ends (λ e q. tell q.input ≡ start + n) (Looked j i) Failed _ _
        (seek-Ends f c (λ e q. tell q.input ≡ start + n) Failed (sub_ℕ i 628) p (omega arith)
          (omega (arith, sub_ℕ_parts i 628)) (omega (arith, sub_ℕ_parts i 628))
          (λ t moved. omega (arith, sub_ℕ_parts i 628)))
        (λ e q at_frame.
          behind-Ends (λ e q. (tell q.input ≡ start + n) × ((e ≡ success) → IsFrameAt n))
            (Looked j i) Failed _ _
            (is_valid_frame-Ends b n _ q at_frame (
              header_word-take (627 - i) b (drop (start + (j + i)) bytes) (omega arith)
              ∙ ap header_word (sym before)))
            (λ e r (restored, good). behind_marker-Ends j i n e r next small room restored good))

  look_at-Ends :
      (j i b : ℕ) (p : Mp3Parser State)
      → i < 624
      → start + j + 627 ≤ length bytes
      → tell p.input ≡ start + j + 627
      → Head b (j + i)
      → Ends
          (Looked j i)
          Failed
          (look_at f j i (b ∷ take (627 - i) (drop (start + (j + i)) bytes)) p)
  unfolding look_at
  look_at-Ends j i b p small room here (inl e) = rw e here
  look_at-Ends j i b p small room here (inr (n, next, before)) =
      let xs = take (627 - i) (drop (start + (j + i)) bytes) in
      if_Ends (Looked j i) Failed (is_marker b (get_or xs 0 0)) (check_marker f j i (b ∷ xs))
        (pure false) p (λ marked. check_marker-Ends j i n b p next small room here before)
        (λ plain. here)

  -- What is found in a block.
  abbrev pub FoundIn : ℕ → Option ℕ → Mp3Parser State → Type 0
  FoundIn j none q = tell q.input ≡ start + j + 627
  FoundIn j (some i) q = FoundAt j i q

  behind_look-Ends :
      (k j i : ℕ) (found : Bool) (q : Mp3Parser State)
      → i < 624
      → start + j + 627 ≤ length bytes
      → Looked j i found q
      → ((d : ℕ)
          → tell q.input ≡ start + j + 627
          → Head d (j + (i + 1))
          → Ends (FoundIn j) Failed (
              search_block f j k
                (i + 1)
                (d ∷ take (627 - (i + 1)) (drop (start + (j + (i + 1))) bytes))
                q))
      → Ends (FoundIn j) Failed (
          (if found
              then pure (some i)
              else search_block f j k (i + 1) (take (627 - i) (drop (start + (j + i)) bytes)))
            q)
  behind_look-Ends k j i true q small room looked rest = looked
  behind_look-Ends k j i false q small room looked rest =
      let (d, taken, left) =
        take_next (start + (j + i)) (start + (j + (i + 1))) (627 - i) (627 - (i + 1)) bytes
          (omega arith) (omega arith) (omega arith) in
      rw taken (rest d looked (inr (j + i, omega arith, left)))

  pub search_block-Ends :
      (k j i b : ℕ) (p : Mp3Parser State)
      → i + k ≤ 624
      → start + j + 627 ≤ length bytes
      → tell p.input ≡ start + j + 627
      → Head b (j + i)
      → Ends
          (FoundIn j)
          Failed
          (search_block f j k i (b ∷ take (627 - i) (drop (start + (j + i)) bytes)) p)
  unfolding search_block
  search_block-Ends zero j i b p small room here head = here
  search_block-Ends (suc k) j i b p small room here head =
      behind-Ends (Looked j i) (FoundIn j) Failed _ _
        (look_at-Ends j i b p (omega arith) room here head)
        (λ found q looked.
          behind_look-Ends k j i found q (omega arith) room looked (λ d behind_it next_head.
            search_block-Ends k j (i + 1) d q (omega arith) room behind_it next_head))
