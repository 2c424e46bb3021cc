-- ===== src/Mp3/Kept.antt =====
-- Members that the search for a frame leaves alone.
use foodie_note.Mp3.File.{PvFile, Error, SeekType, success, insufficient_data, end_of_file}
use foodie_note.Mp3.Ends.{Ends}
use foodie_note.Mp3.State.{
  Mp3Parser, Exit, went, ended, overrun, running, Call, pure, end_with, behind, seek, read_bytes,
  ◌>>=◌,
}
use foodie_note.Mp3.Sync.{
  is_marker, is_valid_frame, behind_marker, check_marker, look_at, search_block, behind_search,
  search_in, search_blocks, note_current_size, note_search_size, behind_blocks, is_behind_content,
  is_behind_file, find_sync, max_sync_buffer_size, max_search_offset,
}
use foodie_note.Prelude.Int.{ℤ}
use foodie_note.Prelude.{
  ℕ, zero, suc, ◌+◌, ◌-◌, ◌≡◌, ◌∙◌, refl, Bool, true, false, Option, none, some, List, ◌∷◌, ltb,
  if◌then◌else◌, get_or, drop, length,
}

-- What a call ends with, and what it leaves alone.
module _ {S A V : Type 0} (view : Mp3Parser S → V) (v : V) (Q : A → Mp3Parser S → Type 0)
    (E : Error → Mp3Parser S → Type 0) where
  pub Ends-and :
      (r : Exit A × Mp3Parser S)
      → Ends Q E r
      → view r.1 ≡ v
      → Ends (λ a q. Q a q × (view q ≡ v)) (λ e q. E e q × (view q ≡ v)) r
  Ends-and (went a, q) h same = (h, same)
  Ends-and (ended e, q) h same = (h, same)
  Ends-and (overrun, q) h same = h
  Ends-and (running, q) h same = h

module _ {S V : Type 0} (view : Mp3Parser S → V) where
  abbrev pub Keeps : {A : Type 0} → Call S A → Type 0
  Keeps m = (p : Mp3Parser S) → view (m p).1 ≡ view p

  behind-Keeps :
      {A B : Type 0} (r : Exit A × Mp3Parser S) (k : A → Call S B)
      → ((a : A) → Keeps (k a))
      → view (behind r k).1 ≡ view r.1
  unfolding behind
  behind-Keeps (went a, q) k h = h a q
  behind-Keeps (ended e, q) k h = refl
  behind-Keeps (overrun, q) k h = refl
  behind-Keeps (running, q) k h = refl

  pub bind-Keeps :
      {A B : Type 0} (m : Call S A) (k : A → Call S B)
      → Keeps m
      → ((a : A) → Keeps (k a))
      → Keeps (m >>= k)
  bind-Keeps m k hm hk p = behind-Keeps (m p) k hk ∙ hm p

  if_Keeps :
      {A : Type 0} (b : Bool) (m k : Call S A) → Keeps m → Keeps k → Keeps (if b then m else k)
  if_Keeps true m k hm hk = hm
  if_Keeps false m k hm hk = hk

-- Views that look neither at the file nor at what the search keeps.
module _ (f : PvFile) {V : Type 0} (view : Mp3Parser f.State → V)
    (ignores_input : (p : Mp3Parser f.State) (t : f.State) → view (record p { input = t }) ≡ view p)
    (ignores_size : (p : Mp3Parser f.State) (l : ℕ) (b : Bool) (i : ℕ)
      → view (record p { local_file_size = l; local_file_size_set = b; init_search_file_size = i })
        ≡ view p) where
  open f use {State}

  seek-Keeps : (off : ℤ) (kind : SeekType) → Keeps view (seek f off kind)
  unfolding seek
  seek-Keeps off kind p = ignores_input p _

  read_bytes-Keeps : (n : ℕ) → Keeps view (read_bytes f n)
  unfolding read_bytes
  read_bytes-Keeps n p = ignores_input p _

  is_valid_frame-Keeps : (bs : List ℕ) → Keeps view (is_valid_frame f bs)
  unfolding is_valid_frame
  is_valid_frame-Keeps bs p = ignores_input p _

  behind_marker-Keeps : (j i : ℕ) (e : Error) → Keeps view (behind_marker f j i e)
  unfolding behind_marker
  behind_marker-Keeps j i success = bind-Keeps view _ _ (seek-Keeps _ _) (λ e p. refl)
  behind_marker-Keeps j i insufficient_data = λ p. refl
  behind_marker-Keeps j i _ = bind-Keeps view _ _ (seek-Keeps _ _) (λ e p. refl)

  look_at-Keeps : (j i : ℕ) (bs : List ℕ) → Keeps view (look_at f j i bs)
  unfolding look_at check_marker
  look_at-Keeps j i bs =
      if_Keeps view (is_marker (get_or bs 0 0) (get_or bs 1 0)) (check_marker f j i bs) (pure false)
        (bind-Keeps view _ _ (seek-Keeps _ _)
          (λ e. bind-Keeps view _ _ (is_valid_frame-Keeps bs) (behind_marker-Keeps j i)))
        (λ p. refl)

  search_block-Keeps : (j k i : ℕ) (bs : List ℕ) → Keeps view (search_block f j k i bs)
  unfolding search_block
  search_block-Keeps j zero i bs = λ p. refl
  search_block-Keeps j (suc k) i bs =
      bind-Keeps view (look_at f j i bs) _ (look_at-Keeps j i bs) (λ found.
        if_Keeps view found (pure (some i)) (search_block f j k (i + 1) (drop 1 bs)) (λ p. refl)
          (search_block-Keeps j k (i + 1) (drop 1 bs)))

  behind_search-Keeps :
      (j : ℕ) (next : Call State (Option ℕ)) (found : Option ℕ)
      → Keeps view next
      → Keeps view (behind_search f j next found)
  unfolding behind_search
  behind_search-Keeps j next none h = h
  behind_search-Keeps j next (some i) h = λ p. refl

  search_in-Keeps :
      (j before : ℕ) (next : ℕ → Call State (Option ℕ)) (block : Option (List ℕ))
      → ((b : ℕ) → Keeps view (next b))
      → Keeps view (search_in f j before next block)
  unfolding search_in
  search_in-Keeps j before next none h = λ p. refl
  search_in-Keeps j before next (some bs) h =
      if_Keeps view (ltb 3 (length bs))
        (search_block f j (length bs - 3) 0 (before ∷ bs)
          >>= behind_search f j (next (get_or bs 626 0)))
        (pure none)
        (bind-Keeps view (search_block f j (length bs - 3) 0 (before ∷ bs))
          (behind_search f j (next (get_or bs 626 0)))
          (search_block-Keeps j (length bs - 3) 0 (before ∷ bs))
          (λ found. behind_search-Keeps j (next (get_or bs 626 0)) found (h _)))
        (λ p. refl)

  search_blocks-Keeps : (m limit j before : ℕ) → Keeps view (search_blocks f m limit j before)
  unfolding search_blocks
  search_blocks-Keeps zero limit j before = λ p. refl
  search_blocks-Keeps (suc m) limit j before =
      if_Keeps view (ltb j limit)
        (read_bytes f max_sync_buffer_size
          >>= search_in f j before (search_blocks f m limit (j + max_sync_buffer_size)))
        (pure none)
        (bind-Keeps view (read_bytes f max_sync_buffer_size)
          (search_in f j before (search_blocks f m limit (j + max_sync_buffer_size)))
          (read_bytes-Keeps _)
          (λ block.
            search_in-Keeps j before (search_blocks f m limit (j + max_sync_buffer_size)) block
              (λ b. search_blocks-Keeps m limit (j + max_sync_buffer_size) b)))
        (λ p. refl)

  note_current_size-Keeps : Keeps view (note_current_size f)
  unfolding note_current_size
  note_current_size-Keeps p = ignores_size p _ _ p.init_search_file_size

  note_search_size-Keeps : Keeps view (note_search_size f)
  unfolding note_search_size
  note_search_size-Keeps p = ignores_size p p.local_file_size p.local_file_size_set _

  behind_blocks-Keeps : (found : Option ℕ) → Keeps view (behind_blocks f found)
  unfolding behind_blocks
  behind_blocks-Keeps none = λ p. refl
  behind_blocks-Keeps (some n) =
      bind-Keeps view (note_search_size f) (λ u. pure n) note_search_size-Keeps (λ u p. refl)

  pub find_sync-Keeps : (m seek_point : ℕ) → Keeps view (find_sync f m seek_point)
  unfolding find_sync
  find_sync-Keeps m seek_point =
      bind-Keeps view (note_current_size f) _ note_current_size-Keeps (λ u p.
        if_Keeps view (is_behind_content f seek_point p) (end_with end_of_file)
          (if is_behind_file f seek_point p
            then end_with insufficient_data
            else search_blocks f m (max_search_offset f p) 0 0 >>= behind_blocks f)
          (λ q. refl)
          (if_Keeps view (is_behind_file f seek_point p) (end_with insufficient_data)
            (search_blocks f m (max_search_offset f p) 0 0 >>= behind_blocks f) (λ q. refl)
            (bind-Keeps view (search_blocks f m (max_search_offset f p) 0 0) (behind_blocks f)
              (search_blocks-Keeps m (max_search_offset f p) 0 0) behind_blocks-Keeps))
          p)
