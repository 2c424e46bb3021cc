-- ===== src/Mp3/FrameRestore.antt =====
-- IsValidFrameHeader leaves the file where it found it, and what its success means.
use foodie_note.Mp3.File.{
  PvFile, Error, success, seek_cur_pos, seek_to_offset, relative_offset, get_current_file_size,
  read_byte_data,
}
use foodie_note.Mp3.Frame.{
  decode_word, Next, give_up, go_on, behind_read, behind_seek, behind_first, read_next, follow,
  verdict, fourth, third, second, is_valid_frame_header,
}
use foodie_note.Mp3.Header.{ConfigInfo}
use foodie_note.Prelude.Int.{ℤ, pos, pos_part, neg_part, neg, sub_ℕ, neg_parts, sub_ℕ_parts}
use foodie_note.Prelude.{
  ℕ, ◌+◌, ◌≤◌, ◌≡◌, ◌≢◌, inl, inr, refl, arith, true, ◌||◌, Option, none, some, List, leb, ltb,
  length, Bool-cases, Option-cases,
}

module _ (f : PvFile) where
  open f use {State, tell, seek_cur, read, seek_moves, seek_back, read_moves, read_at_most}

  -- A seek backwards arrives.
  back_arrives :
      (s : State) (k : ℕ)
      → k ≤ tell s
      → tell (seek_to_offset f s (neg k) seek_cur_pos).1 + k ≡ tell s
  unfolding seek_to_offset relative_offset
  back_arrives s k h =
      let (t, e) = seek_back s k h in
      let z : leb (pos_part (neg k)) 0 ≡ true = ground (arith, neg_parts k) in
      rw (z, e) (omega (arith, neg_parts k, seek_moves s (neg k) t e))

  -- Any seek moves by its offset, or fails and stays.
  abbrev Moved : State → ℤ → Error × State → Type 0
  Moved s off (success, t) = tell t + neg_part off ≡ tell s + pos_part off
  Moved s off (_, t) = tell t ≡ tell s

  seek_Moved : (s : State) (off : ℤ) → Moved s off (seek_to_offset f s off seek_cur_pos)
  unfolding seek_to_offset relative_offset
  seek_Moved s off =
      elim (Bool-cases (leb (pos_part off) 0 || leb (pos_part off) (get_current_file_size f s))) [
        | inl inside ↦ rw inside (elim (Option-cases (seek_cur s off)) [
          | inl failed ↦ rw failed refl
          | inr (t, e) ↦ rw e (seek_moves s off t e)
        ])
        | inr outside ↦ rw outside refl
      ]

  -- A read moves over the bytes, or puts the file back.
  abbrev Took : State → ℕ → Option (List ℕ) × State → Type 0
  Took s n (none, t) = tell t ≡ tell s
  Took s n (some bs, t) = (tell t ≡ tell s + n) × (length bs ≡ n)

  read_Took : (s : State) (n : ℕ) → Took s n (read_byte_data f s n)
  unfolding read_byte_data
  read_Took s n =
      let moved = read_moves s n in
      let few = read_at_most s n in
      elim (Bool-cases (ltb (length (read s n).0) n)) [
        | inl short ↦
            let (t, e) = seek_back (read s n).1 (length (read s n).0) (omega arith) in
            rw (short, e)
              (omega (
                arith,
                neg_parts (length (read s n).0),
                seek_moves (read s n).1 (neg (length (read s n).0)) t e,
              ))
        | inr full ↦ rw full (ground arith, ground arith)
      ]

  -- Where a step towards the next header leaves the file: back at `p`, or behind that header.
  abbrev Placed : ℕ → ℕ → Next State → Type 0
  Placed p back (give_up e t) = (tell t ≡ p) × (e ≢ success)
  Placed p back (go_on c t) = tell t ≡ p + back + 4

  behind_read-Placed :
      (p back : ℕ) (s : State) (r : Option (List ℕ) × State)
      → tell s ≡ p + back
      → Took s 4 r
      → Placed p back (behind_read f back r)
  unfolding behind_read
  behind_read-Placed p back s (none, t) h took =
      (omega (arith, back_arrives t back (omega arith)), (cc))
  behind_read-Placed p back s (some bs, t) h took = omega arith

  read_next-Placed :
      (p back : ℕ) (s : State) → tell s ≡ p + back → Placed p back (read_next f back s)
  unfolding read_next
  read_next-Placed p back s h = behind_read-Placed p back s (read_byte_data f s 4) h (read_Took s 4)

  gave_up :
      (p back flength : ℕ) (s : State) (e : Error) (t : State)
      → tell s ≡ p + back + 4
      → e ≢ success
      → tell t ≡ tell s
      → Placed p (back + flength) (give_up e (seek_to_offset f t (neg (back + 4)) seek_cur_pos).1)
  gave_up p back flength s e t h bad same =
      (omega (arith, back_arrives t (back + 4) (omega arith)), bad)

  behind_seek-Placed :
      (p back flength : ℕ) (s : State) (r : Error × State)
      → tell s ≡ p + back + 4
      → Moved s (sub_ℕ flength 4) r
      → Placed p (back + flength) (behind_seek f back flength r)
  unfolding behind_seek
  behind_seek-Placed p back flength s (success, t) h moved =
      read_next-Placed p (back + flength) t (omega (arith, sub_ℕ_parts flength 4))
  behind_seek-Placed p back flength s (_, t) h moved = gave_up p back flength s _ t h (cc) moved

  follow-Placed :
      (p back flength : ℕ) (s : State)
      → tell s ≡ p + back + 4
      → Placed p (back + flength) (follow f back flength s)
  unfolding follow
  follow-Placed p back flength s h =
      behind_seek-Placed p back flength s _ h (seek_Moved s (sub_ℕ flength 4))

  fourth_restores :
      (p back : ℕ) (c1 c2 c3 : ConfigInfo) (n : Next State)
      → Placed p back n
      → tell (fourth f back c1 c2 c3 n).1 ≡ p
  unfolding fourth verdict
  fourth_restores p back c1 c2 c3 (give_up e t) placed = placed.0
  fourth_restores p back c1 c2 c3 (go_on c4 t) placed =
      omega (arith, back_arrives t (back + 4) (omega arith))

  third_restores :
      (p back : ℕ) (c1 c2 : ConfigInfo) (n : Next State)
      → Placed p back n
      → tell (third f back c1 c2 n).1 ≡ p
  unfolding third
  third_restores p back c1 c2 (give_up e t) placed = placed.0
  third_restores p back c1 c2 (go_on c3 t) placed =
      fourth_restores p (back + c3.frame_length_in_bytes) c1 c2 c3 _
        (follow-Placed p back c3.frame_length_in_bytes t placed)

  second_restores :
      (p : ℕ) (c1 : ConfigInfo) (n : Next State)
      → Placed p c1.frame_length_in_bytes n
      → tell (second f c1 n).1 ≡ p
  unfolding second
  second_restores p c1 (give_up e t) placed = placed.0
  second_restores p c1 (go_on c2 t) placed =
      third_restores p (c1.frame_length_in_bytes + c2.frame_length_in_bytes) c1 c2 _
        (follow-Placed p c1.frame_length_in_bytes c2.frame_length_in_bytes t placed)

  behind_first_restores :
      (c1 : ConfigInfo) (s : State) (r : Error × State)
      → Moved s (pos c1.frame_length_in_bytes) r
      → tell (behind_first f c1 r).1 ≡ tell s
  unfolding behind_first
  behind_first_restores c1 s (success, t) moved =
      second_restores (tell s) c1 _
        (read_next-Placed (tell s) c1.frame_length_in_bytes t (omega arith))
  behind_first_restores c1 s (_, t) moved = moved

  -- Whatever the file holds and on whatever path the check ends, it leaves the file at the position
  -- at which it found it.
  pub is_valid_frame_header_restores :
      (w : ℕ) (s : State) → tell (is_valid_frame_header f w s).1 ≡ tell s
  unfolding is_valid_frame_header
  is_valid_frame_header_restores w s = ground (
    arith,
    behind_first_restores (decode_word w).0 s
        (seek_to_offset f s (pos (decode_word w).0.frame_length_in_bytes) seek_cur_pos)
        (seek_Moved s (pos (decode_word w).0.frame_length_in_bytes)),
  )
