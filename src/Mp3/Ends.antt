-- ===== src/Mp3/Ends.antt =====
-- How calls on the parser of MP3 files end: what holds of a value and the members behind it, and of
-- an error; and the moves on a file whose contents are known.
use foodie_note.Mp3.File.{
  PvFile, Error, success, seek_cur_pos, seek_to_offset, relative_offset, get_current_file_size,
  read_byte_data,
}
use foodie_note.Mp3.State.{
  Mp3Parser, Exit, went, ended, overrun, running, Call, behind, seek, read_bytes,
}
use foodie_note.Prelude.Int.{ℤ, pos, negsuc, pos_part, neg_part, neg, neg_parts}
use foodie_note.Prelude.{
  ℕ, zero, suc, ◌+◌, ◌-◌, ◌≤◌, ◌<◌, ◌≡◌, refl, ap, arith, Bool, true, false, ◌||◌, Option, none,
  some, List, [], ◌∷◌, leb, ltb, if◌then◌else◌, take, drop, length, length-take, length-drop,
  Bool-cases, inl, inr,
}

module _ {S : Type 0} {A : Type 0} (Q : A → Mp3Parser S → Type 0)
    (E : Error → Mp3Parser S → Type 0) where
  abbrev pub Ends : Exit A × Mp3Parser S → Type 0
  Ends (went a, q) = Q a q
  Ends (ended e, q) = E e q
  Ends (overrun, q) = ⊥
  Ends (running, q) = ⊥

module _ {S : Type 0} {A B : Type 0} (Q : A → Mp3Parser S → Type 0) (R : B → Mp3Parser S → Type 0)
    (E : Error → Mp3Parser S → Type 0) where
  pub behind-Ends :
      (r : Exit A × Mp3Parser S) (k : A → Call S B)
      → Ends Q E r
      → ((a : A) (q : Mp3Parser S) → Q a q → Ends R E (k a q))
      → Ends R E (behind r k)
  unfolding behind
  behind-Ends (went a, q) k h next = next a q h
  behind-Ends (ended e, q) k h next = h
  behind-Ends (overrun, q) k h next = absurd h
  behind-Ends (running, q) k h next = absurd h

module _ {S : Type 0} {A : Type 0} (Q R : A → Mp3Parser S → Type 0)
    (E : Error → Mp3Parser S → Type 0) where
  pub Ends-mono :
      (r : Exit A × Mp3Parser S)
      → Ends Q E r
      → ((a : A) (q : Mp3Parser S) → Q a q → R a q)
      → Ends R E r
  Ends-mono (went a, q) h next = next a q h
  Ends-mono (ended e, q) h next = h
  Ends-mono (overrun, q) h next = h
  Ends-mono (running, q) h next = h

pub if_Ends :
    {S A : Type 0} (Q : A → Mp3Parser S → Type 0) (E : Error → Mp3Parser S → Type 0) (b : Bool)
    (m k : Call S A) (p : Mp3Parser S)
    → (b ≡ true → Ends Q E (m p))
    → (b ≡ false → Ends Q E (k p))
    → Ends Q E ((if b then m else k) p)
if_Ends Q E true m k p hm hk = hm refl
if_Ends Q E false m k p hm hk = hk refl

-- What follows a call that writes beyond a buffer.
pub behind_overrun :
    {S A B : Type 0} {r : Exit A × Mp3Parser S} {q : Mp3Parser S} (k : A → Call S B)
    → r ≡ (overrun, q)
    → behind r k ≡ (overrun, q)
unfolding behind
behind_overrun {q = q} k e = rw e refl

pub drop_next : (m : ℕ) (xs : List ℕ) → m < length xs → (c : ℕ) × (drop m xs ≡ c ∷ drop (suc m) xs)
drop_next m [] h = absurd (omega arith)
drop_next zero (x ∷ xs) h = (x, refl)
drop_next (suc m) (x ∷ xs) h = drop_next m xs (omega arith)

-- A file with contents: what is left behind a position inside, the bytes that are read, and seeks
-- that stay inside.
pub record Contents (f : PvFile) : Type 0 where
  pub bytes : List ℕ
  pub remaining_bytes :
      (s : f.State) → f.tell s ≤ length bytes → f.remaining s ≡ some (length bytes - f.tell s)
  pub bytes_read : (s : f.State) (n : ℕ) → (f.read s n).0 ≡ take n (drop (f.tell s) bytes)
  pub seek_inside :
      (s : f.State) (off : ℤ)
      → neg_part off ≤ f.tell s + pos_part off
      → f.tell s + pos_part off ≤ length bytes + neg_part off
      → (t : f.State) × (f.seek_cur s off ≡ some t)

module _ (f : PvFile) (c : Contents f) where
  open f use {State, tell, remaining, seek_cur, read, seek_moves, read_moves, read_at_most}
  open c use {bytes}

  pub size_known : (s : State) → tell s ≤ length bytes → get_current_file_size f s ≡ length bytes
  unfolding get_current_file_size
  size_known s h = rw (c.remaining_bytes s h, get_current_file_size) (omega arith)

  off_inside :
      (off : ℤ) (here all : ℕ)
      → here + pos_part off ≤ all + neg_part off
      → (leb (pos_part off) 0 || leb (pos_part off) all) ≡ true
  off_inside (pos n) here all h = ground arith
  off_inside (negsuc n) here all h = refl

  pub seek_arrives :
      (s : State) (off : ℤ)
      → tell s ≤ length bytes
      → neg_part off ≤ tell s + pos_part off
      → tell s + pos_part off ≤ length bytes + neg_part off
      → (t : State) × (seek_to_offset f s off seek_cur_pos ≡ (success, t))
        × (tell t + neg_part off ≡ tell s + pos_part off)
  unfolding seek_to_offset relative_offset
  seek_arrives s off inside low high =
      let (t, e) = c.seek_inside s off low high in
      (
        t,
        rw (size_known s inside, off_inside off (tell s) (length bytes) high, e) refl,
        seek_moves s off t e,
      )

  pub seek-Ends :
      (Q : Error → Mp3Parser State → Type 0) (E : Error → Mp3Parser State → Type 0) (off : ℤ)
      (p : Mp3Parser State)
      → tell p.input ≤ length bytes
      → neg_part off ≤ tell p.input + pos_part off
      → tell p.input + pos_part off ≤ length bytes + neg_part off
      → ((t : State)
          → tell t + neg_part off ≡ tell p.input + pos_part off
          → Q success (record p { input = t }))
      → Ends Q E (seek f off seek_cur_pos p)
  unfolding seek
  seek-Ends Q E off p inside low high next =
      let (t, e, moved) = seek_arrives p.input off inside low high in rw e (next t moved)

  -- A read of `n` bytes: all of them, and the file behind them, or none.
  abbrev Read : State → ℕ → Option (List ℕ) × State → Type 0
  Read s n (none, t) = (tell t ≡ tell s) × (length bytes - tell s < n)
  Read s n (some bs, t) =
      (bs ≡ take n (drop (tell s) bytes)) × (tell t ≡ tell s + n) × (n ≤ length bytes - tell s)

  pub read_byte_data-Read : (s : State) (n : ℕ) → Read s n (read_byte_data f s n)
  unfolding read_byte_data
  read_byte_data-Read s n =
      let moved = read_moves s n in
      let e = c.bytes_read s n in
      let few = read_at_most s n in
      elim (Bool-cases (ltb (length (read s n).0) n)) [
        | inl short ↦
            let (t, back) = f.seek_back (read s n).1 (length (read s n).0) (omega arith) in
            let len : length (read s n).0 ≡ length (take n (drop (tell s) bytes)) = ap length e in
            rw (short, back)
              (
                omega (
                  arith,
                  neg_parts (length (read s n).0),
                  seek_moves (read s n).1 (neg (length (read s n).0)) t back,
                ),
                ground (arith, length-take n (drop (tell s) bytes), length-drop (tell s) bytes),
              )
        | inr full ↦
            let len : length (read s n).0 ≡ length (take n (drop (tell s) bytes)) = ap length e in
            rw full (
              e,
              ground arith,
              ground (arith, length-take n (drop (tell s) bytes), length-drop (tell s) bytes),
            )
      ]

  pub read_bytes-Ends :
      (Q : Option (List ℕ) → Mp3Parser State → Type 0) (E : Error → Mp3Parser State → Type 0)
      (n : ℕ) (p : Mp3Parser State)
      → ((t : State)
          → tell t ≡ tell p.input
          → length bytes - tell p.input < n
          → Q none (record p { input = t }))
      → ((t : State)
          → tell t ≡ tell p.input + n
          → n ≤ length bytes - tell p.input
          → Q (some (take n (drop (tell p.input) bytes))) (record p { input = t }))
      → Ends Q E (read_bytes f n p)
  unfolding read_bytes
  read_bytes-Ends Q E n p short full =
      pick (read_byte_data f p.input n) (read_byte_data-Read p.input n)
    where
      pick : (r : Option (List ℕ) × State) → Read p.input n r → Q r.0 (record p { input = r.1 })
      pick (none, t) (h, few) = short t h few
      pick (some bs, t) (e, moved, room) = rw e (full t moved room)
