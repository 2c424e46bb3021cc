-- ===== src/Id3/Reader/Access.antt =====
-- What the calls on a file read where its contents are known: at a position, the bytes that follow.
use foodie_note.Id3.Reader.Input.{InputFile}
use foodie_note.Id3.Reader.State.{
  Parser, Action, returned, overrun, step_eq, read_some, seek_to, read_byte_data, read_word,
  join_bytes, read_into, behind_eq,
}
use foodie_note.Prelude.Words.{bit_or_disjoint}
use foodie_note.Prelude.{
  ℕ, zero, suc, ◌+◌, ◌-◌, ◌*◌, ◌/◌, ◌%◌, ◌^◌, ◌≤◌, ◌<◌, ◌≡◌, ◌∙◌, refl, ap, arith, true, some, List,
  [], ◌∷◌, ◌++◌, bit_or, ltb, le→ltb_false, lt→ltb, length, length-append, length-drop, take, drop,
  drop_sum,
}

module _ {ℓ} {A : Type ℓ} where
  pub take-append : (xs ys : List A) → take (length xs) (xs ++ ys) ≡ xs
  take-append [] ys = refl
  take-append (x ∷ xs) ys = ap (λ zs. x ∷ zs) (take-append xs ys)

  pub drop-append : (xs ys : List A) → drop (length xs) (xs ++ ys) ≡ ys
  drop-append [] ys = refl
  drop-append (x ∷ xs) ys = drop-append xs ys

  take_all : (n : ℕ) (xs : List A) → length xs ≤ n → take n xs ≡ xs
  take_all zero [] h = refl
  take_all zero (x ∷ xs) h = absurd (omega arith)
  take_all (suc n) [] h = refl
  take_all (suc n) (x ∷ xs) h = ap (λ ys. x ∷ ys) (take_all n xs (omega arith))

-- The four bytes of a size, from the most significant on.
unfoldable pub be32 : ℕ → List ℕ
be32 n = n / 2 ^ 24 ∷ n / 2 ^ 16 % 256 ∷ n / 2 ^ 8 % 256 ∷ n % 256 ∷ []

join_byte : (a b : ℕ) → a < 2 ^ 24 → b < 256 → bit_or (a * 2 ^ 8 % 2 ^ 32) b ≡ a * 2 ^ 8 + b
join_byte a b ha hb =
    let e : a * 2 ^ 8 % 2 ^ 32 ≡ a * 2 ^ 8 = omega arith in rw e (bit_or_disjoint 8 a b hb)

pub join_bytes-be32 : (n : ℕ) → n < 2 ^ 32 → join_bytes 32 0 (be32 n) ≡ n
unfolding join_bytes be32
join_bytes-be32 n h =
    let a = n / 2 ^ 24 in
    let b = n / 2 ^ 16 % 256 in
    let c = n / 2 ^ 8 % 256 in
    rw
      (
        join_byte 0 a (omega arith) (omega arith),
        join_byte (0 * 2 ^ 8 + a) b (omega arith) (omega arith),
        join_byte ((0 * 2 ^ 8 + a) * 2 ^ 8 + b) c (omega arith) (omega arith),
        join_byte (((0 * 2 ^ 8 + a) * 2 ^ 8 + b) * 2 ^ 8 + c) (n % 256) (omega arith) (omega arith),
      )
      (omega arith)

module _ (f : InputFile) where
  open f use {State, bytes, tell, seek_set, read}

  -- The bytes from the position on.
  abbrev pub Placed : State → List ℕ → Type 0
  Placed s rest = (tell s ≤ length bytes) × (drop (tell s) bytes ≡ rest)

  -- A call that returns a value and leaves the file in front of the given bytes.
  abbrev pub Reads : {A : Type 0} → Action State A → Parser State → A → List ℕ → Type 0
  Reads m p a rest = (t : State) × (m p ≡ (returned a, record p { input = t })) × Placed t rest

  read-Placed :
      (s : State) (n : ℕ) (xs rest : List ℕ)
      → n ≡ length xs
      → Placed s (xs ++ rest)
      → ((read s n).0 ≡ xs) × Placed (read s n).1 rest
  read-Placed s n xs rest e (inside, here) =
      let same : (read s n).0 ≡ xs = rw (f.read_bytes s n, here, e) (take-append xs rest) in
      let moved : tell (read s n).1 ≡ tell s + length xs = f.read_moves s n ∙ rw same refl in
      let left : drop (tell (read s n).1) bytes ≡ rest =
        rw (moved, drop_sum (tell s) (length xs) bytes, here) (drop-append xs rest) in
      let room : length (xs ++ rest) ≡ length bytes - tell s =
        rw (← here) (length-drop (tell s) bytes) in
      (same, (omega (arith, moved, room, length-append xs rest), left))

  pub read_some-Placed :
      (n : ℕ) (xs rest : List ℕ) (p : Parser State)
      → n ≡ length xs
      → Placed p.input (xs ++ rest)
      → Reads (read_some f n) p xs rest
  unfolding read_some
  read_some-Placed n xs rest p e h =
      let r = read-Placed p.input n xs rest e h in ((read p.input n).1, rw r.0 refl, r.1)

  pub read_byte_data-Placed :
      (n : ℕ) (xs rest : List ℕ) (p : Parser State)
      → n ≡ length xs
      → Placed p.input (xs ++ rest)
      → Reads (read_byte_data f n) p (some xs) rest
  unfolding read_byte_data
  read_byte_data-Placed zero [] rest p e h = (p.input, refl, h)
  read_byte_data-Placed zero (x ∷ xs) rest p e h = absurd (omega arith)
  read_byte_data-Placed (suc n) xs rest p e h =
      let (t, same, placed) = read_some-Placed (suc n) xs rest p e h in
      (t, behind_eq _ same (rw (le→ltb_false (length xs) (suc n) (omega arith)) refl), placed)

  pub read_word-Placed :
      (w n : ℕ) (xs rest : List ℕ) (p : Parser State)
      → n ≡ length xs
      → Placed p.input (xs ++ rest)
      → Reads (read_word f w n) p (some (join_bytes w 0 xs)) rest
  unfolding read_word
  read_word-Placed w n xs rest p e h =
      let (t, same, placed) = read_some-Placed n xs rest p e h in
      (t, behind_eq _ same (rw (le→ltb_false (length xs) n (omega arith)) refl), placed)

  pub read_into-Placed :
      (room n : ℕ) (xs rest : List ℕ) (p : Parser State)
      → n ≡ length xs
      → n ≤ room
      → Placed p.input (xs ++ rest)
      → Reads (read_into f room n) p (some xs) rest
  unfolding read_into
  read_into-Placed room n xs rest p e fits h =
      let (t, same, placed) = read_some-Placed n xs rest p e h in
      (
        t,
        behind_eq _ same (
            rw
              (
                le→ltb_false room (length xs) (omega arith),
                le→ltb_false (length xs) n (omega arith),
              )
              refl),
        placed,
      )

  sought_eq :
      {n : ℕ} {p : Parser State} {t : State}
      → seek_set p.input n ≡ some t
      → seek_to f n p ≡ (returned true, record p { input = t })
  unfolding seek_to
  sought_eq e = rw (e, seek_to) refl

  pub seek_to_placed :
      (n : ℕ) (before rest : List ℕ) (p : Parser State)
      → n ≡ length before
      → bytes ≡ before ++ rest
      → Reads (seek_to f n) p true rest
  seek_to_placed n before rest p e whole =
      let inside : n ≤ length bytes = rw whole (omega (arith, e, length-append before rest)) in
      let (t, sought) = f.seek_set_inside p.input n inside in
      let moved : tell t ≡ length before = f.seek_set_moves p.input n t sought ∙ e in
      (
        t,
        sought_eq sought,
        (rw moved (rw (← e) inside), rw (moved, whole) (drop-append before rest)),
      )

  -- A read of more bytes than the buffer has room for, where the file has them.
  pub read_into_overrun :
      (room n : ℕ) (rest : List ℕ) (p : Parser State)
      → Placed p.input rest
      → length rest ≤ n
      → room < length rest
      → (t : State) × (read_into f room n p ≡ (overrun, record p { input = t }))
  unfolding read_into read_some
  read_into_overrun room n rest p (inside, here) short long =
      let all : (read p.input n).0 ≡ rest =
        rw (f.read_bytes p.input n, here) (take_all n rest short) in
      let full : ltb room (length (read p.input n).0) ≡ true =
        rw all (lt→ltb room (length rest) long) in
      ((read p.input n).1, step_eq _ (rw full refl))
