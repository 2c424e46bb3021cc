-- ===== src/Mp3/CrcCheck.antt =====
-- mp3VerifyCRC on a file with contents: where it leaves the file, and what it compares.
use foodie_note.Mp3.Crc.{
  calc_crc16, protected_bits, number_of_bytes, crc_value, back_with, compare_crc, read_crc,
  check_bits, check_protected, verify_crc,
}
use foodie_note.Mp3.Ends.{
  Contents, Ends, Ends-mono, behind-Ends, if_Ends, seek-Ends, read_bytes-Ends,
}
use foodie_note.Mp3.File.{
  PvFile, Error, success, insufficient_data, error_unknown, crc_err, end_of_file, file_read_err,
  file_hdr_read_err, file_hdr_decode_err, error_unknown_object, duration_present,
}
use foodie_note.Mp3.Header.{HeaderInfo, ConfigInfo}
use foodie_note.Mp3.State.{Mp3Parser, pure}
use foodie_note.Prelude.Int.{pos, neg, neg_parts}
use foodie_note.Prelude.{
  ℕ, ◌+◌, ◌-◌, ◌≤◌, ◌≡◌, ◌≢◌, ◌⊎◌, inl, inr, refl, arith, Bool, true, not, ◌||◌, Option, none, some,
  List, ◌==◌, if◌then◌else◌, leb, leb→le, take, drop, length, Bool-cases, ==_iff, ◌∙◌, subst,
}

crc_err-ne-success : crc_err ≢ success
crc_err-ne-success h = cc

insufficient_data-ne-success : insufficient_data ≢ success
insufficient_data-ne-success h = cc

some_injective : (a b : ℕ) → some a ≡ some b → a ≡ b
some_injective a b h = cc

skipped_not :
    (on : Bool) (follows : ℕ) → on ≡ true → follows ≡ 0 → (not on || not (follows == 0)) ≢ true
skipped_not on follows h h' skipped = ground arith

same_crc : (a b : ℕ) → (if a == b then success else crc_err) ≡ success → a ≡ b
same_crc a b h = elim (Bool-cases (a == b)) [
  | inl same ↦ (==_iff a b).0 same
  | inr other ↦ absurd (crc_err-ne-success (rw other at h))
]

number_of_bytes-le : (n : ℕ) → 6 ≤ number_of_bytes (n + 48)
unfolding number_of_bytes
number_of_bytes-le n = ground arith

module _ (f : PvFile) (c : Contents f) (start : ℕ) where
  open f use {State, tell}
  open c use {bytes}

  -- What success means for a number of bytes: those from the start on have the check that stands
  -- four bytes behind them.
  abbrev pub Agrees : ℕ → Type 0
  Agrees bits =
      let n = number_of_bytes bits in
      calc_crc16 (take n (drop start bytes)) bits ≡ crc_value (take 2 (drop (start + n + 4) bytes))

  -- The file is back, and success has its meaning.
  abbrev Returned : Type 0 → Error → Mp3Parser State → Type 0
  Returned P e q = (tell q.input ≡ start) × (e ≡ success → P)

  -- No call of it returns early by itself.
  abbrev pub Never : Error → Mp3Parser State → Type 0
  Never e q = ⊥

  back_with-Ends :
      (P : Type 0) (back : ℕ) (e : Error) (p : Mp3Parser State)
      → tell p.input ≡ start + back
      → start + back ≤ length bytes
      → e ≢ success
      → Ends (Returned P) Never (back_with f back e p)
  unfolding back_with
  back_with-Ends P back e p here inside bad =
      behind-Ends (λ e q. tell q.input ≡ start) (Returned P) Never _ _
        (seek-Ends f c (λ e q. tell q.input ≡ start) Never (neg back) p (omega arith)
          (omega (arith, neg_parts back)) (omega (arith, neg_parts back))
          (λ t moved. omega (arith, neg_parts back)))
        (λ e' q moved. (moved, λ good. absurd (bad good)))

  compare_crc-Ends :
      (bits : ℕ) (p : Mp3Parser State)
      → tell p.input ≡ start + number_of_bytes bits + 6
      → start + number_of_bytes bits + 6 ≤ length bytes
      → Ends (Returned (Agrees bits)) Never (
          compare_crc f
            (number_of_bytes bits + 4)
            (calc_crc16 (take (number_of_bytes bits) (drop start bytes)) bits)
            (some (take 2 (drop (start + number_of_bytes bits + 4) bytes)))
            p)
  unfolding compare_crc
  compare_crc-Ends bits p here inside =
      let back = number_of_bytes bits + 4 + 2 in
      behind-Ends (λ e q. (e ≡ success) × (tell q.input ≡ start)) (Returned (Agrees bits)) Never _ _
        (seek-Ends f c (λ e q. (e ≡ success) × (tell q.input ≡ start)) Never (neg back) p
          (omega arith) (omega (arith, neg_parts back)) (omega (arith, neg_parts back))
          (λ t moved. (refl, omega (arith, neg_parts back))))
        (λ e q (good, moved). rw good (moved, same_crc _ _))

  abbrev CrcAt : ℕ → Option (List ℕ) → Mp3Parser State → Type 0
  CrcAt bits o q =
      ((o ≡ none) × (tell q.input ≡ start + (number_of_bytes bits + 4)))
      ⊎ ((o ≡ some (take 2 (drop (start + number_of_bytes bits + 4) bytes)))
          × (tell q.input ≡ start + number_of_bytes bits + 6)
          × (start + number_of_bytes bits + 6 ≤ length bytes))

  behind_crc-Ends :
      (bits : ℕ) (o : Option (List ℕ)) (q : Mp3Parser State)
      → start + (number_of_bytes bits + 4) ≤ length bytes
      → CrcAt bits o q
      → Ends (Returned (Agrees bits)) Never (
          compare_crc f
            (number_of_bytes bits + 4)
            (calc_crc16 (take (number_of_bytes bits) (drop start bytes)) bits)
            o
            q)
  unfolding compare_crc
  behind_crc-Ends bits o q inside (inl (missing, here)) = rw missing (
      back_with-Ends (Agrees bits) (number_of_bytes bits + 4) insufficient_data q here inside
        (λ same. cc))
  behind_crc-Ends bits o q inside (inr (got, here, room)) =
      rw got (compare_crc-Ends bits q here room)

  -- The check behind the bytes that it is calculated from.
  read_crc-Ends :
      (bits : ℕ) (p : Mp3Parser State)
      → 1 ≤ number_of_bytes bits
      → tell p.input ≡ start + number_of_bytes bits
      → start + number_of_bytes bits ≤ length bytes
      → Ends (Returned (Agrees bits)) Never (
          read_crc f
            (number_of_bytes bits)
            (calc_crc16 (take (number_of_bytes bits) (drop start bytes)) bits)
            (some (length bytes - tell p.input))
            p)
  unfolding read_crc
  read_crc-Ends bits p some_bytes here inside =
      let n = number_of_bytes bits in
      let behind_it = start + n + 4 in
      if_Ends (Returned (Agrees bits)) Never (leb 4 (length bytes - tell p.input)) _
        (back_with f n insufficient_data) p
        (λ room.
          let left : 4 ≤ length bytes - tell p.input = leb→le _ _ room in
          behind-Ends (λ e q. tell q.input ≡ behind_it) (Returned (Agrees bits)) Never _ _
            (seek-Ends f c (λ e q. tell q.input ≡ behind_it) Never (pos 4) p (omega arith)
              (omega arith) (omega arith) (λ t moved. omega arith))
            (λ e q at_crc.
              behind-Ends (CrcAt bits) (Returned (Agrees bits)) Never _ _
                (read_bytes-Ends f c (CrcAt bits) Never 2 q (λ t back few. inl (refl, omega arith))
                  (λ t moved room2. inr (rw at_crc refl, omega arith, omega arith)))
                (λ o r at_end. behind_crc-Ends bits o r (omega arith) at_end)))
        (λ short. back_with-Ends (Agrees bits) n insufficient_data p here inside (λ same. cc))

  abbrev DataAt : ℕ → Option (List ℕ) → Mp3Parser State → Type 0
  DataAt bits o q =
      ((o ≡ none) × (tell q.input ≡ start))
      ⊎ ((o ≡ some (take (number_of_bytes bits) (drop start bytes)))
          × (tell q.input ≡ start + number_of_bytes bits)
          × (start + number_of_bytes bits ≤ length bytes))

  behind_data-Ends :
      (bits : ℕ)
      → 1 ≤ number_of_bytes bits
      → (o : Option (List ℕ)) (q : Mp3Parser State) → DataAt bits o q
      → Ends (Returned (Agrees bits)) Never (check_bits f bits o q)
  unfolding check_bits
  behind_data-Ends bits nonempty o q (inl (missing, here)) =
      rw missing (here, λ same. absurd (insufficient_data-ne-success same))
  behind_data-Ends bits nonempty o q (inr (got, here, room)) =
      rw (got, c.remaining_bytes q.input (omega arith))
        (behind-Ends (λ left r. (left ≡ some (length bytes - tell r.input)) × (r ≡ q))
          (Returned (Agrees bits)) Never _ _ (refl, refl)
          (λ left r (known, same). rw (known, same) (read_crc-Ends bits q nonempty here room)))

  check_bits-Ends :
      (n : ℕ) (p : Mp3Parser State)
      → tell p.input ≡ start
      → Ends (Returned (Agrees (n + 48))) Never (check_protected f (some n) p)
  unfolding check_protected check_bits
  check_bits-Ends n p here =
      let bits = n + 48 in
      behind-Ends (DataAt bits) (Returned (Agrees bits)) Never _ _
        (read_bytes-Ends f c (DataAt bits) Never (number_of_bytes bits) p
          (λ t back few. inl (refl, back ∙ here))
          (λ t moved room. inr (rw here refl, omega arith, omega (arith, number_of_bytes-le n))))
        (behind_data-Ends bits (omega (arith, number_of_bytes-le n)))

  -- What a success of the whole check means.
  abbrev Verified : HeaderInfo → ConfigInfo → Mp3Parser State → Type 0
  Verified h g p =
      p.enable_crc_calc ≡ true
      → h.crc_follows ≡ 0
      → (n : ℕ) → protected_bits h g ≡ some n
      → Agrees (n + 48)

  check_protected-Ends :
      (o : Option ℕ) (p : Mp3Parser State)
      → tell p.input ≡ start
      → Ends (Returned ((n : ℕ) → o ≡ some n → Agrees (n + 48))) Never (check_protected f o p)
  unfolding check_protected
  check_protected-Ends none p here = (here, λ good n bits. cc)
  check_protected-Ends (some n) p here =
      Ends-mono (Returned (Agrees (n + 48)))
        (Returned ((m : ℕ) → some n ≡ some m → Agrees (m + 48))) Never _ (check_bits-Ends n p here)
        (λ e q (back, meaning). (
          back,
          λ good m bits. subst (λ k. Agrees (k + 48)) (some_injective n m bits) (meaning good),
        ))

  -- The file is back in every case.
  verify_crc-Verified :
      (h : HeaderInfo) (g : ConfigInfo) (p : Mp3Parser State)
      → tell p.input ≡ start
      → Ends (Returned (Verified h g p)) Never (verify_crc f h g p)
  unfolding verify_crc
  verify_crc-Verified h g p here =
      if_Ends (Returned (Verified h g p)) Never (not p.enable_crc_calc || not (h.crc_follows == 0))
        (pure success) (check_protected f (protected_bits h g)) p
        (λ skipped. (
          here,
          λ good on follows n bits.
              absurd (skipped_not p.enable_crc_calc h.crc_follows on follows skipped),
        ))
        (λ checked.
          Ends-mono (Returned ((n : ℕ) → protected_bits h g ≡ some n → Agrees (n + 48)))
            (Returned (Verified h g p)) Never _ (check_protected-Ends (protected_bits h g) p here)
            (λ e q (back, meaning). (back, λ good on follows. meaning good)))

  -- A result, with the file back: an error, or the bytes have their check.
  abbrev pub Verdict : ℕ → Error → Mp3Parser State → Type 0
  Verdict bits e q = (tell q.input ≡ start) × ((e ≢ success) ⊎ Agrees bits)

  verdict_by : (bits : ℕ) (e : Error) → (e ≡ success → Agrees bits) → (e ≢ success) ⊎ Agrees bits
  verdict_by bits success h = inr (h refl)
  verdict_by bits error_unknown h = inl (λ e. cc)
  verdict_by bits end_of_file h = inl (λ e. cc)
  verdict_by bits crc_err h = inl (λ e. cc)
  verdict_by bits file_read_err h = inl (λ e. cc)
  verdict_by bits file_hdr_read_err h = inl (λ e. cc)
  verdict_by bits file_hdr_decode_err h = inl (λ e. cc)
  verdict_by bits error_unknown_object h = inl (λ e. cc)
  verdict_by bits insufficient_data h = inl (λ e. cc)
  verdict_by bits duration_present h = inl (λ e. cc)

  -- On a file with contents, with the check on, a header that announces one and a layer that has one,
  -- over n bits: mp3VerifyCRC returns, leaves the file where it was, and succeeds only if the bytes
  -- from the start of the frame on, as many as hold n + 48 bits, have the check that stands four bytes
  -- behind the last of them.
  pub verify_crc-Ends :
      (h : HeaderInfo) (g : ConfigInfo) (n : ℕ) (p : Mp3Parser State)
      → tell p.input ≡ start
      → p.enable_crc_calc ≡ true
      → h.crc_follows ≡ 0
      → protected_bits h g ≡ some n
      → Ends (Verdict (n + 48)) Never (verify_crc f h g p)
  verify_crc-Ends h g n p here on follows bits =
      Ends-mono (Returned (Verified h g p)) (Verdict (n + 48)) Never (verify_crc f h g p)
        (verify_crc-Verified h g p here)
        (λ e q (back, meaning).
          (back, verdict_by (n + 48) e (λ good. meaning good on follows n bits)))
