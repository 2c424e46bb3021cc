-- ===== src/Utf8/Validity.antt =====
-- The validator on buffers that end in a zero byte, as the media scanner calls it: it stops, it
-- reads nothing behind the zero, and it accepts what the reference writes.
use foodie_note.Prelude.{
  ℕ, zero, suc, ◌+◌, ◌-◌, ◌≤◌, ◌<◌, ◌≡◌, ◌≢◌, ◌⊎◌, inl, inr, refl, arith, false, Option, none, some,
  List, [], ◌∷◌, ◌++◌, length, drop, length-drop, All,
}
use foodie_note.Utf8.Validate.{
  Move, accept, reject, advance, move, Limits, Checked, is_done, check_loop, is_valid_utf8,
  is_valid_and_truncate_utf8,
}

-- A decision about text `s` that is followed by a zero byte: it ends only where `s` is used up, and
-- moves on inside `s`.
abbrev Stays : List ℕ → Option Move → Type 0
Stays s none = ⊥
Stays s (some accept) = length s ≡ 0
Stays s (some reject) = Unit
Stays s (some (advance k)) = (1 ≤ k) × (k ≤ length s)

abbrev IsNonzero : ℕ → Type 0
IsNonzero b = b ≢ 0

move-Stays : (s rest : List ℕ) → All IsNonzero s → Stays s (move 0 0 (s ++ 0 ∷ rest))
unfolding move
move-Stays [] rest h = refl
move-Stays (a ∷ []) rest h = ground arith
move-Stays (a ∷ b ∷ []) rest h = ground arith
move-Stays (a ∷ b ∷ c ∷ []) rest h = ground arith
move-Stays (a ∷ b ∷ c ∷ d ∷ s) rest h = ground arith

drop-append {ℓ} :
    {A : Type ℓ} (k : ℕ) (s t : List A) → k ≤ length s → drop k (s ++ t) ≡ drop k s ++ t
drop-append zero s t h = refl
drop-append (suc k) [] t h = absurd (omega arith)
drop-append (suc k) (x ∷ s) t h = drop-append k s t (omega arith)

All-drop {ℓ κ} : {A : Type ℓ} (P : A → Type κ) (k : ℕ) (s : List A) → All P s → All P (drop k s)
All-drop P zero s h = h
All-drop P (suc k) [] h = h
All-drop P (suc k) (x ∷ s) (hx, hs) = All-drop P k s hs

-- The validator has ended at a position in text of length `n` that starts at `pos`: at its end, if
-- the text is valid.
abbrev pub EndsIn : ℕ → ℕ → Option Checked → Type 0
EndsIn pos n none = ⊥
EndsIn pos n (some c) = (c.position ≤ pos + n) × ((c.valid ≡ false) ⊎ (c.position ≡ pos + n))

EndsIn-shift :
    (pos k n m : ℕ) (r : Option Checked) → k + m ≡ n → EndsIn (pos + k) m r → EndsIn pos n r
EndsIn-shift pos k n m none e h = h
EndsIn-shift pos k n m (some c) e (le, inl bad) = (omega arith, inl bad)
EndsIn-shift pos k n m (some c) e (le, inr end) = (omega arith, inr (omega arith))

abbrev unlimited : Limits
unlimited = record { wanted = 0; max_bytes = 0; max_chars = 0 }

check_loop-EndsIn :
    (f total pos : ℕ) (s rest : List ℕ)
    → All IsNonzero s
    → length s < f
    → EndsIn pos (length s) (check_loop f unlimited 0 total pos (s ++ 0 ∷ rest))
unfolding check_loop is_done
check_loop-EndsIn zero total pos s rest h lt = absurd (omega arith)
check_loop-EndsIn (suc f) total pos s rest h lt =
    go (move 0 0 (s ++ 0 ∷ rest)) refl (move-Stays s rest h) λ k le.
      check_loop-EndsIn f (total + 1) (pos + k) (drop k s) rest (All-drop IsNonzero k s h)
        (omega (arith, length-drop {0} k s))
  where
    go :
        (m : Option Move)
        → move 0 0 (s ++ 0 ∷ rest) ≡ m
        → Stays s m
        → ((k : ℕ)
            → (1 ≤ k) × (k ≤ length s)
            → EndsIn
                (pos + k)
                (length (drop k s))
                (check_loop f unlimited 0 (total + 1) (pos + k) (drop k s ++ 0 ∷ rest)))
        → EndsIn pos (length s) (check_loop (suc f) unlimited 0 total pos (s ++ 0 ∷ rest))
    go none e stays ih = absurd stays
    go (some accept) e stays ih = rw (e, check_loop) (omega arith)
    go (some reject) e stays ih = rw (e, check_loop) (omega arith, inl refl)
    go (some (advance k)) e stays ih =
        let same : 0 - k ≡ 0 = omega arith in
        rw (e, check_loop)
          (rw (same, drop-append k s (0 ∷ rest) stays.1)
            (EndsIn-shift pos k (length s) (length (drop k s)) _
              (omega (arith, length-drop {0} k s)) (ih k stays)))

-- A buffer whose text `s` has no zero byte and is followed by one, with fuel for each byte and one
-- more: the call without limits returns, whatever stands behind the zero byte. The position is
-- inside the text, and the text is refused or the position is its end.
pub is_valid_utf8-EndsIn :
    (f : ℕ) (s rest : List ℕ)
    → All IsNonzero s
    → length s < f
    → EndsIn 0 (length s) (is_valid_utf8 f (s ++ 0 ∷ rest) 0 0)
unfolding is_valid_utf8 is_valid_and_truncate_utf8
is_valid_utf8-EndsIn f s rest h lt = check_loop-EndsIn f 0 0 s rest h lt
