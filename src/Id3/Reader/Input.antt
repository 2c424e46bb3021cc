-- ===== src/Id3/Reader/Input.antt =====
-- The file that the ID3 parser reads, PVFile (listener/src/main/jni/pvmi/pvfile.cpp) over the
-- operating system's file, as an interface with its contents.
use foodie_note.Prelude.{ℕ, ◌+◌, ◌≤◌, ◌≡◌, Option, some, List, length, take, drop}

-- The laws are those of stdio on a file that is open for reading: a seek goes where it is told or
-- fails, inside the file it succeeds; a read returns the next bytes, as many as there are up to the
-- number asked, and moves behind them.
pub record InputFile : Type 1 where
  pub State : Type 0
  pub bytes : List ℕ
  pub tell : State → ℕ
  pub remaining : State → ℕ
  pub seek_set : State → ℕ → Option State
  pub read : State → ℕ → List ℕ × State
  pub seek_set_moves : (s : State) (n : ℕ) (t : State) → seek_set s n ≡ some t → tell t ≡ n
  pub seek_set_inside :
      (s : State) (n : ℕ) → n ≤ length bytes → (t : State) × (seek_set s n ≡ some t)
  pub remaining_bytes : (s : State) → tell s ≤ length bytes → tell s + remaining s ≡ length bytes
  pub read_bytes : (s : State) (n : ℕ) → (read s n).0 ≡ take n (drop (tell s) bytes)
  pub read_moves : (s : State) (n : ℕ) → tell (read s n).1 ≡ tell s + length (read s n).0
