-- ===== src/Mp3/Floats.antt =====
-- OsclFloat of the parser of MP3 files: the type and the operations that it uses, as a parameter.
-- A conversion to uint32 gives a number below 2 ^ 32.
use foodie_note.Prelude.{ℕ, ◌^◌, ◌<◌}

pub record Floats : Type 1 where
  pub F : Type 0
  pub of_int : ℕ → F
  pub add : F → F → F
  pub mul : F → F → F
  pub div : F → F → F
  pub to_uint32 : F → ℕ
  pub to_uint32-small : (x : F) → to_uint32 x < 2 ^ 32
