-- ===== src/Id3/Kvp.antt =====
-- listener/src/main/jni/pvmi/pvmi_kvp.h: the pairs of key and value that the ID3 parser hands out.
use foodie_note.Prelude.{ℕ, List}

-- PvmiKvp, by the members that the scanner reads: the bytes of the key, and the union, which is the
-- member that was set last with the buffer behind its pointer.
pub data Value : Type 0 where
  p_char_value p_wchar_value : List ℕ → Value
  uint32_value : ℕ → Value

pub record Kvp : Type 0 where
  pub key : List ℕ
  pub value : Value
