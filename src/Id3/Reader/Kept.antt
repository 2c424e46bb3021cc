-- ===== src/Id3/Reader/Kept.antt =====
-- Calls of the parser that end, and leave a view of its members as it was.
use foodie_note.Id3.KvpKey.{
  CharacterSet, charset_invalid, charset_iso88591, charset_utf16, charset_utf16be, charset_utf8,
  charset_end, FrameType,
}
use foodie_note.Id3.FrameTables.{Found}
use foodie_note.Id3.Kvp.{Kvp, Value}
use foodie_note.Id3.Reader.Input.{InputFile}
use foodie_note.Id3.Reader.State.{
  Parser, Ended, returned, left, overrun, running, Action, pure, modify, behind, ◌>>=◌, ◌>>◌,
  read_some, seek_to, read_word, read_into,
}
use foodie_note.Id3.Reader.Values.{
  OtherValue, OtherReaders, after_other, read_value, read_by_charset, read_string_value_frame,
  read_track_length_frame, or_leave, handle_frame_data, handle_by_mark, read_frame_data, push_back,
  is_text, is_track_length,
}
use foodie_note.Prelude.{
  ℕ, ◌+◌, ◌∷◌, ◌++◌, [], ◌≡◌, ◌∙◌, refl, Bool, true, false, Option, none, some, List, if◌then◌else◌,
  ◌==◌, ltb, length, Option-cases, inl, inr,
}

-- Every result but that of a loop without fuel.
abbrev pub HasEnded : {A : Type 0} → Ended A → Type 0
HasEnded running = ⊥
HasEnded _ = Unit

module _ {S V : Type 0} (view : Parser S → V) where
  abbrev pub Keeps : {A : Type 0} → Action S A → Type 0
  Keeps m = (p : Parser S) → HasEnded (m p).0 × (view (m p).1 ≡ view p)

  behind-Keeps :
      {A B : Type 0} (p : Parser S) (r : Ended A × Parser S) (k : A → Action S B)
      → HasEnded r.0 × (view r.1 ≡ view p)
      → ((a : A) → Keeps (k a))
      → HasEnded (behind r k).0 × (view (behind r k).1 ≡ view p)
  unfolding behind
  behind-Keeps p (returned a, q) k (e, same) h = ((h a q).0, (h a q).1 ∙ same)
  behind-Keeps p (left, q) k (e, same) h = (tt, same)
  behind-Keeps p (overrun, q) k (e, same) h = (tt, same)
  behind-Keeps p (running, q) k (e, same) h = absurd e

  pub bind-Keeps :
      {A B : Type 0} (m : Action S A) (k : A → Action S B)
      → Keeps m
      → ((a : A) → Keeps (k a))
      → Keeps (m >>= k)
  bind-Keeps m k hm hk p = behind-Keeps p (m p) k (hm p) hk

  pub if_Keeps :
      {A : Type 0} (b : Bool) (m k : Action S A) → Keeps m → Keeps k → Keeps (if b then m else k)
  if_Keeps true m k hm hk = hm
  if_Keeps false m k hm hk = hk

  pub option-Keeps :
      {A B : Type 0} (o : Option A) (m : Action S B) (k : A → Action S B)
      → Keeps m
      → ((a : A) → Keeps (k a))
      → Keeps (elim o [ none ↦ m | some a ↦ k a ])
  option-Keeps none m k hm hk = hm
  option-Keeps (some a) m k hm hk = hk a

  pub modify-Keeps :
      (g : Parser S → Parser S) → ((p : Parser S) → view (g p) ≡ view p) → Keeps (modify g)
  modify-Keeps g h p = (tt, h p)

  -- Views that do not look at the file.
  abbrev pub IgnoresInput : Type 0
  IgnoresInput = (p : Parser S) (t : S) → view (record p { input = t }) ≡ view p

module _ (f : InputFile) {V : Type 0} (view : Parser f.State → V)
    (ignores : IgnoresInput view) where
  open f use {State, seek_set, read}

  pub read_some-Keeps : (n : ℕ) → Keeps view (read_some f n)
  unfolding read_some
  read_some-Keeps n p = (tt, ignores p (read p.input n).1)

  pub seek_to-Keeps : (n : ℕ) → Keeps view (seek_to f n)
  unfolding seek_to
  seek_to-Keeps n p = elim (Option-cases (seek_set p.input n)) [
    | inl e ↦ rw (e, seek_to) (tt, refl)
    | inr (t, e) ↦ rw (e, seek_to) (tt, ignores p t)
  ]

  pub read_word-Keeps : (w n : ℕ) → Keeps view (read_word f w n)
  unfolding read_word
  read_word-Keeps w n = bind-Keeps view _ _ (read_some-Keeps n) (λ bs p. (tt, refl))

  pub read_into-Keeps : (room n : ℕ) → Keeps view (read_into f room n)
  unfolding read_into
  read_into-Keeps room n =
      bind-Keeps view _ _ (read_some-Keeps n)
        (λ bs. if_Keeps view (ltb room (length bs)) _ _ (λ p. (tt, refl)) (λ p. (tt, refl)))

-- The readers of a frame's data, and a view that looks at nothing that they change.
module _ (f : InputFile) (others : OtherReaders f.State) {V : Type 0}
    (view : Parser f.State → V) where
  open f use {State}

  -- The view looks neither at the file, nor at the pairs, the language and the found flags.
  abbrev pub IgnoresData : Type 0
  IgnoresData =
      (p : Parser State) (t : State) (xs : List Kvp) (lang : List ℕ) (fd : Found)
      → view (record p { input = t; frames = xs; language = lang; found = fd }) ≡ view p

  module _ (ignores : IgnoresData) where
    pub ignores_input : IgnoresInput view
    ignores_input p t = ignores p t p.frames p.language p.found

    or_leave-Keeps : (b : Bool) → Keeps view (or_leave f others b)
    unfolding or_leave
    or_leave-Keeps true p = (tt, refl)
    or_leave-Keeps false p = (tt, refl)

    read_value-Keeps :
        (extra size : ℕ) (key : List ℕ) (value : List ℕ → Value)
        → Keeps view (read_value f others extra size key value)
    unfolding read_value push_back
    read_value-Keeps extra size key value =
        bind-Keeps view _ _ (read_into-Keeps f view ignores_input _ size) (λ o.
          option-Keeps view o _ _ (λ p. (tt, refl))
            (λ bs.
              bind-Keeps view _ _
                (λ p. (tt, ignores p p.input (p.frames ++ _ ∷ []) p.language p.found))
                (λ x p. (tt, refl))))

    read_by_charset-Keeps :
        (c : CharacterSet) (size : ℕ) (key : List ℕ)
        → Keeps view (read_by_charset f others c size key)
    unfolding read_by_charset
    read_by_charset-Keeps charset_iso88591 size key = read_value-Keeps 1 size key _
    read_by_charset-Keeps charset_utf8 size key = read_value-Keeps 1 size key _
    read_by_charset-Keeps charset_utf16 size key = read_value-Keeps 2 size key _
    read_by_charset-Keeps charset_utf16be size key = read_value-Keeps 2 size key _
    read_by_charset-Keeps charset_invalid size key = λ p. (tt, refl)
    read_by_charset-Keeps charset_end size key = λ p. (tt, refl)

    read_string_value_frame-Keeps :
        (t : FrameType) (c : CharacterSet) (size : ℕ)
        → Keeps view (read_string_value_frame f others t c size)
    unfolding read_string_value_frame
    read_string_value_frame-Keeps t c size =
        bind-Keeps view _ _ (λ p. (tt, refl))
          (λ key. if_Keeps view key.1 _ _ (read_by_charset-Keeps c size key.0) (λ p. (tt, refl)))

    pub after_other_keeps :
        (v : OtherValue State) (p : Parser State)
        → HasEnded (after_other v p).0 × (view (after_other v p).1 ≡ view p)
    unfolding after_other
    after_other_keeps v p = (tt, ignores p v.behind_it (p.frames ++ v.pairs) v.language_id p.found)

    pub handle_frame_data-Keeps :
        (t : FrameType) (c : CharacterSet) (pos size : ℕ)
        → Keeps view (handle_frame_data f others t c pos size)
    unfolding handle_frame_data read_track_length_frame
    handle_frame_data-Keeps t c pos size =
        bind-Keeps view _ _ (seek_to-Keeps f view ignores_input pos) (λ sought.
          bind-Keeps view _ _ (or_leave-Keeps sought) (λ x.
            if_Keeps view (is_track_length t) _ _
              (bind-Keeps view _ _
                (λ p.
                  after_other_keeps (others.read_track_length p.version size c p.language p.input)
                    p)
                or_leave-Keeps)
              (if_Keeps view (is_text t) _ _
                (bind-Keeps view _ _ (read_string_value_frame-Keeps t c size) (λ went.
                  bind-Keeps view _ _ (or_leave-Keeps went)
                    (λ y p. (tt, ignores p p.input p.frames p.language _))))
                (λ p. (tt, refl)))))

    pub then_true-Keeps : (m : Action State (Unit {0})) → Keeps view m → Keeps view (m >> pure true)
    then_true-Keeps m h = bind-Keeps view m _ h (λ x p. (tt, refl))

    handle_by_mark-Keeps :
        (t : FrameType) (pos len : ℕ) (o : Option ℕ)
        → Keeps view (handle_by_mark f others t pos len o)
    unfolding handle_by_mark
    handle_by_mark-Keeps t pos len none = λ p. (tt, refl)
    handle_by_mark-Keeps t pos len (some order) =
        if_Keeps view (order == 0xfffe) _ _
          (then_true-Keeps _ (handle_frame_data-Keeps t charset_utf16 (pos + 2) _))
          (if_Keeps view (order == 0xfeff) _ _
            (then_true-Keeps _ (handle_frame_data-Keeps t charset_utf16be (pos + 2) _))
            (λ p. (tt, refl)))

    pub read_frame_data-Keeps :
        (check : ℕ) (t : FrameType) (pos len : ℕ)
        → Keeps view (read_frame_data f others check t pos len)
    unfolding read_frame_data
    read_frame_data-Keeps check t pos len =
        if_Keeps view (check == 0) _ _
          (then_true-Keeps _ (handle_frame_data-Keeps t charset_iso88591 pos _))
          (if_Keeps view (check == 1) _ _
            (bind-Keeps view _ _ (read_word-Keeps f view ignores_input 16 2)
              (handle_by_mark-Keeps t pos len))
            (if_Keeps view (check == 2) _ _
              (then_true-Keeps _ (handle_frame_data-Keeps t charset_utf16be pos _))
              (if_Keeps view (check == 3) _ _
                (then_true-Keeps _ (handle_frame_data-Keeps t charset_utf8 pos _))
                (λ p. (tt, refl)))))
