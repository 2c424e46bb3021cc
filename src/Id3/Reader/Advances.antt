-- ===== src/Id3/Reader/Advances.antt =====
-- Rounds of the loop over the frames of a tag that take its offset further.
use foodie_note.Id3.Reader.Frames.{Cursor, Round, next, ends_with}
use foodie_note.Id3.Reader.Kept.{HasEnded, Keeps}
use foodie_note.Id3.Reader.State.{
  Parser, Ended, returned, left, overrun, running, Action, behind, ◌>>=◌,
}
use foodie_note.Prelude.{ℕ, ◌+◌, ◌≤◌, ◌≡◌, Bool, true, false, Option, none, some, if◌then◌else◌}

-- The sizes of the tag and of the frame.
abbrev pub sizes : {S : Type 0} → Parser S → ℕ × ℕ
sizes p = (p.tag_size, p.frame_size)

abbrev pub tag_size_of : {S : Type 0} → Parser S → ℕ
tag_size_of p = p.tag_size

-- What a round leaves: it stops, or goes on at least six bytes further.
abbrev pub Advances : {S : Type 0} → Cursor → ℕ → Ended Round × Parser S → Type 0
Advances c size (returned (ends_with k), q) = Unit
Advances c size (returned (next d), q) = (c.i + 6 ≤ d.i) × (q.tag_size ≡ size)
Advances c size (left, q) = Unit
Advances c size (overrun, q) = Unit
Advances c size (running, q) = ⊥

pub behind-Advances :
    {S A V : Type 0} (view : Parser S → V) (c : Cursor) (size : ℕ) (r : Ended A × Parser S)
    (k : A → Action S Round) (p : Parser S)
    → HasEnded r.0 × (view r.1 ≡ view p)
    → ((a : A) (q : Parser S) → view q ≡ view p → Advances c size (k a q))
    → Advances c size (behind r k)
unfolding behind
behind-Advances view c size (returned a, q) k p (e, same) h = h a q same
behind-Advances view c size (left, q) k p (e, same) h = tt
behind-Advances view c size (overrun, q) k p (e, same) h = tt
behind-Advances view c size (running, q) k p (e, same) h = e

pub step-Advances :
    {S A : Type 0} (c : Cursor) (size : ℕ) (k : A → Action S Round) (a : A) (q : Parser S)
    → Advances c size (k a q)
    → Advances c size (behind (returned a, q) k)
unfolding behind
step-Advances c size k a q h = h

pub step_ended :
    {S A B : Type 0} (k : A → Action S B) (a : A) (q : Parser S)
    → HasEnded (k a q).0
    → HasEnded (behind (returned a, q) k).0
unfolding behind
step_ended k a q h = h

-- A call that advances on the parsers with a property.
module _ {S : Type 0} (c : Cursor) (size : ℕ) (Q : Parser S → Type 0) where
  abbrev pub From : Action S Round → Type 0
  From m = (p : Parser S) → Q p → Advances c size (m p)

  pub if_From : (b : Bool) (m k : Action S Round) → From m → From k → From (if b then m else k)
  if_From true m k hm hk = hm
  if_From false m k hm hk = hk

  pub option-From :
      {A : Type 0} (o : Option A) (m : Action S Round) (k : A → Action S Round)
      → From m
      → ((a : A) → From (k a))
      → From (elim o [ none ↦ m | some a ↦ k a ])
  option-From none m k hm hk = hm
  option-From (some a) m k hm hk = hk a

  -- Whatever a call leaves that keeps a view, which the property looks at.
  pub Keeps-From :
      {A V : Type 0} (view : Parser S → V) (m : Action S A) (k : A → Action S Round)
      → ((p q : Parser S) → Q p → view q ≡ view p → Q q)
      → Keeps view m
      → ((a : A) → From (k a))
      → From (m >>= k)
  Keeps-From view m k respects hm hk p h =
      behind-Advances view c size (m p) k p (hm p) (λ a q same. hk a q (respects p q h same))
