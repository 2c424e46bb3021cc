-- ===== src/Scanner/Delivery.antt =====
-- What the client of the media scanner gets: the text of the ID3 frames as UTF-8, in their order,
-- under the keys of ConstructKvpKey, until it refuses one.
use foodie_note.Id3.KvpKey.{
  CharacterSet, charset_iso88591, charset_utf16, charset_utf16be, charset_utf8, charset_invalid,
  charset_end, charset_type,
}
use foodie_note.Prelude.Results.{Result, ok}
use foodie_note.Prelude.Text.{c_string, c_string-text, starts_with, IsNonzero}
use foodie_note.Prelude.{
  ℕ, ◌+◌, ◌*◌, ◌≤◌, ◌≡◌, ◌∙◌, refl, ap, arith, Bool, true, false, List, [], ◌∷◌, ◌++◌, length,
  length-append, map, All, All-append,
}
use foodie_note.Scanner.Frames.{
  branch_of, client_key, Iconv, Client, handle_utf8, handle_wide, handle_type, handle_frame,
  if_handled, handle_frames, chars_of, wide_chars_of,
}
use foodie_note.Scanner.Tags.{
  TextFrame, IsUnicode, IsTextFrame, value_of, kvp_of, Tag, tag_key, tag_of, tags_of, if_accepted,
  deliver, construct_kvp_key-KeyIs,
}
use foodie_note.Utf8.Accepts.{IsBasicText, IsBasicText-IsBasicPlane, is_valid_utf8-utf8_text}
use foodie_note.Utf8.Convert.{encode_loop, unicode_to_utf8}
use foodie_note.Utf8.Encode.{unicode_to_utf8_fits, length-utf8_text}
use foodie_note.Utf8.Reference.{utf8, utf8_text}

utf8-IsNonzero : (c : ℕ) → IsBasicText c → All IsNonzero (utf8 c)
unfolding utf8
utf8-IsNonzero c h = ground arith

pub utf8_text-IsNonzero : (cs : List ℕ) → All IsBasicText cs → All IsNonzero (utf8_text cs)
unfolding utf8_text
utf8_text-IsNonzero [] h = tt
utf8_text-IsNonzero (c ∷ cs) (hc, hcs) =
    All-append IsNonzero (utf8 c) (utf8_text cs) (utf8-IsNonzero c hc) (utf8_text-IsNonzero cs hcs)

IsBasicText-IsNonzero : (cs : List ℕ) → All IsBasicText cs → All IsNonzero cs
IsBasicText-IsNonzero [] h = tt
IsBasicText-IsNonzero (c ∷ cs) (hc, hcs) = (hc.0, IsBasicText-IsNonzero cs hcs)

positive-utf8 : (c : ℕ) → 1 ≤ length (utf8 c)
unfolding utf8
positive-utf8 c = ground arith

length≤utf8_text : (cs : List ℕ) → length cs ≤ length (utf8_text cs)
unfolding utf8_text
length≤utf8_text [] = omega arith
length≤utf8_text (c ∷ cs) =
    omega (arith, positive-utf8 c, length≤utf8_text cs, length-append (utf8 c) (utf8_text cs))

module _ (lib : Iconv) (client : Client) where
  open client use {State, handle_string_tag}

  -- The bytes of text reach the client as they are.
  handle_utf8_text :
      (key cs rest : List ℕ) (s : State)
      → All IsBasicText cs
      → handle_utf8 lib client key (utf8_text cs ++ 0 ∷ rest) s
        ≡ ok (handle_string_tag s key (utf8_text cs))
  unfolding handle_utf8
  handle_utf8_text key cs rest s h = rw (
    is_valid_utf8-utf8_text (length (utf8_text cs ++ 0 ∷ rest) + 1) cs rest h
        (omega (arith, length≤utf8_text cs, length-append (utf8_text cs) (0 ∷ rest))),
    handle_utf8,
    c_string-text (utf8_text cs) rest (utf8_text-IsNonzero cs h),
  )

  -- Wide text that is not empty reaches the client as UTF-8.
  handle_wide_text :
      (key : List ℕ) (c : ℕ) (cs rest : List ℕ) (s : State)
      → All IsBasicText (c ∷ cs)
      → handle_wide lib client key (c ∷ cs ++ 0 ∷ rest) s
        ≡ ok (handle_string_tag s key (utf8_text (c ∷ cs)))
  unfolding handle_wide
  handle_wide_text key c cs rest s h =
      rw
        (
          c_string-text (c ∷ cs) rest (IsBasicText-IsNonzero (c ∷ cs) h),
          unicode_to_utf8_fits (c ∷ cs) (length (c ∷ cs) * 3 + 1)
              (IsBasicText-IsBasicPlane (c ∷ cs) h)
              (omega (arith, length-utf8_text (c ∷ cs) (IsBasicText-IsBasicPlane (c ∷ cs) h))),
        )
        (ground (
          arith,
          length≤utf8_text (c ∷ cs),
          c_string-text (utf8_text (c ∷ cs)) [] (utf8_text-IsNonzero (c ∷ cs) h),
        ))

  deliver_one :
      (key value : List ℕ) (s : State)
      → ok (handle_string_tag s key value) ≡ ok (deliver client ((key, value) ∷ []) s)
  unfolding deliver
  deliver_one key value s = ap ok (accepted_or_not (handle_string_tag s key value))
    where
      accepted_or_not : (r : Bool × State) → r ≡ if_accepted client r (λ t. (true, t))
      accepted_or_not (true, t) = refl
      accepted_or_not (false, t) = refl

  handle_wide_empty :
      (key rest : List ℕ) (s : State) → handle_wide lib client key (0 ∷ rest) s ≡ ok (true, s)
  unfolding handle_wide c_string unicode_to_utf8 encode_loop
  handle_wide_empty key rest s = refl

  abbrev tags_of_frame : TextFrame → List Tag
  tags_of_frame x = tag_of x.charset (tag_key x) x.text

  -- One round on the type and the value of a text frame delivers its tags.
  handle_type-deliver :
      (c : CharacterSet) (key name text rest : List ℕ) (s : State)
      → IsUnicode c
      → All IsBasicText text
      → client_key key (charset_type c).0 ≡ name
      → handle_type lib client key (charset_type c).0 (value_of c text rest) s
        ≡ ok (deliver client (tag_of c name text) s)
  unfolding handle_type charset_type value_of tag_of deliver branch_of starts_with chars_of
      wide_chars_of
  handle_type-deliver charset_utf8 key name text rest s u h e =
      rw e (handle_utf8_text name text rest s h ∙ deliver_one name (utf8_text text) s)
  handle_type-deliver charset_utf16 key name [] rest s u h e = rw e (handle_wide_empty name rest s)
  handle_type-deliver charset_utf16 key name (x ∷ xs) rest s u h e =
      rw e (handle_wide_text name x xs rest s h ∙ deliver_one name (utf8_text (x ∷ xs)) s)
  handle_type-deliver charset_utf16be key name [] rest s u h e =
      rw e (handle_wide_empty name rest s)
  handle_type-deliver charset_utf16be key name (x ∷ xs) rest s u h e =
      rw e (handle_wide_text name x xs rest s h ∙ deliver_one name (utf8_text (x ∷ xs)) s)
  handle_type-deliver charset_invalid key name text rest s u h e = absurd u
  handle_type-deliver charset_iso88591 key name text rest s u h e = absurd u
  handle_type-deliver charset_end key name text rest s u h e = absurd u

  handle_frame-deliver :
      (x : TextFrame) (s : State)
      → IsTextFrame x
      → handle_frame lib client (kvp_of x) s ≡ ok (deliver client (tags_of_frame x) s)
  unfolding handle_frame kvp_of
  handle_frame-deliver x s (t, u, h) =
      let k =
        construct_kvp_key-KeyIs x.tag_version x.frame_id x.language x.frame_type x.charset t u in
      rw (handle_frame, k.0) (handle_type-deliver x.charset _ (tag_key x) x.text x.rest s u h k.1)

  if_accepted_assoc :
      (r : Bool × State) (m k l : State → Bool × State)
      → ((t : State) → m t ≡ if_accepted client (k t) l)
      → if_accepted client r m ≡ if_accepted client (if_accepted client r k) l
  if_accepted_assoc (true, t) m k l h = h t
  if_accepted_assoc (false, t) m k l h = refl

  -- Tags in front of others: these follow if all of the first are accepted.
  deliver-append :
      (xs ys : List Tag) (s : State)
      → deliver client (xs ++ ys) s
        ≡ if_accepted client (deliver client xs s) (λ t. deliver client ys t)
  unfolding deliver
  deliver-append [] ys s = refl
  deliver-append ((key, value) ∷ xs) ys s =
      if_accepted_assoc (handle_string_tag s key value) (λ t. deliver client (xs ++ ys) t)
        (λ t. deliver client xs t) (λ t. deliver client ys t) (λ t. deliver-append xs ys t)

  -- The rounds behind a frame.
  goes_on :
      (r : Bool × State) (k : State → Result (Bool × State)) (l : State → Bool × State)
      → ((t : State) → k t ≡ ok (l t))
      → if_handled lib client (ok r) k ≡ ok (if_accepted client r l)
  unfolding if_handled
  goes_on (true, t) k l h = h t
  goes_on (false, t) k l h = refl

  -- Whatever iconv and the client do: on text frames in UTF-8 or UTF-16 of any of the types that the
  -- parser hands out as text, whose texts have characters of the basic plane only (from 1 to 0xffff and
  -- none from 0xd801 to 0xdffe), the loop ends without a fault, and the client has got the UTF-8 of each
  -- text in order, under its Java name with the type of the key, up to the first tag that it refuses;
  -- empty wide text is left out. The result is whether it refused none.
  pub handle_frames-deliver :
      (xs : List TextFrame) (s : State)
      → All IsTextFrame xs
      → handle_frames lib client (map kvp_of xs) s ≡ ok (deliver client (tags_of xs) s)
  unfolding handle_frames tags_of if_handled
  handle_frames-deliver [] s h = unfold deliver in refl
  handle_frames-deliver (x ∷ xs) s (hx, hxs) =
      rw (handle_frame-deliver x s hx, deliver-append (tags_of_frame x) (tags_of xs) s)
        (goes_on (deliver client (tags_of_frame x) s) _ (λ t. deliver client (tags_of xs) t)
          (λ t. handle_frames-deliver xs t hxs))
