-- ===== src/ClientSocket/Replies.antt =====
-- The loop of `ReceiveReply` of src/communication/ClientSocket.cpp.
use panda_scratchpad.Base.{
  ℕ, ◌≤◌, ◌≡◌, ◌≢◌, ◌⊎◌, refl, sym, ap, ◌∙◌, true, none, some, List, [], ◌∷◌, ◌++◌, arith,
  Option-cases, inl, inr, ltb, ltb-eq_true, length, drop, length-append, append_assoc,
  drop_append_le, length-drop,
}
use panda_scratchpad.Base.Words.{Bytes}
use panda_scratchpad.Base.Texts.{
  codes, find, c_str, c_str_nul, find-append, length-c_str, Without, c_str-append,
}
use panda_scratchpad.Base.Outcome.{ok}
use panda_scratchpad.ClientSocket.{no_error, text_of, receive_reply}

abbrev pub marker : Bytes
marker = codes "cmEOF"

-- The text in a buffer whose last byte is NUL.
text_of_nul : (s : Bytes) → text_of (s ++ 0 ∷ []) ≡ some (c_str s)
unfolding text_of
text_of_nul s =
    let shorter : ltb (length (c_str s)) (length (s ++ 0 ∷ [])) ≡ true =
      ltb-eq_true _ _ (omega (arith, length-c_str s, length-append s (0 ∷ []))) in
    rw (c_str_nul s [], shorter)

-- A reply that fits in front of the last byte leaves this byte.
front_of_nul :
    (bytes s : Bytes)
    → length bytes ≤ length s
    → bytes ++ drop (length bytes) (s ++ 0 ∷ []) ≡ (bytes ++ drop (length bytes) s) ++ 0 ∷ []
front_of_nul bytes s h =
    rw (drop_append_le (length bytes) s (0 ∷ []) h)
      (sym (append_assoc bytes (drop (length bytes) s) (0 ∷ [])))

-- Replies that are not empty, and shorter than the buffer.
abbrev pub AllFit : ℕ → List Bytes → Type 0
AllFit n [] = Unit {0}
AllFit n (r ∷ rs) = (r ≢ []) × (length r ≤ n) × AllFit n rs

-- The buffer but for its last byte, once a reply is received.
abbrev received : Bytes → Bytes → Bytes
received s r = r ++ drop (length r) s

-- One round: the marker is found, or the loop goes on with the new buffer.
receive_round :
    (s r : Bytes) (rs : List Bytes)
    → r ≢ []
    → length r ≤ length s
    → (receive_reply (s ++ 0 ∷ []) (r ∷ rs) ≡ ok no_error)
      ⊎ ((receive_reply (s ++ 0 ∷ []) (r ∷ rs) ≡ receive_reply (received s r ++ 0 ∷ []) rs)
          × (find (c_str (received s r)) marker ≡ none))
unfolding receive_reply
receive_round s [] rs n h = absurd (n refl)
receive_round s (b ∷ bytes) rs n h =
    let buffer = front_of_nul (b ∷ bytes) s h in
    let text = text_of_nul (received s (b ∷ bytes)) in
    elim (Option-cases (find (c_str (received s (b ∷ bytes))) marker)) [
      | inl e ↦ inr (rw (receive_reply, buffer, text, e) (ap (λ u. receive_reply u rs) buffer), e)
      | inr (k, e) ↦ inl (rw (receive_reply, buffer, text, e))
    ]

length-received : (s r : Bytes) → length r ≤ length s → length (received s r) ≡ length s
length-received s r h =
    length-append r (drop (length r) s) ∙ omega (arith, length-drop (length r) s)

-- A buffer that ends in a NUL, replies that are shorter than it, and then one, shorter as well, that
-- holds the marker with no NUL in front of it: `ReceiveReply` ends without an error, whatever the
-- buffer holds in front of its NUL and whatever would be received next.
pub receive_reply-marker :
    (s : Bytes) (rs : List Bytes) (front back : Bytes) (more : List Bytes)
    → AllFit (length s) rs
    → Without 0 front
    → length (front ++ (marker ++ back)) ≤ length s
    → receive_reply (s ++ 0 ∷ []) (rs ++ ((front ++ (marker ++ back)) ∷ more)) ≡ ok no_error
receive_reply-marker s [] front back more fit w h =
    let reply : Bytes = front ++ (marker ++ back) in
    let some_bytes : reply ≢ [] = not_empty front in
    elim (receive_round s reply more some_bytes h) [ inl e ↦ e | inr (_, e) ↦ absurd (seen e) ]
  where
    not_empty : (f : Bytes) → f ++ (marker ++ back) ≢ []
    not_empty [] e = cc
    not_empty (b ∷ f) e = cc

    seen : find (c_str (received s (front ++ (marker ++ back)))) marker ≢ none
    seen =
        let d : Bytes = drop (length (front ++ (marker ++ back))) s in
        let regroup : (front ++ (marker ++ back)) ++ d ≡ front ++ (marker ++ (back ++ d)) =
          append_assoc front (marker ++ back) d
          ∙ ap (λ t. front ++ t) (append_assoc marker back d) in
        let text : c_str ((front ++ (marker ++ back)) ++ d)
            ≡ front ++ (marker ++ c_str (back ++ d)) =
          ap c_str regroup
          ∙ (c_str-append front (marker ++ (back ++ d)) w
              ∙ ap (λ t. front ++ t) (c_str-append marker (back ++ d) (omega arith))) in
        rw text (find-append marker front (c_str (back ++ d)))
receive_reply-marker s (r ∷ rs) front back more fit w h =
    let same : length (received s r) ≡ length s = length-received s r fit.1 in
    elim (receive_round s r (rs ++ ((front ++ (marker ++ back)) ∷ more)) fit.0 fit.1) [
      | inl e ↦ e
      | inr (e, _) ↦
          e
          ∙ receive_reply-marker (received s r) rs front back more (rw same fit.2) w
              (omega (arith, same))
    ]
