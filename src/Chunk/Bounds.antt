-- ===== src/Chunk/Bounds.antt =====
-- That the pieces of a memory document are bounded.
use siatt.Base.{
  ℕ, zero, suc, ◌+◌, ◌≤◌, ◌<◌, ◌≡◌, inl, inr, true, List, [], ◌∷◌, arith, ltb, leb, Bool-cases,
  nat_keyed, string_keyed, pair_keyed, length, take, Every, length-append, Every-append,
}
use siatt.Text.{Text, drop, length-drop, strip}
use siatt.Chunk.{
  Patterns, max_chunk_chars, blank_line, overflow, add_paragraph, is_tail, fold_onto,
  fold_short_tails, if_some, sections_from, split_on_headings, starts_of, pack, split_to_size,
  all_sizes, split_body,
}

-- A piece has some text, `most` characters at most.
pub record IsPiece (most : ℕ) (piece : Text) : Type 0 where
  pub some_text : 0 < length piece
  pub bounded : length piece ≤ most

length-take : (n : ℕ) (cs : Text) → n ≤ length cs → length (take n cs) ≡ n
length-take zero cs h = omega arith
length-take (suc n) [] h = absurd (omega arith)
length-take (suc n) (c ∷ cs) h = omega (arith, length-take n cs (omega arith))

-- What a cut leaves.
record IsCut (made : List Text × Text) : Type 0 where
  complete : Every (IsPiece 1200) made.0
  fits : length made.1 ≤ 1200

overflow-IsCut : (fuel : ℕ) (current : Text) → length current ≤ fuel → IsCut (overflow fuel current)
overflow-IsCut zero current h = record { complete = tt; fits = omega arith }
overflow-IsCut (suc fuel) current h = elim (Bool-cases (ltb max_chunk_chars (length current))) [
  | inr small ↦ rw (small, overflow) (record { complete = tt; fits = ground arith })
  | inl large ↦
      let more : 1200 < length current = ground arith in
      let rest =
        overflow-IsCut fuel (drop max_chunk_chars current)
          (omega (arith, length-drop 1200 current, h, more)) in
      let exact = length-take 1200 current (omega (arith, more)) in
      rw (large, overflow)
        (record {
          complete = (
            record { some_text = omega (arith, exact); bounded = omega (arith, exact) },
            rest.complete,
          );
          fits = rest.fits;
        })
]

add_paragraph-IsCut :
    (current paragraph : Text) → length current ≤ 1200 → IsCut (add_paragraph current paragraph)
add_paragraph-IsCut current [] h = record { complete = tt; fits = h }
add_paragraph-IsCut [] (p ∷ ps) h = overflow-IsCut (length (p ∷ ps)) (p ∷ ps) (omega arith)
add_paragraph-IsCut (c ∷ cs) (p ∷ ps) h =
    elim (Bool-cases (ltb max_chunk_chars (length (c ∷ cs) + length (p ∷ ps) + 2))) [
      | inl full ↦
          let rest = overflow-IsCut (length (p ∷ ps)) (p ∷ ps) (omega arith) in
          rw (full, add_paragraph)
            (record {
              complete = (record { some_text = omega arith; bounded = h }, rest.complete);
              fits = rest.fits;
            })
      | inr room ↦
          rw (room, add_paragraph)
            (overflow-IsCut (length (blank_line (c ∷ cs) (p ∷ ps))) (blank_line (c ∷ cs) (p ∷ ps))
              (omega arith))
    ]

module _ (l : Patterns) where
  if_some-Every :
      (s : Text) (ss : List Text)
      → Every (λ s. 0 < length s) ss
      → Every (λ s. 0 < length s) (if_some l s ss)
  if_some-Every [] ss h = h
  if_some-Every (c ∷ cs) ss h = (omega arith, h)

  pack-IsPiece :
      (paragraphs : List Text) (current : Text)
      → length current ≤ 1200
      → Every (IsPiece 1200) (pack l paragraphs current)
  pack-IsPiece [] [] h = tt
  pack-IsPiece [] (c ∷ cs) h = (record { some_text = omega arith; bounded = h }, tt)
  pack-IsPiece (p ∷ ps) current h =
      let made = add_paragraph-IsCut current (strip l.space p) h in
      Every-append (IsPiece 1200) _ _ made.complete (pack-IsPiece ps _ made.fits)

  split_to_size-IsPiece :
      (section : Text) → 0 < length section → Every (IsPiece 1200) (split_to_size l section)
  unfolding split_to_size
  split_to_size-IsPiece section h = elim (Bool-cases (leb (length section) max_chunk_chars)) [
    | inl small ↦ rw small (record { some_text = h; bounded = ground arith }, tt)
    | inr large ↦ rw large (pack-IsPiece (l.paragraphs section) [] (omega arith))
  ]

  sections_from-Every :
      (body : Text) (starts : List ℕ) → Every (λ s. 0 < length s) (sections_from l body starts)
  sections_from-Every body [] = tt
  sections_from-Every body (start ∷ []) = if_some-Every _ [] tt
  sections_from-Every body (start ∷ end ∷ starts) =
      if_some-Every _ _ (sections_from-Every body (end ∷ starts))

  all_sizes-IsPiece :
      (sections : List Text)
      → Every (λ s. 0 < length s) sections
      → Every (IsPiece 1200) (all_sizes l sections)
  all_sizes-IsPiece [] h = tt
  all_sizes-IsPiece (s ∷ ss) h =
      Every-append (IsPiece 1200) _ _ (split_to_size-IsPiece s h.0) (all_sizes-IsPiece ss h.1)

joined-IsPiece :
    (last piece : Text)
    → IsPiece 1202 last
    → is_tail last piece ≡ true
    → IsPiece 1202 (blank_line last piece)
joined-IsPiece last piece h e =
    let room : length last + length piece ≤ 1200 = ground arith in
    let whole = length-append last (10 ∷ 10 ∷ piece) in
    record { some_text = omega (arith, whole, h.some_text); bounded = omega (arith, whole, room) }

-- A fold adds a separator that its bound leaves out.
fold_onto-IsPiece :
    (last : Text) (pieces : List Text)
    → IsPiece 1202 last
    → Every (IsPiece 1200) pieces
    → Every (IsPiece 1202) (fold_onto last pieces)
fold_onto-IsPiece last [] h hs = (h, tt)
fold_onto-IsPiece last (p ∷ ps) h hs = elim (Bool-cases (is_tail last p)) [
  | inl tail ↦
      rw (tail, fold_onto)
        (fold_onto-IsPiece (blank_line last p) ps (joined-IsPiece last p h tail) hs.1)
  | inr apart ↦
      rw (apart, fold_onto)
        (
          h,
          fold_onto-IsPiece p ps
              (record { some_text = hs.0.some_text; bounded = omega (arith, hs.0.bounded) }) hs.1,
        )
]

fold_short_tails-IsPiece :
    (pieces : List Text)
    → Every (IsPiece 1200) pieces
    → Every (IsPiece 1202) (fold_short_tails pieces)
unfolding fold_short_tails
fold_short_tails-IsPiece [] h = tt
fold_short_tails-IsPiece (p ∷ ps) h =
    fold_onto-IsPiece p ps
      (record { some_text = h.0.some_text; bounded = omega (arith, h.0.bounded) }) h.1

-- Whatever the body, and whatever the patterns match in it, no piece is empty and none has more than
-- 1202 characters.
pub split_body-IsPiece : (l : Patterns) (body : Text) → Every (IsPiece 1202) (split_body l body)
unfolding split_body split_on_headings
split_body-IsPiece l body = fold_short_tails-IsPiece (all_sizes l (split_on_headings l body)) (
    all_sizes-IsPiece l (split_on_headings l body)
      (sections_from-Every l body (starts_of l (l.headings body))))
