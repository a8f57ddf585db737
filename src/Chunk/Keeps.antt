-- ===== src/Chunk/Keeps.antt =====
-- That cutting a memory document loses no word of it.
use siatt.Base.{
  ℕ, zero, suc, ◌+◌, ◌-◌, ◌≤◌, ◌≡◌, refl, sym, ap, ap₂, ◌∙◌, inl, inr, true, List, [], ◌∷◌, ◌++◌,
  arith, ltb, leb, Bool-cases, ◌==◌, nat_keyed, string_keyed, pair_keyed, length, take,
}
use siatt.Text.{
  Text, drop, concat, take-drop, length-drop, strip, words_of, words_of-append, words_of-strip,
}
use mathlib.Core.List.{append-nil, append_assoc}
use siatt.Chunk.{
  Patterns, max_chunk_chars, blank_line, slice, overflow, cut_off, add_paragraph, is_tail,
  fold_onto, fold_short_tails, if_some, sections_from, starts_of, split_on_headings, pack,
  split_to_size, all_sizes, split_body,
}

-- What is asked of the regular expressions: matches come from left to right, inside the text, and only
-- whitespace separates paragraphs.
abbrev pub Ascending : ℕ → List ℕ → ℕ → Type 0
Ascending low [] high = low ≤ high
Ascending low (n ∷ ns) high = (low ≤ n) × Ascending n ns high

pub record IsPatterns (l : Patterns) : Type 0 where
  pub newline : l.space 10 ≡ true
  pub ordered : (body : Text) → Ascending 0 (l.headings body) (length body)
  pub separated :
      (section : Text) → words_of l.space (concat (l.paragraphs section)) ≡ words_of l.space section

drop_empty : (n : ℕ) → drop n [] ≡ []
drop_empty zero = refl
drop_empty (suc n) = refl

drop-drop : (m n : ℕ) (cs : Text) → m ≤ n → drop (n - m) (drop m cs) ≡ drop n cs
drop-drop zero n cs h = let same : n - 0 ≡ n = omega arith in ap (λ k. drop k cs) same
drop-drop (suc m) zero cs h = absurd (omega arith)
drop-drop (suc m) (suc n) [] h = drop_empty (suc n - suc m)
drop-drop (suc m) (suc n) (c ∷ cs) h =
    let same : suc n - suc m ≡ n - m = omega arith in
    ap (λ k. drop k (drop m cs)) same ∙ drop-drop m n cs (omega arith)

take_all : (n : ℕ) (cs : Text) → n ≡ length cs → take n cs ≡ cs
take_all zero [] h = refl
take_all zero (c ∷ cs) h = absurd (omega (arith, h))
take_all (suc n) [] h = refl
take_all (suc n) (c ∷ cs) h = ap (λ t. c ∷ t) (take_all n cs (omega (arith, h)))

module _ (l : Patterns) where
  -- The words of the pieces in order.
  abbrev words : Text → Text
  words = words_of l.space

  if_some-words :
      (s : Text) (ss : List Text) → words (concat (if_some l s ss)) ≡ words s ++ words (concat ss)
  if_some-words [] ss = refl
  if_some-words (c ∷ cs) ss = words_of-append l.space (c ∷ cs) (concat ss)

  words_of-concat :
      (ss ts : List Text) → words (concat (ss ++ ts)) ≡ words (concat ss) ++ words (concat ts)
  words_of-concat [] ts = refl
  words_of-concat (s ∷ ss) ts =
      words_of-append l.space s (concat (ss ++ ts))
      ∙ ap (λ t. words s ++ t) (words_of-concat ss ts)
      ∙ sym (append_assoc (words s) (words (concat ss)) (words (concat ts)))
      ∙ ap (λ t. t ++ words (concat ts)) (sym (words_of-append l.space s (concat ss)))

  -- Cutting off pieces keeps the words of what is cut.
  overflow-keep :
      (fuel : ℕ) (current : Text)
      → words (concat (overflow fuel current).0) ++ words (overflow fuel current).1 ≡ words current
  overflow-keep zero current = refl
  overflow-keep (suc fuel) current = elim (Bool-cases (ltb max_chunk_chars (length current))) [
    | inr small ↦ rw (small, overflow) refl
    | inl large ↦
        rw (large, overflow)
          (ap (λ t. t ++ words (overflow fuel (drop max_chunk_chars current)).1)
              (words_of-append l.space (take max_chunk_chars current)
                (concat (overflow fuel (drop max_chunk_chars current)).0))
            ∙ append_assoc (words (take max_chunk_chars current))
                (words (concat (overflow fuel (drop max_chunk_chars current)).0))
                (words (overflow fuel (drop max_chunk_chars current)).1)
            ∙ ap (λ t. words (take max_chunk_chars current) ++ t)
                (overflow-keep fuel (drop max_chunk_chars current))
            ∙ sym (
                words_of-append l.space (take max_chunk_chars current)
                  (drop max_chunk_chars current))
            ∙ ap words (take-drop max_chunk_chars current))
  ]

  blank_line-keep :
      (first second : Text)
      → l.space 10 ≡ true
      → words (blank_line first second) ≡ words first ++ words second
  blank_line-keep first second e =
      words_of-append l.space first (10 ∷ 10 ∷ second)
      ∙ ap (λ t. words first ++ t) (rw (e, words_of) refl)

  add_paragraph-keep :
      (current paragraph : Text)
      → l.space 10 ≡ true
      → words (concat (add_paragraph current paragraph).0)
          ++ words (add_paragraph current paragraph).1
        ≡ words current ++ words paragraph
  add_paragraph-keep current [] e = sym (append-nil (words current))
  add_paragraph-keep [] (p ∷ ps) e = overflow-keep (length (p ∷ ps)) (p ∷ ps)
  add_paragraph-keep (c ∷ cs) (p ∷ ps) e =
      elim (Bool-cases (ltb max_chunk_chars (length (c ∷ cs) + length (p ∷ ps) + 2))) [
        | inl full ↦
            let made = cut_off (p ∷ ps) in
            rw (full, add_paragraph)
              (ap (λ t. t ++ words made.1) (words_of-append l.space (c ∷ cs) (concat made.0))
                ∙ append_assoc (words (c ∷ cs)) (words (concat made.0)) (words made.1)
                ∙ ap (λ t. words (c ∷ cs) ++ t) (overflow-keep (length (p ∷ ps)) (p ∷ ps)))
        | inr room ↦
            rw (room, add_paragraph)
              (overflow-keep (length (blank_line (c ∷ cs) (p ∷ ps))) (blank_line (c ∷ cs) (p ∷ ps))
                ∙ blank_line-keep (c ∷ cs) (p ∷ ps) e)
      ]

  pack-keep :
      (paragraphs : List Text) (current : Text)
      → l.space 10 ≡ true
      → words (concat (pack l paragraphs current)) ≡ words current ++ words (concat paragraphs)
  pack-keep [] [] e = refl
  pack-keep [] (c ∷ cs) e = words_of-append l.space (c ∷ cs) []
  pack-keep (p ∷ ps) current e =
      let made = add_paragraph current (strip l.space p) in
      words_of-concat made.0 (pack l ps made.1)
      ∙ ap (λ t. words (concat made.0) ++ t) (pack-keep ps made.1 e)
      ∙ sym (append_assoc (words (concat made.0)) (words made.1) (words (concat ps)))
      ∙ ap (λ t. t ++ words (concat ps)) (add_paragraph-keep current (strip l.space p) e)
      ∙ append_assoc (words current) (words (strip l.space p)) (words (concat ps))
      ∙ ap (λ t. words current ++ (t ++ words (concat ps))) (words_of-strip l.space p)
      ∙ ap (λ t. words current ++ t) (sym (words_of-append l.space p (concat ps)))

  split_to_size-keep :
      (section : Text) → IsPatterns l → words (concat (split_to_size l section)) ≡ words section
  unfolding split_to_size
  split_to_size-keep section laws = elim (Bool-cases (leb (length section) max_chunk_chars)) [
    | inl small ↦ rw small (ap words (append-nil section))
    | inr large ↦
        rw large (pack-keep (l.paragraphs section) [] laws.newline ∙ laws.separated section)
  ]

  all_sizes-keep :
      (sections : List Text)
      → IsPatterns l
      → words (concat (all_sizes l sections)) ≡ words (concat sections)
  all_sizes-keep [] laws = refl
  all_sizes-keep (s ∷ ss) laws =
      words_of-concat (split_to_size l s) (all_sizes l ss)
      ∙ ap₂ (λ s t. s ++ t) (split_to_size-keep s laws) (all_sizes-keep ss laws)
      ∙ sym (words_of-append l.space s (concat ss))

  -- Sections that start where the matches do cover the rest of the body.
  sections_from-keep :
      (body : Text) (start : ℕ) (starts : List ℕ)
      → Ascending start starts (length body)
      → words (concat (sections_from l body (start ∷ starts))) ≡ words (drop start body)
  sections_from-keep body start [] h =
      let all = take_all (length body - start) (drop start body) (sym (length-drop start body)) in
      if_some-words (strip l.space (slice body start (length body))) []
      ∙ append-nil (words (strip l.space (slice body start (length body))))
      ∙ words_of-strip l.space (slice body start (length body))
      ∙ ap words all
  sections_from-keep body start (end ∷ starts) h =
      if_some-words (strip l.space (slice body start end)) (sections_from l body (end ∷ starts))
      ∙ ap₂ (λ s t. s ++ t) (words_of-strip l.space (slice body start end))
          (sections_from-keep body end starts h.1 ∙ ap words (sym (drop-drop start end body h.0)))
      ∙ sym (words_of-append l.space (slice body start end) (drop (end - start) (drop start body)))
      ∙ ap words (take-drop (end - start) (drop start body))

  starts_of-keep :
      (body : Text) (boundaries : List ℕ)
      → Ascending 0 boundaries (length body)
      → words (concat (sections_from l body (starts_of l boundaries))) ≡ words body
  starts_of-keep body [] h = sections_from-keep body 0 [] (omega arith)
  starts_of-keep body (n ∷ ns) h = elim (Bool-cases (n == 0)) [
    | inl zero_first ↦
        let same : n ≡ 0 = (nat_keyed.same_iff n 0).0 zero_first in
        rw (zero_first, starts_of)
          (sections_from-keep body n ns h.1 ∙ ap (λ k. words (drop k body)) same)
    | inr later ↦ rw (later, starts_of) (sections_from-keep body 0 (n ∷ ns) h)
  ]

  fold_onto-keep :
      (last : Text) (pieces : List Text)
      → l.space 10 ≡ true
      → words (concat (fold_onto last pieces)) ≡ words last ++ words (concat pieces)
  fold_onto-keep last [] e = words_of-append l.space last []
  fold_onto-keep last (p ∷ ps) e = elim (Bool-cases (is_tail last p)) [
    | inl tail ↦
        rw (tail, fold_onto)
          (fold_onto-keep (blank_line last p) ps e
            ∙ ap (λ t. t ++ words (concat ps)) (blank_line-keep last p e)
            ∙ append_assoc (words last) (words p) (words (concat ps))
            ∙ ap (λ t. words last ++ t) (sym (words_of-append l.space p (concat ps))))
    | inr apart ↦
        rw (apart, fold_onto)
          (words_of-append l.space last (concat (fold_onto p ps))
            ∙ ap (λ t. words last ++ t)
                (fold_onto-keep p ps e ∙ sym (words_of-append l.space p (concat ps))))
  ]

  fold_short_tails-keep :
      (pieces : List Text)
      → l.space 10 ≡ true
      → words (concat (fold_short_tails pieces)) ≡ words (concat pieces)
  unfolding fold_short_tails
  fold_short_tails-keep [] e = refl
  fold_short_tails-keep (p ∷ ps) e =
      fold_onto-keep p ps e ∙ sym (words_of-append l.space p (concat ps))

  -- With patterns that match from left to right and that separate paragraphs by whitespace only, what
  -- is not whitespace in the body is in the pieces, once and in order.
  pub split_body-keeps :
      (body : Text)
      → IsPatterns l
      → words_of l.space (concat (split_body l body)) ≡ words_of l.space body
  unfolding split_body split_on_headings
  split_body-keeps body laws =
      fold_short_tails-keep (all_sizes l (split_on_headings l body)) laws.newline
      ∙ all_sizes-keep (split_on_headings l body) laws
      ∙ starts_of-keep body (l.headings body) (laws.ordered body)
