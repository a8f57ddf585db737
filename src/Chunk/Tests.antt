-- ===== src/Chunk/Tests.antt =====
-- Cutting a small memory document, with patterns written out.
use siatt.Base.{
  ℕ, zero, suc, ◌≡◌, refl, sym, ap, ◌∙◌, inl, inr, Bool, ◌||◌, List, [], ◌∷◌, ◌++◌, map, arith,
  if◌then◌else◌, Bool-cases, ◌==◌, nat_keyed, string_keyed, pair_keyed, length, Every,
}
use siatt.Text.{Text, concat, words_of, words_of-append}
use siatt.Chunk.{Patterns, fold_short_tails, split_body}
use siatt.Chunk.Bounds.{IsPiece, split_body-IsPiece}
use siatt.Chunk.Keeps.{Ascending, IsPatterns, split_body-keeps}

abbrev blank : ℕ → Bool
blank c = c == 10 || c == 32

abbrev onto : ℕ → List Text → List Text
onto c [] = (c ∷ []) ∷ []
onto c (t ∷ ts) = (c ∷ t) ∷ ts

abbrev lines : Text → List Text
lines [] = [] ∷ []
lines (c ∷ cs) = let rest = lines cs in if c == 10 then [] ∷ rest else onto c rest

-- A heading at the start of the text only, and a paragraph for each line.
abbrev heading_first : Text → List ℕ
heading_first [] = []
heading_first (c ∷ cs) = if c == 35 then 0 ∷ [] else []

abbrev simple : Patterns
simple = record {
  space = blank;
  headings = heading_first;
  paragraphs = lines;
  codes = λ s. [];
  digits = λ n. "0";
  isoformat = λ n. "";
}

onto-words :
    (c : ℕ) (ts : List Text) → words_of blank (concat (onto c ts)) ≡ words_of blank (c ∷ concat ts)
onto-words c [] = refl
onto-words c (t ∷ ts) = refl

lines-words : (cs : Text) → words_of blank (concat (lines cs)) ≡ words_of blank cs
lines-words [] = refl
lines-words (c ∷ cs) = elim (Bool-cases (c == 10)) [
  | inl newline ↦ rw (newline, lines) (lines-words cs)
  | inr other ↦
      let kept : lines (c ∷ cs) ≡ onto c (lines cs) = rw (other, lines) refl in
      ap (λ ts. words_of blank (concat ts)) kept
      ∙ onto-words c (lines cs)
      ∙ words_of-append blank (c ∷ []) (concat (lines cs))
      ∙ ap (λ t. words_of blank (c ∷ []) ++ t) (lines-words cs)
      ∙ sym (words_of-append blank (c ∷ []) cs)
]

heading_first-Ascending : (body : Text) → Ascending 0 (heading_first body) (length body)
heading_first-Ascending [] = omega arith
heading_first-Ascending (c ∷ cs) = elim (Bool-cases (c == 35)) [
  | inl heading ↦ rw (heading, heading_first) (omega arith, omega arith)
  | inr other ↦ rw (other, heading_first) (omega arith)
]

simple-IsPatterns : IsPatterns simple
simple-IsPatterns = record {
  newline = refl;
  ordered = heading_first-Ascending;
  separated = lines-words;
}

-- "# a", an empty line, and "b c".
abbrev note : Text
note = 35 ∷ 32 ∷ 97 ∷ 10 ∷ 10 ∷ 98 ∷ 32 ∷ 99 ∷ []

split_body-keeps_example : words_of blank (concat (split_body simple note)) ≡ words_of blank note
split_body-keeps_example = split_body-keeps simple note simple-IsPatterns

split_body-IsPiece_example : Every (IsPiece 1202) (split_body simple note)
split_body-IsPiece_example = split_body-IsPiece simple note

abbrev repeat : ℕ → ℕ → Text
repeat zero c = []
repeat (suc n) c = c ∷ repeat n c

-- A tail of a hundred characters folded onto a piece of eleven hundred: two more than the cap.
past_cap : map length (fold_short_tails (repeat 1100 97 ∷ repeat 100 98 ∷ [])) ≡ 1202 ∷ []
unfolding fold_short_tails
past_cap = refl
