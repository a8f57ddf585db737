-- ===== src/Slack/Tests.antt =====
-- The cut of a message, on small texts.
use siatt.Base.{
  ℕ, ◌≤◌, ◌≡◌, refl, Bool, false, ◌||◌, some, List, [], ◌∷◌, arith, ◌==◌, nat_keyed, string_keyed,
  pair_keyed, null, Every,
}
use siatt.Text.{Text, bytes, concat, words_of}
use siatt.Slack.{cut, pieces, split}
use siatt.Slack.Limits.{split-fits, split-keeps}

abbrev space : ℕ → Bool
space c = c == 32 || c == 10

-- A word, and two characters of three bytes each.
abbrev mixed : Text
mixed = 97 ∷ 32 ∷ 44032 ∷ 44033 ∷ []

mixed-split : split space mixed 4 ≡ some ((97 ∷ []) ∷ (44032 ∷ []) ∷ (44033 ∷ []) ∷ [])
unfolding split pieces cut
mixed-split = refl

split-fits_example :
    Every
      (λ part. (null part ≡ false) × (bytes part ≤ 4))
      ((97 ∷ []) ∷ (44032 ∷ []) ∷ (44033 ∷ []) ∷ [])
split-fits_example = split-fits space mixed 4 _ (omega arith) mixed-split

-- A limit below any of the wide characters.
split-keeps_example :
    (parts : List Text) × (split space mixed 1 ≡ some parts)
    × (words_of space (concat parts) ≡ words_of space mixed)
split-keeps_example = split-keeps space mixed 1 (omega arith)
