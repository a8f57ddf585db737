-- ===== src/Slack.antt =====
-- How a long Slack message is cut, adapters/slack/limits.py: `Slack.split`. What `str.isspace` says of
-- a code point is a parameter.
pub mod Limits
pub mod Tests
use siatt.Base.{
  ℕ, zero, suc, ◌+◌, ◌-◌, max, Bool, Option, none, some, List, [], ◌∷◌, ltb, leb, if◌then◌else◌,
  nat_keyed, string_keyed, pair_keyed, length, take, null,
}
use siatt.Text.{Text, width, bytes, drop, rfind, lstrip, rstrip, strip}

abbrev pub max_bytes : ℕ
max_bytes = 3500

abbrev pub breaks : List Text
breaks = (10 ∷ 10 ∷ []) ∷ (10 ∷ []) ∷ (32 ∷ []) ∷ []

-- `len(text.encode()[:limit].decode("utf-8", errors="ignore"))`: the longest prefix, in characters,
-- whose encoding fits.
abbrev pub fits : Text → ℕ → ℕ
fits [] limit = 0
fits (c ∷ cs) limit =
    let rest = fits cs (limit - width c) in if leb (width c) limit then suc rest else 0

-- The last place in the window, past its start, of the first separator that has one.
abbrev pub break_at : List Text → Text → Option ℕ
break_at [] window = none
break_at (separator ∷ separators) window = elim (rfind separator window) [
  | none ↦ break_at separators window
  | some found ↦ if ltb 0 found then some found else break_at separators window
]

abbrev pub cut_or : Option ℕ → ℕ → ℕ
cut_or none fits = max fits 1
cut_or (some found) fits = found

-- `_cut`
unfoldable pub cut : Text → ℕ → ℕ
cut text limit = cut_or (break_at breaks (take (fits text limit + 1) text)) (fits text limit)

module _ (space : ℕ → Bool) where
  -- The loop of `split`.
  unfoldable pub pieces : ℕ → ℕ → Text → List Text
  pieces zero limit remaining = []
  pieces (suc fuel) limit remaining =
      let at = cut remaining limit in
      let rest = pieces fuel limit (lstrip space (drop at remaining)) in
      if null remaining
      then []
      else if leb (bytes remaining) limit
      then remaining ∷ []
      else rstrip space (take at remaining) ∷ rest

  -- `[part for part in parts if part]`
  abbrev pub not_empty : List Text → List Text
  not_empty [] = []
  not_empty ([] ∷ parts) = not_empty parts
  not_empty ((c ∷ cs) ∷ parts) = (c ∷ cs) ∷ not_empty parts

  -- None where it raises ValueError.
  unfoldable pub split : Text → ℕ → Option (List Text)
  split text limit =
      if ltb limit 1
      then none
      else some (not_empty (pieces (length (strip space text)) limit (strip space text)))
