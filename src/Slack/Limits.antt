-- ===== src/Slack/Limits.antt =====
-- That a Slack message is cut into parts that fit, and that all of it goes out.
use siatt.Base.{
  ℕ, zero, suc, ◌+◌, ◌-◌, ◌≤◌, ◌<◌, max, ◌≡◌, refl, sym, ap, ap₂, ◌∙◌, subst, inl, inr, Bool, true,
  false, some, List, [], ◌∷◌, ◌++◌, arith, ltb, leb, Bool-cases, Option-cases, nat_keyed,
  string_keyed, pair_keyed, length, take, null, Every, length-take-le,
}
use siatt.Text.{
  Text, width, bytes, drop, concat, rfind, rfind-le, take-drop, length-drop, lstrip, rstrip, strip,
  words_of, words_of-append, words_of-lstrip, words_of-rstrip, words_of-strip, length-lstrip-le,
  rstrip-le,
}
use mathlib.Core.List.{append-nil}
use siatt.Slack.{breaks, fits, break_at, cut, pieces, not_empty, split}

width-le : (c : ℕ) → width c ≤ 4
width-le c = ground arith

fits-take : (text : Text) (limit n : ℕ) → n ≤ fits text limit → bytes (take n text) ≤ limit
fits-take text limit zero h = omega arith
fits-take [] limit (suc n) h = omega arith
fits-take (c ∷ cs) limit (suc n) h = elim (Bool-cases (leb (width c) limit)) [
  | inl wide ↦
      let rest = fits-take cs (limit - width c) n (omega (arith, rw (wide, fits) at h)) in
      ground (arith, rest)
  | inr narrow ↦ absurd (omega (arith, rw (narrow, fits) at h))
]

-- Where the first character fits, so does a character.
fits-some : (c : ℕ) (cs : Text) (limit : ℕ) → 4 ≤ limit → 1 ≤ fits (c ∷ cs) limit
fits-some c cs limit h =
    let wide : leb (width c) limit ≡ true = ground (arith, width-le c, h) in
    rw (wide, fits) (omega arith)

break_at-le :
    (separators : List Text) (window : Text) (found : ℕ)
    → Every (λ s. 1 ≤ length s) separators
    → break_at separators window ≡ some found
    → (0 < found) × (found < length window)
break_at-le [] window found h e = absurd (cc e)
break_at-le (s ∷ ss) window found h e = elim (Option-cases (rfind s window)) [
  | inl nothing ↦ break_at-le ss window found h.1 (rw (nothing, break_at) at e)
  | inr (i, last) ↦ elim (Bool-cases (ltb 0 i)) [
    | inr start ↦ break_at-le ss window found h.1 (rw (last, start, break_at) at e)
    | inl later ↦
        let same : i ≡ found = cc (rw (last, later, break_at) at e) in
        let room = rfind-le s window i last in
        let some_length : 1 ≤ length s = h.0 in
        let after : 0 < i = ground arith in
        (omega (arith, same, after), omega (arith, room, same, some_length))
  ]
]

breaks-some : Every (λ s. 1 ≤ length s) breaks
breaks-some = (omega arith, (omega arith, (omega arith, tt)))

-- The cut is after the first character, and at most where the text stops fitting.
cut-le :
    (text : Text) (limit : ℕ) → (0 < cut text limit) × (cut text limit ≤ max (fits text limit) 1)
unfolding cut
cut-le text limit = elim (Option-cases (break_at breaks (take (fits text limit + 1) text))) [
  | inl nothing ↦ rw nothing (omega arith, omega arith)
  | inr (found, e) ↦
      let (after, before) =
        break_at-le breaks (take (fits text limit + 1) text) found breaks-some e in
      let short = length-take-le (fits text limit + 1) text in
      rw e (after, omega (arith, before, short))
]

module _ (space : ℕ → Bool) where
  first_part-le :
      (text : Text) (limit : ℕ)
      → cut text limit ≤ fits text limit
      → bytes (rstrip space (take (cut text limit) text)) ≤ limit
  first_part-le text limit h =
      let whole = fits-take text limit (cut text limit) h in
      let less = (rstrip-le space (take (cut text limit) text)).1 in omega (arith, whole, less)

  -- The rest is shorter.
  later-le :
      (fuel limit c : ℕ) (cs : Text)
      → length (c ∷ cs) ≤ suc fuel
      → length (lstrip space (drop (cut (c ∷ cs) limit) (c ∷ cs))) ≤ fuel
  later-le fuel limit c cs h =
      let at = cut (c ∷ cs) limit in
      let less = length-lstrip-le space (drop at (c ∷ cs)) in
      omega (arith, h, less, length-drop at (c ∷ cs), (cut-le (c ∷ cs) limit).0)

  first_part-keep :
      (at : ℕ) (text rest : Text)
      → words_of space rest ≡ words_of space (lstrip space (drop at text))
      → words_of space (rstrip space (take at text) ++ rest) ≡ words_of space text
  first_part-keep at text rest e =
      words_of-append space (rstrip space (take at text)) rest
      ∙ ap₂ (λ s t. s ++ t) (words_of-rstrip space (take at text))
          (e ∙ words_of-lstrip space (drop at text))
      ∙ sym (words_of-append space (take at text) (drop at text))
      ∙ ap (words_of space) (take-drop at text)

  pieces-fit :
      (fuel limit : ℕ) (remaining : Text)
      → 4 ≤ limit
      → Every (λ part. bytes part ≤ limit) (pieces space fuel limit remaining)
  unfolding pieces
  pieces-fit zero limit remaining h = tt
  pieces-fit (suc fuel) limit [] h = tt
  pieces-fit (suc fuel) limit (c ∷ cs) h = elim (Bool-cases (leb (bytes (c ∷ cs)) limit)) [
    | inl small ↦ rw (small, pieces) (ground arith, tt)
    | inr large ↦
        rw (large, pieces)
          (
            first_part-le (c ∷ cs) limit
                (omega (arith, (cut-le (c ∷ cs) limit).1, fits-some c cs limit h)),
            pieces-fit fuel limit _ h,
          )
  ]

  pieces-keep :
      (fuel limit : ℕ) (remaining : Text)
      → length remaining ≤ fuel
      → words_of space (concat (pieces space fuel limit remaining)) ≡ words_of space remaining
  unfolding pieces
  pieces-keep zero limit [] h = refl
  pieces-keep zero limit (c ∷ cs) h = absurd (omega (arith, h))
  pieces-keep (suc fuel) limit [] h = refl
  pieces-keep (suc fuel) limit (c ∷ cs) h = elim (Bool-cases (leb (bytes (c ∷ cs)) limit)) [
    | inl small ↦ rw (small, pieces) (ap (words_of space) (append-nil (c ∷ cs)))
    | inr large ↦
        rw (large, pieces)
          (first_part-keep (cut (c ∷ cs) limit) (c ∷ cs) _ (
            pieces-keep fuel limit (lstrip space (drop (cut (c ∷ cs) limit) (c ∷ cs)))
              (later-le fuel limit c cs h)))
  ]

  concat-not_empty : (parts : List Text) → concat (not_empty space parts) ≡ concat parts
  concat-not_empty [] = refl
  concat-not_empty ([] ∷ parts) = concat-not_empty parts
  concat-not_empty ((c ∷ cs) ∷ parts) = ap (λ t. (c ∷ cs) ++ t) (concat-not_empty parts)

  not_empty-Every :
      (limit : ℕ) (parts : List Text)
      → Every (λ part. bytes part ≤ limit) parts
      → Every (λ part. (null part ≡ false) × (bytes part ≤ limit)) (not_empty space parts)
  not_empty-Every limit [] h = tt
  not_empty-Every limit ([] ∷ parts) h = not_empty-Every limit parts h.1
  not_empty-Every limit ((c ∷ cs) ∷ parts) h = ((refl, h.0), not_empty-Every limit parts h.1)

  -- With room for any one character, no part is empty and none is longer than the limit.
  pub split-fits :
      (text : Text) (limit : ℕ) (parts : List Text)
      → 4 ≤ limit
      → split space text limit ≡ some parts
      → Every (λ part. (null part ≡ false) × (bytes part ≤ limit)) parts
  unfolding split
  split-fits text limit parts h e =
      let positive : ltb limit 1 ≡ false = ground (arith, h) in
      let all = pieces space (length (strip space text)) limit (strip space text) in
      let same : not_empty space all ≡ parts = cc (rw positive at e) in
      subst (Every (λ part. (null part ≡ false) × (bytes part ≤ limit))) same (
        not_empty-Every limit all
          (pieces-fit (length (strip space text)) limit (strip space text) h))

  -- With a positive limit, however small, the text is cut into parts, and what is not whitespace goes
  -- out once and in order.
  pub split-keeps :
      (text : Text) (limit : ℕ)
      → 1 ≤ limit
      → (parts : List Text) × (split space text limit ≡ some parts)
        × (words_of space (concat parts) ≡ words_of space text)
  unfolding split
  split-keeps text limit h =
      let positive : ltb limit 1 ≡ false = ground (arith, h) in
      let body = strip space text in
      let all = pieces space (length body) limit body in
      (
        not_empty space all,
        rw positive refl,
        ap (words_of space) (concat-not_empty all)
            ∙ pieces-keep (length body) limit body (omega arith)
            ∙ words_of-strip space text,
      )
