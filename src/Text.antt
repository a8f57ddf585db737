-- ===== src/Text.antt =====
-- Python's `str` as a list of code points: its UTF-8 size, `strip`, `find` and slices, as
-- adapters/slack/limits.py and memory/chunk.py use them.
use siatt.Base.{
  ℕ, zero, suc, ◌+◌, ◌-◌, ◌≤◌, ◌≡◌, refl, ap, ap₂, ◌∙◌, ◌↔◌, inl, inr, Bool, true, false, ◌&&◌,
  Option, none, some, List, [], ◌∷◌, ◌++◌, arith, ltb, if◌then◌else◌, Bool-cases, Option-cases,
  Keyed, ◌==◌, nat_keyed, string_keyed, pair_keyed, length, take,
}

abbrev pub Text : Type 0
Text = List ℕ

abbrev pub text_same : Text → Text → Bool
text_same [] [] = true
text_same [] (d ∷ ds) = false
text_same (c ∷ cs) [] = false
text_same (c ∷ cs) (d ∷ ds) = c == d && text_same cs ds

pub text_same_iff : (s t : Text) → (text_same s t ≡ true) ↔ (s ≡ t)
text_same_iff [] [] = (λ h. refl, λ h. refl)
text_same_iff [] (d ∷ ds) = (λ h. absurd (cc h), λ h. absurd (cc h))
text_same_iff (c ∷ cs) [] = (λ h. absurd (cc h), λ h. absurd (cc h))
text_same_iff (c ∷ cs) (d ∷ ds) = (
  λ h.
      let head : c ≡ d = (nat_keyed.same_iff c d).0 (ground arith) in
      let tail : cs ≡ ds = (text_same_iff cs ds).0 (ground arith) in ap₂ (λ a b. a ∷ b) head tail,
  λ h.
      let head : c ≡ d = cc h in
      let tail : cs ≡ ds = cc h in
      ground (arith, (nat_keyed.same_iff c d).1 head, (text_same_iff cs ds).1 tail),
)

instance abbrev pub text_keyed : Keyed Text
text_keyed = record { same = text_same; same_iff = text_same_iff }

-- The bytes of a code point in UTF-8.
abbrev pub width : ℕ → ℕ
width c = if ltb c 128 then 1 else if ltb c 2048 then 2 else if ltb c 65536 then 3 else 4

-- `len(text.encode())`
abbrev pub bytes : Text → ℕ
bytes [] = 0
bytes (c ∷ cs) = width c + bytes cs

-- `text[n:]`
abbrev pub drop : ℕ → Text → Text
drop zero cs = cs
drop (suc n) [] = []
drop (suc n) (c ∷ cs) = drop n cs

abbrev pub concat : List Text → Text
concat [] = []
concat (t ∷ ts) = t ++ concat ts

-- `text.startswith(prefix)`
abbrev pub starts_with : Text → Text → Bool
starts_with [] cs = true
starts_with (p ∷ ps) [] = false
starts_with (p ∷ ps) (c ∷ cs) = p == c && starts_with ps cs

-- `text.rfind(separator)` for a separator that is not empty; none stands for -1.
abbrev pub rfind : Text → Text → Option ℕ
rfind separator [] = none
rfind separator (c ∷ cs) = elim (rfind separator cs) [
  | some i ↦ some (suc i)
  | none ↦ if starts_with separator (c ∷ cs) then some 0 else none
]

pub starts_with-le : (ps cs : Text) → starts_with ps cs ≡ true → length ps ≤ length cs
starts_with-le [] cs e = omega arith
starts_with-le (p ∷ ps) [] e = absurd (cc e)
starts_with-le (p ∷ ps) (c ∷ cs) e =
    let rest = starts_with-le ps cs (ground arith) in omega (arith, rest)

pub rfind-le :
    (separator cs : Text) (i : ℕ) → rfind separator cs ≡ some i → i + length separator ≤ length cs
rfind-le separator [] i e = absurd (cc e)
rfind-le separator (c ∷ cs) i e = elim (Option-cases (rfind separator cs)) [
  | inr (j, later) ↦
      let same : suc j ≡ i = cc (rw (later, rfind) at e) in
      let rest = rfind-le separator cs j later in omega (arith, rest, same)
  | inl nothing ↦ elim (Bool-cases (starts_with separator (c ∷ cs))) [
    | inl here ↦
        let same : 0 ≡ i = cc (rw (nothing, here, rfind) at e) in
        let all = starts_with-le separator (c ∷ cs) here in omega (arith, all, same)
    | inr other ↦ absurd (cc (rw (nothing, other, rfind) at e))
  ]
]

pub bytes-append : (xs ys : Text) → bytes (xs ++ ys) ≡ bytes xs + bytes ys
bytes-append [] ys = omega arith
bytes-append (x ∷ xs) ys = omega (arith, bytes-append xs ys)

pub take-drop : (n : ℕ) (cs : Text) → take n cs ++ drop n cs ≡ cs
take-drop zero cs = refl
take-drop (suc n) [] = refl
take-drop (suc n) (c ∷ cs) = ap (λ t. c ∷ t) (take-drop n cs)

pub length-drop : (n : ℕ) (cs : Text) → length (drop n cs) ≡ length cs - n
length-drop zero cs = omega arith
length-drop (suc n) [] = omega arith
length-drop (suc n) (c ∷ cs) = omega (arith, length-drop n cs)

-- What `str.isspace` says of a code point.
module _ (space : ℕ → Bool) where
  abbrev pub lstrip : Text → Text
  lstrip [] = []
  lstrip (c ∷ cs) = if space c then lstrip cs else c ∷ cs

  abbrev pub trimmed : ℕ → Text → Text
  trimmed c [] = if space c then [] else c ∷ []
  trimmed c (d ∷ ds) = c ∷ d ∷ ds

  abbrev pub rstrip : Text → Text
  rstrip [] = []
  rstrip (c ∷ cs) = trimmed c (rstrip cs)

  abbrev pub strip : Text → Text
  strip cs = rstrip (lstrip cs)

  -- The code points that are not whitespace.
  abbrev pub words_of : Text → Text
  words_of [] = []
  words_of (c ∷ cs) = let rest = words_of cs in if space c then rest else c ∷ rest

  pub words_of-append : (xs ys : Text) → words_of (xs ++ ys) ≡ words_of xs ++ words_of ys
  words_of-append [] ys = refl
  words_of-append (x ∷ xs) ys = elim (Bool-cases (space x)) [
    | inl blank ↦ rw blank (words_of-append xs ys)
    | inr solid ↦ rw solid (ap (λ t. x ∷ t) (words_of-append xs ys))
  ]

  pub words_of-lstrip : (cs : Text) → words_of (lstrip cs) ≡ words_of cs
  words_of-lstrip [] = refl
  words_of-lstrip (c ∷ cs) = elim (Bool-cases (space c)) [
    | inl blank ↦ rw blank (words_of-lstrip cs)
    | inr solid ↦ rw (solid, lstrip) (rw (solid, words_of) refl)
  ]

  pub words_of-trimmed : (c : ℕ) (cs : Text) → words_of (trimmed c cs) ≡ words_of (c ∷ cs)
  words_of-trimmed c [] = elim (Bool-cases (space c)) [
    | inl blank ↦ rw blank refl
    | inr solid ↦ rw solid (rw solid refl)
  ]
  words_of-trimmed c (d ∷ ds) = refl

  pub words_of-rstrip : (cs : Text) → words_of (rstrip cs) ≡ words_of cs
  words_of-rstrip [] = refl
  words_of-rstrip (c ∷ cs) = words_of-trimmed c (rstrip cs) ∙ elim (Bool-cases (space c)) [
    | inl blank ↦ rw blank (words_of-rstrip cs)
    | inr solid ↦ rw solid (ap (λ t. c ∷ t) (words_of-rstrip cs))
  ]

  pub words_of-strip : (cs : Text) → words_of (strip cs) ≡ words_of cs
  words_of-strip cs = words_of-rstrip (lstrip cs) ∙ words_of-lstrip cs

  pub length-lstrip-le : (cs : Text) → length (lstrip cs) ≤ length cs
  length-lstrip-le [] = omega arith
  length-lstrip-le (c ∷ cs) = elim (Bool-cases (space c)) [
    | inl blank ↦ rw blank (omega (arith, length-lstrip-le cs))
    | inr solid ↦ rw solid (omega arith)
  ]

  pub trimmed-le :
      (c : ℕ) (cs : Text)
      → (length (trimmed c cs) ≤ suc (length cs)) × (bytes (trimmed c cs) ≤ width c + bytes cs)
  trimmed-le c [] = elim (Bool-cases (space c)) [
    | inl blank ↦ rw blank (omega arith, omega arith)
    | inr solid ↦ rw solid (omega arith, omega arith)
  ]
  trimmed-le c (d ∷ ds) = (omega arith, omega arith)

  pub rstrip-le : (cs : Text) → (length (rstrip cs) ≤ length cs) × (bytes (rstrip cs) ≤ bytes cs)
  rstrip-le [] = (omega arith, omega arith)
  rstrip-le (c ∷ cs) =
      let (shorter, fewer) = rstrip-le cs in
      let (now, here) = trimmed-le c (rstrip cs) in
      (omega (arith, shorter, now), omega (arith, fewer, here))
