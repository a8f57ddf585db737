-- ===== src/Cron/Fields.antt =====
-- That the fields of a cron expression that is read lie in their ranges: `_field` and `Cron.parse` of
-- runner/cron.py.
use siatt.Base.{
  ℕ, suc, ◌-◌, ◌≤◌, ◌<◌, String, ◌≡◌, refl, sym, ◌∙◌, subst, ◌⊎◌, inl, inr, Bool, true, false, not,
  ◌&&◌, ◌||◌, Option, none, some, List, [], ◌∷◌, ◌++◌, arith, ltb, leb, Bool-cases, Sum-cases, ◌==◌,
  nat_keyed, string_keyed, elem, elem-append, pair_keyed, null,
}
use siatt.Cron.{
  Cron, CronError, Numeral, whole, negative, Texts, range_from, ends, both_ends, single, span,
  stepped_from, with_step, step_of, part_values, parts_values, some_values, field, parse_fields,
  parse, ◌>>◌,
}
use siatt.Cron.Progressions.{IsProgression, range_from_sound, range_from_complete}

module _ (l : Texts) where
  ends-le :
      (part : String) (low high : ℕ) (first last : Numeral) (a b : ℕ)
      → ends l part low high first last ≡ inr (a, b)
      → (low ≤ a) × (a ≤ b) × (b ≤ high)
  ends-le part low high negative last a b e = absurd (cc e)
  ends-le part low high (whole m) negative a b e = absurd (cc e)
  ends-le part low high (whole m) (whole n) a b e =
      elim (Bool-cases (leb low m && leb m high && (leb low n && leb n high))) [
        | inr out ↦ absurd (cc (rw out at e))
        | inl inside ↦ elim (Bool-cases (ltb n m)) [
          | inl back ↦ absurd (cc (rw (inside, back) at e))
          | inr onward ↦
              let first : m ≡ a = cc (rw (inside, onward) at e) in
              let last : n ≡ b = cc (rw (inside, onward) at e) in
              subst (λ a. (low ≤ a) × (a ≤ b) × (b ≤ high)) first
                (subst (λ b. (low ≤ m) × (m ≤ b) × (b ≤ high)) last
                  (ground arith, ground arith, ground arith))
        ]
      ]

  both_ends-le :
      (part : String) (low high : ℕ) (first last : CronError ⊎ Numeral) (a b : ℕ)
      → both_ends l part low high first last ≡ inr (a, b)
      → (low ≤ a) × (a ≤ b) × (b ≤ high)
  both_ends-le part low high (inl error) last a b e = absurd (cc e)
  both_ends-le part low high (inr m) (inl error) a b e = absurd (cc e)
  both_ends-le part low high (inr m) (inr n) a b e = ends-le part low high m n a b e

  single-le :
      (part : String) (low high : ℕ) (stepped : Bool) (n : CronError ⊎ Numeral) (a b : ℕ)
      → single l part low high stepped n ≡ inr (a, b)
      → (low ≤ a) × (a ≤ b) × (b ≤ high)
  single-le part low high stepped (inl error) a b e = absurd (cc e)
  single-le part low high true (inr n) a b e = absurd (cc e)
  single-le part low high false (inr n) a b e = ends-le part low high n n a b e

  span-le :
      (part spec : String) (stepped : Bool) (low high a b : ℕ)
      → span l part spec stepped low high ≡ inr (a, b)
      → (low ≤ a) × (a ≤ b) × (b ≤ high)
  span-le part spec stepped low high a b e = elim (Bool-cases (spec == "*")) [
    | inl every ↦ ends-le part low high (whole low) (whole high) a b (rw every at e)
    | inr other ↦ elim (Bool-cases (l.has_dash spec)) [
      | inl range ↦ both_ends-le part low high _ _ a b (rw (other, range) at e)
      | inr bare ↦ single-le part low high stepped _ a b (rw (other, bare) at e)
    ]
  ]

  stepped_from-IsProgression :
      (low high step : ℕ) (found : CronError ⊎ ℕ × ℕ) (vs : List ℕ)
      → 0 < step
      → ((a b : ℕ) → found ≡ inr (a, b) → (low ≤ a) × (a ≤ b) × (b ≤ high))
      → stepped_from l step found ≡ inr vs
      → IsProgression low high vs
  stepped_from-IsProgression low high step (inl error) vs g h e = absurd (cc e)
  stepped_from-IsProgression low high step (inr (start, stop)) vs g h e =
      let (lowest, ordered, highest) = h start stop refl in
      let same : range_from (suc (stop - start)) start stop step ≡ vs = cc e in
      subst (IsProgression low high) same (record {
        start = start;
        stop = stop;
        step = step;
        lowest = lowest;
        ordered = ordered;
        highest = highest;
        moves = g;
        listed = λ v. (
          range_from_sound (suc (stop - start)) start stop step v,
          range_from_complete (suc (stop - start)) start stop step v (omega arith) g,
        );
      })

  with_step-IsProgression :
      (part spec : String) (given : Bool) (step : Option Numeral) (low high : ℕ) (vs : List ℕ)
      → with_step l part spec given step low high ≡ inr vs
      → IsProgression low high vs
  with_step-IsProgression part spec given none low high vs e = absurd (cc e)
  with_step-IsProgression part spec given (some negative) low high vs e = absurd (cc e)
  with_step-IsProgression part spec given (some (whole step)) low high vs e =
      elim (Bool-cases (ltb step 1)) [
        | inl small ↦ absurd (cc (rw small at e))
        | inr enough ↦
            stepped_from-IsProgression low high step _ vs (ground arith)
              (span-le part spec given low high) (rw enough at e)
      ]

  -- A part that is accepted stands for the numbers of one progression inside the range of its field.
  part_values-IsProgression :
      (part : String) (low high : ℕ) (vs : List ℕ)
      → part_values l part low high ≡ inr vs
      → IsProgression low high vs
  unfolding part_values
  part_values-IsProgression part low high vs e =
      with_step-IsProgression part (l.slash part).0 (not ((l.slash part).1 == ""))
        (step_of l (l.slash part).1) low high vs e

  -- The numbers of a field lie in its range, and there are some.
  pub record IsWithin (low high : ℕ) (vs : List ℕ) : Type 0 where
    pub some_value : null vs ≡ false
    pub inside : (v : ℕ) → elem v vs ≡ true → (low ≤ v) × (v ≤ high)

  progression-inside :
      (low high : ℕ) (vs : List ℕ) (v : ℕ)
      → IsProgression low high vs
      → elem v vs ≡ true
      → (low ≤ v) × (v ≤ high)
  progression-inside low high vs v p e =
      let here = (p.listed v).0 e in
      (omega (arith, here.at, p.lowest), omega (arith, here.below, p.highest))

  parts_values-inside :
      (parts : List String) (low high : ℕ) (vs : List ℕ) (v : ℕ)
      → parts_values l parts low high ≡ inr vs
      → elem v vs ≡ true
      → (low ≤ v) × (v ≤ high)
  parts_values-inside [] low high vs v e h =
      let nothing : [] ≡ vs = cc e in absurd (cc (subst (λ vs. elem v vs ≡ true) (sym nothing) h))
  parts_values-inside (part ∷ parts) low high vs v e h =
      elim (Sum-cases (part_values l part low high)) [
        | inl (error, bad) ↦ absurd (cc (rw bad at e))
        | inr (us, good) ↦ elim (Sum-cases (parts_values l parts low high)) [
          | inl (error, bad) ↦ absurd (cc (rw (good, bad) at e))
          | inr (ws, rest) ↦
              let same : us ++ ws ≡ vs = cc (rw (good, rest) at e) in
              let split : (elem v us || elem v ws) ≡ true =
                sym (elem-append v us ws) ∙ subst (λ vs. elem v vs ≡ true) (sym same) h in
              elim (Bool-cases (elem v us)) [
                | inl first ↦
                    progression-inside low high us v
                      (part_values-IsProgression part low high us good) first
                | inr later ↦ parts_values-inside parts low high ws v rest (rw later at split)
              ]
        ]
      ]

  some_values-IsWithin :
      (text : String) (low high : ℕ) (found : CronError ⊎ List ℕ) (vs : List ℕ)
      → ((us : List ℕ) (v : ℕ) → found ≡ inr us → elem v us ≡ true → (low ≤ v) × (v ≤ high))
      → some_values l text found ≡ inr vs
      → IsWithin low high vs
  some_values-IsWithin text low high (inl error) vs h e = absurd (cc e)
  some_values-IsWithin text low high (inr []) vs h e = absurd (cc e)
  some_values-IsWithin text low high (inr (u ∷ us)) vs h e =
      let same : u ∷ us ≡ vs = cc e in
      subst (IsWithin low high) same
        (record { some_value = refl; inside = λ v g. h (u ∷ us) v refl g })

  field-IsWithin :
      (text : String) (low high : ℕ) (vs : List ℕ)
      → field l text low high ≡ inr vs
      → IsWithin low high vs
  unfolding field
  field-IsWithin text low high vs e =
      some_values-IsWithin text low high (parts_values l (l.commas text) low high) vs
        (λ us v f g. parts_values-inside (l.commas text) low high us v f g) e

  -- What holds of an expression that was read.
  pub record IsRead (c : Cron) : Type 0 where
    pub minutes : IsWithin 0 59 c.minutes
    pub hours : IsWithin 0 23 c.hours
    pub days : IsWithin 1 31 c.days
    pub months : IsWithin 1 12 c.months
    pub weekdays : IsWithin 0 6 c.weekdays

  bind-inr :
      {A B : Type 0} (s : CronError ⊎ A) (f : A → CronError ⊎ B) (b : B)
      → ◌>>◌ l s f ≡ inr b
      → (a : A) × (s ≡ inr a) × (f a ≡ inr b)
  bind-inr (inl error) f b e = absurd (cc e)
  bind-inr (inr a) f b e = (a, refl, e)

  inr-same : {A : Type 0} {a b : A} → Path (CronError ⊎ A) (inr a) (inr b) → a ≡ b
  inr-same e = cc e

  parse_fields-IsRead :
      (expression : String) (fields : List String) (c : Cron)
      → parse_fields l expression fields ≡ inr c
      → IsRead c
  parse_fields-IsRead expression [] c e = absurd (cc e)
  parse_fields-IsRead expression (m ∷ []) c e = absurd (cc e)
  parse_fields-IsRead expression (m ∷ h ∷ []) c e = absurd (cc e)
  parse_fields-IsRead expression (m ∷ h ∷ d ∷ []) c e = absurd (cc e)
  parse_fields-IsRead expression (m ∷ h ∷ d ∷ mo ∷ []) c e = absurd (cc e)
  parse_fields-IsRead expression (m ∷ h ∷ d ∷ mo ∷ w ∷ x ∷ xs) c e = absurd (cc e)
  parse_fields-IsRead expression (m ∷ h ∷ d ∷ mo ∷ w ∷ []) c e =
      let (minutes, minutes_of, e₁) = bind-inr (field l m 0 59) _ c e in
      let (hours, hours_of, e₂) = bind-inr (field l h 0 23) _ c e₁ in
      let (days, days_of, e₃) = bind-inr (field l d 1 31) _ c e₂ in
      let (months, months_of, e₄) = bind-inr (field l mo 1 12) _ c e₃ in
      let (weekdays, weekdays_of, e₅) = bind-inr (field l w 0 6) _ c e₄ in
      subst IsRead (inr-same e₅) (record {
        minutes = field-IsWithin m 0 59 minutes minutes_of;
        hours = field-IsWithin h 0 23 hours hours_of;
        days = field-IsWithin d 1 31 days days_of;
        months = field-IsWithin mo 1 12 months months_of;
        weekdays = field-IsWithin w 0 6 weekdays weekdays_of;
      })

  -- An expression that is read has a number in each of its five fields, and all of them in range.
  pub parse-IsRead : (expression : String) (c : Cron) → parse l expression ≡ inr c → IsRead c
  unfolding parse
  parse-IsRead expression c e = parse_fields-IsRead expression (l.words expression) c e
