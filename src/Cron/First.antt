-- ===== src/Cron/First.antt =====
-- That `Cron.next_after` of runner/cron.py skips nothing: it finds what a walk minute by minute finds.
use siatt.Base.{
  ℕ, zero, suc, ◌+◌, ◌-◌, ◌*◌, ◌/◌, ◌≤◌, ◌<◌, ◌≡◌, refl, sym, ap, ◌∙◌, subst, inl, inr, true, false,
  Option, none, some, arith, ltb, if◌then◌else◌, Bool-cases, Option-cases, ◌==◌, nat_keyed,
  string_keyed, elem, pair_keyed,
}
use siatt.Cron.{Cron}
use siatt.Cron.Walk.{
  Calendar, Zone, horizon, minute_of, hour_of, date_of, instant, wall, next_first, next_month,
  day_matches, matches, skip, walk, next_after,
}

-- What is asked of the calendar: the step to the next month goes forward, and no month lies between.
pub record IsCalendar (k : Calendar) : Type 0 where
  pub ahead : (d : ℕ) → d < next_first k d
  pub one_month : (d e : ℕ) → d ≤ e → e < next_first k d → k.month_of e ≡ k.month_of d

module _ (k : Calendar) (c : Cron) where
  -- A skip goes forward, over nothing that matches.
  pub record Skips (t u : ℕ) : Type 0 where
    pub forward : t < u
    pub misses : (v : ℕ) → t ≤ v → v < u → matches k c v ≡ false

  month-Skips :
      (t : ℕ)
      → IsCalendar k
      → elem (k.month_of (date_of t)) c.months ≡ false
      → Skips t (next_month k t)
  month-Skips t laws e = record {
    forward = omega (arith, laws.ahead (date_of t));
    misses = λ v h g.
        let same : k.month_of (date_of v) ≡ k.month_of (date_of t) =
          laws.one_month (date_of t) (date_of v) (omega arith) (omega arith) in
        let no : elem (k.month_of (date_of v)) c.months ≡ false =
          ap (λ m. elem m c.months) same ∙ e in
        rw no (ground arith);
  }

  day-Skips : (t : ℕ) → day_matches k c t ≡ false → Skips t ((date_of t + 1) * 1440)
  day-Skips t e = record {
    forward = omega arith;
    misses = λ v h g.
        let same : date_of t ≡ date_of v = omega arith in
        let no : day_matches k c v ≡ false = rw same at e in ground arith;
  }

  hour-Skips : (t : ℕ) → elem (hour_of t) c.hours ≡ false → Skips t ((t / 60 + 1) * 60)
  hour-Skips t e = record {
    forward = omega arith;
    misses = λ v h g.
        let same : hour_of t ≡ hour_of v = omega arith in
        let no : elem (hour_of v) c.hours ≡ false = ap (λ m. elem m c.hours) (sym same) ∙ e in
        rw no (ground arith);
  }

  minute-Skips : (t : ℕ) → elem (minute_of t) c.minutes ≡ false → Skips t (t + 1)
  minute-Skips t e = record {
    forward = omega arith;
    misses = λ v h g.
        let same : t ≡ v = omega arith in
        let no : elem (minute_of v) c.minutes ≡ false =
          subst (λ m. elem (minute_of m) c.minutes ≡ false) same e in
        rw no refl;
  }

  skip-Skips : (t u : ℕ) → IsCalendar k → skip k c t ≡ some u → Skips t u
  skip-Skips t u laws e = elim (Bool-cases (elem (k.month_of (date_of t)) c.months)) [
    | inr other_month ↦
        let to : next_month k t ≡ u = cc (rw other_month at e) in
        subst (Skips t) to (month-Skips t laws other_month)
    | inl month ↦ elim (Bool-cases (day_matches k c t)) [
      | inr other_day ↦
          let to : (date_of t + 1) * 1440 ≡ u = cc (rw (month, other_day) at e) in
          subst (Skips t) to (day-Skips t other_day)
      | inl day ↦ elim (Bool-cases (elem (hour_of t) c.hours)) [
        | inr other_hour ↦
            let to : (t / 60 + 1) * 60 ≡ u = cc (rw (month, day, other_hour) at e) in
            subst (Skips t) to (hour-Skips t other_hour)
        | inl hour ↦ elim (Bool-cases (elem (minute_of t) c.minutes)) [
          | inr other_minute ↦
              let to : t + 1 ≡ u = cc (rw (month, day, hour, other_minute) at e) in
              subst (Skips t) to (minute-Skips t other_minute)
          | inl minute ↦ absurd (cc (rw (month, day, hour, minute) at e))
        ]
      ]
    ]
  ]

  skip-matches : (t : ℕ) → skip k c t ≡ none → matches k c t ≡ true
  skip-matches t e = ground arith

  module _ (zone : Option Zone) (after : ℕ) where
    -- What the wall clock `t` offers: nothing where the fields do not match it.
    abbrev pub offers : ℕ → Option ℕ
    offers t = if matches k c t then instant zone t after else none

    -- The reference: try `n` minutes from `t` on, one by one.
    abbrev pub minute_by_minute : ℕ → ℕ → Option ℕ
    minute_by_minute zero t = none
    minute_by_minute (suc n) t = elim (offers t) [
      | some i ↦ some i
      | none ↦ minute_by_minute n (t + 1)
    ]

    -- Minutes that offer nothing may be skipped.
    minute_by_minute-skip :
        (n t u : ℕ)
        → t ≤ u
        → ((v : ℕ) → t ≤ v → v < u → matches k c v ≡ false)
        → minute_by_minute n t ≡ minute_by_minute (n - (u - t)) u
    minute_by_minute-skip zero t u h misses =
        let nothing : 0 ≡ 0 - (u - t) = omega arith in ap (λ m. minute_by_minute m u) nothing
    minute_by_minute-skip (suc n) t u h misses = elim (Bool-cases (t == u)) [
      | inl here ↦
          let same : t ≡ u = (nat_keyed.same_iff t u).0 here in
          let all : suc n ≡ suc n - (u - t) = omega (arith, same) in
          ap (minute_by_minute (suc n)) same ∙ ap (λ m. minute_by_minute m u) all
      | inr there ↦
          let apart : t < u = ground arith in
          let rest : n - (u - (t + 1)) ≡ suc n - (u - t) = omega (arith, apart) in
          rw (misses t (omega arith) apart, minute_by_minute)
            (minute_by_minute-skip n (t + 1) u (omega (arith, apart))
                (λ v g f. misses v (omega (arith, g)) f)
              ∙ ap (λ m. minute_by_minute m u) rest)
    ]

    -- A minute that matches, with the rest of a walk that agrees from the next one on.
    walk_hit :
        (n t : ℕ) (rest : Option ℕ)
        → 0 < n
        → matches k c t ≡ true
        → rest ≡ minute_by_minute (n - 1) (t + 1)
        → elim (instant zone t after) [ some i ↦ some i | none ↦ rest ] ≡ minute_by_minute n t
    walk_hit zero t rest h e same = absurd (omega (arith, h))
    walk_hit (suc n) t rest h e same =
        rw (e, minute_by_minute)
          (elim (Option-cases (instant zone t after)) [
            | inl nothing ↦
                let one : suc n - 1 ≡ n = omega arith in
                rw nothing (same ∙ ap (λ m. minute_by_minute m (t + 1)) one)
            | inr (i, found) ↦ rw found refl
          ])

    walk-minute_by_minute :
        IsCalendar k
        → (fuel limit t : ℕ) → limit - t < fuel
        → walk k c zone fuel after limit t ≡ minute_by_minute (limit - t) t
    unfolding walk
    walk-minute_by_minute laws zero limit t h = absurd (omega arith)
    walk-minute_by_minute laws (suc fuel) limit t h = elim (Bool-cases (ltb t limit)) [
      | inr over ↦
          let nothing : 0 ≡ limit - t = ground arith in
          rw (over, walk) (ap (λ m. minute_by_minute m t) nothing)
      | inl early ↦
          rw (early, walk)
            (elim (Option-cases (skip k c t)) [
              | inr (u, e) ↦
                  let s = skip-Skips t u laws e in
                  let below : t < limit = ground arith in
                  let rest : limit - t - (u - t) ≡ limit - u = omega (arith, s.forward) in
                  rw e (
                    walk-minute_by_minute laws fuel limit u (omega (arith, s.forward, below))
                    ∙ ap (λ m. minute_by_minute m u) (sym rest)
                    ∙ sym
                        (minute_by_minute-skip (limit - t) t u (omega (arith, s.forward)) s.misses))
              | inl e ↦
                  let below : t < limit = ground arith in
                  let less : limit - t - 1 ≡ limit - (t + 1) = omega (arith, below) in
                  let ih = walk-minute_by_minute laws fuel limit (t + 1) (omega (arith, below)) in
                  rw e (
                    walk_hit (limit - t) t _ (omega (arith, below)) (skip-matches t e)
                      (ih ∙ ap (λ m. minute_by_minute m (t + 1)) (sym less)))
            ])
    ]

  module _ (zone : Option Zone) where
    -- On a calendar whose months follow each other, the walk that skips finds the instant that trying
    -- every minute of the horizon one by one finds, and none where none of them fires.
    pub next_after-minute_by_minute :
        IsCalendar k
        → (moment : ℕ)
        → next_after k c zone moment ≡ minute_by_minute zone moment horizon (wall zone moment + 1)
    unfolding next_after
    next_after-minute_by_minute laws moment =
        let all : wall zone moment + 1 + horizon - (wall zone moment + 1) ≡ horizon = omega arith in
        walk-minute_by_minute zone moment laws (suc horizon) (wall zone moment + 1 + horizon)
          (wall zone moment + 1) (omega arith)
        ∙ ap (λ m. minute_by_minute zone moment m (wall zone moment + 1)) all
