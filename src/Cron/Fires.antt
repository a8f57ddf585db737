-- ===== src/Cron/Fires.antt =====
-- What `Cron.next_after` of runner/cron.py returns: the first wall clock that fires.
use siatt.Base.{
  ℕ, zero, suc, ◌+◌, ◌*◌, ◌≤◌, ◌<◌, ◌≡◌, sym, ap, ◌∙◌, subst, inl, inr, true, Option, none, some,
  arith, Bool-cases, Option-cases, ◌==◌, nat_keyed, string_keyed, pair_keyed,
}
use siatt.Cron.{Cron}
use siatt.Cron.Walk.{Calendar, Zone, horizon, instant, wall, matches, next_after, later_than}
use siatt.Cron.First.{IsCalendar, offers, minute_by_minute, next_after-minute_by_minute}

later_than-le : (after i : ℕ) (o : Option ℕ) → later_than after o ≡ some i → after < i
later_than-le after i none e = absurd (cc e)
later_than-le after i (some j) e = ground arith

instant-later :
    (zone : Option Zone) (t moment i : ℕ)
    → wall zone moment < t
    → instant zone t moment ≡ some i
    → moment < i
instant-later none t moment i h e = let same : t * 60000 ≡ i = cc e in omega (arith, h, same)
instant-later (some z) t moment i h e = later_than-le moment i _ e

module _ (k : Calendar) (c : Cron) (zone : Option Zone) (moment : ℕ) where
  -- The instant `fire_at` is that of the first wall clock after `moment`, of `n` from `from` on,
  -- whose fields match and which still names an instant after `moment`.
  pub record Fires (n from fire_at : ℕ) : Type 0 where
    pub at : ℕ
    pub starts : from ≤ at
    pub ends : at < from + n
    pub hit : matches k c at ≡ true
    pub named : instant zone at moment ≡ some fire_at
    pub first : (v : ℕ) → from ≤ v → v < at → offers k c zone moment v ≡ none

  offers-some :
      (t i : ℕ)
      → offers k c zone moment t ≡ some i
      → (matches k c t ≡ true) × (instant zone t moment ≡ some i)
  offers-some t i e = ground arith

  minute_by_minute-Fires :
      (n from i : ℕ) → minute_by_minute k c zone moment n from ≡ some i → Fires n from i
  minute_by_minute-Fires zero from i e = absurd (cc e)
  minute_by_minute-Fires (suc n) from i e = elim (Option-cases (offers k c zone moment from)) [
    | inr (j, found) ↦
        let same : j ≡ i = cc (rw (found, minute_by_minute) at e) in
        let (hit, named) = offers-some from i (found ∙ ap some same) in
        record {
          at = from;
          starts = omega arith;
          ends = omega arith;
          hit = hit;
          named = named;
          first = λ v h g. absurd (omega arith);
        }
    | inl nothing ↦
        let later = minute_by_minute-Fires n (from + 1) i (rw (nothing, minute_by_minute) at e) in
        record {
          at = later.at;
          starts = omega (arith, later.starts);
          ends = omega (arith, later.ends);
          hit = later.hit;
          named = later.named;
          first = λ v h g. elim (Bool-cases (from == v)) [
            | inl here ↦
                subst (λ u. offers k c zone moment u ≡ none) ((nat_keyed.same_iff from v).0 here)
                  nothing
            | inr there ↦ later.first v (ground arith) g
          ];
        }
  ]

  minute_by_minute-silent :
      (n from v : ℕ)
      → minute_by_minute k c zone moment n from ≡ none
      → from ≤ v
      → v < from + n
      → offers k c zone moment v ≡ none
  minute_by_minute-silent zero from v e h g = absurd (omega arith)
  minute_by_minute-silent (suc n) from v e h g = elim (Option-cases (offers k c zone moment from)) [
    | inr (j, found) ↦ absurd (cc (rw (found, minute_by_minute) at e))
    | inl nothing ↦ elim (Bool-cases (from == v)) [
      | inl here ↦
          subst (λ u. offers k c zone moment u ≡ none) ((nat_keyed.same_iff from v).0 here) nothing
      | inr there ↦
          minute_by_minute-silent n (from + 1) v (rw (nothing, minute_by_minute) at e)
            (ground arith) (omega arith)
    ]
  ]

  -- On a calendar whose months follow each other, the instant returned lies strictly after `moment`
  -- and is that of the first wall clock in the horizon, from the minute after `moment` on, that the
  -- fields match and that names an instant after `moment`.
  pub next_after-Fires :
      (fire_at : ℕ)
      → IsCalendar k
      → next_after k c zone moment ≡ some fire_at
      → (moment < fire_at) × Fires horizon (wall zone moment + 1) fire_at
  next_after-Fires fire_at laws e =
      let found =
        minute_by_minute-Fires horizon (wall zone moment + 1) fire_at
          (sym (next_after-minute_by_minute k c zone laws moment) ∙ e) in
      (instant-later zone found.at moment fire_at (omega (arith, found.starts)) found.named, found)

  -- On such a calendar, an error means that no wall clock of the horizon fires.
  pub next_after-silent :
      (v : ℕ)
      → IsCalendar k
      → next_after k c zone moment ≡ none
      → wall zone moment < v
      → v < wall zone moment + 1 + horizon
      → offers k c zone moment v ≡ none
  next_after-silent v laws e h g =
      minute_by_minute-silent horizon (wall zone moment + 1) v
        (sym (next_after-minute_by_minute k c zone laws moment) ∙ e) (omega (arith, h)) g
