-- ===== src/Cron/Walk.antt =====
-- When a cron expression fires next: `Cron.matches` and `Cron.next_after` of runner/cron.py. A wall
-- clock is a count of minutes; the calendar and the time zone, which datetime and zoneinfo give,
-- are parameters.
use siatt.Base.{
  ℕ, zero, suc, ◌+◌, ◌-◌, ◌*◌, ◌/◌, ◌%◌, Bool, true, false, not, ◌&&◌, ◌||◌, Option, none, some,
  ltb, if◌then◌else◌, ◌==◌, nat_keyed, string_keyed, elem, pair_keyed,
}
use siatt.Cron.{Cron}

-- What datetime says of a day, by its number: its month, its day of the month, and its weekday
-- from Sunday.
pub record Calendar : Type 0 where
  pub month_of : ℕ → ℕ
  pub day_of : ℕ → ℕ
  pub weekday_of : ℕ → ℕ

-- What zoneinfo says, with wall clocks in minutes and instants in milliseconds: the wall clock at an
-- instant, the instant of a wall clock (fold 0), and the offsets of the two folds in minutes, both
-- counted from one base below them.
pub record Zone : Type 0 where
  pub wall : ℕ → ℕ
  pub instant : ℕ → ℕ
  pub offset : ℕ → ℕ
  pub offset_ahead : ℕ → ℕ

-- Four years of minutes.
abbrev pub horizon : ℕ
horizon = 366 * 4 * 1440

abbrev pub minute_of : ℕ → ℕ
minute_of t = t % 60

abbrev pub hour_of : ℕ → ℕ
hour_of t = t / 60 % 24

abbrev pub date_of : ℕ → ℕ
date_of t = t / 1440

-- `_to_utc`
unfoldable pub to_utc : Zone → ℕ → Option ℕ
to_utc z local = if z.wall (z.instant local) == local then some (z.instant local) else none

-- The loop of `_after_gap`, `left` minutes before the far side.
abbrev pub probe : Zone → ℕ → ℕ → Option ℕ
probe z zero local = none
probe z (suc left) local = elim (to_utc z (local + 1)) [
  | some instant ↦ some instant
  | none ↦ probe z left (local + 1)
]

unfoldable pub after_gap : Zone → ℕ → Option ℕ
after_gap z local = probe z (z.offset_ahead local - z.offset local) local

abbrev pub or_else : Option ℕ → Option ℕ → Option ℕ
or_else none other = other
or_else (some i) other = some i

abbrev pub later_than : ℕ → Option ℕ → Option ℕ
later_than after none = none
later_than after (some i) = if ltb after i then some i else none

-- `_instant` and `_wall`: without a zone the wall clock is UTC.
abbrev pub instant : Option Zone → ℕ → ℕ → Option ℕ
instant none local after = some (local * 60000)
instant (some z) local after = later_than after (or_else (to_utc z local) (after_gap z local))

abbrev pub wall : Option Zone → ℕ → ℕ
wall none moment = moment / 60000
wall (some z) moment = z.wall moment

module _ (k : Calendar) where
  -- `moment.replace(day=1)`
  abbrev pub first_of_month : ℕ → ℕ
  first_of_month d = d - (k.day_of d - 1)

  abbrev pub next_first : ℕ → ℕ
  next_first d = first_of_month (first_of_month d + 32)

  -- `_next_month`: the first of the month that holds the day 32 days after the first of this one.
  abbrev pub next_month : ℕ → ℕ
  next_month t = next_first (date_of t) * 1440

module _ (k : Calendar) (c : Cron) where
  -- `_day_matches`
  abbrev pub day_matches : ℕ → Bool
  day_matches t =
      let by_month = elem (k.day_of (date_of t)) c.days in
      let by_week = elem (k.weekday_of (date_of t)) c.weekdays in
      if c.either_day then by_month || by_week else by_month && by_week

  -- `matches`, on a wall clock.
  abbrev pub matches : ℕ → Bool
  matches t =
      elem (minute_of t) c.minutes
      && (elem (hour_of t) c.hours && (elem (k.month_of (date_of t)) c.months && day_matches t))

  -- Where a candidate that does not match moves on to; none where it matches.
  abbrev pub skip : ℕ → Option ℕ
  skip t =
      if not (elem (k.month_of (date_of t)) c.months)
      then some (next_month k t)
      else if not (day_matches t)
      then some ((date_of t + 1) * 1440)
      else if not (elem (hour_of t) c.hours)
      then some ((t / 60 + 1) * 60)
      else if not (elem (minute_of t) c.minutes)
      then some (t + 1)
      else none

  module _ (zone : Option Zone) where
    -- The loop of `next_after`.
    unfoldable pub walk : ℕ → ℕ → ℕ → ℕ → Option ℕ
    walk zero after limit t = none
    walk (suc fuel) after limit t = elim (ltb t limit) [
      | false ↦ none
      | true ↦ elim (skip t) [
        | some u ↦ walk fuel after limit u
        | none ↦ elim (instant zone t after) [
          | some fire_at ↦ some fire_at
          | none ↦ walk fuel after limit (t + 1)
        ]
      ]
    ]

    -- From the minute after `moment`; none where it raises CronError.
    unfoldable pub next_after_within : ℕ → ℕ → Option ℕ
    next_after_within ahead moment =
        walk (suc ahead) moment (wall zone moment + 1 + ahead) (wall zone moment + 1)

    unfoldable pub next_after : ℕ → Option ℕ
    unfolding next_after_within
    next_after moment = next_after_within horizon moment
