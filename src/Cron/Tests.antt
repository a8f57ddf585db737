-- ===== src/Cron/Tests.antt =====
-- Cron expressions at work, on a calendar of months of thirty days.
use siatt.Base.{
  ◌+◌, ◌/◌, ◌%◌, ◌<◌, ◌≡◌, refl, ap, inr, false, none, some, [], ◌∷◌, arith, if◌then◌else◌, ◌==◌,
  nat_keyed, string_keyed, pair_keyed,
}
use siatt.Cron.{Cron, whole, Texts, range_from, part_values, field, parse}
use siatt.Cron.Walk.{Calendar, horizon, wall, next_after, walk}
use siatt.Cron.First.{IsCalendar, minute_by_minute, next_after-minute_by_minute}
use siatt.Cron.Fires.{Fires, next_after-Fires}
use siatt.Cron.Fields.{IsRead, parse-IsRead}

abbrev nine : Texts
nine = record {
  words = λ text. "0" ∷ "9" ∷ "*" ∷ "*" ∷ "*" ∷ [];
  commas = λ text. text ∷ [];
  slash = λ text. (text, "");
  dash = λ text. (text, "");
  has_dash = λ text. false;
  starred = λ text. text == "*";
  int = λ text. if text == "9" then some (whole 9) else some (whole 0);
}

abbrev thirties : Calendar
thirties = record {
  month_of = λ d. d / 30 % 12 + 1;
  day_of = λ d. d % 30 + 1;
  weekday_of = λ d. d % 7;
}

thirties-IsCalendar : IsCalendar thirties
thirties-IsCalendar = record {
  ahead = λ d. omega arith;
  one_month = λ d e h g. let same : e / 30 ≡ d / 30 = omega arith in ap (λ m. m % 12 + 1) same;
}

abbrev each_day : Cron
each_day = record {
  minutes = 0 ∷ [];
  hours = 9 ∷ [];
  days = range_from 31 1 31 1;
  months = range_from 12 1 12 1;
  weekdays = range_from 7 0 6 1;
  either_day = false;
  expression = "0 9 * * *";
}

read : parse nine "0 9 * * *" ≡ inr each_day
unfolding parse field part_values
read = refl

parse-IsRead_example : IsRead nine each_day
parse-IsRead_example = parse-IsRead nine "0 9 * * *" each_day read

-- From ten o'clock of day 59, the last of its month: nine of day 60.
next_day : next_after thirties each_day none 5133600000 ≡ some 5216400000
unfolding next_after walk
next_day = refl

next_after-Fires_example :
    (5133600000 < 5216400000)
    × Fires thirties each_day none 5133600000 horizon (wall none 5133600000 + 1) 5216400000
next_after-Fires_example =
    next_after-Fires thirties each_day none 5133600000 5216400000 thirties-IsCalendar next_day

next_after-minute_by_minute_example :
    next_after thirties each_day none 0 ≡ minute_by_minute thirties each_day none 0 horizon 1
next_after-minute_by_minute_example =
    next_after-minute_by_minute thirties each_day none thirties-IsCalendar 0
