-- ===== src/Backoff/Tests.antt =====
-- The theorems on core/backoff.py at the inbox's schedule.
use siatt.Base.{◌≤◌, ◌<◌, ◌≡◌, refl, some, nat_keyed, string_keyed, pair_keyed}
use siatt.Backoff.{Backoff, delay_after, delay_after_bounds}

abbrev schedule : Backoff
schedule = record { max_attempts = 5; base = 2000; cap = 300000 }

waits_two_seconds : delay_after schedule 1 ≡ some 2000
unfolding delay_after
waits_two_seconds = refl

delay_after_bounds_example : (3 < 5) × (8000 ≤ 300000)
unfolding delay_after
delay_after_bounds_example = delay_after_bounds schedule 3 8000 refl
