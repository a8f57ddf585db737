-- ===== src/Scheduler/Tests.antt =====
-- A scheduler with one recurring job and one clock, runner/scheduler.py.
use siatt.Base.{
  ℕ, ◌+◌, String, ◌≡◌, refl, none, some, List, [], ◌∷◌, nat_keyed, string_keyed, pair_keyed,
}
use siatt.Jobs.{JobRow, enqueue_job}
use siatt.Jobs.Queue.{enqueue}
use siatt.Scheduler.{JobSpec, Clock, Scheduler, schedule_due}
use siatt.Scheduler.Once.{schedule_due-once}

abbrev reflecting : JobSpec
reflecting = record { kind = "reflect"; cron = some (λ moment. some (moment + 60000)) }

abbrev standing : Clock
standing moment =
    some (record { job_id = "task-1"; kind = "reflect"; fire_at = moment + 1; payload = none } ∷ [])

abbrev nightly : Scheduler
nightly = record {
  specs = reflecting ∷ [];
  failures = [];
  clocks = standing ∷ [];
  accepted = "reflect" ∷ [];
}

abbrev minute : ℕ → String
minute t = "2026-01-01T00:01"

first_tick :
    (schedule_due minute 5 "fresh" 0 nightly []).0 ≡ "reflect@2026-01-01T00:01" ∷ "task-1" ∷ []
unfolding schedule_due enqueue enqueue_job
first_tick = refl

abbrev after_first : List JobRow
after_first = (schedule_due minute 5 "fresh" 0 nightly []).2

schedule_due-once_example :
    ((schedule_due minute 9 "again" 0 (schedule_due minute 5 "fresh" 0 nightly []).1 after_first).0
      ≡ [])
    × ((schedule_due minute 9 "again" 0
          (schedule_due minute 5 "fresh" 0 nightly []).1
          after_first).2
        ≡ after_first)
schedule_due-once_example =
    schedule_due-once minute 5 9 0 "fresh" "again" nightly [] after_first ((refl, tt), tt)
      (λ k there. there)
