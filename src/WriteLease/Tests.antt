-- ===== src/WriteLease/Tests.antt =====
-- Two `Lease` objects of siatt/memory/lease.py, 1 and 2.
use siatt.Base.{◌≡◌, refl, false, none, some, nat_keyed, string_keyed, pair_keyed}
use siatt.WriteLease.{
  State, has_lock, initial, acquires, looks, takes, releases, unlocks, raises, Reach, FaultyReach,
  start, steps, fails, look, finish_acquire, start_release, unlock, start_acquire, leak, stale_row,
}
use siatt.WriteLease.Exclusive.{FaultyReach-exclusive, leaked-blocks, Reach-no_takeover}

-- The first writes and lets go, and the second takes the lock.
abbrev taken_over : State
taken_over = start_acquire 2 (
    unlock 1 (
      start_release 1 (finish_acquire 1 (some "promote") 5 900 (look 1 (start_acquire 1 initial)))))

taken_over-Reach : Reach taken_over
taken_over-Reach =
    steps
      (steps
        (steps
          (steps (steps (steps start (acquires 1 refl)) (looks 1 refl))
            (takes 1 (some "promote") 5 900 refl))
          (releases 1 refl))
        (unlocks 1 refl))
      (acquires 2 refl)

Reach-no_takeover_example : stale_row taken_over ≡ none
Reach-no_takeover_example = Reach-no_takeover taken_over 2 taken_over-Reach refl

-- The first takes the lock and its look at the table raises.
abbrev cancelled : State
cancelled = leak 1 (start_acquire 1 initial)

cancelled-FaultyReach : FaultyReach cancelled
cancelled-FaultyReach = fails (steps start (acquires 1 refl)) (raises 1 refl)

leaked-blocks_example : start_acquire 2 cancelled ≡ cancelled
leaked-blocks_example = leaked-blocks cancelled 1 2 cancelled-FaultyReach refl

FaultyReach-exclusive_example : has_lock (cancelled.phases 2) ≡ false
FaultyReach-exclusive_example = FaultyReach-exclusive cancelled 1 2 cancelled-FaultyReach refl refl
