-- ===== src/Inbox/Tests.antt =====
-- The theorems on the `inbox` table of store/db.py and on core/inbox.py at concrete tables.
use siatt.Base.{
  ◌+◌, ◌≡◌, refl, true, false, none, some, List, [], ◌∷◌, arith, if◌then◌else◌, nat_keyed,
  string_keyed, elem, pair_keyed,
}
use siatt.Failure.{text}
use siatt.Inbox.{
  pending, leased, failed, InboxRow, enqueue_inbox, lease_inbox, retry_inbox, reclaim_inbox,
  InboxOp, enqueue, lease, complete, purge, revive, reclaim, run,
}
use siatt.Inbox.Shape.{IsWellFormed, run-IsWellFormed}
use siatt.Inbox.Dedupe.{redelivery-is_duplicate}
use siatt.Inbox.Rows.{row_of}
use siatt.Inbox.Leasing.{leased_ids, lease_inbox-row, lease_inbox-exclusive, retry_inbox-waits}
use siatt.Inbox.Crashes.{Crash, times_leased, crashes, Survives, crash_loop}
use siatt.Inbox.Queue
use siatt.Inbox.Queue.{default_settings}
use siatt.Inbox.Outcome.{FailEnds, fail_outcome}
use siatt.Inbox.Dead.{dead_letter-Rests}

abbrev pub first_row : InboxRow
first_row = record {
  id = 1;
  source = "slack";
  external_id = "Ev1";
  payload = "{}";
  received_at = 10;
  state = pending;
  lease_until = none;
  attempts = 0;
  last_error = none;
}

abbrev pub dead_row : InboxRow
dead_row = record {
  id = 2;
  source = "slack";
  external_id = "Ev2";
  payload = "{}";
  received_at = 20;
  state = failed;
  lease_until = none;
  attempts = 5;
  last_error = some "gone";
}

abbrev pub two_rows : List InboxRow
two_rows = first_row ∷ dead_row ∷ []

pub two_rows-IsWellFormed : IsWellFormed two_rows
two_rows-IsWellFormed = record {
  ascending = omega arith;
  unique = (refl, (refl, tt));
  coherent = (tt, (refl, tt));
}

abbrev history : List InboxOp
history = enqueue 30 "cli" "c1" "{}" ∷ lease 8 31 91 [] [] ∷ complete 1 ∷ revive ∷ purge 40 ∷ []

run-IsWellFormed_example : IsWellFormed (run history two_rows)
run-IsWellFormed_example = run-IsWellFormed history two_rows two_rows-IsWellFormed

redelivery-is_duplicate_example :
    enqueue_inbox 99 "cli" "c1" "{}"
      (run (lease 8 31 91 [] [] ∷ purge 25 ∷ []) (enqueue_inbox 30 "cli" "c1" "{}" two_rows).1)
    ≡ (
      ((enqueue_inbox 30 "cli" "c1" "{}" two_rows).0.0, true),
      run (lease 8 31 91 [] [] ∷ purge 25 ∷ []) (enqueue_inbox 30 "cli" "c1" "{}" two_rows).1,
    )
redelivery-is_duplicate_example =
    redelivery-is_duplicate "cli" "c1" 30 99 "{}" "{}" two_rows
      (lease 8 31 91 [] [] ∷ purge 25 ∷ []) refl (tt, (omega arith, tt))

lease_inbox-row_example :
    row_of 1 (lease_inbox 8 50 110 (1 ∷ []) [] two_rows).1
    ≡ some (
        if elem 1 (leased_ids (lease_inbox 8 50 110 (1 ∷ []) [] two_rows).0)
        then record first_row { state = leased; lease_until = some 110; attempts = 1 }
        else first_row)
lease_inbox-row_example =
    (lease_inbox-row 8 50 110 1 (1 ∷ []) [] two_rows first_row two_rows-IsWellFormed refl).0

lease_inbox-exclusive_example :
    elem 1 (leased_ids (lease_inbox 8 109 170 [] [] (lease_inbox 8 50 110 [] [] two_rows).1).0)
    ≡ false
unfolding lease_inbox
lease_inbox-exclusive_example =
    lease_inbox-exclusive 8 50 110 1 [] [] two_rows 8 109 170 [] [] two_rows-IsWellFormed
      (omega arith) refl

retry_inbox-waits_example :
    elem 1 (leased_ids (lease_inbox 8 50 110 [] [] (retry_inbox 1 "busy" 60 two_rows)).0) ≡ false
retry_inbox-waits_example =
    retry_inbox-waits 1 60 8 50 110 "busy" [] [] two_rows two_rows-IsWellFormed (omega arith)

abbrev three_deaths : List Crash
three_deaths =
    record { limit = 8; now = 50; until = 110; exclude = []; only = [] }
    ∷ record { limit = 8; now = 60; until = 120; exclude = 1 ∷ []; only = [] }
    ∷ record { limit = 1; now = 70; until = 130; exclude = []; only = [] }
    ∷ []

-- The second of the three processes did not ask for the row.
twice_leased : times_leased 1 three_deaths two_rows ≡ 2
unfolding lease_inbox reclaim_inbox
twice_leased = refl

crash_loop_example :
    Survives 1 (0 + times_leased 1 three_deaths two_rows) (crashes three_deaths two_rows)
crash_loop_example =
    crash_loop 1 three_deaths two_rows first_row two_rows-IsWellFormed refl refl refl

fail_outcome_example :
    FailEnds default_settings 100 5
      (text "busy")
      first_row
      (Queue.fail default_settings 100 1 5 (text "busy") two_rows).0
      (row_of 1 (Queue.fail default_settings 100 1 5 (text "busy") two_rows).1)
fail_outcome_example = fail_outcome default_settings 100 1 5 (text "busy") two_rows first_row refl

dead_letter-Rests_example :
    (row_of 2 (run (lease 8 50 110 [] [] ∷ complete 1 ∷ reclaim none ∷ []) two_rows)
      ≡ some dead_row)
    × (elem 2 (
          leased_ids
            (lease_inbox 8 60 120 [] []
              (run (lease 8 50 110 [] [] ∷ complete 1 ∷ reclaim none ∷ []) two_rows)).0)
        ≡ false)
dead_letter-Rests_example =
    dead_letter-Rests (lease 8 50 110 [] [] ∷ complete 1 ∷ reclaim none ∷ []) 2 8 60 120 [] []
      two_rows dead_row two_rows-IsWellFormed refl refl
      (tt, ((λ e. absurd (omega arith)), (tt, tt)))

-- A late report on a finished row is written all the same: no statement looks at the state first.
expired_lease_is_offered :
    leased_ids (lease_inbox 8 110 170 [] [] (lease_inbox 8 50 110 [] [] two_rows).1).0 ≡ 1 ∷ []
unfolding lease_inbox
expired_lease_is_offered = refl
