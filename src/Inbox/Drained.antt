-- ===== src/Inbox/Drained.antt =====
-- The inbox of core/inbox.py as a queue that a drainer may run: `Inbox` meets the protocol of
-- core/drain.py, with its laws.
use siatt.Base.{
  ℕ, ◌+◌, ◌-◌, String, ◌≡◌, refl, inl, inr, false, not, ◌&&◌, none, some, List, arith,
  if◌then◌else◌, Bool-cases, Option-cases, ◌==◌, nat_keyed, string_keyed, elem, pair_keyed,
}
use siatt.Leases.{held-kept, held-freed, held-released, held-reclaimed, held-deleted}
use siatt.Failure.{Failure, hopeless, reason_of}
use siatt.Backoff.{delay_after}
use siatt.WorkQueue.{WorkQueue}
use siatt.Inbox.{
  RowState, pending, leased, done-unleased, InboxRow, LeasedRow, is_leased, is_done, lease_inbox,
  renew_inbox, complete_inbox, retry_inbox, fail_inbox, release_inbox, reclaim_inbox, purge_inbox,
  mark_leased, deliverable, offered, claimed,
}
use siatt.Inbox as Ops
use siatt.Inbox.Shape.{IsWellFormed, step-IsWellFormed}
use siatt.Inbox.Queue
use siatt.Inbox.Queue.{
  Settings, Validated, valid, invalid, LeasedEvent, from_json, receive, receive_one,
}
use siatt.Inbox.Receive.{
  held, held-fail_inbox, lease-IsWellFormed, events-Distinct, events_fresh, length-events,
  held-lease,
}

-- A failed delivery either dies or waits; both are statements on its row alone.
pub fail_cases {ℓ} :
    (P : List InboxRow → Type ℓ) (s : Settings) (now id attempts : ℕ) (error : Failure)
    → (rows : List InboxRow) → P (fail_inbox id (reason_of error) rows)
    → ((delay : ℕ) → P (retry_inbox id (reason_of error) (now + delay) rows))
    → P (Queue.fail s now id attempts error rows).1
unfolding Queue.fail
fail_cases P s now id attempts error rows dead waits =
    elim (Option-cases (delay_after s.backoff attempts)) [
      | inl h ↦ rw (h, Queue.fail) dead
      | inr (delay, h) ↦
          rw (h, Queue.fail)
            (elim (Bool-cases (hopeless error)) [ inl e ↦ rw e dead | inr e ↦ rw e (waits delay) ])
    ]

pub held-retry_inbox :
    (j : ℕ) (error : String) (not_before k : ℕ) (rows : List InboxRow)
    → held (retry_inbox j error not_before rows) k ≡ (held rows k && not (k == j))
unfolding retry_inbox
held-retry_inbox j error not_before k rows = held-freed _ _ j _ k (λ r. refl) (λ r. refl) rows

pub held-complete_inbox :
    (j k : ℕ) (rows : List InboxRow)
    → held (complete_inbox j rows) k ≡ (held rows k && not (k == j))
unfolding complete_inbox
held-complete_inbox j k rows = held-freed _ _ j _ k (λ r. refl) (λ r. refl) rows

pub held-release_inbox :
    (ids : List ℕ) (k : ℕ) (rows : List InboxRow)
    → held (release_inbox ids rows) k ≡ (held rows k && not (elem k ids))
unfolding release_inbox
held-release_inbox ids k rows = held-released _ _ ids _ k (λ r. refl) (λ r. refl) rows

pub held-renew_inbox :
    (ids : List ℕ) (until k : ℕ) (rows : List InboxRow)
    → held (renew_inbox ids until rows) k ≡ held rows k
unfolding renew_inbox
held-renew_inbox ids until k rows = held-kept _ _ _ _ k (λ r. refl) (λ r h. refl) rows

pub held-reclaim_inbox : (k : ℕ) (rows : List InboxRow) → held (reclaim_inbox none rows).1 k ≡ false
unfolding reclaim_inbox
held-reclaim_inbox k rows =
    held-reclaimed (λ (r : InboxRow). r.id) (λ r. is_leased r.state)
      (λ r. record r { state = pending; lease_until = none }) k (λ r. refl) rows

pub held-purge_inbox :
    (before k : ℕ) (rows : List InboxRow) → held (purge_inbox before rows).1 k ≡ held rows k
unfolding purge_inbox
held-purge_inbox before k rows =
    held-deleted _ _ _ k (λ r h. done-unleased r.state (ground arith)) rows

-- The inbox meets the drainer's protocol.
abbrev pub inbox_queue : (E : Type 0) → (String → Validated E) → Settings → WorkQueue ℕ
inbox_queue E validate_json s = record {
  Table = List InboxRow;
  Item = LeasedEvent E;
  id = λ x. x.id;
  lease = λ now limit exclude only rows. Queue.lease validate_json s now limit exclude only rows;
  renew = Queue.renew s;
  complete = λ now k. Queue.complete k;
  release = Queue.release;
  fail = λ now x error. Queue.fail s now x.id x.attempts error;
  reclaim = λ now expired_only rows. (Queue.reclaim now expired_only rows).1;
  purge = λ now rows. (Queue.purge s now rows).1;
  held = held;
  Valid = IsWellFormed;
  lease-Valid = lease-IsWellFormed E validate_json s;
  renew-Valid = λ now ids. step-IsWellFormed (Ops.renew ids (now + s.lease_ttl));
  complete-Valid = λ now k. step-IsWellFormed (Ops.complete k);
  release-Valid = λ ids. step-IsWellFormed (Ops.release ids);
  fail-Valid = λ now x error rows w.
      fail_cases IsWellFormed s now x.id x.attempts error rows
        (step-IsWellFormed (Ops.fail x.id (reason_of error)) rows w)
        (λ delay. step-IsWellFormed (Ops.retry x.id (reason_of error) (now + delay)) rows w);
  reclaim-Valid =
      λ now expired_only. step-IsWellFormed (Ops.reclaim (if expired_only then some now else none));
  purge-Valid = λ now. step-IsWellFormed (Ops.purge (now - s.retention));
  lease-length = length-events E validate_json s;
  lease-fresh = events_fresh E validate_json s;
  lease-Distinct = events-Distinct E validate_json s;
  lease-held = held-lease E validate_json s;
  renew-held = λ now ids rows k. held-renew_inbox ids (now + s.lease_ttl) k rows;
  complete-held = λ now j rows k. held-complete_inbox j k rows;
  release-held = λ ids rows k. held-release_inbox ids k rows;
  fail-held = λ now x error rows k.
      fail_cases (λ t. held t k ≡ (held rows k && not (k == x.id))) s now x.id x.attempts error rows
        (held-fail_inbox x.id (reason_of error) k rows)
        (λ delay. held-retry_inbox x.id (reason_of error) (now + delay) k rows);
  reclaim-held = λ now rows k. held-reclaim_inbox k rows;
  purge-held = λ now rows k. held-purge_inbox (now - s.retention) k rows;
}
