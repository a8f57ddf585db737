-- ===== src/Jobs/Drained.antt =====
-- The jobs of runner/scheduler.py as a queue that a drainer may run: `JobQueue` meets the protocol
-- of core/drain.py, with its laws.
use siatt.Base.{
  ℕ, ◌+◌, ◌-◌, ◌≤◌, String, ◌≡◌, refl, sym, ap, ◌∙◌, inl, inr, Bool, true, false, not, ◌&&◌, ◌||◌,
  none, some, List, [], ◌∷◌, map, arith, if◌then◌else◌, Bool-cases, Option-cases, ◌==◌, nat_keyed,
  string_keyed, elem, Distinct, pair_keyed, length, null, length-map,
}
use siatt.Leases.{
  is_held, held-kept, held-claimed, held-freed, held-released, held-reclaimed, held-deleted,
}
use siatt.Failure.{Failure, reason_of}
use siatt.Backoff.{delay_after}
use siatt.WorkQueue.{WorkQueue}
use siatt.Inbox.{pending, is_leased, done-unleased}
use siatt.Inbox.Queue.{Settings}
use siatt.Jobs.{
  JobRow, LeasedJob, lease_jobs, renew_jobs, complete_job, retry_job, fail_job, release_jobs,
  reclaim_jobs, purge_jobs, claimed, mark_leased,
}
use siatt.Jobs.Shape.{
  IsWellFormed, lease-IsWellFormed, renew-IsWellFormed, complete-IsWellFormed, retry-IsWellFormed,
  fail-IsWellFormed, release-IsWellFormed, reclaim-IsWellFormed, purge-IsWellFormed,
}
use siatt.Jobs.Leasing.{
  leased_ids, ids-leased_job, lease_jobs-excluded, length-lease_jobs, lease_jobs-Distinct,
}
use siatt.Jobs.Queue
use siatt.Jobs.Queue.{Job, job_of}

-- Whether the row of an id is leased.
abbrev pub held : List JobRow → String → Bool
held = is_held (λ r. r.id) (λ r. is_leased r.state)

pub held-complete_job :
    (now : ℕ) (j k : String) (rows : List JobRow)
    → held (complete_job now j rows) k ≡ (held rows k && not (k == j))
unfolding complete_job
held-complete_job now j k rows = held-freed _ _ j _ k (λ r. refl) (λ r. refl) rows

pub held-retry_job :
    (j error : String) (not_before : ℕ) (k : String) (rows : List JobRow)
    → held (retry_job j error not_before rows) k ≡ (held rows k && not (k == j))
unfolding retry_job
held-retry_job j error not_before k rows = held-freed _ _ j _ k (λ r. refl) (λ r. refl) rows

pub held-fail_job :
    (now : ℕ) (j error k : String) (rows : List JobRow)
    → held (fail_job now j error rows) k ≡ (held rows k && not (k == j))
unfolding fail_job
held-fail_job now j error k rows = held-freed _ _ j _ k (λ r. refl) (λ r. refl) rows

pub held-release_jobs :
    (ids : List String) (k : String) (rows : List JobRow)
    → held (release_jobs ids rows) k ≡ (held rows k && not (elem k ids))
unfolding release_jobs
held-release_jobs ids k rows = held-released _ _ ids _ k (λ r. refl) (λ r. refl) rows

pub held-renew_jobs :
    (ids : List String) (until : ℕ) (k : String) (rows : List JobRow)
    → held (renew_jobs ids until rows) k ≡ held rows k
unfolding renew_jobs
held-renew_jobs ids until k rows = held-kept _ _ _ _ k (λ r. refl) (λ r h. refl) rows

pub held-reclaim_jobs :
    (k : String) (rows : List JobRow) → held (reclaim_jobs none rows).1 k ≡ false
unfolding reclaim_jobs
held-reclaim_jobs k rows =
    held-reclaimed (λ (r : JobRow). r.id) (λ r. is_leased r.state)
      (λ r. record r { state = pending; lease_until = none }) k (λ r. refl) rows

pub held-purge_jobs :
    (before : ℕ) (k : String) (rows : List JobRow) → held (purge_jobs before rows).1 k ≡ held rows k
unfolding purge_jobs
held-purge_jobs before k rows =
    held-deleted _ _ _ k (λ r h. done-unleased r.state (ground arith)) rows

pub held-lease_jobs :
    (kinds : List String) (limit now until : ℕ) (exclude only : List String) (rows : List JobRow)
    → (k : String)
    → held (lease_jobs kinds limit now until exclude only rows).1 k
      ≡ (held rows k || elem k (leased_ids (lease_jobs kinds limit now until exclude only rows).0))
unfolding lease_jobs
held-lease_jobs kinds limit now until exclude only rows k = elim (Bool-cases (null kinds)) [
  | inl empty ↦ rw empty (ground arith)
  | inr known ↦ rw known (
      held-claimed _ _ (claimed kinds limit now exclude only rows) (mark_leased until) k (λ r. refl)
        (λ r. refl) rows
      ∙ ap (λ ids. held rows k || elem k ids) (sym (ids-leased_job until _)))
]

-- A failed run either dies or waits; both are statements on its row alone.
pub fail_cases {ℓ} :
    (P : List JobRow → Type ℓ) (s : Settings) (now : ℕ) (id : String) (attempts : ℕ)
    → (error : Failure) (rows : List JobRow) → P (fail_job now id (reason_of error) rows)
    → ((delay : ℕ) → P (retry_job id (reason_of error) (now + delay) rows))
    → P (Queue.fail s now id attempts error rows).1
unfolding Queue.fail
fail_cases P s now id attempts error rows dead waits =
    elim (Option-cases (delay_after s.backoff attempts)) [
      | inl h ↦ rw (h, Queue.fail) dead
      | inr (delay, h) ↦ rw (h, Queue.fail) (waits delay)
    ]

-- The jobs of a lease, without the gate.
module _ {P : Type 0} (loads : String → P) (no_payload : P) where
  abbrev item_ids : List (Job P) → List String
  item_ids = map (λ x. x.id)

  item_ids-job_of :
      (got : List LeasedJob) → item_ids (map (job_of loads no_payload) got) ≡ leased_ids got
  item_ids-job_of [] = refl
  item_ids-job_of (r ∷ got) = ap (◌∷◌ r.id) (item_ids-job_of got)

  module _ (s : Settings) (kinds : List String) (now limit : ℕ) (exclude only : List String)
      (rows : List JobRow) where
    abbrev lease_of : Bool → List (Job P) × List JobRow
    lease_of paused = Queue.lease loads no_payload s kinds paused now limit exclude only rows

    item_ids-lease :
        item_ids (lease_of false).0
        ≡ leased_ids (lease_jobs kinds limit now (now + s.lease_ttl) exclude only rows).0
    unfolding Queue.lease
    item_ids-lease = item_ids-job_of _

    pub length-lease : (paused : Bool) → IsWellFormed rows → length (lease_of paused).0 ≤ limit
    unfolding Queue.lease
    length-lease true w = omega arith
    length-lease false w = omega (
      arith,
      length-map (job_of loads no_payload)
          (lease_jobs kinds limit now (now + s.lease_ttl) exclude only rows).0,
      length-lease_jobs kinds limit now (now + s.lease_ttl) exclude only rows w,
    )

    pub lease-Distinct :
        (paused : Bool) → IsWellFormed rows → Distinct (item_ids (lease_of paused).0)
    unfolding Queue.lease
    lease-Distinct true w = tt
    lease-Distinct false w =
        rw (item_ids-job_of (lease_jobs kinds limit now (now + s.lease_ttl) exclude only rows).0)
          (lease_jobs-Distinct kinds limit now (now + s.lease_ttl) exclude only rows w)

    pub lease_fresh :
        (paused : Bool) (k : String)
        → elem k exclude ≡ true
        → elem k (item_ids (lease_of paused).0) ≡ false
    unfolding Queue.lease
    lease_fresh true k x = refl
    lease_fresh false k x =
        rw (item_ids-job_of (lease_jobs kinds limit now (now + s.lease_ttl) exclude only rows).0)
          (lease_jobs-excluded k kinds limit now (now + s.lease_ttl) exclude only rows x)

    pub held-lease :
        (paused : Bool) (k : String)
        → held (lease_of paused).1 k ≡ (held rows k || elem k (item_ids (lease_of paused).0))
    unfolding Queue.lease
    held-lease true k = ground arith
    held-lease false k =
        rw (item_ids-job_of (lease_jobs kinds limit now (now + s.lease_ttl) exclude only rows).0)
          (held-lease_jobs kinds limit now (now + s.lease_ttl) exclude only rows k)

    pub leased-IsWellFormed : (paused : Bool) → IsWellFormed rows → IsWellFormed (lease_of paused).1
    unfolding Queue.lease
    leased-IsWellFormed true w = w
    leased-IsWellFormed false w =
        lease-IsWellFormed rows w kinds limit now (now + s.lease_ttl) exclude only

-- The job queue meets the drainer's protocol; `paused` is the gate's answer at each time.
abbrev pub jobs_queue :
    (P : Type 0) → (String → P) → P → Settings → List String → (ℕ → Bool) → WorkQueue String
jobs_queue P loads no_payload s kinds paused = record {
  Table = List JobRow;
  Item = Job P;
  id = λ x. x.id;
  lease = λ now. Queue.lease loads no_payload s kinds (paused now) now;
  renew = Queue.renew s;
  complete = Queue.complete;
  release = Queue.release;
  fail = λ now x error. Queue.fail s now x.id x.attempts error;
  reclaim = λ now expired_only rows. (Queue.reclaim now expired_only rows).1;
  purge = λ now rows. (Queue.purge s now rows).1;
  held = held;
  Valid = IsWellFormed;
  lease-Valid = λ now limit exclude only rows w.
      leased-IsWellFormed loads no_payload s kinds now limit exclude only rows (paused now) w;
  renew-Valid = λ now ids rows w. renew-IsWellFormed rows w ids (now + s.lease_ttl);
  complete-Valid = λ now k rows w. complete-IsWellFormed rows w now k;
  release-Valid = λ ids rows w. release-IsWellFormed rows w ids;
  fail-Valid = λ now x error rows w.
      fail_cases IsWellFormed s now x.id x.attempts error rows
        (fail-IsWellFormed rows w now x.id (reason_of error))
        (λ delay. retry-IsWellFormed rows w x.id (reason_of error) (now + delay));
  reclaim-Valid = λ now expired_only rows w.
      reclaim-IsWellFormed rows w (if expired_only then some now else none);
  purge-Valid = λ now rows w. purge-IsWellFormed rows w (now - s.retention);
  lease-length = λ now limit exclude only rows w.
      length-lease loads no_payload s kinds now limit exclude only rows (paused now) w;
  lease-fresh = λ now limit exclude only rows k w x.
      lease_fresh loads no_payload s kinds now limit exclude only rows (paused now) k x;
  lease-Distinct = λ now limit exclude only rows w.
      lease-Distinct loads no_payload s kinds now limit exclude only rows (paused now) w;
  lease-held = λ now limit exclude only rows k w mine.
      held-lease loads no_payload s kinds now limit exclude only rows (paused now) k;
  renew-held = λ now ids rows k. held-renew_jobs ids (now + s.lease_ttl) k rows;
  complete-held = λ now j rows k. held-complete_job now j k rows;
  release-held = λ ids rows k. held-release_jobs ids k rows;
  fail-held = λ now x error rows k.
      fail_cases (λ t. held t k ≡ (held rows k && not (k == x.id))) s now x.id x.attempts error rows
        (held-fail_job now x.id (reason_of error) k rows)
        (λ delay. held-retry_job x.id (reason_of error) (now + delay) k rows);
  reclaim-held = λ now rows k. held-reclaim_jobs k rows;
  purge-held = λ now rows k. held-purge_jobs (now - s.retention) k rows;
}
