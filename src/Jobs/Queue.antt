-- ===== src/Jobs/Queue.antt =====
-- The class `JobQueue` of runner/scheduler.py: the durable queue of jobs over the `jobs` table. The
-- clock's reading is an argument of each operation; `json` is a parameter.
use siatt.Base.{
  ℕ, ◌+◌, ◌-◌, String, Bool, true, false, not, Option, none, some, List, [], ◌∷◌, map,
  if◌then◌else◌, ◌==◌, nat_keyed, string_keyed, elem, pair_keyed,
}
use siatt.Backoff.{delay_after}
use siatt.Failure.{Failure, reason_of}
use siatt.Inbox.Queue.{Settings}
use siatt.Jobs.{
  JobRow, LeasedJob, enqueue_job, lease_jobs, renew_jobs, complete_job, retry_job, fail_job,
  release_jobs, reclaim_jobs, purge_jobs,
}

-- DEFAULT_LEASE_TTL, DEFAULT_BACKOFF and DONE_RETENTION, in milliseconds
abbrev pub default_settings : Settings
default_settings = record {
  lease_ttl = 300000;
  backoff = record { max_attempts = 3; base = 30000; cap = 3600000 };
  retention = 604800000;
}

pub record Queued : Type 0 where
  pub id : String
  pub duplicate : Bool
  -- Whether the subscribers were called.
  pub woken : Bool

pub record Job (P : Type 0) : Type 0 where
  pub id : String
  pub kind : String
  pub payload : P
  pub attempts : ℕ

-- A worker leases only what it can run.
unfoldable pub accept : String → List String → List String
accept kind kinds = if elem kind kinds then kinds else kind ∷ kinds

-- `fresh` is the new ULID that names a job given no id.
unfoldable pub enqueue :
    ℕ
    → String
    → String
    → Option String
    → Option ℕ
    → Option String
    → List JobRow
    → Queued × List JobRow
enqueue now fresh kind payload run_after job_id rows =
    let identifier : String = elim job_id [
      | some id ↦ if id == "" then fresh else id
      | none ↦ fresh
    ] in
    let due : ℕ = elim run_after [ some t ↦ t | none ↦ now ] in
    let (inserted, table) = enqueue_job now identifier kind payload due rows in
    (record { id = identifier; duplicate = not inserted; woken = inserted }, table)

module _ {P : Type 0} (loads : String → P) (no_payload : P) where
  -- `json.loads(payload) if payload else {}`
  abbrev pub payload_of : Option String → P
  payload_of none = no_payload
  payload_of (some text) = if text == "" then no_payload else loads text

  abbrev pub job_of : LeasedJob → Job P
  job_of r = record {
    id = r.id;
    kind = r.kind;
    payload = payload_of r.payload;
    attempts = r.attempts;
  }

  -- `paused` is the answer of the `pause_when` gate.
  unfoldable pub lease :
      Settings
      → List String
      → Bool
      → ℕ
      → ℕ
      → List String
      → List String
      → List JobRow
      → List (Job P) × List JobRow
  lease s kinds paused now limit exclude only rows =
      let (got, table) = lease_jobs kinds limit now (now + s.lease_ttl) exclude only rows in
      if paused then ([], rows) else (map job_of got, table)

abbrev pub renew : Settings → ℕ → List String → List JobRow → List JobRow
renew s now ids = renew_jobs ids (now + s.lease_ttl)

abbrev pub complete : ℕ → String → List JobRow → List JobRow
complete now item_id = complete_job now item_id

abbrev pub release : List String → List JobRow → List JobRow
release ids = release_jobs ids

-- One failed run of the job `id`, leased `attempts` times so far. True while it will be tried again.
unfoldable pub fail : Settings → ℕ → String → ℕ → Failure → List JobRow → Bool × List JobRow
fail s now id attempts error rows = elim (delay_after s.backoff attempts) [
  | none ↦ (false, fail_job now id (reason_of error) rows)
  | some delay ↦ (true, retry_job id (reason_of error) (now + delay) rows)
]

abbrev pub reclaim : ℕ → Bool → List JobRow → List JobRow × List JobRow
reclaim now expired_only = reclaim_jobs (if expired_only then some now else none)

abbrev pub purge : Settings → ℕ → List JobRow → ℕ × List JobRow
purge s now = purge_jobs (now - s.retention)
