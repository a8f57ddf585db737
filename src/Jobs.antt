-- ===== src/Jobs.antt =====
-- The `jobs` table of store/db.py and its statements (migrations/0008_jobs.sql), one function for
-- each `*_job` or `*_jobs` method of `Store`. Times are milliseconds, as in Inbox.
pub mod Shape
pub mod Queue
pub mod Leasing
pub mod Drained
pub mod Tests
use siatt.Base.{
  ℕ, ◌+◌, ◌-◌, String, Bool, true, false, ◌&&◌, ◌||◌, Option, none, some, List, [], ◌∷◌, ◌++◌, map,
  ltb, leb, if◌then◌else◌, ◌==◌, nat_keyed, string_keyed, elem, pair_keyed, take, null,
}
use siatt.Sql.{update_where, select_where, delete_where, returning, count_where, order_by}
use siatt.Inbox.{
  RowState, pending, leased, done, failed, is_pending, is_leased, is_done, is_failed, due, offered,
  expired,
}

pub record JobRow : Type 0 where
  pub id : String
  pub kind : String
  pub payload : Option String
  pub run_after : ℕ
  pub state : RowState
  pub lease_until : Option ℕ
  pub attempts : ℕ
  pub last_error : Option String
  pub created_at : ℕ
  pub finished_at : Option ℕ

-- What `RETURNING id, kind, payload, attempts` hands out.
pub record LeasedJob : Type 0 where
  pub id : String
  pub kind : String
  pub payload : Option String
  pub attempts : ℕ

abbrev pub job_ids : List JobRow → List String
job_ids = map (λ r. r.id)

abbrev pub new_job : ℕ → String → String → Option String → ℕ → JobRow
new_job now job_id kind payload run_after = record {
  id = job_id;
  kind = kind;
  payload = payload;
  run_after = run_after;
  state = pending;
  lease_until = none;
  attempts = 0;
  last_error = none;
  created_at = now;
  finished_at = none;
}

-- False when that exact id is there already.
unfoldable pub enqueue_job :
    ℕ → String → String → Option String → ℕ → List JobRow → Bool × List JobRow
enqueue_job now job_id kind payload run_after rows =
    if elem job_id (job_ids rows)
    then (false, rows)
    else (true, rows ++ new_job now job_id kind payload run_after ∷ [])

abbrev pub runnable : ℕ → JobRow → Bool
runnable now r =
    (is_pending r.state && leb r.run_after now) || (is_leased r.state && due r.lease_until now)

abbrev pub wanted : List String → ℕ → List String → List String → JobRow → Bool
wanted kinds now exclude only r = elem r.kind kinds && (runnable now r && offered exclude only r.id)

-- The ids that the inner SELECT of `lease_jobs` picks: by `run_after`, ties in rowid order.
abbrev pub claimed : List String → ℕ → ℕ → List String → List String → List JobRow → List String
claimed kinds limit now exclude only rows =
    take limit
      (job_ids (order_by (λ r. r.run_after) (select_where (wanted kinds now exclude only) rows)))

abbrev pub mark_leased : ℕ → JobRow → JobRow
mark_leased lease_until r = record r {
  state = leased;
  lease_until = some lease_until;
  attempts = r.attempts + 1;
}

abbrev pub leased_job : JobRow → LeasedJob
leased_job r = record { id = r.id; kind = r.kind; payload = r.payload; attempts = r.attempts }

-- With no kinds nothing is leased; the general statement says the same, since no row has one.
unfoldable pub lease_jobs :
    List String → ℕ → ℕ → ℕ → List String → List String → List JobRow → List LeasedJob × List JobRow
lease_jobs kinds limit now lease_until exclude only rows =
    let ids = claimed kinds limit now exclude only rows in
    if null kinds then ([], rows) else (
      map leased_job (returning (λ r. elem r.id ids) (mark_leased lease_until) rows),
      update_where (λ r. elem r.id ids) (mark_leased lease_until) rows,
    )

unfoldable pub renew_jobs : List String → ℕ → List JobRow → List JobRow
renew_jobs ids lease_until =
    update_where (λ r. is_leased r.state && elem r.id ids)
      (λ r. record r { lease_until = some lease_until })

unfoldable pub complete_job : ℕ → String → List JobRow → List JobRow
complete_job now job_id =
    update_where (λ r. r.id == job_id)
      (λ r. record r {
        state = done;
        lease_until = none;
        last_error = none;
        finished_at = some now;
      })

unfoldable pub retry_job : String → String → ℕ → List JobRow → List JobRow
retry_job job_id error not_before =
    update_where (λ r. r.id == job_id)
      (λ r. record r {
        state = pending;
        lease_until = none;
        run_after = not_before;
        last_error = some error;
      })

unfoldable pub fail_job : ℕ → String → String → List JobRow → List JobRow
fail_job now job_id error =
    update_where (λ r. r.id == job_id)
      (λ r. record r {
        state = failed;
        lease_until = none;
        last_error = some error;
        finished_at = some now;
      })

unfoldable pub release_jobs : List String → List JobRow → List JobRow
release_jobs ids =
    update_where (λ r. is_leased r.state && elem r.id ids)
      (λ r. record r { state = pending; lease_until = none; attempts = r.attempts - 1 })

unfoldable pub reclaim_jobs : Option ℕ → List JobRow → List JobRow × List JobRow
reclaim_jobs now rows =
    let stopped = λ (r : JobRow). is_leased r.state && expired now r.lease_until in
    let free = λ (r : JobRow). record r { state = pending; lease_until = none } in
    (returning stopped free rows, update_where stopped free rows)

unfoldable pub revive_failed_jobs : ℕ → List JobRow → ℕ × List JobRow
revive_failed_jobs now rows = (
  count_where (λ r. is_failed r.state) rows,
  update_where (λ r. is_failed r.state)
      (λ r. record r { state = pending; attempts = 0; lease_until = none; run_after = now }) rows,
)

-- `finished_at < ?` on a column that may be NULL.
abbrev pub finished_before : Option ℕ → ℕ → Bool
finished_before none before = false
finished_before (some t) before = ltb t before

unfoldable pub purge_jobs : ℕ → List JobRow → ℕ × List JobRow
purge_jobs before rows =
    let old = λ (r : JobRow). is_done r.state && finished_before r.finished_at before in
    (count_where old rows, delete_where old rows)
