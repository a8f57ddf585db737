-- ===== src/Jobs/Shape.antt =====
-- What holds of the `jobs` table of store/db.py whatever statements reach it, and which jobs a
-- lease hands out.
use mathlib.Core.List.{map-append}
use siatt.Base.{
  ℕ, String, ◌≡◌, refl, inl, inr, Bool, true, Option, List, [], ◌∷◌, arith, Bool-cases, nat_keyed,
  string_keyed, elem, Distinct, Distinct-append, pair_keyed, null, Every, Every-append,
}
use siatt.Sql.{
  update_where, map-update_where, Every-update_where, Every-select_where, Distinct-select_where,
}
use siatt.Inbox.Shape.{Coherent, renew-Coherent}
use siatt.Jobs.{
  JobRow, job_ids, new_job, enqueue_job, lease_jobs, renew_jobs, complete_job, retry_job, fail_job,
  release_jobs, reclaim_jobs, revive_failed_jobs, purge_jobs,
}

abbrev pub IsCoherent : JobRow → Type 0
IsCoherent r = Coherent r.state r.lease_until r.attempts

pub record IsWellFormed (rows : List JobRow) : Type 0 where
  pub distinct : Distinct (job_ids rows)
  pub coherent : Every IsCoherent rows

update-IsWellFormed :
    (p : JobRow → Bool) (f : JobRow → JobRow)
    → ((r : JobRow) → (f r).id ≡ r.id)
    → ((r : JobRow) → IsCoherent r → p r ≡ true → IsCoherent (f r))
    → (rows : List JobRow) → IsWellFormed rows
    → IsWellFormed (update_where p f rows)
update-IsWellFormed p f same keep rows w = record {
  distinct = rw (map-update_where (λ (r : JobRow). r.id) p f same rows) w.distinct;
  coherent = Every-update_where IsCoherent p f keep rows w.coherent;
}

module _ (rows : List JobRow) (w : IsWellFormed rows) where
  pub enqueue-IsWellFormed :
      (now : ℕ) (job_id kind : String) (payload : Option String) (run_after : ℕ)
      → IsWellFormed (enqueue_job now job_id kind payload run_after rows).1
  unfolding enqueue_job
  enqueue-IsWellFormed now job_id kind payload run_after =
      elim (Bool-cases (elem job_id (job_ids rows))) [
        | inl h ↦ rw h w
        | inr h ↦ rw h (record {
          distinct =
              rw
                (map-append (λ (r : JobRow). r.id) rows
                  (new_job now job_id kind payload run_after ∷ []))
                (Distinct-append job_id (job_ids rows) w.distinct h);
          coherent = Every-append IsCoherent rows _ w.coherent (tt, tt);
        })
      ]

  pub lease-IsWellFormed :
      (kinds : List String) (limit now until : ℕ) (exclude only : List String)
      → IsWellFormed (lease_jobs kinds limit now until exclude only rows).1
  unfolding lease_jobs
  lease-IsWellFormed kinds limit now until exclude only = elim (Bool-cases (null kinds)) [
    | inl h ↦ rw h w
    | inr h ↦ rw h (update-IsWellFormed _ _ (λ r. refl) (λ r c e. (λ q. cc, omega arith)) rows w)
  ]

  pub renew-IsWellFormed :
      (ids : List String) (until : ℕ) → IsWellFormed (renew_jobs ids until rows)
  unfolding renew_jobs
  renew-IsWellFormed ids until =
      update-IsWellFormed _ _ (λ r. refl)
        (λ r c e. renew-Coherent r.state r.lease_until r.attempts until (ground arith) c) rows w

  pub complete-IsWellFormed : (now : ℕ) (k : String) → IsWellFormed (complete_job now k rows)
  unfolding complete_job
  complete-IsWellFormed now k = update-IsWellFormed _ _ (λ r. refl) (λ r c e. refl) rows w

  pub retry-IsWellFormed :
      (k error : String) (not_before : ℕ) → IsWellFormed (retry_job k error not_before rows)
  unfolding retry_job
  retry-IsWellFormed k error not_before = update-IsWellFormed _ _ (λ r. refl) (λ r c e. tt) rows w

  pub fail-IsWellFormed : (now : ℕ) (k error : String) → IsWellFormed (fail_job now k error rows)
  unfolding fail_job
  fail-IsWellFormed now k error = update-IsWellFormed _ _ (λ r. refl) (λ r c e. refl) rows w

  pub release-IsWellFormed : (ids : List String) → IsWellFormed (release_jobs ids rows)
  unfolding release_jobs
  release-IsWellFormed ids = update-IsWellFormed _ _ (λ r. refl) (λ r c e. tt) rows w

  pub reclaim-IsWellFormed : (now : Option ℕ) → IsWellFormed (reclaim_jobs now rows).1
  unfolding reclaim_jobs
  reclaim-IsWellFormed now = update-IsWellFormed _ _ (λ r. refl) (λ r c e. tt) rows w

  pub revive-IsWellFormed : (now : ℕ) → IsWellFormed (revive_failed_jobs now rows).1
  unfolding revive_failed_jobs
  revive-IsWellFormed now = update-IsWellFormed _ _ (λ r. refl) (λ r c e. tt) rows w

  pub purge-IsWellFormed : (before : ℕ) → IsWellFormed (purge_jobs before rows).1
  unfolding purge_jobs
  purge-IsWellFormed before = record {
    distinct = Distinct-select_where (λ (r : JobRow). r.id) _ rows w.distinct;
    coherent = Every-select_where IsCoherent _ rows w.coherent;
  }
