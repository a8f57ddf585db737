-- ===== src/Scheduler/Enqueued.antt =====
-- How one call of `JobQueue.enqueue` of runner/scheduler.py changes the jobs table: a row for the
-- job is there afterwards, and nothing changes where it was there already.
use Prim.Native.String.{count, ◌++◌ as cat}
use text.Mathlib.TextLemmas.{length-append as count-cat}
use mathlib.Core.List.{map-append}
use siatt.Base.{
  ℕ, String, ◌≡◌, refl, ap, inl, inr, true, false, Option, some, List, [], ◌∷◌, arith,
  if◌then◌else◌, Bool-cases, ◌==◌, nat_keyed, string_keyed, elem, same_refl, elem-append,
  pair_keyed,
}
use siatt.Jobs.{JobRow, job_ids, new_job, enqueue_job}
use siatt.Jobs.Queue.{enqueue}
use siatt.Scheduler.{scheduled_id}

-- A job of that id is in the table, in whatever state.
abbrev pub Present : String → List JobRow → Type 0
Present id rows = elem id (job_ids rows) ≡ true

-- Queueing under an id that is not empty.
abbrev pub IsNamed : String → Type 0
IsNamed id = (id == "") ≡ false

pub enqueue-again :
    (now : ℕ) (fresh kind : String) (payload : Option String) (due : ℕ) (id : String)
    → (rows : List JobRow) → IsNamed id
    → Present id rows
    → enqueue now fresh kind payload (some due) (some id) rows
      ≡ (record { id = id; duplicate = true; woken = false }, rows)
unfolding enqueue enqueue_job
enqueue-again now fresh kind payload due id rows named there = rw (named, there) refl

pub enqueue-Present :
    (now : ℕ) (fresh kind : String) (payload : Option String) (due : ℕ) (id : String)
    → (rows : List JobRow) → IsNamed id
    → Present id (enqueue now fresh kind payload (some due) (some id) rows).1
unfolding enqueue enqueue_job
enqueue-Present now fresh kind payload due id rows named =
    elim (Bool-cases (elem id (job_ids rows))) [
      | inl there ↦ rw (named, there) there
      | inr absent ↦
          rw (named, absent)
            (rw (map-append (λ (r : JobRow). r.id) rows (new_job now id kind payload due ∷ []))
              (rw (elem-append id (job_ids rows) (id ∷ [])) (ground (arith, same_refl id))))
    ]

-- Nothing leaves the table when something is queued.
pub enqueue-kept :
    (now : ℕ) (fresh kind : String) (payload : Option String) (due : ℕ) (id k : String)
    → (rows : List JobRow) → Present k rows
    → Present k (enqueue now fresh kind payload (some due) (some id) rows).1
unfolding enqueue enqueue_job
enqueue-kept now fresh kind payload due id k rows there = added (if id == "" then fresh else id)
  where
    added : (i : String) → Present k (enqueue_job now i kind payload due rows).1
    added i = elim (Bool-cases (elem i (job_ids rows))) [
      | inl dup ↦ rw dup there
      | inr new ↦ rw new (
          rw (map-append (λ (r : JobRow). r.id) rows (new_job now i kind payload due ∷ []))
            (rw (elem-append k (job_ids rows) (i ∷ [])) (ground arith)))
    ]

pub scheduled_id-IsNamed :
    (isoformat : ℕ → String) (kind : String) (t : ℕ) → IsNamed (scheduled_id isoformat kind t)
scheduled_id-IsNamed isoformat kind t = elim (Bool-cases (scheduled_id isoformat kind t == "")) [
  | inl e ↦ absurd (
      omega (
        arith,
        ap count ((string_keyed.same_iff (scheduled_id isoformat kind t) "").0 e),
        count-cat kind (cat "@" (isoformat t)),
        count-cat "@" (isoformat t),
      ))
  | inr e ↦ e
]
