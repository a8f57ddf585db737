-- ===== src/Jobs/Tests.antt =====
-- The theorems on the `jobs` table of store/db.py at a concrete table.
use siatt.Base.{
  ◌≡◌, refl, false, none, List, [], ◌∷◌, arith, nat_keyed, string_keyed, elem, pair_keyed,
}
use siatt.Jobs.{JobRow, new_job, lease_jobs}
use siatt.Jobs.Leasing.{leased_ids, lease_jobs-exclusive}

abbrev pub two_jobs : List JobRow
two_jobs =
    new_job 0 "forget@05:00" "forget" none 500 ∷ new_job 0 "promote@04:00" "promote" none 400 ∷ []

earliest_first :
    leased_ids (lease_jobs ("forget" ∷ "promote" ∷ []) 1 600 900 [] [] two_jobs).0
    ≡ "promote@04:00" ∷ []
unfolding lease_jobs
earliest_first = refl

lease_jobs-exclusive_example :
    elem "promote@04:00" (
      leased_ids
        (lease_jobs
          ("promote" ∷ [])
          5
          899
          1200
          []
          []
          (lease_jobs ("promote" ∷ []) 5 600 900 [] [] two_jobs).1).0)
    ≡ false
unfolding lease_jobs
lease_jobs-exclusive_example =
    lease_jobs-exclusive "promote@04:00" ("promote" ∷ []) 5 600 900 [] [] two_jobs ("promote" ∷ [])
      5 899 1200 [] [] (omega arith) refl
