-- ===== src/Jobs/Leasing.antt =====
-- What `lease_jobs` of store/db.py promises its callers.
use siatt.Base.{
  ℕ, ◌≤◌, ◌<◌, String, ◌≡◌, refl, ap, ◌∙◌, inl, inr, Bool, true, false, ◌||◌, List, [], ◌∷◌, map,
  arith, if◌then◌else◌, Bool-cases, ◌==◌, nat_keyed, string_keyed, elem, Distinct, pair_keyed,
  length, null, length-take-le, length-map,
}
use siatt.Sql.{
  update_where, select_where, order_by, insert_by, elem-take, length-select_picked,
  Distinct-select_where,
}
use siatt.Jobs.{JobRow, LeasedJob, job_ids, lease_jobs, claimed, wanted, mark_leased, leased_job}
use siatt.Jobs.Shape.{IsWellFormed}

abbrev pub leased_ids : List LeasedJob → List String
leased_ids = map (λ r. r.id)

pub ids-leased_job :
    (until : ℕ) (rows : List JobRow)
    → leased_ids (map leased_job (map (mark_leased until) rows)) ≡ job_ids rows
ids-leased_job until [] = refl
ids-leased_job until (r ∷ rows) = ap (◌∷◌ r.id) (ids-leased_job until rows)

elem-insert_by :
    (k : String) (r : JobRow) (rows : List JobRow)
    → elem k (job_ids (insert_by (λ x. x.run_after) r rows)) ≡ (r.id == k || elem k (job_ids rows))
elem-insert_by k r [] = refl
elem-insert_by k r (x ∷ rows) = ground (arith, elem-insert_by k r rows)

elem-order_by :
    (k : String) (rows : List JobRow)
    → elem k (job_ids (order_by (λ r. r.run_after) rows)) ≡ elem k (job_ids rows)
elem-order_by k [] = refl
elem-order_by k (r ∷ rows) =
    elem-insert_by k r (order_by (λ x. x.run_after) rows)
    ∙ ap (λ b. r.id == k || b) (elem-order_by k rows)

-- No selected job has the id `k` if no job of that id passes the test.
elem-unselected :
    (k : String) (q : JobRow → Bool) (rows : List JobRow)
    → ((r : JobRow) → r.id ≡ k → q r ≡ false)
    → elem k (job_ids (select_where q rows)) ≡ false
elem-unselected k q [] h = refl
elem-unselected k q (r ∷ rows) h = elim (Bool-cases (q r)) [
  | inl t ↦ rw t (elim (Bool-cases (r.id == k)) [
    | inl s ↦ absurd (cc (h r ((string_keyed.same_iff r.id k).0 s), t))
    | inr s ↦ rw s (elem-unselected k q rows h)
  ])
  | inr t ↦ rw t (elem-unselected k q rows h)
]

-- The same after an UPDATE.
elem-unselected_updated :
    (k : String) (q p : JobRow → Bool) (f : JobRow → JobRow) (rows : List JobRow)
    → ((r : JobRow) → (f r).id ≡ r.id)
    → ((r : JobRow) → r.id ≡ k → q (if p r then f r else r) ≡ false)
    → elem k (job_ids (select_where q (update_where p f rows))) ≡ false
elem-unselected_updated k q p f [] same h = refl
elem-unselected_updated k q p f (r ∷ rows) same h =
    ground (
      arith,
      same r,
      h r,
      string_keyed.same_iff r.id k,
      elem-unselected_updated k q p f rows same h,
    )

-- Rows asked for by id: nothing comes of an id that was not asked for.
elem-picked :
    (k : String) (chosen : List String) (rows : List JobRow)
    → elem k chosen ≡ false
    → elem k (job_ids (select_where (λ r. elem r.id chosen) rows)) ≡ false
elem-picked k chosen rows h = elem-unselected k (λ r. elem r.id chosen) rows (λ r e. rw e h)

unclaimed :
    (k : String) (kinds : List String) (limit now : ℕ) (exclude only : List String)
    → (rows : List JobRow)
    → elem k (job_ids (select_where (wanted kinds now exclude only) rows)) ≡ false
    → elem k (claimed kinds limit now exclude only rows) ≡ false
unclaimed k kinds limit now exclude only rows h =
    elem-take k limit _ (elem-order_by k (select_where (wanted kinds now exclude only) rows) ∙ h)

-- A job that no wanted row has is not handed out.
unleased :
    (k : String) (kinds : List String) (limit now until : ℕ) (exclude only : List String)
    → (rows : List JobRow)
    → elem k (job_ids (select_where (wanted kinds now exclude only) rows)) ≡ false
    → elem k (leased_ids (lease_jobs kinds limit now until exclude only rows).0) ≡ false
unfolding lease_jobs
unleased k kinds limit now until exclude only rows h = elim (Bool-cases (null kinds)) [
  | inl empty ↦ rw empty refl
  | inr kinds_known ↦ rw kinds_known (
      ap (elem k) (ids-leased_job until _)
      ∙ elem-picked k _ rows (unclaimed k kinds limit now exclude only rows h))
]

-- What the caller excludes is not handed out.
pub lease_jobs-excluded :
    (k : String) (kinds : List String) (limit now until : ℕ) (exclude only : List String)
    → (rows : List JobRow) → elem k exclude ≡ true
    → elem k (leased_ids (lease_jobs kinds limit now until exclude only rows).0) ≡ false
lease_jobs-excluded k kinds limit now until exclude only rows x =
    unleased k kinds limit now until exclude only rows (
      elem-unselected k (wanted kinds now exclude only) rows
        (λ r e. let gone : elem r.id exclude ≡ true = rw e x in rw gone (ground arith)))

-- After a lease, a handed job fails every test that a fresh lease fails.
elem-unselected_leased :
    (k : String) (kinds : List String) (limit now until : ℕ) (exclude only : List String)
    → (rows : List JobRow) (q : JobRow → Bool) → ((r : JobRow) → q (mark_leased until r) ≡ false)
    → elem k (leased_ids (lease_jobs kinds limit now until exclude only rows).0) ≡ true
    → elem k (job_ids (select_where q (lease_jobs kinds limit now until exclude only rows).1))
      ≡ false
unfolding lease_jobs
elem-unselected_leased k kinds limit now until exclude only rows q h got =
    elim (Bool-cases (null kinds)) [
      | inl empty ↦ absurd (cc (rw empty at got))
      | inr known ↦ rw known (
          elem-unselected_updated k q (λ r. elem r.id chosen) (mark_leased until) rows (λ r. refl)
            (λ r e.
              let hit : elem r.id chosen ≡ true = rw e (asked (rw known at got)) in rw hit (h r)))
    ]
  where
    chosen : List String
    chosen = claimed kinds limit now exclude only rows

    asked :
        elem k (
            leased_ids (
              map leased_job (map (mark_leased until) (select_where (λ r. elem r.id chosen) rows))))
          ≡ true
        → elem k chosen ≡ true
    asked g = elim (Bool-cases (elem k chosen)) [
      | inl t ↦ t
      | inr f ↦ absurd (cc (ap (elem k) (ids-leased_job until _) ∙ elem-picked k chosen rows f, g))
    ]

-- Until a lease expires its jobs are handed to nobody else, whatever they ask for.
pub lease_jobs-exclusive :
    (k : String) (kinds : List String) (limit now until : ℕ) (exclude only : List String)
    → (rows : List JobRow)
    → (kinds' : List String) (limit' later until' : ℕ) (exclude' only' : List String)
    → later < until
    → let (got, table) = lease_jobs kinds limit now until exclude only rows in
      elem k (leased_ids got) ≡ true
      → elem k (leased_ids (lease_jobs kinds' limit' later until' exclude' only' table).0) ≡ false
lease_jobs-exclusive k kinds limit now until exclude only rows kinds' limit' later until' exclude'
      only' h got =
    unleased k kinds' limit' later until' exclude' only' _ (
      elem-unselected_leased k kinds limit now until exclude only rows
        (wanted kinds' later exclude' only') (λ r. ground arith) got)

-- At most `limit` jobs are handed out, and none twice.
pub length-lease_jobs :
    (kinds : List String) (limit now until : ℕ) (exclude only : List String) (rows : List JobRow)
    → IsWellFormed rows
    → length (lease_jobs kinds limit now until exclude only rows).0 ≤ limit
unfolding lease_jobs
length-lease_jobs kinds limit now until exclude only rows w = elim (Bool-cases (null kinds)) [
  | inl empty ↦ rw empty (omega arith)
  | inr known ↦ rw known (
      omega (
        arith,
        length-map leased_job (map (mark_leased until) picked),
        length-map (mark_leased until) picked,
        length-select_picked (λ (r : JobRow). r.id) chosen rows w.distinct,
        length-take-le limit (
            job_ids
              (order_by (λ r. r.run_after) (select_where (wanted kinds now exclude only) rows))),
      ))
]
  where
    chosen : List String
    chosen = claimed kinds limit now exclude only rows

    picked : List JobRow
    picked = select_where (λ r. elem r.id chosen) rows

pub lease_jobs-Distinct :
    (kinds : List String) (limit now until : ℕ) (exclude only : List String) (rows : List JobRow)
    → IsWellFormed rows
    → Distinct (leased_ids (lease_jobs kinds limit now until exclude only rows).0)
unfolding lease_jobs
lease_jobs-Distinct kinds limit now until exclude only rows w = elim (Bool-cases (null kinds)) [
  | inl empty ↦ rw empty tt
  | inr known ↦
      rw known (
        rw (ids-leased_job until _)
          (Distinct-select_where (λ (r : JobRow). r.id) _ rows w.distinct))
]
