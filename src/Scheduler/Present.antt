-- ===== src/Scheduler/Present.antt =====
-- How one spec or one clock of `schedule_due`, in runner/scheduler.py, changes the jobs table: it
-- puts in what is due, and changes nothing where that is there already.
use siatt.Base.{
  ℕ, String, ◌≡◌, refl, sym, ◌∙◌, subst, inl, inr, true, Option, none, some, List, [], ◌∷◌,
  Bool-cases, nat_keyed, string_keyed, elem, pair_keyed, Every,
}
use siatt.Jobs.{JobRow}
use siatt.Jobs.Queue.{enqueue}
use siatt.Scheduler.{
  NextAfter, JobSpec, Occurrence, scheduled_id, Tick, note, schedule_at, schedule_cron,
  schedule_spec, schedule_specs, schedule_occurrence, schedule_occurrences, schedule_clock,
  clear_failures,
}
use siatt.Scheduler.Enqueued.{
  Present, IsNamed, enqueue-again, enqueue-Present, enqueue-kept, scheduled_id-IsNamed,
}

module _ (isoformat : ℕ → String) where
  -- What is due at `moment` is in the table.
  abbrev pub DueAt : List JobRow → String → Option ℕ → Type 0
  DueAt rows kind none = Unit
  DueAt rows kind (some fire_at) = Present (scheduled_id isoformat kind fire_at) rows

  abbrev pub DueCron : List JobRow → ℕ → String → Option NextAfter → Type 0
  DueCron rows moment kind none = Unit
  DueCron rows moment kind (some next_after) = DueAt rows kind (next_after moment)

  abbrev pub DueSpec : ℕ → List JobRow → JobSpec → Type 0
  DueSpec moment rows spec = DueCron rows moment spec.kind spec.cron

  abbrev pub DueHere : List String → List JobRow → Occurrence → Type 0
  DueHere kinds rows o = elem o.kind kinds ≡ true → Present o.job_id rows

  abbrev pub DueAll : List String → List JobRow → Option (List Occurrence) → Type 0
  DueAll kinds rows none = Unit
  DueAll kinds rows (some os) = Every (DueHere kinds rows) os

  -- A clock whose occurrences have ids.
  abbrev pub NamesAll : Option (List Occurrence) → Type 0
  NamesAll none = Unit
  NamesAll (some os) = Every (λ o. IsNamed o.job_id) os

  pub DueCron-kept :
      (rows later : List JobRow) (moment : ℕ) (kind : String) (cron : Option NextAfter)
      → ((k : String) → Present k rows → Present k later)
      → DueCron rows moment kind cron
      → DueCron later moment kind cron
  DueCron-kept rows later moment kind none keep due = tt
  DueCron-kept rows later moment kind (some next_after) keep due = at (next_after moment) due
    where
      at : (o : Option ℕ) → DueAt rows kind o → DueAt later kind o
      at none there = tt
      at (some fire_at) there = keep (scheduled_id isoformat kind fire_at) there

  -- A tick that changed neither what is queued nor the table.
  abbrev pub Quiet : Tick isoformat → Tick isoformat → Type 0
  Quiet t u = (u.queued ≡ t.queued) × (u.table ≡ t.table)

  module _ (now : ℕ) (fresh : String) where
    cron-kept :
        (moment : ℕ) (k kind : String) (cron : Option NextAfter) (t : Tick isoformat)
        → Present k t.table
        → Present k (schedule_cron isoformat now fresh moment kind cron t).table
    cron-kept moment k kind none t there = there
    cron-kept moment k kind (some next_after) t there = at (next_after moment)
      where
        at : (o : Option ℕ) → Present k (schedule_at isoformat now fresh kind o t).table
        at none = there
        at (some fire_at) =
            enqueue-kept now fresh kind none fire_at (scheduled_id isoformat kind fire_at) k t.table
              there

    cron-DueCron :
        (moment : ℕ) (kind : String) (cron : Option NextAfter) (t : Tick isoformat)
        → DueCron (schedule_cron isoformat now fresh moment kind cron t).table moment kind cron
    cron-DueCron moment kind none t = tt
    cron-DueCron moment kind (some next_after) t = at (next_after moment)
      where
        at : (o : Option ℕ) → DueAt (schedule_at isoformat now fresh kind o t).table kind o
        at none = tt
        at (some fire_at) =
            enqueue-Present now fresh kind none fire_at (scheduled_id isoformat kind fire_at)
              t.table (scheduled_id-IsNamed isoformat kind fire_at)

    note-again :
        (kind : String) (payload : Option String) (due : ℕ) (id : String) (t u : Tick isoformat)
        → IsNamed id
        → Present id t.table
        → u.queued ≡ t.queued
        → Quiet t (note isoformat (enqueue now fresh kind payload (some due) (some id) t.table) u)
    note-again kind payload due id t u named there same =
        rw (enqueue-again now fresh kind payload due id t.table named there) (same, refl)

    cron-Quiet :
        (moment : ℕ) (kind : String) (cron : Option NextAfter) (t : Tick isoformat)
        → DueCron t.table moment kind cron
        → Quiet t (schedule_cron isoformat now fresh moment kind cron t)
    cron-Quiet moment kind none t due = (refl, refl)
    cron-Quiet moment kind (some next_after) t due = at (next_after moment) due
      where
        at :
            (o : Option ℕ)
            → DueAt t.table kind o
            → Quiet t (schedule_at isoformat now fresh kind o t)
        at none there = (refl, refl)
        at (some fire_at) there =
            note-again kind none fire_at (scheduled_id isoformat kind fire_at) t
              (record t { failures = clear_failures kind t.failures })
              (scheduled_id-IsNamed isoformat kind fire_at) there refl

    pub specs-kept :
        (moment : ℕ) (k : String) (specs : List JobSpec) (t : Tick isoformat)
        → Present k t.table
        → Present k (schedule_specs isoformat now fresh moment specs t).table
    specs-kept moment k [] t there = there
    specs-kept moment k (s ∷ specs) t there =
        specs-kept moment k specs _ (cron-kept moment k s.kind s.cron t there)

    pub specs-DueSpec :
        (moment : ℕ) (specs : List JobSpec) (t : Tick isoformat)
        → Every (DueSpec moment (schedule_specs isoformat now fresh moment specs t).table) specs
    specs-DueSpec moment [] t = tt
    specs-DueSpec moment (s ∷ specs) t = (
      DueCron-kept _ _ moment s.kind s.cron (λ k. specs-kept moment k specs _)
          (cron-DueCron moment s.kind s.cron t),
      specs-DueSpec moment specs _,
    )

    pub specs-Quiet :
        (moment : ℕ) (specs : List JobSpec) (t : Tick isoformat)
        → Every (DueSpec moment t.table) specs
        → Quiet t (schedule_specs isoformat now fresh moment specs t)
    specs-Quiet moment [] t due = (refl, refl)
    specs-Quiet moment (s ∷ specs) t due =
        let one = cron-Quiet moment s.kind s.cron t due.0 in
        let rest =
          specs-Quiet moment specs (schedule_spec isoformat now fresh moment s t)
            (subst (λ rows. Every (DueSpec moment rows) specs) (sym one.1) due.1) in
        (rest.0 ∙ one.0, rest.1 ∙ one.1)

    module _ (kinds : List String) where
      occurrence-kept :
          (k : String) (o : Occurrence) (t : Tick isoformat)
          → Present k t.table
          → Present k (schedule_occurrence isoformat now fresh kinds o t).table
      occurrence-kept k o t there = elim (Bool-cases (elem o.kind kinds)) [
        | inl known ↦
            rw known (enqueue-kept now fresh o.kind o.payload o.fire_at o.job_id k t.table there)
        | inr unknown ↦ rw unknown there
      ]

      occurrence-DueHere :
          (o : Occurrence) (t : Tick isoformat)
          → IsNamed o.job_id
          → DueHere kinds (schedule_occurrence isoformat now fresh kinds o t).table o
      occurrence-DueHere o t named known =
          rw known (enqueue-Present now fresh o.kind o.payload o.fire_at o.job_id t.table named)

      occurrence-Quiet :
          (o : Occurrence) (t : Tick isoformat)
          → IsNamed o.job_id
          → DueHere kinds t.table o
          → Quiet t (schedule_occurrence isoformat now fresh kinds o t)
      occurrence-Quiet o t named due = elim (Bool-cases (elem o.kind kinds)) [
        | inl known ↦
            rw known (note-again o.kind o.payload o.fire_at o.job_id t t named (due known) refl)
        | inr unknown ↦ rw unknown (refl, refl)
      ]

      occurrences-kept :
          (k : String) (os : List Occurrence) (t : Tick isoformat)
          → Present k t.table
          → Present k (schedule_occurrences isoformat now fresh kinds os t).table
      occurrences-kept k [] t there = there
      occurrences-kept k (o ∷ os) t there = occurrences-kept k os _ (occurrence-kept k o t there)

      occurrences-DueHere :
          (os : List Occurrence) (t : Tick isoformat)
          → Every (λ o. IsNamed o.job_id) os
          → Every (DueHere kinds (schedule_occurrences isoformat now fresh kinds os t).table) os
      occurrences-DueHere [] t named = tt
      occurrences-DueHere (o ∷ os) t named = (
        λ known. occurrences-kept o.job_id os _ (occurrence-DueHere o t named.0 known),
        occurrences-DueHere os _ named.1,
      )

      occurrences-Quiet :
          (os : List Occurrence) (t : Tick isoformat)
          → Every (λ o. IsNamed o.job_id) os
          → Every (DueHere kinds t.table) os
          → Quiet t (schedule_occurrences isoformat now fresh kinds os t)
      occurrences-Quiet [] t named due = (refl, refl)
      occurrences-Quiet (o ∷ os) t named due =
          let one = occurrence-Quiet o t named.0 due.0 in
          let rest =
            occurrences-Quiet os (schedule_occurrence isoformat now fresh kinds o t) named.1
              (subst (λ rows. Every (DueHere kinds rows) os) (sym one.1) due.1) in
          (rest.0 ∙ one.0, rest.1 ∙ one.1)

      pub clock-kept :
          (k : String) (answer : Option (List Occurrence)) (t : Tick isoformat)
          → Present k t.table
          → Present k (schedule_clock isoformat now fresh kinds answer t).table
      clock-kept k none t there = there
      clock-kept k (some os) t there = occurrences-kept k os t there

      pub clock-DueAll :
          (answer : Option (List Occurrence)) (t : Tick isoformat)
          → NamesAll answer
          → DueAll kinds (schedule_clock isoformat now fresh kinds answer t).table answer
      clock-DueAll none t named = tt
      clock-DueAll (some os) t named = occurrences-DueHere os t named

      pub clock-Quiet :
          (answer : Option (List Occurrence)) (t : Tick isoformat)
          → NamesAll answer
          → DueAll kinds t.table answer
          → Quiet t (schedule_clock isoformat now fresh kinds answer t)
      clock-Quiet none t named due = (refl, refl)
      clock-Quiet (some os) t named due = occurrences-Quiet os t named due
