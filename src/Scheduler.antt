-- ===== src/Scheduler.antt =====
-- The class `Scheduler` of runner/scheduler.py: what may run, and the queueing of what is due. Its
-- draining is Drain. Cron expressions and other clocks are parameters; a store that raises is not
-- modelled.
pub mod Enqueued
pub mod Present
pub mod Once
mod Tests
use Prim.Native.String.{◌++◌ as cat}
use siatt.Base.{
  ℕ, ◌+◌, String, ◌⊎◌, inl, inr, Option, none, some, List, [], ◌∷◌, ◌++◌, map, if◌then◌else◌, ◌==◌,
  nat_keyed, string_keyed, elem, pair_keyed,
}
use siatt.Jobs.{JobRow}
use siatt.Jobs.Queue.{Queued, accept, enqueue}

-- A recurring job's clock: the next firing after an instant, nothing where it raises.
abbrev pub NextAfter : Type 0
NextAfter = ℕ → Option ℕ

pub record JobSpec : Type 0 where
  pub kind : String
  pub cron : Option NextAfter

pub record Occurrence : Type 0 where
  pub job_id : String
  pub kind : String
  pub fire_at : ℕ
  pub payload : Option String

-- A clock answers the occurrences after an instant, or raises. The one of the source reads a table
-- that may change between two ticks; here a clock is one table's answers, so that every tick of a
-- scheduler sees the same.
abbrev pub Clock : Type 0
Clock = ℕ → Option (List Occurrence)

pub record Scheduler : Type 0 where
  -- The dict of specs, in the order of registration.
  pub specs : List JobSpec
  pub failures : List (String × ℕ)
  pub clocks : List Clock
  -- The kinds that the queue accepts.
  pub accepted : List String

abbrev pub spec_kinds : List JobSpec → List String
spec_kinds = map (λ s. s.kind)

-- `self._specs[spec.kind] = spec`
abbrev pub set_spec : JobSpec → List JobSpec → List JobSpec
set_spec spec [] = spec ∷ []
set_spec spec (s ∷ specs) = if s.kind == spec.kind then spec ∷ specs else s ∷ set_spec spec specs

unfoldable pub register : JobSpec → Scheduler → Scheduler
register spec s = record s { specs = set_spec spec s.specs; accepted = accept spec.kind s.accepted }

-- `__init__`
abbrev pub register_all : List JobSpec → Scheduler → Scheduler
register_all [] s = s
register_all (spec ∷ specs) s = register_all specs (register spec s)

unfoldable pub new_scheduler : List JobSpec → List Clock → Scheduler
new_scheduler specs clocks =
    register_all specs (record { specs = []; failures = []; clocks = clocks; accepted = [] })

-- `_schedule_failures.get(kind, 0) + 1`, and `pop`.
abbrev pub count_failure : String → List (String × ℕ) → List (String × ℕ)
count_failure kind [] = (kind, 1) ∷ []
count_failure kind ((k, n) ∷ rest) =
    if k == kind then (k, n + 1) ∷ rest else (k, n) ∷ count_failure kind rest

abbrev pub clear_failures : String → List (String × ℕ) → List (String × ℕ)
clear_failures kind [] = []
clear_failures kind ((k, n) ∷ rest) = if k == kind then rest else (k, n) ∷ clear_failures kind rest

module _ (isoformat : ℕ → String) where
  -- The id of one occurrence, from when it fires; `isoformat` gives the minute as a text.
  abbrev pub scheduled_id : String → ℕ → String
  scheduled_id kind fire_at = cat kind (cat "@" (isoformat fire_at))

  -- The ids that a tick queued, the failures, and the table of jobs.
  pub record Tick : Type 0 where
    pub queued : List String
    pub failures : List (String × ℕ)
    pub table : List JobRow

  -- `if not result.duplicate: queued.append(result.id)`
  abbrev pub note : Queued × List JobRow → Tick → Tick
  note (result, table) t = record t {
    queued = if result.duplicate then t.queued else t.queued ++ result.id ∷ [];
    table = table;
  }

  abbrev pub queue_scheduled : ℕ → String → String → ℕ → Tick → Tick
  queue_scheduled now fresh kind fire_at t =
      note (enqueue now fresh kind none (some fire_at) (some (scheduled_id kind fire_at)) t.table)
        (record t { failures = clear_failures kind t.failures })

  abbrev pub schedule_at : ℕ → String → String → Option ℕ → Tick → Tick
  schedule_at now fresh kind none t = record t { failures = count_failure kind t.failures }
  schedule_at now fresh kind (some fire_at) t = queue_scheduled now fresh kind fire_at t

  -- One spec of the loop of `schedule_due`, at `moment`.
  abbrev pub schedule_cron : ℕ → String → ℕ → String → Option NextAfter → Tick → Tick
  schedule_cron now fresh moment kind none t = t
  schedule_cron now fresh moment kind (some next_after) t =
      schedule_at now fresh kind (next_after moment) t

  abbrev pub schedule_spec : ℕ → String → ℕ → JobSpec → Tick → Tick
  schedule_spec now fresh moment spec t = schedule_cron now fresh moment spec.kind spec.cron t

  abbrev pub schedule_specs : ℕ → String → ℕ → List JobSpec → Tick → Tick
  schedule_specs now fresh moment [] t = t
  schedule_specs now fresh moment (spec ∷ specs) t =
      schedule_specs now fresh moment specs (schedule_spec now fresh moment spec t)

  -- An occurrence of a kind that nothing here runs is passed over.
  abbrev pub schedule_occurrence : ℕ → String → List String → Occurrence → Tick → Tick
  schedule_occurrence now fresh kinds o t =
      if elem o.kind kinds
      then note (enqueue now fresh o.kind o.payload (some o.fire_at) (some o.job_id) t.table) t
      else t

  abbrev pub schedule_occurrences : ℕ → String → List String → List Occurrence → Tick → Tick
  schedule_occurrences now fresh kinds [] t = t
  schedule_occurrences now fresh kinds (o ∷ os) t =
      schedule_occurrences now fresh kinds os (schedule_occurrence now fresh kinds o t)

  -- A clock that raises is one tick lost.
  abbrev pub schedule_clock : ℕ → String → List String → Option (List Occurrence) → Tick → Tick
  schedule_clock now fresh kinds none t = t
  schedule_clock now fresh kinds (some os) t = schedule_occurrences now fresh kinds os t

  abbrev pub schedule_clocks : ℕ → String → ℕ → List String → List Clock → Tick → Tick
  schedule_clocks now fresh moment kinds [] t = t
  schedule_clocks now fresh moment kinds (clock ∷ clocks) t =
      schedule_clocks now fresh moment kinds clocks
        (schedule_clock now fresh kinds (clock moment) t)

  unfoldable pub schedule_due :
      ℕ → String → ℕ → Scheduler → List JobRow → List String × Scheduler × List JobRow
  schedule_due now fresh moment s rows =
      let t = schedule_clocks now fresh moment (spec_kinds s.specs) s.clocks (
        schedule_specs now fresh moment s.specs
          (record { queued = []; failures = s.failures; table = rows })) in
      (t.queued, record s { failures = t.failures }, t.table)

-- `trigger` raises UnknownJob, the left side with the kind, where nothing runs the kind.
unfoldable pub trigger :
    ℕ → String → String → Option String → Scheduler → List JobRow → String ⊎ (String × List JobRow)
trigger now fresh kind payload s rows =
    if elem kind (spec_kinds s.specs)
    then (let (result, table) = enqueue now fresh kind payload none none rows in
        inr (result.id, table))
    else inl kind
