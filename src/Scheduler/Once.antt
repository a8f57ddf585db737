-- ===== src/Scheduler/Once.antt =====
-- That the ticks of the scheduler clock, `schedule_due` of runner/scheduler.py, queue each
-- occurrence once.
use siatt.Base.{
  ℕ, String, ◌≡◌, refl, sym, ◌∙◌, subst, Option, none, some, List, [], ◌∷◌, nat_keyed, string_keyed,
  pair_keyed, Every,
}
use siatt.Jobs.{JobRow}
use siatt.Scheduler.{
  JobSpec, Occurrence, Clock, Scheduler, spec_kinds, Tick, schedule_specs, schedule_clock,
  schedule_clocks, schedule_due,
}
use siatt.Scheduler.Enqueued.{Present}
use siatt.Scheduler.Present.{
  DueAll, NamesAll, DueCron-kept, Quiet, specs-DueSpec, specs-Quiet, clock-kept, clock-DueAll,
  clock-Quiet,
}

module _ (isoformat : ℕ → String) where
  abbrev pub DueClock : ℕ → List String → List JobRow → Clock → Type 0
  DueClock moment kinds rows clock = DueAll isoformat kinds rows (clock moment)

  Every-mono :
      {A : Type 0} {P Q : A → Type 0}
      → ((a : A) → P a → Q a)
      → (xs : List A) → Every P xs
      → Every Q xs
  Every-mono f [] h = tt
  Every-mono f (x ∷ xs) h = (f x h.0, Every-mono f xs h.1)

  DueAll-kept :
      (kinds : List String) (rows later : List JobRow) (answer : Option (List Occurrence))
      → ((k : String) → Present k rows → Present k later)
      → DueAll isoformat kinds rows answer
      → DueAll isoformat kinds later answer
  DueAll-kept kinds rows later none keep due = tt
  DueAll-kept kinds rows later (some os) keep due =
      Every-mono (λ o h known. keep o.job_id (h known)) os due

  module _ (now : ℕ) (fresh : String) (moment : ℕ) (kinds : List String) where
    clocks-kept :
        (k : String) (clocks : List Clock) (t : Tick isoformat)
        → Present k t.table
        → Present k (schedule_clocks isoformat now fresh moment kinds clocks t).table
    clocks-kept k [] t there = there
    clocks-kept k (c ∷ clocks) t there =
        clocks-kept k clocks _ (clock-kept isoformat now fresh kinds k (c moment) t there)

    clocks-DueClock :
        (clocks : List Clock) (t : Tick isoformat)
        → Every (λ (c : Clock). NamesAll isoformat (c moment)) clocks
        → Every
            (DueClock moment kinds
              (schedule_clocks isoformat now fresh moment kinds clocks t).table)
            clocks
    clocks-DueClock [] t named = tt
    clocks-DueClock (c ∷ clocks) t named = (
      DueAll-kept kinds _ _ (c moment) (λ k. clocks-kept k clocks _)
          (clock-DueAll isoformat now fresh kinds (c moment) t named.0),
      clocks-DueClock clocks _ named.1,
    )

    clocks-Quiet :
        (clocks : List Clock) (t : Tick isoformat)
        → Every (λ (c : Clock). NamesAll isoformat (c moment)) clocks
        → Every (DueClock moment kinds t.table) clocks
        → Quiet isoformat t (schedule_clocks isoformat now fresh moment kinds clocks t)
    clocks-Quiet [] t named due = (refl, refl)
    clocks-Quiet (c ∷ clocks) t named due =
        let one = clock-Quiet isoformat now fresh kinds (c moment) t named.0 due.0 in
        let rest =
          clocks-Quiet clocks (schedule_clock isoformat now fresh kinds (c moment) t) named.1
            (subst (λ rows. Every (DueClock moment kinds rows) clocks) (sym one.1) due.1) in
        (rest.0 ∙ one.0, rest.1 ∙ one.1)

  -- Once a tick has run for a moment, a further tick for the same moment, by this scheduler and on
  -- any table that still has the jobs of the one that the first tick left, whatever became of them,
  -- queues nothing and leaves the table as it is, where each clock answers the same for the same
  -- moment and gives no occurrence an empty id.
  pub schedule_due-once :
      (now later moment : ℕ) (fresh again : String) (s : Scheduler) (rows after : List JobRow)
      → Every (λ (c : Clock). NamesAll isoformat (c moment)) s.clocks
      → ((k : String)
          → Present k (schedule_due isoformat now fresh moment s rows).2
          → Present k after)
      → let (queued, s', table) = schedule_due isoformat now fresh moment s rows in
        ((schedule_due isoformat later again moment s' after).0 ≡ [])
        × ((schedule_due isoformat later again moment s' after).2 ≡ after)
  unfolding schedule_due
  schedule_due-once now later moment fresh again s rows after named keep =
      let kinds = spec_kinds s.specs in
      let first =
        schedule_specs isoformat now fresh moment s.specs
          (record { queued = []; failures = s.failures; table = rows }) in
      let done = schedule_clocks isoformat now fresh moment kinds s.clocks first in
      let start : Tick isoformat = record {
        queued = [];
        failures = done.failures;
        table = after;
      } in
      let specs_due =
        Every-mono
          (λ (p : JobSpec) h.
            DueCron-kept isoformat first.table after moment p.kind p.cron
              (λ k there. keep k (clocks-kept now fresh moment kinds k s.clocks first there)) h)
          s.specs
          (specs-DueSpec isoformat now fresh moment s.specs
            (record { queued = []; failures = s.failures; table = rows })) in
      let clocks_due =
        Every-mono (λ (c : Clock) h. DueAll-kept kinds done.table after (c moment) keep h) s.clocks
          (clocks-DueClock now fresh moment kinds s.clocks first named) in
      let one = specs-Quiet isoformat later again moment s.specs start specs_due in
      let two =
        clocks-Quiet later again moment kinds s.clocks
          (schedule_specs isoformat later again moment s.specs start) named
          (subst (λ (rs : List JobRow). Every (DueClock moment kinds rs) s.clocks) (sym one.1)
            clocks_due) in
      (two.0 ∙ one.0, two.1 ∙ one.1)
