-- ===== src/Tasks/Capped.antt =====
-- How tasks come and go under the cap `max_per_owner` of runner/tasks.py.
use siatt.Base.{
  ℕ, ◌+◌, ◌-◌, ◌≤◌, ◌<◌, String, ◌≡◌, refl, sym, ap, ◌∙◌, subst, ◌⊎◌, inl, inr, true, false, Option,
  none, some, List, [], ◌∷◌, arith, leb, if◌then◌else◌, Bool-cases, ◌==◌, nat_keyed, string_keyed,
  elem, Distinct, same_refl, Distinct-append, pair_keyed,
}
use mathlib.Core.List.{map-append}
use siatt.Sql.{update_where, count_where}
use siatt.Tasks.{
  active, paused, will_fire, Task, task_ids, get_task, count_owner_tasks, counts_for, create_task,
  set_task_state, moved,
}
use siatt.Tasks.Service.{
  Settings, TaskError, Schedule, Request, admit, admit_checked, admit_scheduled, insert_request,
  check_destination, validate, cancel, pause, resume, finish,
}
use siatt.Inbox.{InboxRow}
use siatt.Tasks.Handler.{Event, run}
use siatt.Tasks.Limit.{
  IsWithin, Of, count-append, set_task_state-IsWithin, finish-IsWithin, cancel-IsWithin,
}
use siatt.Tasks.Running.{run-IsWithin}

module _ (s : Settings) (parse : String → Option String → String ⊎ Schedule)
    (strip : String → String) (isoformat : ℕ → String) (dumps : String → String)
    (to_json : Event → String) (describe : TaskError → String) where
  abbrev pub Asked : Type 0
  Asked = Request s parse strip isoformat dumps

  admit-below :
      (now : ℕ) (r : Asked) (rows : List Task) (schedule : Schedule)
      → admit s parse strip isoformat dumps now r rows ≡ inr schedule
      → count_owner_tasks r.owner rows < s.max_per_owner
  unfolding admit
  admit-below now r rows schedule e = elim (Bool-cases (strip r.prompt == "")) [
    | inl empty ↦ absurd (cc (rw empty at e))
    | inr said ↦
        checked (check_destination s parse strip isoformat dumps r.destination r.surface r.channel)
          (rw said at e)
  ]
    where
      scheduled :
          (v : TaskError ⊎ Schedule)
          → admit_scheduled s parse strip isoformat dumps r v rows ≡ inr schedule
          → count_owner_tasks r.owner rows < s.max_per_owner
      scheduled (inl error) h = absurd (cc h)
      scheduled (inr found) h =
          elim (Bool-cases (leb s.max_per_owner (count_owner_tasks r.owner rows))) [
            | inl full ↦ absurd (cc (rw full at h))
            | inr room ↦ ground arith
          ]

      checked :
          (c : TaskError ⊎ Unit {0})
          → admit_checked s parse strip isoformat dumps now r c rows ≡ inr schedule
          → count_owner_tasks r.owner rows < s.max_per_owner
      checked (inl error) h = absurd (cc h)
      checked (inr _) h = scheduled (validate s parse strip isoformat dumps now r.cron r.timezone) h

  -- A creation between its count and its insertion.
  pub record Admitted : Type 0 where
    pub request : Asked
    pub schedule : Schedule

  -- The creations of an owner that are between the two.
  abbrev pub waiting : String → List Admitted → ℕ
  waiting owner [] = 0
  waiting owner (a ∷ under) = (if a.request.owner == owner then 1 else 0) + waiting owner under

  pub data Picks (a : Admitted) : List Admitted → List Admitted → Type 0 where
    here : {under : List Admitted} → Picks a (a ∷ under) under
    there :
        {b : Admitted} {under bs : List Admitted} → Picks a under bs → Picks a (b ∷ under) (b ∷ bs)

  waiting-Picks :
      {a : Admitted} {under bs : List Admitted} (owner : String)
      → Picks a under bs
      → waiting owner under ≡ (if a.request.owner == owner then 1 else 0) + waiting owner bs
  waiting-Picks owner here = refl
  waiting-Picks {a} owner (there {b} {under} {bs} p) =
      let rest = waiting-Picks owner p in
      let one = if a.request.owner == owner then 1 else 0 in
      let other = if b.request.owner == owner then 1 else 0 in
      let swap : other + (one + waiting owner bs) ≡ one + (other + waiting owner bs) =
        omega arith in
      ap (λ n. other + n) rest ∙ swap

  -- What changes the tasks table and the creations under way: a creation counts, where no other of
  -- its owner is under way, and inserts under a new id at any later step; a run, and the changes of
  -- state, where a task that is done is neither paused nor resumed, are one step each.
  pub data Step (rows : List Task) (under : List Admitted)
      : List Task → List Admitted → Type 0 where
    admits :
        (now : ℕ) (r : Asked) (schedule : Schedule)
        → waiting r.owner under ≡ 0
        → admit s parse strip isoformat dumps now r rows ≡ inr schedule
        → Step rows under rows (record { request = r; schedule = schedule } ∷ under)
    inserts :
        (now : ℕ) (id : String) (a : Admitted) (bs : List Admitted)
        → Picks a under bs
        → elem id (task_ids rows) ≡ false
        → Step rows under
            (insert_request s parse strip isoformat dumps now id a.request a.schedule rows)
            bs
    runs :
        (now attempts : ℕ) (job_id : String) (task_id : Option String) (inbox : List InboxRow)
        → Step rows under
            (run s to_json describe now job_id attempts task_id
              (record { tasks = rows; inbox = inbox })).1.tasks
            under
    finishes : (id : String) → Step rows under (finish id rows).1 under
    cancels : (id : String) → Step rows under (cancel id rows).1 under
    pauses :
        (id : String) (reason : Option String)
        → Of id (λ t. will_fire t.state ≡ true) rows
        → Step rows under (pause id reason rows).1 under
    resumes :
        (id : String)
        → Of id (λ t. will_fire t.state ≡ true) rows
        → Step rows under (resume id rows).1 under

  pub data Reach : List Task → List Admitted → Type 0 where
    start : Reach [] []
    steps :
        {rows rows' : List Task} {under under' : List Admitted}
        → Reach rows under
        → Step rows under rows' under'
        → Reach rows' under'

  firing-Of :
      (id : String) (f : Task → Task) (rows : List Task)
      → Of id (λ t. will_fire t.state ≡ true) rows
      → Of id (λ t. will_fire (f t).state ≡ true → will_fire t.state ≡ true) rows
  firing-Of id f [] h = tt
  firing-Of id f (t ∷ rows) h = (λ e _. h.0 e, firing-Of id f rows h.1)

  -- What is left of each owner's cap beside the creations under way.
  abbrev spare : List Admitted → String → ℕ
  spare under owner = s.max_per_owner - waiting owner under

  record Holds (rows : List Task) (under : List Admitted) : Type 0 where
    within : IsWithin (spare under) rows
    few : (owner : String) → waiting owner under ≤ s.max_per_owner

  admits-Holds :
      (now : ℕ) (r : Asked) (schedule : Schedule) (rows : List Task) (under : List Admitted)
      → waiting r.owner under ≡ 0
      → admit s parse strip isoformat dumps now r rows ≡ inr schedule
      → Holds rows under
      → Holds rows (record { request = r; schedule = schedule } ∷ under)
  admits-Holds now r schedule rows under alone e h =
      let own : (owner : String)
          → (r.owner == owner) ≡ true
          → (count_owner_tasks owner rows < s.max_per_owner) × (waiting owner under ≡ 0) =
        λ owner same.
          subst (λ o. (count_owner_tasks o rows < s.max_per_owner) × (waiting o under ≡ 0))
            ((string_keyed.same_iff r.owner owner).0 same)
            (admit-below now r rows schedule e, alone) in
      record {
        within = record {
          distinct = h.within.distinct;
          capped = λ owner. elim (Bool-cases (r.owner == owner)) [
            | inl same ↦ rw same (omega (arith, (own owner same).0, (own owner same).1))
            | inr other ↦ rw other (omega (arith, h.within.capped owner))
          ];
        };
        few = λ owner. elim (Bool-cases (r.owner == owner)) [
          | inl same ↦ rw same (omega (arith, (own owner same).0, (own owner same).1))
          | inr other ↦ rw other (omega (arith, h.few owner))
        ];
      }

  inserts-Holds :
      (now : ℕ) (id : String) (a : Admitted) (rows : List Task) (under bs : List Admitted)
      → Picks a under bs
      → elem id (task_ids rows) ≡ false
      → Holds rows under
      → Holds (insert_request s parse strip isoformat dumps now id a.request a.schedule rows) bs
  unfolding create_task count_owner_tasks
  inserts-Holds now id a rows under bs p fresh h = record {
    within = record {
      distinct =
          rw (map-append (λ (t : Task). t.id) rows _)
            (Distinct-append id (task_ids rows) h.within.distinct fresh);
      capped = λ owner. elim (Bool-cases (a.request.owner == owner)) [
        | inl same ↦ rw (count-append owner rows _) (
            rw same (
              omega
                (arith, h.within.capped owner, h.few owner, rw same at (waiting-Picks owner p))))
        | inr other ↦
            rw (count-append owner rows _)
              (rw other (omega (arith, h.within.capped owner, rw other at (waiting-Picks owner p))))
      ];
    };
    few = λ owner. omega (arith, h.few owner, waiting-Picks owner p);
  }

  Step-Holds :
      {rows rows' : List Task} {under under' : List Admitted}
      → Step rows under rows' under'
      → Holds rows under
      → Holds rows' under'
  Step-Holds {rows} {under = under} (admits now r schedule alone e) h =
      admits-Holds now r schedule rows under alone e h
  Step-Holds {rows} {under = under} (inserts now id a bs p fresh) h =
      inserts-Holds now id a rows under bs p fresh h
  Step-Holds {rows} {under = under} (runs now attempts job_id task_id inbox) h = record {
    within =
        run-IsWithin (spare under) s to_json describe now attempts job_id task_id
          (record { tasks = rows; inbox = inbox }) h.within;
    few = h.few;
  }
  Step-Holds {rows} {under = under} (finishes id) h = record {
    within = finish-IsWithin (spare under) id rows h.within;
    few = h.few;
  }
  Step-Holds {rows} {under = under} (cancels id) h = record {
    within = cancel-IsWithin (spare under) id rows h.within;
    few = h.few;
  }
  Step-Holds {rows} {under = under} (pauses id reason o) h = record {
    within =
        set_task_state-IsWithin (spare under) id paused reason rows
          (firing-Of id (moved paused reason) rows o) h.within;
    few = h.few;
  }
  Step-Holds {rows} {under = under} (resumes id o) h = record {
    within =
        set_task_state-IsWithin (spare under) id active none rows
          (firing-Of id (moved active none) rows o) h.within;
    few = h.few;
  }

  Reach-Holds : {rows : List Task} {under : List Admitted} → Reach rows under → Holds rows under
  unfolding count_owner_tasks
  Reach-Holds start = record {
    within = record { distinct = tt; capped = λ owner. omega arith };
    few = λ owner. omega arith;
  }
  Reach-Holds (steps r st) = Step-Holds st (Reach-Holds r)

  -- However tasks are created, run, paused, resumed, finished and cancelled, with anything between
  -- the count and the insertion of a creation, their ids stay unique and no owner has more of them
  -- that may still fire than the cap, as long as no owner has two creations between count and
  -- insertion at once and no task that is done is paused or resumed. A run is one step.
  pub Reach-IsWithin :
      {rows : List Task} {under : List Admitted}
      → Reach rows under
      → IsWithin (λ owner. s.max_per_owner) rows
  Reach-IsWithin r =
      let h = Reach-Holds r in
      record {
        distinct = h.within.distinct;
        capped = λ owner. omega (arith, h.within.capped owner);
      }

update_where-absent :
    (id : String) (f : Task → Task) (rows : List Task)
    → elem id (task_ids rows) ≡ false
    → update_where (λ t. t.id == id) f rows ≡ rows
update_where-absent id f [] h = refl
update_where-absent id f (t ∷ rows) h = elim (Bool-cases (t.id == id)) [
  | inl e ↦ absurd (ground arith)
  | inr e ↦ rw e (ap (◌∷◌ t) (update_where-absent id f rows (rw e at h)))
]

-- Resuming a task that is done takes one more place of its owner's, and no limit is asked.
pub resume-takes_place :
    (id : String) (t : Task) (rows : List Task)
    → Distinct (task_ids rows)
    → get_task id rows ≡ some t
    → will_fire t.state ≡ false
    → count_owner_tasks t.owner (resume id rows).1 ≡ count_owner_tasks t.owner rows + 1
unfolding count_owner_tasks set_task_state
resume-takes_place id t [] d e h = absurd (cc e)
resume-takes_place id t (r ∷ rows) d e h = elim (Bool-cases (r.id == id)) [
  | inl q ↦
      let same : t ≡ r = cc (rw q at e) in
      let rest : update_where (λ u. u.id == id) (moved active none) rows ≡ rows =
        update_where-absent id (moved active none) rows
          (subst (λ k. elem k (task_ids rows) ≡ false) ((string_keyed.same_iff r.id id).0 q) d.0) in
      let off : will_fire r.state ≡ false =
        subst (λ (u : Task). will_fire u.state ≡ false) same h in
      subst
        (λ (u : Task).
          count_where (counts_for u.owner)
            (update_where (λ u. u.id == id) (moved active none) (r ∷ rows))
          ≡ count_where (counts_for u.owner) (r ∷ rows) + 1)
        (sym same) (rw (q, rest, off, same_refl r.owner) (omega arith))
  | inr q ↦ ground (arith, q, resume-takes_place id t rows d.1 (rw q at e) h)
]
