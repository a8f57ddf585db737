-- ===== src/Tasks/Runs.antt =====
-- What a run of a standing task does: `task_handler` of runner/tasks.py.
use siatt.Base.{
  ℕ, ◌+◌, ◌≤◌, ◌<◌, String, ◌≡◌, refl, sym, ap, ◌∙◌, subst, ◌⊎◌, inl, inr, Bool, true, not, ◌&&◌,
  Option, none, some, List, [], ◌∷◌, arith, ltb, leb, if◌then◌else◌, Bool-cases, ◌==◌, nat_keyed,
  string_keyed, pair_keyed, Every,
}
use mathlib.Core.Option
use siatt.Sql.{update_where}
use siatt.Inbox.{InboxRow, InboxOp, find_event, enqueue_inbox, run as run_inbox}
use siatt.Inbox.Queue.{enqueue}
use siatt.Inbox.Dedupe.{Spares, redelivery-is_duplicate}
use siatt.Tasks.{
  TaskState, active, paused, done, is_active, Task, get_task, record_task_failure, set_task_state,
  failed_run, moved,
}
use siatt.Tasks.Service.{
  Settings, TaskError, no_channel, unknown_destination, Delivery, delivery, delivery_to, in_channel,
  here, lookup,
}
use siatt.Tasks.Handler.{
  Event, Tables, Ended, raised, event_of, blame, after_delivery, run_found, id_or_empty, run,
}

-- Where a firing may be answered: where the task was created, or in a channel that the
-- configuration names.
abbrev pub IsAllowed : Task → List (String × String) → Option String → Type 0
IsAllowed t destinations channel =
    (channel ≡ t.channel)
    ⊎ ((name : String) × (t.destination ≡ some name) × (lookup name destinations ≡ channel))

in_channel-is_own :
    (t : Task) (job_id : String) (error : TaskError) (channel : Option String) (d : Delivery)
    → in_channel t job_id error channel ≡ inr d
    → d.channel ≡ channel
in_channel-is_own t job_id error none d e = absurd (cc e)
in_channel-is_own t job_id error (some channel) d e = ground arith

-- A firing that is delivered is answered in the channel where its task was created, or in the one
-- that the configuration gives for the name that the task holds.
pub delivery-IsAllowed :
    (t : Task) (job_id : String) (destinations : List (String × String)) (d : Delivery)
    → delivery t job_id destinations ≡ inr d
    → IsAllowed t destinations d.channel
unfolding delivery
delivery-IsAllowed t job_id destinations d e = by_name t.destination refl e
  where
    by_name :
        (o : Option String)
        → t.destination ≡ o
        → delivery_to o t job_id destinations ≡ inr d
        → IsAllowed t destinations d.channel
    by_name none h e = inl (ground arith)
    by_name (some name) h e = elim (Bool-cases (name == here)) [
      | inl own ↦ inl (in_channel-is_own t job_id no_channel t.channel d (rw own at e))
      | inr other ↦ inr (
        name,
        h,
        sym (
            in_channel-is_own t job_id (unknown_destination name) (lookup name destinations) d
              (rw other at e)),
      )
    ]

-- A row found by its id has it, and an UPDATE of that row is found in its place.
pub get_task-id :
    (id : String) (rows : List Task) (t : Task) → get_task id rows ≡ some t → t.id ≡ id
get_task-id id [] t e = absurd (cc e)
get_task-id id (r ∷ rows) t e = elim (Bool-cases (r.id == id)) [
  | inl h ↦
      let same : r ≡ t = cc (rw h at e) in
      subst (λ (u : Task). u.id ≡ id) same ((string_keyed.same_iff r.id id).0 h)
  | inr h ↦ get_task-id id rows t (rw h at e)
]

pub get_task-update_where :
    (id : String) (f : Task → Task) (rows : List Task) (t : Task)
    → ((u : Task) → (f u).id ≡ u.id)
    → get_task id rows ≡ some t
    → get_task id (update_where (λ u. u.id == id) f rows) ≡ some (f t)
get_task-update_where id f [] t same e = absurd (cc e)
get_task-update_where id f (r ∷ rows) t same e = elim (Bool-cases (r.id == id)) [
  | inl h ↦
      let found : some (f r) ≡ some (f t) = ap (Option.map f) (rw h at e) in
      let hit : ((f r).id == id) ≡ true = ap (λ k. k == id) (same r) ∙ h in rw (h, hit) found
  | inr h ↦ rw (h, h) (get_task-update_where id f rows t same (rw h at e))
]

pub moved-id :
    (state : TaskState) (error : Option String) (t : Task) → (moved state error t).id ≡ t.id
moved-id active error t = refl
moved-id paused error t = refl
moved-id done error t = refl

module _ (s : Settings) (to_json : Event → String) (describe : TaskError → String) where
  -- The row of a task after a failed run that counts.
  abbrev pub blamed_task : ℕ → String → Task → Task
  blamed_task now reason t =
      if ltb (t.consecutive_failures + 1) s.disable_after_failures
      then failed_run now reason t
      else moved paused (some reason) (failed_run now reason t)

  blame_lem :
      (now : ℕ) (t : Task) (error : TaskError) (rows : List Task)
      → get_task t.id rows ≡ some t
      → ((blame s to_json describe now t error rows).0
          ≡ not (ltb (t.consecutive_failures + 1) s.disable_after_failures))
        × (get_task t.id (blame s to_json describe now t error rows).1
            ≡ some (blamed_task now (describe error) t))
  unfolding blame record_task_failure set_task_state
  blame_lem now t error rows e =
      let one = get_task-update_where t.id (failed_run now (describe error)) rows t (λ u. refl) e in
      let two =
        get_task-update_where t.id (moved paused (some (describe error))) _
          (failed_run now (describe error) t) (moved-id paused (some (describe error))) one in
      rw one (elim (Bool-cases (ltb (t.consecutive_failures + 1) s.disable_after_failures)) [
        | inl below ↦ rw below (refl, one)
        | inr above ↦ rw above (refl, two)
      ])

  -- What a run does to a task whose delivery fails.
  pub record IsBlamed (now attempts : ℕ) (t : Task) (error : TaskError) (w : Tables)
      (r : Ended × Tables) : Type 0 where
    -- Nothing is queued, and the error is raised again.
    pub inbox : r.1.inbox ≡ w.inbox
    pub raises :
        r.0
        ≡ raised error
            (leb attempts 1 && not (ltb (t.consecutive_failures + 1) s.disable_after_failures))
    pub first : attempts ≤ 1 → get_task t.id r.1.tasks ≡ some (blamed_task now (describe error) t)
    pub retried : 1 < attempts → r.1 ≡ w

  -- A run of an active task whose delivery fails queues nothing. On the first attempt the failure is
  -- counted, and the task is paused just when the count reaches the limit; a retry counts nothing.
  pub run-IsBlamed :
      (now attempts : ℕ) (job_id : String) (task_id : Option String) (w : Tables) (t : Task)
      → (error : TaskError) → get_task (id_or_empty task_id) w.tasks ≡ some t
      → is_active t.state ≡ true
      → delivery t job_id s.destinations ≡ inl error
      → IsBlamed now attempts t error w (run s to_json describe now job_id attempts task_id w)
  unfolding run
  run-IsBlamed now attempts job_id task_id w t error e on failing =
      let own : get_task t.id w.tasks ≡ some t =
        subst (λ k. get_task k w.tasks ≡ some t)
          (sym (get_task-id (id_or_empty task_id) w.tasks t e)) e in
      let b = blame_lem now t error w.tasks own in
      rw e (
        rw on (
          rw failing (elim (Bool-cases (leb attempts 1)) [
            | inl early ↦ rw early (record {
              inbox = refl;
              raises = rw early (ap (raised error) b.0);
              first = λ h. b.1;
              retried = λ h. absurd (ground arith);
            })
            | inr late ↦ rw late (record {
              inbox = refl;
              raises = rw late refl;
              first = λ h. absurd (ground arith);
              retried = λ h. refl;
            })
          ])))

  -- A retry of a job whose turn is queued: whatever became of the row and of the tasks, as long as
  -- purges look only at what arrived before `now` and the task has not moved to another surface,
  -- the inbox stays as it is.
  pub run-queues_once :
      (now later attempts again : ℕ) (job_id : String) (task_id : Option String) (w : Tables)
      → (t : Task) (d : Delivery) (ops : List InboxOp) (rows : List Task)
      → get_task (id_or_empty task_id) w.tasks ≡ some t
      → is_active t.state ≡ true
      → delivery t job_id s.destinations ≡ inr d
      → find_event t.surface job_id w.inbox ≡ none
      → Every (Spares now) ops
      → ((u : Task) → get_task (id_or_empty task_id) rows ≡ some u → u.surface ≡ t.surface)
      → let after = run_inbox ops (run s to_json describe now job_id attempts task_id w).1.inbox in
        (run s to_json describe later job_id again task_id
          (record { tasks = rows; inbox = after })).1.inbox
        ≡ after
  unfolding run enqueue
  run-queues_once now later attempts again job_id task_id w t d ops rows e on goes new spared
        stays =
      rw e (rw on (rw goes (found (get_task (id_or_empty task_id) rows) stays)))
    where
      table : List InboxRow
      table =
          run_inbox ops
            (enqueue_inbox now t.surface job_id (to_json (event_of s to_json describe t job_id d))
              w.inbox).1

      sent :
          (u : Task) (r : TaskError ⊎ Delivery)
          → u.surface ≡ t.surface
          → (after_delivery s to_json describe later job_id again u r
              (record { tasks = rows; inbox = table })).1.inbox
            ≡ table
      sent u (inl error) same = ground arith
      sent u (inr d') same =
          ap (λ (q : (ℕ × Bool) × List InboxRow). q.1)
            (ap
                (λ source.
                  enqueue_inbox later source job_id
                    (to_json (event_of s to_json describe u job_id d')) table)
                same
              ∙ redelivery-is_duplicate t.surface job_id now later
                  (to_json (event_of s to_json describe t job_id d))
                  (to_json (event_of s to_json describe u job_id d')) w.inbox ops new spared)

      found :
          (o : Option Task)
          → ((u : Task) → o ≡ some u → u.surface ≡ t.surface)
          → (run_found s to_json describe later job_id again o
              (record { tasks = rows; inbox = table })).1.inbox
            ≡ table
      found none h = refl
      found (some u) h = elim (Bool-cases (is_active u.state)) [
        | inl active_now ↦ rw active_now (sent u (delivery u job_id s.destinations) (h u refl))
        | inr idle ↦ rw idle refl
      ]
