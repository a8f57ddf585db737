-- ===== src/Tasks/Running.antt =====
-- The handler of a task run in runner/tasks.py under any cap on the tasks of one owner.
use siatt.Base.{
  ℕ, ◌+◌, String, ◌≡◌, refl, sym, subst, ◌⊎◌, inl, inr, true, Option, none, some, List, ltb, leb,
  Bool-cases, nat_keyed, string_keyed, pair_keyed,
}
use siatt.Tasks.{
  TaskState, active, paused, done, will_fire, is_active, Task, get_task, record_task_run,
  record_task_failure, ran, failed_run,
}
use siatt.Tasks.Service.{Settings, TaskError, Delivery, delivery}
use siatt.Tasks.Runs.{get_task-id, get_task-update_where}
use siatt.Tasks.Handler.{Event, Tables, run, run_found, after_delivery, blame, id_or_empty}
use siatt.Tasks.Limit.{IsWithin, Of-found, state-IsWithin, set_task_state-IsWithin, finish-IsWithin}

module _ (cap : String → ℕ) (s : Settings) (to_json : Event → String)
    (describe : TaskError → String) where
  blame-IsWithin :
      (now : ℕ) (t : Task) (error : TaskError) (rows : List Task)
      → get_task t.id rows ≡ some t
      → is_active t.state ≡ true
      → IsWithin cap rows
      → IsWithin cap (blame s to_json describe now t error rows).1
  unfolding blame record_task_failure
  blame-IsWithin now t error rows e on w =
      let f = failed_run now (describe error) in
      let counted = state-IsWithin cap t.id f rows (λ u. refl) (λ u. refl) (λ u. refl) w in
      let found = get_task-update_where t.id f rows t (λ u. refl) e in
      rw found (elim (Bool-cases (ltb (t.consecutive_failures + 1) s.disable_after_failures)) [
        | inl below ↦ rw below counted
        | inr above ↦ rw above (
            set_task_state-IsWithin cap t.id paused (some (describe error)) _
              (Of-found t.id _ _ (f t) counted.distinct found (λ h. still_fires t.state on))
              counted)
      ])
    where
      still_fires : (state : TaskState) → is_active state ≡ true → will_fire state ≡ true
      still_fires active h = refl
      still_fires paused h = refl
      still_fires done h = absurd (cc h)

  pub run-IsWithin :
      (now attempts : ℕ) (job_id : String) (task_id : Option String) (w : Tables)
      → IsWithin cap w.tasks
      → IsWithin cap (run s to_json describe now job_id attempts task_id w).1.tasks
  unfolding run record_task_run
  run-IsWithin now attempts job_id task_id w h = found (get_task (id_or_empty task_id) w.tasks) refl
    where
      ended :
          (t : Task) (r : TaskError ⊎ Delivery)
          → get_task t.id w.tasks ≡ some t
          → is_active t.state ≡ true
          → IsWithin cap (after_delivery s to_json describe now job_id attempts t r w).1.tasks
      ended t (inl error) e on = elim (Bool-cases (leb attempts 1)) [
        | inl first ↦ rw first (blame-IsWithin now t error w.tasks e on h)
        | inr again ↦ rw again h
      ]
      ended t (inr d) e on =
          let counted =
            state-IsWithin cap t.id (ran now job_id) w.tasks (λ u. refl) (λ u. refl) (λ u. refl)
              h in
          elim (Bool-cases t.fire_once) [
            | inl once ↦ rw once (finish-IsWithin cap t.id _ counted)
            | inr again ↦ rw again counted
          ]

      found :
          (o : Option Task)
          → get_task (id_or_empty task_id) w.tasks ≡ o
          → IsWithin cap (run_found s to_json describe now job_id attempts o w).1.tasks
      found none e = h
      found (some t) e =
          let own : get_task t.id w.tasks ≡ some t =
            subst (λ k. get_task k w.tasks ≡ some t)
              (sym (get_task-id (id_or_empty task_id) w.tasks t e)) e in
          elim (Bool-cases (is_active t.state)) [
            | inl on ↦ rw on (ended t (delivery t job_id s.destinations) own on)
            | inr off ↦ rw off h
          ]
