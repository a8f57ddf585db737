-- ===== src/Tasks/Handler.antt =====
-- `task_handler` of runner/tasks.py, with `_deliver` and `_blame`: one run of a standing task puts
-- its prompt in the inbox. The two tables are one state; the notifier is outside of it.
use siatt.Base.{
  ℕ, String, ◌⊎◌, inl, inr, Bool, true, false, Option, none, some, List, ltb, leb, if◌then◌else◌,
  nat_keyed, string_keyed, pair_keyed,
}
use siatt.Inbox.{InboxRow}
use siatt.Inbox.Queue.{Enqueued, enqueue}
use siatt.Tasks.{is_active, Task, get_task, record_task_run, record_task_failure}
use siatt.Tasks.Service.{Settings, TaskError, Delivery, delivery, pause, finish}

-- What of an `InboundEvent` a run fills in.
pub record Event : Type 0 where
  pub source : String
  pub external_id : String
  pub session_id : String
  pub text : String
  pub scope : String
  pub author : String
  pub channel : Option String
  pub reply_to : Option String
  pub origin : String

pub record Tables : Type 0 where
  pub tasks : List Task
  pub inbox : List InboxRow

-- How a run ends: the task is gone, or not active; its turn is queued; or the error is raised
-- again, with whether the owner was told of a pause.
pub data Ended : Type 0 where
  gone : Ended
  skipped : Ended
  queued : Enqueued → Ended
  raised : TaskError → Bool → Ended

-- The id in the payload, `str(payload.get("task_id") or "")`.
abbrev pub id_or_empty : Option String → String
id_or_empty none = ""
id_or_empty (some id) = id

module _ (s : Settings) (to_json : Event → String) (describe : TaskError → String) where
  abbrev pub event_of : Task → String → Delivery → Event
  event_of t job_id where_to = record {
    source = t.surface;
    external_id = job_id;
    session_id = where_to.session_id;
    text = t.prompt;
    scope = where_to.scope;
    author = t.owner;
    channel = where_to.channel;
    reply_to = where_to.reply_to;
    origin = "scheduled";
  }

  -- `queue.enqueue(event)`
  abbrev pub enqueue_event : ℕ → Event → List InboxRow → Enqueued × List InboxRow
  enqueue_event now e rows = enqueue now e.source e.external_id (to_json e) rows

  -- The count after a failed run, and whether the task is paused for it.
  abbrev pub blamed : String → String → ℕ × List Task → Bool × List Task
  blamed id reason (failures, rows) =
      if ltb failures s.disable_after_failures
      then (false, rows)
      else (true, (pause id (some reason) rows).1)

  -- `_blame`
  unfoldable pub blame : ℕ → Task → TaskError → List Task → Bool × List Task
  blame now t error rows =
      blamed t.id (describe error) (record_task_failure now t.id (describe error) rows)

  -- Counted once per occurrence: on the first attempt only.
  abbrev pub after_error : ℕ → ℕ → Task → TaskError → Tables → Ended × Tables
  after_error now attempts t error w =
      let (told, rows) = blame now t error w.tasks in
      if leb attempts 1
      then (raised error told, record w { tasks = rows })
      else (raised error false, w)

  abbrev pub after_run : Task → List Task → List Task
  after_run t rows = if t.fire_once then (finish t.id rows).1 else rows

  abbrev pub after_delivery : ℕ → String → ℕ → Task → TaskError ⊎ Delivery → Tables → Ended × Tables
  after_delivery now job_id attempts t (inl error) w = after_error now attempts t error w
  after_delivery now job_id attempts t (inr where_to) w =
      let (result, rows) = enqueue_event now (event_of t job_id where_to) w.inbox in
      (
        queued result,
        record { tasks = after_run t (record_task_run now t.id job_id w.tasks); inbox = rows },
      )

  abbrev pub run_found : ℕ → String → ℕ → Option Task → Tables → Ended × Tables
  run_found now job_id attempts none w = (gone, w)
  run_found now job_id attempts (some t) w =
      if is_active t.state
      then after_delivery now job_id attempts t (delivery t job_id s.destinations) w
      else (skipped, w)

  -- `run`, on the job's id, its attempts and the task id of its payload.
  unfoldable pub run : ℕ → String → ℕ → Option String → Tables → Ended × Tables
  run now job_id attempts task_id w =
      run_found now job_id attempts (get_task (id_or_empty task_id) w.tasks) w
