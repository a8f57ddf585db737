-- ===== src/Tasks/Service.antt =====
-- The class `Tasks` of runner/tasks.py: what may go in the tasks table, where a firing is answered,
-- and which firings come next.
use Prim.Native.String.{◌++◌ as cat}
use siatt.Base.{
  ℕ, ◌-◌, String, ◌⊎◌, inl, inr, Bool, false, not, Option, none, some, List, [], ◌∷◌, map, ltb, leb,
  if◌then◌else◌, ◌==◌, nat_keyed, string_keyed, elem, pair_keyed,
}
use siatt.Tasks.{
  active, paused, done, Task, create_task, list_tasks, count_owner_tasks, set_task_state,
  delete_task,
}
use siatt.Scheduler.{Occurrence}

-- A parsed expression, `Cron` of runner/cron.py: `next_after` answers none where it raises.
pub record Schedule : Type 0 where
  pub expression : String
  pub next_after : ℕ → Option ℕ

-- `TaskSettings`; the interval in milliseconds.
pub record Settings : Type 0 where
  pub max_per_owner : ℕ
  pub min_interval : ℕ
  pub disable_after_failures : ℕ
  pub destinations : List (String × String)

-- What a `TaskError` says.
pub data TaskError : Type 0 where
  empty_prompt : TaskError
  not_slack : String → TaskError
  no_channel : TaskError
  unknown_destination : String → TaskError
  bad_cron : String → TaskError
  never_fires : TaskError
  too_often : ℕ → TaskError
  too_many : ℕ → TaskError

abbrev pub task_kind : String
task_kind = "task_run"

abbrev pub here : String
here = "here"

-- `dict.get`
abbrev pub lookup : String → List (String × String) → Option String
lookup k [] = none
lookup k ((j, v) ∷ rest) = if j == k then some v else lookup k rest

pub record Delivery : Type 0 where
  pub session_id : String
  pub channel : Option String
  pub reply_to : Option String
  pub scope : String

abbrev pub own_thread : Task → Delivery
own_thread t = record {
  session_id = t.session_id;
  channel = t.channel;
  reply_to = t.reply_to;
  scope = t.scope;
}

-- One firing, one conversation.
abbrev pub fresh_thread : Task → String → String → Delivery
fresh_thread t job_id channel = record {
  session_id = cat t.surface (cat ":" job_id);
  channel = some channel;
  reply_to = none;
  scope = t.scope;
}

-- A channel that is there and not empty.
abbrev pub in_channel : Task → String → TaskError → Option String → TaskError ⊎ Delivery
in_channel t job_id error none = inl error
in_channel t job_id error (some channel) =
    if channel == "" then inl error else inr (fresh_thread t job_id channel)

abbrev pub delivery_to :
    Option String → Task → String → List (String × String) → TaskError ⊎ Delivery
delivery_to none t job_id destinations = inr (own_thread t)
delivery_to (some name) t job_id destinations =
    if name == here
    then in_channel t job_id no_channel t.channel
    else in_channel t job_id (unknown_destination name) (lookup name destinations)

-- `Task.delivery`
unfoldable pub delivery : Task → String → List (String × String) → TaskError ⊎ Delivery
delivery t job_id destinations = delivery_to t.destination t job_id destinations

module _ (s : Settings) (parse : String → Option String → String ⊎ Schedule)
    (strip : String → String) (isoformat : ℕ → String) (dumps : String → String) where
  abbrev pub has_text : Option String → Bool
  has_text none = false
  has_text (some text) = not (text == "")

  -- `_validate_destination`, of a destination that was given.
  abbrev pub check_destination : Option String → String → Option String → TaskError ⊎ Unit {0}
  check_destination none surface channel = inr tt
  check_destination (some name) surface channel =
      if not (surface == "slack")
      then inl (not_slack surface)
      else if name == here
      then (if has_text channel then inr tt else inl no_channel)
      else if elem name (map (λ d. d.0) s.destinations)
      then inr tt
      else inl (unknown_destination name)

  abbrev pub check_gap : Schedule → ℕ → Option ℕ → TaskError ⊎ Schedule
  check_gap schedule first none = inl never_fires
  check_gap schedule first (some second) =
      if ltb (second - first) s.min_interval then inl (too_often (second - first)) else inr schedule

  abbrev pub check_first : Schedule → Option ℕ → TaskError ⊎ Schedule
  check_first schedule none = inl never_fires
  check_first schedule (some first) = check_gap schedule first (schedule.next_after first)

  abbrev pub check_parsed : ℕ → String ⊎ Schedule → TaskError ⊎ Schedule
  check_parsed now (inl reason) = inl (bad_cron reason)
  check_parsed now (inr schedule) = check_first schedule (schedule.next_after now)

  -- `_validate`
  unfoldable pub validate : ℕ → String → Option String → TaskError ⊎ Schedule
  validate now cron timezone = check_parsed now (parse cron timezone)

  -- What a caller of `create` asks for.
  pub record Request : Type 0 where
    pub owner : String
    pub surface : String
    pub session_id : String
    pub prompt : String
    pub cron : String
    pub timezone : Option String
    pub channel : Option String
    pub reply_to : Option String
    pub scope : String
    pub fire_once : Bool
    pub destination : Option String

  abbrev pub insert_request : ℕ → String → Request → Schedule → List Task → List Task
  insert_request now id r schedule rows =
      create_task now id r.owner r.surface r.session_id r.channel r.reply_to r.scope
        (strip r.prompt) schedule.expression r.timezone r.fire_once r.destination rows

  abbrev pub admit_scheduled : Request → TaskError ⊎ Schedule → List Task → TaskError ⊎ Schedule
  admit_scheduled r (inl error) rows = inl error
  admit_scheduled r (inr schedule) rows =
      if leb s.max_per_owner (count_owner_tasks r.owner rows)
      then inl (too_many (count_owner_tasks r.owner rows))
      else inr schedule

  abbrev pub admit_checked : ℕ → Request → TaskError ⊎ Unit {0} → List Task → TaskError ⊎ Schedule
  admit_checked now r (inl error) rows = inl error
  admit_checked now r (inr _) rows = admit_scheduled r (validate now r.cron r.timezone) rows

  -- `create` as far as its count of the owner's tasks, which reads the table once.
  unfoldable pub admit : ℕ → Request → List Task → TaskError ⊎ Schedule
  admit now r rows =
      if strip r.prompt == ""
      then inl empty_prompt
      else admit_checked now r (check_destination r.destination r.surface r.channel) rows

  -- `create`, with `id` the new ULID: the count is one statement and the insertion another, and
  -- the table may change from `counted` to `rows` in between.
  unfoldable pub create : ℕ → String → Request → List Task → List Task → TaskError ⊎ List Task
  create now id r counted rows = elim (admit now r counted) [
    | inl error ↦ inl error
    | inr schedule ↦ inr (insert_request now id r schedule rows)
  ]

  abbrev pub occurrence_id : String → ℕ → String
  occurrence_id task_id fire_at = cat "task:" (cat task_id (cat "@" (isoformat fire_at)))

  -- The payload is the JSON object that holds the task's id.
  abbrev pub occurrence : Task → ℕ → Occurrence
  occurrence t fire_at = record {
    job_id = occurrence_id t.id fire_at;
    kind = task_kind;
    fire_at = fire_at;
    payload = some (dumps t.id);
  }

  -- When a schedule that may not read fires next; none where a CronError is logged.
  abbrev pub fires : ℕ → String ⊎ Schedule → Option ℕ
  fires moment (inl reason) = none
  fires moment (inr schedule) = schedule.next_after moment

  abbrev pub firing : Task → Option ℕ → List Occurrence → List Occurrence
  firing t none found = found
  firing t (some fire_at) found = occurrence t fire_at ∷ found

  abbrev pub firings : ℕ → List Task → List Occurrence
  firings moment [] = []
  firings moment (t ∷ rows) =
      firing t (fires moment (parse t.cron t.timezone)) (firings moment rows)

  unfoldable pub occurrences : ℕ → List Task → List Occurrence
  occurrences moment rows = firings moment (list_tasks (some active) none none none rows)

-- `cancel`, `pause`, `resume` and `finish`
abbrev pub cancel : String → List Task → Bool × List Task
cancel id = delete_task id

abbrev pub pause : String → Option String → List Task → Bool × List Task
pause id reason = set_task_state id paused reason

abbrev pub resume : String → List Task → Bool × List Task
resume id = set_task_state id active none

abbrev pub finish : String → List Task → Bool × List Task
finish id = set_task_state id done none
