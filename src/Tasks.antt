-- ===== src/Tasks.antt =====
-- The `tasks` table of store/db.py and its statements (migrations/0018_tasks.sql and the
-- `destination` of 0019_task_destination.sql): storage and counting, one function for each method of `Store`.
pub mod Service
mod Tests
pub mod Handler
pub mod Runs
pub mod Limit
pub mod Running
pub mod Capped
use Prim.Native.Nat.{Ordering}
use Prim.Native.String.{compare}
use siatt.Base.{
  ℕ, ◌+◌, String, Bool, true, false, not, ◌&&◌, ◌||◌, Option, none, some, List, [], ◌∷◌, ◌++◌, map,
  ltb, if◌then◌else◌, ◌==◌, nat_keyed, string_keyed, elem, pair_keyed,
}
use siatt.Sql.{update_where, select_where, delete_where, count_where}

pub data TaskState : Type 0 where
  active : TaskState
  paused : TaskState
  done : TaskState

abbrev pub is_active : TaskState → Bool
is_active active = true
is_active _ = false

-- `state IN ('active', 'paused')`
abbrev pub will_fire : TaskState → Bool
will_fire done = false
will_fire _ = true

abbrev pub same_state : TaskState → TaskState → Bool
same_state active s = is_active s
same_state paused paused = true
same_state paused _ = false
same_state done s = not (will_fire s)

-- A row, and the `Task` of runner/tasks.py that is read from it.
pub record Task : Type 0 where
  pub id : String
  pub owner : String
  pub surface : String
  pub session_id : String
  pub channel : Option String
  pub reply_to : Option String
  pub scope : String
  pub prompt : String
  pub cron : String
  pub timezone : Option String
  pub state : TaskState
  pub fire_once : Bool
  pub destination : Option String
  pub created_at : ℕ
  pub last_run_at : Option ℕ
  pub last_job_id : Option String
  pub last_error : Option String
  pub consecutive_failures : ℕ

abbrev pub task_ids : List Task → List String
task_ids = map (λ t. t.id)

-- What the caller of `create_task` gives; the other columns have their defaults.
unfoldable pub create_task :
    ℕ
    → String
    → String
    → String
    → String
    → Option String
    → Option String
    → String
    → String
    → String
    → Option String
    → Bool
    → Option String
    → List Task
    → List Task
create_task now id owner surface session_id channel reply_to scope prompt cron timezone fire_once
      destination rows =
    rows
    ++ record {
      id = id;
      owner = owner;
      surface = surface;
      session_id = session_id;
      channel = channel;
      reply_to = reply_to;
      scope = scope;
      prompt = prompt;
      cron = cron;
      timezone = timezone;
      state = active;
      fire_once = fire_once;
      destination = destination;
      created_at = now;
      last_run_at = none;
      last_job_id = none;
      last_error = none;
      consecutive_failures = 0;
    }
      ∷ []

abbrev pub get_task : String → List Task → Option Task
get_task id [] = none
get_task id (t ∷ rows) = if t.id == id then some t else get_task id rows

abbrev pub text_before : String → String → Bool
text_before a b = elim (compare a b) [ Ordering.gt ↦ false | _ ↦ true ]

-- `ORDER BY created_at, id`
abbrev pub stands_before : Task → Task → Bool
stands_before a b =
    ltb a.created_at b.created_at || (a.created_at == b.created_at && text_before a.id b.id)

abbrev pub insert_task : Task → List Task → List Task
insert_task t [] = t ∷ []
insert_task t (u ∷ rows) =
    let later = u ∷ insert_task t rows in if stands_before t u then t ∷ u ∷ rows else later

abbrev pub oldest_first : List Task → List Task
oldest_first [] = []
oldest_first (t ∷ rows) = insert_task t (oldest_first rows)

-- A narrowing that was not given narrows nothing.
abbrev pub narrows : Option String → String → Bool
narrows none value = true
narrows (some wanted) value = value == wanted

-- `column = ?` on a column that may be NULL.
abbrev pub narrows_null : Option String → Option String → Bool
narrows_null none value = true
narrows_null (some wanted) none = false
narrows_null (some wanted) (some value) = value == wanted

abbrev pub narrows_state : Option TaskState → TaskState → Bool
narrows_state none value = true
narrows_state (some wanted) value = same_state value wanted

abbrev pub narrowed : Option TaskState → Option String → Option String → Option String → Task → Bool
narrowed state owner session_id channel t =
    narrows_state state t.state
    && (narrows owner t.owner
        && (narrows session_id t.session_id && narrows_null channel t.channel))

unfoldable pub list_tasks :
    Option TaskState → Option String → Option String → Option String → List Task → List Task
list_tasks state owner session_id channel rows =
    oldest_first (select_where (narrowed state owner session_id channel) rows)

abbrev pub counts_for : String → Task → Bool
counts_for owner t = t.owner == owner && will_fire t.state

unfoldable pub count_owner_tasks : String → List Task → ℕ
count_owner_tasks owner rows = count_where (counts_for owner) rows

-- `COALESCE(?, last_error)`
abbrev pub coalesce : Option String → Option String → Option String
coalesce none other = other
coalesce (some error) other = some error

abbrev pub moved : TaskState → Option String → Task → Task
moved active error t = record t { state = active; consecutive_failures = 0; last_error = none }
moved state error t = record t { state = state; last_error = coalesce error t.last_error }

-- False if the task is gone.
unfoldable pub set_task_state : String → TaskState → Option String → List Task → Bool × List Task
set_task_state id state error rows =
    (elem id (task_ids rows), update_where (λ t. t.id == id) (moved state error) rows)

unfoldable pub delete_task : String → List Task → Bool × List Task
delete_task id rows = (elem id (task_ids rows), delete_where (λ t. t.id == id) rows)

abbrev pub ran : ℕ → String → Task → Task
ran now job_id t = record t {
  last_run_at = some now;
  last_job_id = some job_id;
  last_error = none;
  consecutive_failures = 0;
}

unfoldable pub record_task_run : ℕ → String → String → List Task → List Task
record_task_run now id job_id = update_where (λ t. t.id == id) (ran now job_id)

abbrev pub failed_run : ℕ → String → Task → Task
failed_run now error t = record t {
  last_run_at = some now;
  last_error = some error;
  consecutive_failures = t.consecutive_failures + 1;
}

-- The new count of the row, 0 where there is none.
abbrev pub failures_of : Option Task → ℕ
failures_of none = 0
failures_of (some t) = t.consecutive_failures

unfoldable pub record_task_failure : ℕ → String → String → List Task → ℕ × List Task
record_task_failure now id error rows =
    let rows' = update_where (λ t. t.id == id) (failed_run now error) rows in
    (failures_of (get_task id rows'), rows')
