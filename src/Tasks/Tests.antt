-- ===== src/Tasks/Tests.antt =====
-- Standing tasks of one owner, runner/tasks.py.
use siatt.Base.{
  ℕ, ◌+◌, String, ◌≡◌, refl, subst, ◌⊎◌, inl, inr, true, Option, none, some, List, [], ◌∷◌,
  nat_keyed, string_keyed, pair_keyed,
}
use siatt.Inbox.{InboxRow, run as run_inbox, lease, complete}
use siatt.Tasks.{active, done, Task, get_task, create_task, count_owner_tasks}
use siatt.Tasks.Service.{
  Settings, Schedule, TaskError, unknown_destination, too_many, Delivery, delivery, Request, create,
  admit, validate, resume,
}
use siatt.Tasks.Handler.{Event, Tables, run}
use siatt.Tasks.Runs.{IsAllowed, delivery-IsAllowed, IsBlamed, run-IsBlamed, run-queues_once}
use siatt.Tasks.Limit.{IsWithin}
use siatt.Tasks.Capped.{
  start, steps, admits, inserts, here, runs, Reach-IsWithin, resume-takes_place,
}

abbrev settings : Settings
settings = record {
  max_per_owner = 1;
  min_interval = 900000;
  disable_after_failures = 2;
  destinations = ("news", "C7") ∷ [];
}

-- Every quarter of an hour.
abbrev quarterly : String → Option String → String ⊎ Schedule
quarterly cron timezone =
    inr (record { expression = cron; next_after = λ moment. some (moment + 900000) })

abbrev minute : ℕ → String
minute t = "2026-01-01T00:15"

abbrev same : String → String
same text = text

abbrev to_json : Event → String
to_json e = e.text

abbrev describe : TaskError → String
describe e = "TaskError"

abbrev news : Task
news = record {
  id = "t1";
  owner = "U1";
  surface = "slack";
  session_id = "slack:C1";
  channel = some "C1";
  reply_to = none;
  scope = "workspace";
  prompt = "what happened overnight";
  cron = "*/15 * * * *";
  timezone = none;
  state = active;
  fire_once = true;
  destination = some "news";
  created_at = 3;
  last_run_at = none;
  last_job_id = none;
  last_error = none;
  consecutive_failures = 0;
}

abbrev posted : Delivery
posted = record {
  session_id = "slack:task:t1@1";
  channel = some "C7";
  reply_to = none;
  scope = "workspace";
}

delivery-IsAllowed_example : IsAllowed news (("news", "C7") ∷ []) (some "C7")
unfolding delivery
delivery-IsAllowed_example = delivery-IsAllowed news "task:t1@1" (("news", "C7") ∷ []) posted refl

abbrev lost : Task
lost = record news { destination = some "gone" }

abbrev lost_tables : Tables
lost_tables = record { tasks = lost ∷ []; inbox = [] }

run-IsBlamed_example :
    IsBlamed settings to_json describe 50 1 lost
      (unknown_destination "gone")
      lost_tables
      (run settings to_json describe 50 "task:t1@1" 1 (some "t1") lost_tables)
unfolding delivery
run-IsBlamed_example =
    run-IsBlamed settings to_json describe 50 1 "task:t1@1" (some "t1") lost_tables lost
      (unknown_destination "gone") refl refl refl

abbrev news_tables : Tables
news_tables = record { tasks = news ∷ []; inbox = [] }

abbrev answered : List InboxRow
answered =
    run_inbox (lease 1 60 900 [] [] ∷ complete 1 ∷ [])
      (run settings to_json describe 50 "task:t1@1" 1 (some "t1") news_tables).1.inbox

run-queues_once_example :
    (run settings to_json describe 70 "task:t1@1" 2
      (some "t1")
      (record { tasks = news ∷ []; inbox = answered })).1.inbox
    ≡ answered
unfolding delivery
run-queues_once_example =
    run-queues_once settings to_json describe 50 70 1 2 "task:t1@1" (some "t1") news_tables news
      posted (lease 1 60 900 [] [] ∷ complete 1 ∷ []) (news ∷ []) refl refl refl refl (tt, (tt, tt))
      (λ u e. same_surface u e)
  where
    same_surface : (u : Task) → get_task "t1" (news ∷ []) ≡ some u → u.surface ≡ "slack"
    same_surface u e =
        let found : news ≡ u = cc e in subst (λ (t : Task). t.surface ≡ "slack") found refl

abbrev asked : Request settings quarterly same minute same
asked = record {
  owner = "U1";
  surface = "slack";
  session_id = "slack:C1";
  prompt = "what happened overnight";
  cron = "*/15 * * * *";
  timezone = none;
  channel = some "C1";
  reply_to = none;
  scope = "workspace";
  fire_once = true;
  destination = some "news";
}

created : create settings quarterly same minute same 3 "t1" asked [] [] ≡ inr (news ∷ [])
unfolding create admit validate count_owner_tasks create_task
created = refl

-- The second schedule of one owner is one too many here.
refused :
    create settings quarterly same minute same 4 "t2" asked (news ∷ []) (news ∷ [])
    ≡ inl (too_many 1)
unfolding create admit validate count_owner_tasks create_task
refused = refl

abbrev quarter_hours : Schedule
quarter_hours = record {
  expression = "*/15 * * * *";
  next_after = λ moment. some (moment + 900000);
}

-- Two creations that both count before either inserts: the owner ends with one too many.
raced :
    create settings quarterly same minute same 4 "t2" asked [] (news ∷ [])
    ≡ inr (news ∷ record news { id = "t2"; created_at = 4 } ∷ [])
unfolding create admit validate count_owner_tasks create_task
raced = refl

counted : admit settings quarterly same minute same 3 asked [] ≡ inr quarter_hours
unfolding admit validate count_owner_tasks
counted = refl

abbrev ran_once : List Task
ran_once =
    (run settings to_json describe 50 "task:t1@1" 1 (some "t1")
      (record { tasks = news ∷ []; inbox = [] })).1.tasks

Reach-IsWithin_example : IsWithin (λ owner. 1) ran_once
unfolding create_task
Reach-IsWithin_example = Reach-IsWithin settings quarterly same minute same to_json describe (
    steps
      (steps (steps start (admits 3 asked quarter_hours refl counted))
        (inserts 3 "t1" (record { request = asked; schedule = quarter_hours }) [] here refl))
      (runs 50 1 "task:t1@1" (some "t1") []))

abbrev finished : Task
finished = record news { state = done }

resume-takes_place_example :
    count_owner_tasks "U1" (resume "t1" (finished ∷ [])).1
    ≡ count_owner_tasks "U1" (finished ∷ []) + 1
resume-takes_place_example = resume-takes_place "t1" finished (finished ∷ []) (refl, tt) refl refl
