-- ===== src/Drain.antt =====
-- The class `Drainer` of core/drain.py. The event loop runs one coroutine at a time between
-- awaits, so a run is a sequence of the steps below, in any order that the loop may choose.
pub mod Sound
pub mod Settle
mod Tests
use siatt.Base.{
  ℕ, ◌+◌, ◌-◌, max, Bool, true, false, not, ◌&&◌, Option, none, some, List, [], ◌∷◌, ◌++◌, map, leb,
  if◌then◌else◌, Keyed, ◌==◌, nat_keyed, string_keyed, elem, pair_keyed, length, null,
}
use siatt.Sql.{update_where, delete_where}
use siatt.Failure.{Failure}
use siatt.WorkQueue.{WorkQueue}

-- A task of `_in_flight`: `running` until its report to the queue is made.
pub record Task (Item : Type 0) : Type 0 where
  pub item : Item
  pub running : Bool

-- How the work on an item ends.
pub data Outcome : Type 0 where
  returned : Outcome
  raised : Failure → Outcome
  cancelled : Outcome

-- Whether the statement of a report ran.
pub data Report : Type 0 where
  made : Report
  lost : Report

-- Where a task is that outstays the grace period, and whether its report will reach the table.
pub data Pending : Type 0 where
  working : Report → Pending
  reporting : Outcome → Report → Pending

pub record Drainer (Table Item : Type 0) : Type 0 where
  pub concurrency : ℕ
  pub purge_interval : ℕ
  pub last_purge : ℕ
  pub table : Table
  pub in_flight : List (Task Item)

module _ {K : Type 0} ⦃e : Keyed K⦄ (q : WorkQueue K) where
  open q use {Table, Item}

  abbrev pub key : Task Item → K
  key t = q.id t.item

  abbrev pub keys : List (Task Item) → List K
  keys = map key

  abbrev pub new_task : Item → Task Item
  new_task item = record { item = item; running = true }

  -- `__init__`, and the reclaim at the start of `run`.
  unfoldable pub start : ℕ → ℕ → Bool → ℕ → Table → Drainer Table Item
  start concurrency purge_interval reclaim_on_start now table = record {
    concurrency = max 1 concurrency;
    purge_interval = purge_interval;
    last_purge = 0;
    table = if reclaim_on_start then q.reclaim now false table else table;
    in_flight = [];
  }

  -- The loop of `_start_batch`: an item that is in flight already is skipped and not counted.
  abbrev pub start_one : Item → List (Task Item) × ℕ → List (Task Item) × ℕ
  start_one item (tasks, started) =
      if elem (q.id item) (keys tasks)
      then (tasks, started)
      else (tasks ++ new_task item ∷ [], started + 1)

  abbrev pub start_all : List Item → List (Task Item) × ℕ → List (Task Item) × ℕ
  start_all [] acc = acc
  start_all (item ∷ items) acc = start_all items (start_one item acc)

  unfoldable pub start_batch : ℕ → List K → Drainer Table Item → ℕ × Drainer Table Item
  start_batch now only d =
      let free = d.concurrency - length d.in_flight in
      if free == 0
      then (0, d)
      else let (leased, table) = q.lease now free (keys d.in_flight) only d.table in
        let (tasks, started) = start_all leased (d.in_flight, 0) in
        (started, record d { table = table; in_flight = tasks })

  -- The three ends of `_deliver`.
  abbrev pub report : ℕ → Item → Outcome → Table → Table
  report now item returned t = q.complete now (q.id item) t
  report now item (raised error) t = (q.fail now item error t).1
  report now item cancelled t = q.release (q.id item ∷ []) t

  abbrev pub running_item : K → List (Task Item) → Option Item
  running_item k [] = none
  running_item k (t ∷ tasks) = if key t == k && t.running then some t.item else running_item k tasks

  -- The work on `k` ends, and its outcome is reported.
  unfoldable pub deliver : ℕ → K → Outcome → Drainer Table Item → Drainer Table Item
  deliver now k outcome d = elim (running_item k d.in_flight) [
    | none ↦ d
    | some item ↦ record d {
      table = report now item outcome d.table;
      in_flight = update_where (λ t. key t == k) (λ t. record t { running = false }) d.in_flight;
    }
  ]

  -- `_forget`, the callback of a task that is done.
  unfoldable pub forget : K → Drainer Table Item → Drainer Table Item
  forget k d = record d { in_flight = delete_where (λ t. key t == k && not t.running) d.in_flight }

  -- One tick of the keepalive; `monotonic` is the reading of the monotonic clock.
  unfoldable pub renew_and_purge : ℕ → ℕ → Drainer Table Item → Drainer Table Item
  renew_and_purge now monotonic d =
      let renewed = if null d.in_flight then d.table else q.renew now (keys d.in_flight) d.table in
      if leb d.purge_interval (monotonic - d.last_purge)
      then record d { table = q.purge now renewed; last_purge = monotonic }
      else record d { table = renewed }

  -- A task ends with its outcome, and its report to the queue is made or lost: a report that raises,
  -- or whose await is cancelled, before its statement runs changes no row, and a task that is
  -- cancelled before its first step makes none.
  unfoldable pub end_task : ℕ → K → Outcome × Report → Drainer Table Item → Drainer Table Item
  end_task now k (outcome, made) d = deliver now k outcome d
  end_task now k (outcome, lost) d = record d {
    in_flight = update_where (λ t. key t == k) (λ t. record t { running = false }) d.in_flight;
  }

  -- Every task of a list ends, and is forgotten.
  abbrev pub gather : ℕ → (K → Outcome × Report) → List K → Drainer Table Item → Drainer Table Item
  gather now ending [] d = d
  gather now ending (k ∷ ks) d = gather now ending ks (forget k (end_task now k (ending k) d))

  -- A cancellation at shutdown: the work ends as cancelled, and its release is shielded; a report that
  -- is being made goes on only if its statement ran already.
  abbrev pub on_cancel : Pending → Outcome × Report
  on_cancel (working report) = (cancelled, report)
  on_cancel (reporting outcome report) = (outcome, report)

  -- What outstays the grace period is cancelled.
  abbrev pub within_grace : (K → Option (Outcome × Report)) → (K → Pending) → K → Outcome × Report
  within_grace ended pending k = elim (ended k) [
    | some ending ↦ ending
    | none ↦ on_cancel (pending k)
  ]

  -- `_settle`: `ended` gives how the tasks end that do so within the grace period, and `pending`
  -- where the others are when it is over.
  unfoldable pub settle :
      ℕ → (K → Option (Outcome × Report)) → (K → Pending) → Drainer Table Item → Drainer Table Item
  settle now ended pending d = gather now (within_grace ended pending) (keys d.in_flight) d

  unfoldable pub drain_once :
      ℕ → List K → (K → Outcome × Report) → Drainer Table Item → ℕ × Drainer Table Item
  drain_once now only ending d =
      let (started, d') = start_batch now only d in
      (started, if started == 0 then d' else gather now ending (keys d'.in_flight) d')
