-- ===== src/Drain/Tests.antt =====
-- The theorems on core/drain.py at the two queues of the program.
use siatt.Base.{
  ℕ, ◌-◌, String, ◌≡◌, true, false, ◌∙◌, none, [], arith, if◌then◌else◌, ◌==◌, nat_keyed,
  string_keyed, pair_keyed, length,
}
use siatt.WorkQueue.{WorkQueue}
use siatt.Inbox.Queue.{Validated, valid, invalid, default_settings}
use siatt.Inbox.Drained.{inbox_queue}
use siatt.Inbox.Tests.{two_rows, two_rows-IsWellFormed}
use siatt.Drain.{
  Drainer, start, start_batch, deliver, settle, returned, keys, made, lost, Pending, working,
  reporting,
}
use siatt.Drain.Sound.{IsSound, here, next, batch, delivers, drainer-IsSound}
use siatt.Drain.Settle.{settle-held, start_batch-starts_all}

validate : String → Validated ℕ
validate payload = if payload == "{}" then valid 0 else invalid "not an event"

abbrev queue : WorkQueue ℕ
queue = inbox_queue ℕ validate default_settings

abbrev fresh : Drainer queue.Table queue.Item
fresh = start queue 8 3600000 true 40 two_rows

abbrev busy : Drainer queue.Table queue.Item
busy = (start_batch queue 50 [] fresh).1

fresh-IsSound : IsSound queue fresh
fresh-IsSound = drainer-IsSound queue 8 3600000 40 two_rows fresh two_rows-IsWellFormed here

drainer-IsSound_example : IsSound queue (deliver queue 60 1 returned busy)
drainer-IsSound_example =
    drainer-IsSound queue 8 3600000 40 two_rows (deliver queue 60 1 returned busy)
      two_rows-IsWellFormed (next (next here (batch 50 [])) (delivers 60 1 returned))

busy-IsSound : IsSound queue busy
busy-IsSound =
    drainer-IsSound queue 8 3600000 40 two_rows busy two_rows-IsWellFormed (next here (batch 50 []))

-- The first is cancelled while it works and is handed back; the second is cancelled while it reports
-- that it returned, and its row stays leased.
abbrev at_grace : ℕ → Pending
at_grace k = if k == 1 then working made else reporting returned lost

first_released : queue.held (settle queue 70 (λ k. none) at_grace busy).table 1 ≡ false
first_released = settle-held queue 70 (λ k. none) at_grace busy 1 busy-IsSound ∙ ground arith

start_batch-starts_all_example :
    (start_batch queue 50 [] fresh).0
    ≡ length
        (queue.lease 50
          (fresh.concurrency - length fresh.in_flight)
          (keys queue fresh.in_flight)
          []
          fresh.table).0
unfolding start
start_batch-starts_all_example =
    (start_batch-starts_all queue 50 [] fresh fresh-IsSound (omega arith)).0
