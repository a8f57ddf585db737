-- ===== src/Lib.antt =====
-- A model of Siatt, a long-running agent that answers in chat and keeps a long-term memory
-- (siatt/, Python), with theorems about it. The program is one process on an event loop over one
-- SQLite database and one git repository of memory files.
--
-- How the parts interact. An adapter puts each chat event in the inbox, and the scheduler puts
-- background jobs in the jobs table: the two durable queues of siatt/store/db.py. For each queue a
-- drainer leases items, works on them concurrently, and reports each as completed, failed or
-- released. A failure is given back with a growing delay until the tries are used up. A chat event
-- goes to the one actor of its session, and each turn calls the model and its tools in rounds on the
-- stored transcript; a long answer is cut into messages. Standing tasks, on cron expressions, put
-- events into the inbox through jobs of the scheduler. Background jobs ask a language model for
-- a plan of memory patches; the compiler validates the plan and only then turns it into writes. A
-- page that the model asks for is fetched only if the guard approves.
--
-- Which file models which part:
--   Base        shared names; native numbers, lists and keys
--   Sql         UPDATE, SELECT, DELETE, RETURNING and ORDER BY over a list of rows in rowid order
--   Leases      lemmas on the rows that a queue holds leased, for any such table
--   Backoff     siatt/core/backoff.py, `Backoff.delay_after`
--   Failure     siatt/errors.py, as far as the queues tell errors apart
--   Inbox       the inbox statements of siatt/store/db.py; Inbox/Queue is `Inbox` of
--               siatt/core/inbox.py
--   Jobs        the jobs statements of siatt/store/db.py; Jobs/Queue is `JobQueue` of
--               siatt/runner/scheduler.py
--   WorkQueue   the protocol `WorkQueue` of siatt/core/drain.py, with the laws that a drainer uses;
--               Inbox/Drained and Jobs/Drained show that both queues keep them
--   Drain       `Drainer` of siatt/core/drain.py over any such queue
--   Scheduler   `Scheduler` of siatt/runner/scheduler.py, without its draining
--   Tasks       the tasks statements of siatt/store/db.py; Tasks/Service is `Tasks` and
--               Tasks/Handler is `task_handler` of siatt/runner/tasks.py
--   Agent       the messages of siatt/llm/types.py and of siatt/store/db.py; Agent/Turn is `respond`
--               of siatt/core/agent.py, Agent/Context is `_pack_recent` of siatt/core/context.py
--   Session     siatt/core/session.py
--   Text        Python's `str` as code points, for Agent, Slack and Chunk
--   Slack       siatt/adapters/slack/limits.py
--   Chunk       siatt/memory/chunk.py
--   Cron        siatt/runner/cron.py: Cron is `parse`, Cron/Walk is `next_after`
--   Memory      siatt/memory/document.py and siatt/memory/layout.py; Memory/Manifest is
--               siatt/memory/manifest.py and Memory/Patch is siatt/memory/patch.py
--   WriteLease  siatt/memory/lease.py, with the lease statements of siatt/store/db.py
--   Guard       siatt/fetch/guard.py
--
-- How state and operations correspond. A table is the list of its rows; each method of `Store` is a
-- function from the table to its result and the table after it, since the store runs one statement
-- at a time. A class is a record of its fields and its methods are functions on the record. Python
-- exceptions are the left side of a sum, or a constructor of a result type. What the event loop
-- interleaves is a relation of steps, taken in any order: a batch of a drainer, a report to a queue and
-- a run of a task are one step each, while a creation of a task and the two halves of taking and of
-- giving back the write lease are steps of their own. Times are milliseconds since the epoch as
-- natural numbers; the store writes instants as texts that order as the instants do. Readings of
-- the clock, fresh ids, JSON, YAML, pydantic, pathlib, urllib, ipaddress, the redactor and the
-- files on disk are parameters.
--
-- Bounds and fuel. Most loops are recursions on lists and need no fuel. `forbidden` of Guard, which
-- calls itself on a tunnelled address, runs with fuel 2, which is enough because a tunnelled
-- address is a v4 address and carries no other. The walk of Cron has one more step than its horizon
-- has minutes, and each step goes forward by a minute at least. The cuts of Slack and Chunk run with
-- the length of the text as fuel, and each cut takes a character at least.
-- The slice of a transcript is widened with the transcript's length as fuel, and each step goes back
-- by a message at least. A turn runs through one pass more than its rounds of tools, as the source's
-- range does.
--
-- What is not modelled: recall, the model providers, the chat surfaces, the search index and the
-- ranking, git, the command line and the settings, since they are mostly calls of outside services
-- and files. The jobs that consolidate the memory are outside the model too.
pub mod Agent
pub mod Backoff
pub mod Base
pub mod Chunk
pub mod Cron
pub mod Drain
pub mod Failure
pub mod Guard
pub mod Inbox
pub mod Jobs
pub mod Leases
pub mod Memory
pub mod Scheduler
pub mod Session
pub mod Slack
pub mod Sql
pub mod Tasks
pub mod Text
pub mod WorkQueue
pub mod WriteLease
