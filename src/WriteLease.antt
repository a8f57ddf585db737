-- ===== src/WriteLease.antt =====
-- The lease of the memory writer: `Lease` of siatt/memory/lease.py and the lease statements of
-- store/db.py. The kernel's flock and the row are one state, the awaits of `acquire` and `release`
-- are the borders of its steps, and a number names one `Lease` object of one process.
pub mod Exclusive
mod Tests
use siatt.Base.{
  ℕ, ◌+◌, String, ◌≡◌, Bool, true, false, Option, none, some, if◌then◌else◌, ◌==◌, nat_keyed,
  string_keyed, pair_keyed,
}

pub record LeaseRow : Type 0 where
  pub holder : ℕ
  pub job : Option String
  pub acquired_at : ℕ
  pub expires_at : ℕ

-- Where an object stands: without the lock; with it, before and after looking for a leftover row;
-- with its row written; with its row deleted; with `_fd` set by an `acquire` that raised in
-- `take_lease`, which a `release` still undoes; or with a lock that nothing will release, because
-- `acquire` raised in `get_lease`, before it set `_fd`.
pub data Phase : Type 0 where
  idle : Phase
  locked : Phase
  looked : Phase
  held : Phase
  cleared : Phase
  stranded : Phase
  leaked : Phase

abbrev pub has_lock : Phase → Bool
has_lock idle = false
has_lock _ = true

-- Whether `release` finds `_fd` set and has not begun yet.
abbrev pub may_release : Phase → Bool
may_release held = true
may_release stranded = true
may_release _ = false

-- The leases of one name: the lock file's holder, the row, and the objects.
pub record State : Type 0 where
  pub lock : Option ℕ
  pub row : Option LeaseRow
  pub phases : ℕ → Phase

abbrev pub set_phase : ℕ → Phase → (ℕ → Phase) → ℕ → Phase
set_phase p phase phases q = if q == p then phase else phases q

-- `take_lease`: insert, or update on a conflict.
abbrev pub take_lease : ℕ → Option String → ℕ → ℕ → Option LeaseRow → Option LeaseRow
take_lease holder job now ttl row =
    some (record { holder = holder; job = job; acquired_at = now; expires_at = now + ttl })

-- `release_lease` answers whether there was a row.
abbrev pub release_lease : Option LeaseRow → Bool × Option LeaseRow
release_lease none = (false, none)
release_lease (some row) = (true, none)

-- `_try_lock`: nothing where someone else holds the lock.
abbrev pub try_lock : ℕ → Option ℕ → Option (Option ℕ)
try_lock p none = some (some p)
try_lock p (some q) = none

abbrev pub unlock : ℕ → State → State
unlock p s = record s { lock = none; phases = set_phase p idle s.phases }

-- With no lock, `acquire` raises LeaseError and changes nothing.
abbrev pub after_lock : ℕ → Option (Option ℕ) → State → State
after_lock p none s = s
after_lock p (some lock) s = record s { lock = lock; phases = set_phase p locked s.phases }

-- `acquire` up to its first await.
abbrev pub start_acquire : ℕ → State → State
start_acquire p s = after_lock p (try_lock p s.lock) s

-- The row that `acquire` reports as a takeover from a holder that did not release.
abbrev pub stale_row : State → Option LeaseRow
stale_row s = s.row

abbrev pub look : ℕ → State → State
look p s = record s { phases = set_phase p looked s.phases }

abbrev pub finish_acquire : ℕ → Option String → ℕ → ℕ → State → State
finish_acquire p job now ttl s = record s {
  row = take_lease p job now ttl s.row;
  phases = set_phase p held s.phases;
}

-- `release`: the row first, then the lock.
abbrev pub start_release : ℕ → State → State
start_release p s = record s {
  row = (release_lease s.row).1;
  phases = set_phase p cleared s.phases;
}

-- `get_lease` raises in `acquire` once the lock is taken: the file stays open and locked, and `_fd`
-- is not set.
abbrev pub leak : ℕ → State → State
leak p s = record s { phases = set_phase p leaked s.phases }

-- `take_lease` raises in `acquire`, with the row as it leaves it: `_fd` is set.
abbrev pub strand : ℕ → Option LeaseRow → State → State
strand p row s = record s { row = row; phases = set_phase p stranded s.phases }

abbrev pub initial : State
initial = record { lock = none; row = none; phases = λ p. idle }

-- One object's next step. An object that holds the lock refuses a second `acquire`.
pub data Step (s : State) : State → Type 0 where
  acquires : (p : ℕ) → s.phases p ≡ idle → Step s (start_acquire p s)
  looks : (p : ℕ) → s.phases p ≡ locked → Step s (look p s)
  takes :
      (p : ℕ) (job : Option String) (now ttl : ℕ)
      → s.phases p ≡ looked
      → Step s (finish_acquire p job now ttl s)
  releases : (p : ℕ) → may_release (s.phases p) ≡ true → Step s (start_release p s)
  unlocks : (p : ℕ) → s.phases p ≡ cleared → Step s (unlock p s)

-- What goes wrong: an await of `acquire` raises, that of `take_lease` before its row is written or
-- after, or the holder's process dies and the kernel drops its lock.
pub data Fault (s : State) : State → Type 0 where
  raises : (p : ℕ) → s.phases p ≡ locked → Fault s (leak p s)
  raises_before : (p : ℕ) → s.phases p ≡ looked → Fault s (strand p s.row s)
  raises_after :
      (p : ℕ) (job : Option String) (now ttl : ℕ)
      → s.phases p ≡ looked
      → Fault s (strand p (take_lease p job now ttl s.row) s)
  dies : (p : ℕ) → has_lock (s.phases p) ≡ true → Fault s (unlock p s)

-- What the steps reach, and what the steps and the faults reach.
pub data Reach : State → Type 0 where
  start : Reach initial
  steps : {s t : State} → Reach s → Step s t → Reach t

pub data FaultyReach : State → Type 0 where
  start : FaultyReach initial
  steps : {s t : State} → FaultyReach s → Step s t → FaultyReach t
  fails : {s t : State} → FaultyReach s → Fault s t → FaultyReach t
