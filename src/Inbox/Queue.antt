-- ===== src/Inbox/Queue.antt =====
-- The class `Inbox` of core/inbox.py: the durable queue of messages over the `inbox` table. The
-- clock's reading is an argument of each operation.
use Prim.Native.String.{◌++◌ as cat}
use siatt.Base.{
  ℕ, ◌+◌, ◌-◌, String, Bool, true, false, not, none, some, List, [], ◌∷◌, ◌++◌, if◌then◌else◌,
  nat_keyed, string_keyed, pair_keyed,
}
use siatt.Backoff.{Backoff, delay_after}
use siatt.Failure.{Failure, hopeless, reason_of}
use siatt.Inbox.{
  InboxRow, LeasedRow, enqueue_inbox, lease_inbox, renew_inbox, complete_inbox, retry_inbox,
  fail_inbox, release_inbox, reclaim_inbox, purge_inbox,
}

pub record Settings : Type 0 where
  pub lease_ttl : ℕ
  pub backoff : Backoff
  pub retention : ℕ

-- DEFAULT_LEASE_TTL, DEFAULT_BACKOFF and DONE_RETENTION, in milliseconds
abbrev pub default_settings : Settings
default_settings = record {
  lease_ttl = 60000;
  backoff = record { max_attempts = 5; base = 2000; cap = 300000 };
  retention = 604800000;
}

-- The outcome of `InboundEvent.model_validate_json`, which pydantic implements.
pub data Validated (E : Type 0) : Type 0 where
  valid : E → Validated E
  invalid : String → Validated E

pub record Enqueued : Type 0 where
  pub id : ℕ
  pub duplicate : Bool
  -- Whether the subscribers were called.
  pub woken : Bool

pub record LeasedEvent (E : Type 0) : Type 0 where
  pub id : ℕ
  pub event : E
  pub attempts : ℕ

unfoldable pub enqueue : ℕ → String → String → String → List InboxRow → Enqueued × List InboxRow
enqueue now source external_id payload rows =
    let ((id, duplicate), table) = enqueue_inbox now source external_id payload rows in
    (record { id = id; duplicate = duplicate; woken = not duplicate }, table)

module _ {E : Type 0} (validate_json : String → Validated E) where
  -- `InboundEvent.from_json`: the reason of an EventError on the right.
  abbrev pub from_json : String → Validated E
  from_json payload = elim (validate_json payload) [
    | valid event ↦ valid event
    | invalid message ↦ invalid (cat "queued payload is not a deliverable event: " message)
  ]

  -- One row of the loop in `lease`: a payload that does not parse is dead-lettered at once.
  abbrev pub receive_one :
      LeasedRow
      → Validated E
      → List (LeasedEvent E) × List InboxRow
      → List (LeasedEvent E) × List InboxRow
  receive_one r (valid event) (leased, rows) =
      (leased ++ record { id = r.id; event = event; attempts = r.attempts } ∷ [], rows)
  receive_one r (invalid reason) (leased, rows) = (leased, fail_inbox r.id reason rows)

  abbrev pub receive :
      List LeasedRow → List (LeasedEvent E) × List InboxRow → List (LeasedEvent E) × List InboxRow
  receive [] acc = acc
  receive (r ∷ rs) acc = receive rs (receive_one r (from_json r.payload) acc)

  unfoldable pub lease :
      Settings → ℕ → ℕ → List ℕ → List ℕ → List InboxRow → List (LeasedEvent E) × List InboxRow
  lease s now limit exclude only rows =
      let (got, table) = lease_inbox limit now (now + s.lease_ttl) exclude only rows in
      receive got ([], table)

abbrev pub renew : Settings → ℕ → List ℕ → List InboxRow → List InboxRow
renew s now ids = renew_inbox ids (now + s.lease_ttl)

abbrev pub complete : ℕ → List InboxRow → List InboxRow
complete inbox_id = complete_inbox inbox_id

abbrev pub release : List ℕ → List InboxRow → List InboxRow
release ids = release_inbox ids

-- One failed delivery of the row `id`, leased `attempts` times so far. True while it will be tried
-- again.
unfoldable pub fail : Settings → ℕ → ℕ → ℕ → Failure → List InboxRow → Bool × List InboxRow
fail s now id attempts error rows = elim (delay_after s.backoff attempts) [
  | none ↦ (false, fail_inbox id (reason_of error) rows)
  | some delay ↦
      if hopeless error
      then (false, fail_inbox id (reason_of error) rows)
      else (true, retry_inbox id (reason_of error) (now + delay) rows)
]

-- The rows taken back, which the source renders as one line each, and the table.
abbrev pub reclaim : ℕ → Bool → List InboxRow → List InboxRow × List InboxRow
reclaim now expired_only = reclaim_inbox (if expired_only then some now else none)

abbrev pub purge : Settings → ℕ → List InboxRow → ℕ × List InboxRow
purge s now = purge_inbox (now - s.retention)
