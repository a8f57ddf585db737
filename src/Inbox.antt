-- ===== src/Inbox.antt =====
-- The `inbox` table of store/db.py and its statements (migrations/0007_inbox.sql), one function for
-- each `*_inbox` method of `Store`. Times are milliseconds: the fixed-width UTC stamps that the
-- source compares as texts are ordered as the instants are.
pub mod Shape
pub mod Dedupe
pub mod Rows
pub mod Leasing
pub mod Crashes
pub mod Queue
pub mod Outcome
pub mod Dead
pub mod Receive
pub mod Drained
pub mod Tests
use siatt.Base.{
  ℕ, suc, ◌+◌, ◌-◌, max, String, ◌≡◌, refl, Bool, true, false, not, ◌&&◌, ◌||◌, Option, none, some,
  List, [], ◌∷◌, ◌++◌, map, ltb, leb, if◌then◌else◌, Keyed, ◌==◌, nat_keyed, string_keyed, elem,
  take, null,
}
use siatt.Sql.{update_where, select_where, delete_where, returning, count_where}

pub data RowState : Type 0 where
  pending leased done failed : RowState

abbrev pub is_pending : RowState → Bool
is_pending pending = true
is_pending _ = false

abbrev pub is_leased : RowState → Bool
is_leased leased = true
is_leased _ = false

abbrev pub is_done : RowState → Bool
is_done done = true
is_done _ = false

abbrev pub is_failed : RowState → Bool
is_failed failed = true
is_failed _ = false

pub done-unleased : (state : RowState) → is_done state ≡ true → is_leased state ≡ false
done-unleased leased h = cc
done-unleased _ h = refl

pub record InboxRow : Type 0 where
  pub id : ℕ
  pub source : String
  pub external_id : String
  pub payload : String
  pub received_at : ℕ
  pub state : RowState
  pub lease_until : Option ℕ
  pub attempts : ℕ
  pub last_error : Option String

-- What `RETURNING id, payload, attempts` hands out.
pub record LeasedRow : Type 0 where
  pub id : ℕ
  pub payload : String
  pub attempts : ℕ

-- `UNIQUE (source, external_id)`
abbrev pub same_event : String → String → InboxRow → Bool
same_event source external_id r = r.source == source && r.external_id == external_id

abbrev pub find_event : String → String → List InboxRow → Option InboxRow
find_event source external_id [] = none
find_event source external_id (r ∷ rows) =
    if same_event source external_id r then some r else find_event source external_id rows

-- SQLite's next INTEGER PRIMARY KEY: one above the largest in use.
abbrev pub max_id : List InboxRow → ℕ
max_id [] = 0
max_id (r ∷ rows) = max r.id (max_id rows)

abbrev pub new_row : ℕ → String → String → String → List InboxRow → InboxRow
new_row now source external_id payload rows = record {
  id = suc (max_id rows);
  source = source;
  external_id = external_id;
  payload = payload;
  received_at = now;
  state = pending;
  lease_until = none;
  attempts = 0;
  last_error = none;
}

-- The id, and whether the event was already queued.
unfoldable pub enqueue_inbox :
    ℕ → String → String → String → List InboxRow → (ℕ × Bool) × List InboxRow
enqueue_inbox now source external_id payload rows = elim (find_event source external_id rows) [
  | some r ↦ ((r.id, true), rows)
  | none ↦ ((suc (max_id rows), false), rows ++ new_row now source external_id payload rows ∷ [])
]

-- `lease_until <= ?` on a column that may be NULL.
abbrev pub due : Option ℕ → ℕ → Bool
due none now = false
due (some t) now = leb t now

-- `lease_until IS NULL OR lease_until <= ?`
abbrev pub free_or_due : Option ℕ → ℕ → Bool
free_or_due none now = true
free_or_due (some t) now = leb t now

abbrev pub deliverable : ℕ → InboxRow → Bool
deliverable now r =
    (is_pending r.state && free_or_due r.lease_until now)
    || (is_leased r.state && due r.lease_until now)

-- The `skip` and `pick` clauses: an empty list adds no clause.
abbrev pub offered {ℓ} : {K : Type ℓ} ⦃e : Keyed K⦄ → List K → List K → K → Bool
offered exclude only id = not (elem id exclude) && (null only || elem id only)

-- The ids that the inner SELECT of `lease_inbox` picks, oldest first.
abbrev pub claimed : ℕ → ℕ → List ℕ → List ℕ → List InboxRow → List ℕ
claimed limit now exclude only rows =
    take limit
      (map (λ r. r.id) (select_where (λ r. deliverable now r && offered exclude only r.id) rows))

abbrev pub mark_leased : ℕ → InboxRow → InboxRow
mark_leased lease_until r = record r {
  state = leased;
  lease_until = some lease_until;
  attempts = r.attempts + 1;
}

abbrev pub leased_row : InboxRow → LeasedRow
leased_row r = record { id = r.id; payload = r.payload; attempts = r.attempts }

unfoldable pub lease_inbox :
    ℕ → ℕ → ℕ → List ℕ → List ℕ → List InboxRow → List LeasedRow × List InboxRow
lease_inbox limit now lease_until exclude only rows =
    let ids = claimed limit now exclude only rows in
    (
      map leased_row (returning (λ r. elem r.id ids) (mark_leased lease_until) rows),
      update_where (λ r. elem r.id ids) (mark_leased lease_until) rows,
    )

unfoldable pub renew_inbox : List ℕ → ℕ → List InboxRow → List InboxRow
renew_inbox ids lease_until =
    update_where (λ r. is_leased r.state && elem r.id ids)
      (λ r. record r { lease_until = some lease_until })

unfoldable pub complete_inbox : ℕ → List InboxRow → List InboxRow
complete_inbox inbox_id =
    update_where (λ r. r.id == inbox_id)
      (λ r. record r { state = done; lease_until = none; last_error = none })

unfoldable pub retry_inbox : ℕ → String → ℕ → List InboxRow → List InboxRow
retry_inbox inbox_id error not_before =
    update_where (λ r. r.id == inbox_id)
      (λ r. record r { state = pending; lease_until = some not_before; last_error = some error })

unfoldable pub fail_inbox : ℕ → String → List InboxRow → List InboxRow
fail_inbox inbox_id error =
    update_where (λ r. r.id == inbox_id)
      (λ r. record r { state = failed; lease_until = none; last_error = some error })

-- `MAX(attempts - 1, 0)` is the truncated subtraction.
unfoldable pub release_inbox : List ℕ → List InboxRow → List InboxRow
release_inbox ids =
    update_where (λ r. is_leased r.state && elem r.id ids)
      (λ r. record r { state = pending; lease_until = none; attempts = r.attempts - 1 })

-- The `clause` of `reclaim_inbox`: with no `now`, every leased row.
abbrev pub expired : Option ℕ → Option ℕ → Bool
expired none lease_until = true
expired (some now) lease_until = due lease_until now

unfoldable pub reclaim_inbox : Option ℕ → List InboxRow → List InboxRow × List InboxRow
reclaim_inbox now rows =
    let stopped = λ (r : InboxRow). is_leased r.state && expired now r.lease_until in
    let free = λ (r : InboxRow). record r { state = pending; lease_until = none } in
    (returning stopped free rows, update_where stopped free rows)

unfoldable pub inbox_failed : ℕ → List InboxRow → List InboxRow
inbox_failed limit rows = take limit (select_where (λ r. is_failed r.state) rows)

unfoldable pub revive_inbox_failed : List InboxRow → ℕ × List InboxRow
revive_inbox_failed rows = (
  count_where (λ r. is_failed r.state) rows,
  update_where (λ r. is_failed r.state)
      (λ r. record r { state = pending; attempts = 0; lease_until = none }) rows,
)

unfoldable pub purge_inbox : ℕ → List InboxRow → ℕ × List InboxRow
purge_inbox before rows =
    let old = λ (r : InboxRow). is_done r.state && ltb r.received_at before in
    (count_where old rows, delete_where old rows)

-- A statement of the store on this table, with its arguments.
pub data InboxOp : Type 0 where
  enqueue : ℕ → String → String → String → InboxOp
  lease : ℕ → ℕ → ℕ → List ℕ → List ℕ → InboxOp
  renew : List ℕ → ℕ → InboxOp
  complete : ℕ → InboxOp
  retry : ℕ → String → ℕ → InboxOp
  fail : ℕ → String → InboxOp
  release : List ℕ → InboxOp
  reclaim : Option ℕ → InboxOp
  revive : InboxOp
  purge : ℕ → InboxOp

abbrev pub step : InboxOp → List InboxRow → List InboxRow
step (enqueue now source external_id payload) rows =
    (enqueue_inbox now source external_id payload rows).1
step (lease limit now until exclude only) rows = (lease_inbox limit now until exclude only rows).1
step (renew ids until) rows = renew_inbox ids until rows
step (complete id) rows = complete_inbox id rows
step (retry id error not_before) rows = retry_inbox id error not_before rows
step (fail id error) rows = fail_inbox id error rows
step (release ids) rows = release_inbox ids rows
step (reclaim now) rows = (reclaim_inbox now rows).1
step revive rows = (revive_inbox_failed rows).1
step (purge before) rows = (purge_inbox before rows).1

-- The statements commit one after the other, whoever sends them.
abbrev pub run : List InboxOp → List InboxRow → List InboxRow
run [] rows = rows
run (op ∷ ops) rows = run ops (step op rows)
