-- ===== src/Inbox/Receive.antt =====
-- `Inbox.lease` of core/inbox.py: which of the rows that the store leases become events, which
-- become dead letters, and which rows are leased afterwards.
use siatt.Base.{
  ℕ, ◌+◌, ◌≤◌, String, ◌≡◌, refl, sym, ap, ◌∙◌, inl, inr, Bool, true, false, not, ◌&&◌, ◌||◌, List,
  [], ◌∷◌, ◌++◌, map, arith, if◌then◌else◌, Bool-cases, ◌==◌, nat_keyed, string_keyed, elem,
  Distinct, same_sym, pair_keyed, length, length-take-le, length-map,
}
use mathlib.Core.List.{append-nil, append_assoc, map-append}
use siatt.Sql.{
  select_where, delete_where, elem-select_where, Distinct-select_where, Distinct-take,
  elem-partition, partition-disjoint, length-select_where-le,
}
use siatt.Leases.{is_held, held-claimed, held-freed}
use siatt.Inbox.{
  RowState, pending, leased, InboxRow, LeasedRow, is_leased, is_done, lease_inbox, renew_inbox,
  complete_inbox, retry_inbox, fail_inbox, release_inbox, reclaim_inbox, purge_inbox, mark_leased,
  deliverable, offered, claimed,
}
use siatt.Inbox as Ops
use siatt.Inbox.Shape.{ids_of, IsWellFormed, step-IsWellFormed}
use siatt.Inbox.Rows.{Above-Distinct}
use siatt.Inbox.Leasing.{leased_ids, lease_inbox-claimed, lease_inbox-excluded, ids-leased_row}
use siatt.Inbox.Queue
use siatt.Inbox.Queue.{
  Settings, Validated, valid, invalid, LeasedEvent, from_json, receive, receive_one,
}

-- Whether the row of an id is leased.
abbrev pub held : List InboxRow → ℕ → Bool
held = is_held (λ r. r.id) (λ r. is_leased r.state)

pub held-fail_inbox :
    (j : ℕ) (error : String) (k : ℕ) (rows : List InboxRow)
    → held (fail_inbox j error rows) k ≡ (held rows k && not (k == j))
unfolding fail_inbox
held-fail_inbox j error k rows = held-freed _ _ j _ k (λ r. refl) (λ r. refl) rows

abbrev pub is_valid : {E : Type 0} → Validated E → Bool
is_valid (valid event) = true
is_valid (invalid reason) = false

module _ (E : Type 0) (validate_json : String → Validated E) where
  abbrev Received : Type 0
  Received = List (LeasedEvent E) × List InboxRow

  abbrev parses : LeasedRow → Bool
  parses r = is_valid (from_json validate_json r.payload)

  abbrev pub event_ids : List (LeasedEvent E) → List ℕ
  event_ids = map (λ x. x.id)

  event_ids-receive_one :
      (r : LeasedRow) (v : Validated E) (tail : List LeasedRow) (rest : Received → Received)
      → ((acc : Received) → event_ids (rest acc).0 ≡ event_ids acc.0 ++ leased_ids tail)
      → (acc : Received)
      → event_ids (rest (receive_one validate_json r v acc)).0
        ≡ event_ids acc.0 ++ leased_ids (if is_valid v then r ∷ tail else tail)
  event_ids-receive_one r (valid event) tail rest ih (ls, rows) =
      ih (ls ++ new ∷ [], rows)
      ∙ ap (λ ids. ids ++ leased_ids tail) (map-append (λ x. x.id) ls (new ∷ []))
      ∙ append_assoc (event_ids ls) (r.id ∷ []) (leased_ids tail)
    where
      new : LeasedEvent E
      new = record { id = r.id; event = event; attempts = r.attempts }
  event_ids-receive_one r (invalid reason) tail rest ih (ls, rows) =
      ih (ls, fail_inbox r.id reason rows)

  -- Of the rows handed out, those that parse become events, in order.
  event_ids-receive :
      (rs : List LeasedRow) (acc : Received)
      → event_ids (receive validate_json rs acc).0
        ≡ event_ids acc.0 ++ leased_ids (select_where parses rs)
  event_ids-receive [] acc = sym (append-nil (event_ids acc.0))
  event_ids-receive (r ∷ rs) acc =
      event_ids-receive_one r (from_json validate_json r.payload) (select_where parses rs)
        (receive validate_json rs) (event_ids-receive rs) acc

  held-receive_one :
      (k : ℕ) (r : LeasedRow) (v : Validated E) (tail : List LeasedRow) (rest : Received → Received)
      → ((acc : Received) → held (rest acc).1 k ≡ (held acc.1 k && not (elem k (leased_ids tail))))
      → (acc : Received)
      → held (rest (receive_one validate_json r v acc)).1 k
        ≡ (held acc.1 k && not (elem k (leased_ids (if not (is_valid v) then r ∷ tail else tail))))
  held-receive_one k r (valid event) tail rest ih (ls, rows) = ih _
  held-receive_one k r (invalid reason) tail rest ih (ls, rows) =
      ih (ls, fail_inbox r.id reason rows)
      ∙ ap (λ b. b && not (elem k (leased_ids tail))) (held-fail_inbox r.id reason k rows)
      ∙ split (held rows k) (k == r.id) (r.id == k) (elem k (leased_ids tail)) (same_sym k r.id)
    where
      split : (a b c d : Bool) → b ≡ c → ((a && not b) && not d) ≡ (a && not (c || d))
      split a b c d h = ground arith

  -- The others are dead letters.
  held-receive :
      (k : ℕ) (rs : List LeasedRow) (acc : Received)
      → held (receive validate_json rs acc).1 k
        ≡ (held acc.1 k && not (elem k (leased_ids (delete_where parses rs))))
  held-receive k [] acc = ground arith
  held-receive k (r ∷ rs) acc =
      held-receive_one k r (from_json validate_json r.payload) (delete_where parses rs)
        (receive validate_json rs) (held-receive k rs) acc

  receive-IsWellFormed :
      (rs : List LeasedRow) (acc : Received)
      → IsWellFormed acc.1
      → IsWellFormed (receive validate_json rs acc).1
  receive-IsWellFormed [] acc w = w
  receive-IsWellFormed (r ∷ rs) acc w =
      receive-IsWellFormed rs _ (one (from_json validate_json r.payload) acc w)
    where
      one :
          (v : Validated E) (acc : Received)
          → IsWellFormed acc.1
          → IsWellFormed (receive_one validate_json r v acc).1
      one (valid event) acc w = w
      one (invalid reason) acc w = step-IsWellFormed (Ops.fail r.id reason) acc.1 w

  module _ (s : Settings) (now limit : ℕ) (exclude only : List ℕ) (rows : List InboxRow) where
    abbrev pub handed : List LeasedRow × List InboxRow
    handed = lease_inbox limit now (now + s.lease_ttl) exclude only rows

    abbrev pub events : List (LeasedEvent E)
    events = (Queue.lease validate_json s now limit exclude only rows).0

    event_ids-lease : event_ids events ≡ leased_ids (select_where parses handed.0)
    unfolding Queue.lease
    event_ids-lease = event_ids-receive handed.0 ([], handed.1)

    handed-Distinct : IsWellFormed rows → Distinct (leased_ids handed.0)
    handed-Distinct w = rw (lease_inbox-claimed limit now (now + s.lease_ttl) exclude only rows w) (
        Distinct-take limit _ (
          Distinct-select_where (λ (r : InboxRow). r.id) _ rows
            (Above-Distinct 0 (ids_of rows) w.ascending)))

    pub lease-IsWellFormed :
        IsWellFormed rows → IsWellFormed (Queue.lease validate_json s now limit exclude only rows).1
    unfolding Queue.lease
    lease-IsWellFormed w =
        receive-IsWellFormed handed.0 ([], handed.1)
          (step-IsWellFormed (Ops.lease limit now (now + s.lease_ttl) exclude only) rows w)

    pub events-Distinct : IsWellFormed rows → Distinct (event_ids events)
    events-Distinct w =
        rw event_ids-lease
          (Distinct-select_where (λ (r : LeasedRow). r.id) parses handed.0 (handed-Distinct w))

    pub events_fresh :
        (k : ℕ) → IsWellFormed rows → elem k exclude ≡ true → elem k (event_ids events) ≡ false
    events_fresh k w x = rw event_ids-lease (
        elem-select_where (λ (r : LeasedRow). r.id) k parses handed.0
          (lease_inbox-excluded limit now (now + s.lease_ttl) k exclude only rows w x))

    pub length-events : IsWellFormed rows → length events ≤ limit
    length-events w = omega (
      arith,
      length-map (λ (x : LeasedEvent E). x.id) events,
      ap length event_ids-lease,
      length-map (λ (r : LeasedRow). r.id) (select_where parses handed.0),
      length-select_where-le parses handed.0,
      length-map (λ (r : LeasedRow). r.id) handed.0,
      ap length (lease_inbox-claimed limit now (now + s.lease_ttl) exclude only rows w),
      length-take-le limit
          (ids_of (select_where (λ r. deliverable now r && offered exclude only r.id) rows)),
    )

    held-handed : (k : ℕ) → held handed.1 k ≡ (held rows k || elem k (leased_ids handed.0))
    unfolding lease_inbox
    held-handed k =
        held-claimed _ _ (claimed limit now exclude only rows) (mark_leased (now + s.lease_ttl)) k
          (λ r. refl) (λ r. refl) rows
        ∙ ap (λ ids. held rows k || elem k ids) (sym (ids-leased_row (now + s.lease_ttl) _))

    pub held-lease :
        (k : ℕ)
        → IsWellFormed rows
        → ((j : ℕ) → held rows j ≡ true → elem j exclude ≡ true)
        → held (Queue.lease validate_json s now limit exclude only rows).1 k
          ≡ (held rows k || elem k (event_ids events))
    unfolding Queue.lease
    held-lease k w mine =
        held-receive k handed.0 ([], handed.1)
        ∙ ap (λ b. b && not (elem k (leased_ids (delete_where parses handed.0)))) (held-handed k)
        ∙ combined
        ∙ ap (λ ids. held rows k || elem k ids) (sym event_ids-lease)
      where
        good : List LeasedRow
        good = select_where parses handed.0

        bad : List LeasedRow
        bad = delete_where parses handed.0

        combined :
            ((held rows k || elem k (leased_ids handed.0)) && not (elem k (leased_ids bad)))
            ≡ (held rows k || elem k (leased_ids good))
        combined = elim (Bool-cases (held rows k)) [
          | inl h ↦ ground (
            arith,
            lease_inbox-excluded limit now (now + s.lease_ttl) k exclude only rows w (mine k h),
            elem-partition (λ (r : LeasedRow). r.id) parses k handed.0,
          )
          | inr h ↦ ground (
            arith,
            elem-partition (λ (r : LeasedRow). r.id) parses k handed.0,
            partition-disjoint (λ (r : LeasedRow). r.id) parses k handed.0 (handed-Distinct w),
          )
        ]
