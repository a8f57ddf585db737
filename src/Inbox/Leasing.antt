-- ===== src/Inbox/Leasing.antt =====
-- What `lease_inbox` of store/db.py promises its callers, and the ways back from a lease.
use siatt.Base.{
  ℕ, ◌<◌, String, ◌≡◌, refl, ap, ◌∙◌, inl, inr, Bool, true, false, ◌&&◌, none, some, List, [], ◌∷◌,
  map, arith, nat_same_iff, if◌then◌else◌, Bool-cases, ◌==◌, nat_keyed, string_keyed, elem,
  pair_keyed, take,
}
use siatt.Sql.{select_where, elem-take}
use siatt.Inbox.{
  pending, is_leased, InboxRow, LeasedRow, deliverable, offered, claimed, mark_leased, leased_row,
  lease_inbox, retry_inbox, release_inbox, lease, retry,
}
use siatt.Inbox.Shape.{ids_of, IsWellFormed, step-IsWellFormed}
use siatt.Inbox.Rows.{
  row_of, change, row_of-update_where, row_of-id, elem-unselected, elem-unselected_updated,
  select_claimed,
}

abbrev pub leased_ids : List LeasedRow → List ℕ
leased_ids = map (λ r. r.id)

pub ids-leased_row :
    (until : ℕ) (rows : List InboxRow)
    → leased_ids (map leased_row (map (mark_leased until) rows)) ≡ ids_of rows
ids-leased_row until [] = refl
ids-leased_row until (r ∷ rows) = ap (◌∷◌ r.id) (ids-leased_row until rows)

-- On a well-formed table a lease hands out exactly the oldest deliverable rows that are on offer,
-- as many as `limit` allows.
pub lease_inbox-claimed :
    (limit now until : ℕ) (exclude only : List ℕ) (rows : List InboxRow)
    → IsWellFormed rows
    → leased_ids (lease_inbox limit now until exclude only rows).0
      ≡ take limit
          (ids_of (select_where (λ r. deliverable now r && offered exclude only r.id) rows))
unfolding lease_inbox
lease_inbox-claimed limit now until exclude only rows w =
    ids-leased_row until _ ∙ select_claimed 0 limit _ rows _ w.ascending refl

abbrev selected : ℕ → List ℕ → List ℕ → InboxRow → Bool
selected now exclude only r = deliverable now r && offered exclude only r.id

row_of-lease_inbox :
    (limit now until k : ℕ) (exclude only : List ℕ) (rows : List InboxRow) (r : InboxRow)
    → row_of k rows ≡ some r
    → row_of k (lease_inbox limit now until exclude only rows).1
      ≡ some (if elem k (claimed limit now exclude only rows) then mark_leased until r else r)
unfolding lease_inbox
row_of-lease_inbox limit now until k exclude only rows r e =
    let ids = claimed limit now exclude only rows in
    row_of-update_where k (λ x. elem x.id ids) (mark_leased until) (λ x. refl) rows
    ∙ ap (change (λ x. elem x.id ids) (mark_leased until)) e
    ∙ ap (λ i. some (if elem i ids then mark_leased until r else r)) (row_of-id k rows r e)

-- What the caller excludes is not handed out.
pub lease_inbox-excluded :
    (limit now until k : ℕ) (exclude only : List ℕ) (rows : List InboxRow)
    → IsWellFormed rows
    → elem k exclude ≡ true
    → elem k (leased_ids (lease_inbox limit now until exclude only rows).0) ≡ false
lease_inbox-excluded limit now until k exclude only rows w x =
    rw (lease_inbox-claimed limit now until exclude only rows w) (
      elem-take k limit _
        (elem-unselected k (selected now exclude only) rows (λ y q. ground arith)))

-- Seen at one id, a lease gives each row that it hands out the new deadline and one more attempt,
-- and leaves every other row as it was; an excluded row is never handed out.
pub lease_inbox-row :
    (limit now until k : ℕ) (exclude only : List ℕ) (rows : List InboxRow) (r : InboxRow)
    → IsWellFormed rows
    → row_of k rows ≡ some r
    → let (got, table) = lease_inbox limit now until exclude only rows in
      (row_of k table ≡ some (if elem k (leased_ids got) then mark_leased until r else r))
      × (elem k exclude ≡ true → elem k (leased_ids got) ≡ false)
lease_inbox-row limit now until k exclude only rows r w e = (
  rw (lease_inbox-claimed limit now until exclude only rows w)
      (row_of-lease_inbox limit now until k exclude only rows r e),
  lease_inbox-excluded limit now until k exclude only rows w,
)

-- Until a lease expires its rows are handed to nobody else, whatever they ask for.
pub lease_inbox-exclusive :
    (limit now until k : ℕ) (exclude only : List ℕ) (rows : List InboxRow)
    → (limit' later until' : ℕ) (exclude' only' : List ℕ) → IsWellFormed rows
    → later < until
    → let (got, table) = lease_inbox limit now until exclude only rows in
      elem k (leased_ids got) ≡ true
      → elem k (leased_ids (lease_inbox limit' later until' exclude' only' table).0) ≡ false
lease_inbox-exclusive limit now until k exclude only rows limit' later until' exclude' only' w h
      got =
    rw
      (lease_inbox-claimed limit' later until' exclude' only' _
        (step-IsWellFormed (lease limit now until exclude only) rows w))
      (elem-take k limit' _ (
        unfold lease_inbox in
        elem-unselected_updated k (selected later exclude' only') _ (mark_leased until) rows
          (λ r. refl)
          (λ r q.
            let hit : elem r.id (claimed limit now exclude only rows) ≡ true =
              rw q (rw (lease_inbox-claimed limit now until exclude only rows w) at got) in
            rw hit (ground arith))))

-- A clean shutdown gives the attempt back: releasing what a lease handed out leaves each of those
-- rows pending, free at once, with the attempts that it had; the other rows are as they were.
pub release_inbox-lease_inbox :
    (limit now until k : ℕ) (exclude only : List ℕ) (rows : List InboxRow) (r : InboxRow)
    → IsWellFormed rows
    → row_of k rows ≡ some r
    → let (got, table) = lease_inbox limit now until exclude only rows in
      row_of k (release_inbox (leased_ids got) table)
      ≡ some
          (if elem k (leased_ids got) then record r { state = pending; lease_until = none } else r)
unfolding release_inbox
release_inbox-lease_inbox limit now until k exclude only rows r w e =
    let got = lease_inbox limit now until exclude only rows in
    let ids = leased_ids got.0 in
    row_of-update_where k (λ x. is_leased x.state && elem x.id ids) _ (λ x. refl) got.1
    ∙ ap (change (λ x. is_leased x.state && elem x.id ids) _)
        (lease_inbox-row limit now until k exclude only rows r w e).0
    ∙ elim (Bool-cases (elem k ids)) [
      | inl h ↦
          let known : elem r.id ids ≡ true = rw (row_of-id k rows r e) h in
          rw h (rw known (ground arith))
      | inr h ↦
          let known : elem r.id ids ≡ false = rw (row_of-id k rows r e) h in rw h (ground arith)
    ]

-- A failed delivery that is retried is handed to nobody before its delay is over.
pub retry_inbox-waits :
    (k not_before limit now until : ℕ) (error : String) (exclude only : List ℕ)
    → (rows : List InboxRow) → IsWellFormed rows
    → now < not_before
    → elem k (
        leased_ids
          (lease_inbox limit now until exclude only (retry_inbox k error not_before rows)).0)
      ≡ false
retry_inbox-waits k not_before limit now until error exclude only rows w h =
    rw
      (lease_inbox-claimed limit now until exclude only _
        (step-IsWellFormed (retry k error not_before) rows w))
      (elem-take k limit _ (
        unfold retry_inbox in
        elem-unselected_updated k (selected now exclude only) _ _ rows (λ r. refl)
          (λ r q.
            let hit : (r.id == k) ≡ true = (nat_same_iff r.id k).1 q in rw hit (ground arith))))
