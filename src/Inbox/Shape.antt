-- ===== src/Inbox/Shape.antt =====
-- What holds of the `inbox` table of store/db.py whatever statements reach it.
use siatt.Base.{
  ℕ, ◌≤◌, ◌<◌, String, ◌≡◌, refl, ◌≢◌, inl, inr, Bool, true, false, Option, none, some, List, [],
  ◌∷◌, ◌++◌, map, arith, Bool-cases, Option-cases, nat_keyed, string_keyed, elem, Distinct,
  same_sym, Distinct-append, pair_keyed, Every, Every-append,
}
use mathlib.Core.List.{map-append}
use siatt.Sql.{
  update_where, select_where, map-update_where, Every-update_where, Every-select_where,
  Distinct-select_where,
}
use siatt.Inbox.{
  RowState, pending, leased, done, failed, is_leased, InboxRow, find_event, max_id, enqueue_inbox,
  lease_inbox, renew_inbox, complete_inbox, retry_inbox, fail_inbox, release_inbox, reclaim_inbox,
  revive_inbox_failed, purge_inbox, InboxOp, enqueue, lease, renew, complete, retry, fail, release,
  reclaim, revive, purge, step, run, new_row,
}

-- `(source, external_id)`, the dedupe key
abbrev pub event_key : InboxRow → String × String
event_key r = (r.source, r.external_id)

-- Ids rise along the table, and stay above `n`.
abbrev pub Above : ℕ → List ℕ → Type 0
Above n [] = Unit
Above n (i ∷ ids) = (n < i) × Above i ids

-- What each state says of the other columns.
abbrev pub Coherent : RowState → Option ℕ → ℕ → Type 0
Coherent pending until attempts = Unit
Coherent leased until attempts = (until ≢ none) × (0 < attempts)
Coherent done until attempts = until ≡ none
Coherent failed until attempts = until ≡ none

abbrev pub IsCoherent : InboxRow → Type 0
IsCoherent r = Coherent r.state r.lease_until r.attempts

abbrev pub ids_of : List InboxRow → List ℕ
ids_of = map (λ r. r.id)

pub record IsWellFormed (rows : List InboxRow) : Type 0 where
  pub ascending : Above 0 (ids_of rows)
  pub unique : Distinct (map event_key rows)
  pub coherent : Every IsCoherent rows

-- An UPDATE that leaves id and key alone keeps the table well formed.
update-IsWellFormed :
    (p : InboxRow → Bool) (f : InboxRow → InboxRow)
    → ((r : InboxRow) → (f r).id ≡ r.id)
    → ((r : InboxRow) → event_key (f r) ≡ event_key r)
    → ((r : InboxRow) → IsCoherent r → p r ≡ true → IsCoherent (f r))
    → (rows : List InboxRow) → IsWellFormed rows
    → IsWellFormed (update_where p f rows)
update-IsWellFormed p f same_id same_key keep rows w = record {
  ascending = rw (map-update_where (λ (r : InboxRow). r.id) p f same_id rows) w.ascending;
  unique = rw (map-update_where event_key p f same_key rows) w.unique;
  coherent = Every-update_where IsCoherent p f keep rows w.coherent;
}

Above-mono : (m n : ℕ) (ids : List ℕ) → m ≤ n → Above n ids → Above m ids
Above-mono m n [] h a = tt
Above-mono m n (i ∷ ids) h a = (omega arith, a.1)

Above-select_where :
    (p : InboxRow → Bool) (n : ℕ) (rows : List InboxRow)
    → Above n (ids_of rows)
    → Above n (ids_of (select_where p rows))
Above-select_where p n [] a = tt
Above-select_where p n (r ∷ rows) a = elim (Bool-cases (p r)) [
  | inl e ↦ rw e (a.0, Above-select_where p r.id rows a.1)
  | inr e ↦ rw e (
      Above-mono n r.id (ids_of (select_where p rows)) (omega arith)
        (Above-select_where p r.id rows a.1))
]

purge-IsWellFormed :
    (before : ℕ) (rows : List InboxRow)
    → IsWellFormed rows
    → IsWellFormed (purge_inbox before rows).1
unfolding purge_inbox
purge-IsWellFormed before rows w = record {
  ascending = Above-select_where _ 0 rows w.ascending;
  unique = Distinct-select_where event_key _ rows w.unique;
  coherent = Every-select_where IsCoherent _ rows w.coherent;
}

-- An id above all the others may follow them.
Above-append :
    (n k : ℕ) (rows : List InboxRow) (r : InboxRow)
    → Above n (ids_of rows)
    → n < r.id
    → max_id rows < r.id
    → Above n (ids_of (rows ++ r ∷ []))
Above-append n k [] r a h m = (h, tt)
Above-append n k (x ∷ rows) r a h m =
    (a.0, Above-append x.id k rows r a.1 (omega arith) (omega arith))

-- `find_event` finds nothing exactly when the key is not in the table.
pub find_event-none :
    (source external_id : String) (rows : List InboxRow)
    → find_event source external_id rows ≡ none
    → elem (source, external_id) (map event_key rows) ≡ false
find_event-none source external_id [] h = refl
find_event-none source external_id (r ∷ rows) h = ground (
  arith,
  find_event-none source external_id rows,
  same_sym r.source source,
  same_sym r.external_id external_id,
)

enqueue-IsWellFormed :
    (now : ℕ) (source external_id payload : String) (rows : List InboxRow)
    → IsWellFormed rows
    → IsWellFormed (enqueue_inbox now source external_id payload rows).1
unfolding enqueue_inbox
enqueue-IsWellFormed now source external_id payload rows w =
    elim (Option-cases (find_event source external_id rows)) [
      | inl e ↦
          rw (e, enqueue_inbox)
            (record {
              ascending = Above-append 0 0 rows row w.ascending (omega arith) (omega arith);
              unique = rw (map-append event_key rows (row ∷ [])) (
                  Distinct-append (source, external_id) (map event_key rows) w.unique
                    (find_event-none source external_id rows e));
              coherent = Every-append IsCoherent rows (row ∷ []) w.coherent (tt, tt);
            })
      | inr (r, e) ↦ rw (e, enqueue_inbox) w
    ]
  where
    row : InboxRow
    row = new_row now source external_id payload rows

pub renew-Coherent :
    (s : RowState) (until : Option ℕ) (attempts t : ℕ)
    → is_leased s ≡ true
    → Coherent s until attempts
    → Coherent s (some t) attempts
renew-Coherent leased until attempts t h c = (λ q. cc, c.1)
renew-Coherent _ until attempts t h c = cc

-- Every statement keeps the table well formed.
pub step-IsWellFormed :
    (op : InboxOp) (rows : List InboxRow) → IsWellFormed rows → IsWellFormed (step op rows)
unfolding lease_inbox renew_inbox complete_inbox retry_inbox fail_inbox release_inbox reclaim_inbox
    revive_inbox_failed
step-IsWellFormed (enqueue now source external_id payload) rows w =
    enqueue-IsWellFormed now source external_id payload rows w
step-IsWellFormed (purge before) rows w = purge-IsWellFormed before rows w
step-IsWellFormed (lease limit now until exclude only) rows w =
    update-IsWellFormed _ _ (λ r. refl) (λ r. refl) (λ r c e. (λ q. cc, omega arith)) rows w
step-IsWellFormed (renew ids until) rows w =
    update-IsWellFormed _ _ (λ r. refl) (λ r. refl)
      (λ r c e. renew-Coherent r.state r.lease_until r.attempts until (ground arith) c) rows w
step-IsWellFormed (complete id) rows w =
    update-IsWellFormed _ _ (λ r. refl) (λ r. refl) (λ r c e. refl) rows w
step-IsWellFormed (retry id error not_before) rows w =
    update-IsWellFormed _ _ (λ r. refl) (λ r. refl) (λ r c e. tt) rows w
step-IsWellFormed (fail id error) rows w =
    update-IsWellFormed _ _ (λ r. refl) (λ r. refl) (λ r c e. refl) rows w
step-IsWellFormed (release ids) rows w =
    update-IsWellFormed _ _ (λ r. refl) (λ r. refl) (λ r c e. tt) rows w
step-IsWellFormed (reclaim now) rows w =
    update-IsWellFormed _ _ (λ r. refl) (λ r. refl) (λ r c e. tt) rows w
step-IsWellFormed revive rows w =
    update-IsWellFormed _ _ (λ r. refl) (λ r. refl) (λ r c e. tt) rows w

-- From a well-formed table every sequence of statements leads to one: ids rise and are never
-- shared, no event is queued twice, a leased row has a deadline and a counted attempt, and a
-- finished or dead row has no deadline.
pub run-IsWellFormed :
    (ops : List InboxOp) (rows : List InboxRow) → IsWellFormed rows → IsWellFormed (run ops rows)
run-IsWellFormed [] rows w = w
run-IsWellFormed (op ∷ ops) rows w =
    run-IsWellFormed ops (step op rows) (step-IsWellFormed op rows w)
