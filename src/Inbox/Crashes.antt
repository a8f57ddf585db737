-- ===== src/Inbox/Crashes.antt =====
-- What becomes of an inbox row whose delivery kills the process: leases of store/db.py, and the reclaim
-- with which the next process starts.
use siatt.Base.{
  ℕ, suc, ◌+◌, ◌≡◌, refl, ap, ◌∙◌, subst, inl, inr, Bool, true, ◌&&◌, none, some, List, [], ◌∷◌,
  arith, if◌then◌else◌, Bool-cases, ◌==◌, nat_keyed, string_keyed, elem, pair_keyed, take,
}
use siatt.Sql.{select_where}
use siatt.Inbox.{
  pending, expired, is_leased, InboxRow, deliverable, offered, lease_inbox, reclaim_inbox, lease,
  reclaim,
}
use siatt.Inbox.Shape.{ids_of, IsWellFormed, step-IsWellFormed}
use siatt.Inbox.Rows.{row_of, row_of-id, change, row_of-update_where}
use siatt.Inbox.Leasing.{leased_ids, lease_inbox-claimed, lease_inbox-row}

-- What a process asks for before it dies with all that it leased.
pub record Crash : Type 0 where
  pub limit : ℕ
  pub now : ℕ
  pub until : ℕ
  pub exclude : List ℕ
  pub only : List ℕ

abbrev pub leased_by : Crash → List InboxRow → List ℕ
leased_by c rows = leased_ids (lease_inbox c.limit c.now c.until c.exclude c.only rows).0

abbrev pub crash : Crash → List InboxRow → List InboxRow
crash c rows = (reclaim_inbox none (lease_inbox c.limit c.now c.until c.exclude c.only rows).1).1

abbrev pub crashes : List Crash → List InboxRow → List InboxRow
crashes [] rows = rows
crashes (c ∷ cs) rows = crashes cs (crash c rows)

-- How many of the processes had the row in hand.
abbrev pub times_leased : ℕ → List Crash → List InboxRow → ℕ
times_leased k [] rows = 0
times_leased k (c ∷ cs) rows =
    (if elem k (leased_by c rows) then 1 else 0) + times_leased k cs (crash c rows)

crash-IsWellFormed :
    (c : Crash) (rows : List InboxRow) → IsWellFormed rows → IsWellFormed (crash c rows)
crash-IsWellFormed c rows w =
    step-IsWellFormed (reclaim none) _
      (step-IsWellFormed (lease c.limit c.now c.until c.exclude c.only) rows w)

abbrev leased_still : InboxRow → Bool
leased_still r = is_leased r.state && expired none r.lease_until

abbrev freed : InboxRow → InboxRow
freed r = record r { state = pending; lease_until = none }

crash-row :
    (k : ℕ) (c : Crash) (rows : List InboxRow) (r : InboxRow)
    → IsWellFormed rows
    → row_of k rows ≡ some r
    → r.state ≡ pending
    → r.lease_until ≡ none
    → row_of k (crash c rows)
      ≡ some (record r { attempts = r.attempts + (if elem k (leased_by c rows) then 1 else 0) })
unfolding reclaim_inbox
crash-row k c rows r w e s u =
    row_of-update_where k leased_still freed (λ x. refl)
      (lease_inbox c.limit c.now c.until c.exclude c.only rows).1
    ∙ ap (change leased_still freed)
        (lease_inbox-row c.limit c.now c.until k c.exclude c.only rows r w e).0
    ∙ elim (Bool-cases (elem k (leased_by c rows))) [
      | inl h ↦ rw h (ground (arith, s, u))
      | inr h ↦ rw h (ground (arith, s, u))
    ]

-- A row that a selection of its id takes is among the first of them.
elem-first :
    (k n : ℕ) (q : InboxRow → Bool) (rows : List InboxRow) (r : InboxRow)
    → ((x : InboxRow) → q x ≡ true → (x.id == k) ≡ true)
    → row_of k rows ≡ some r
    → q r ≡ true
    → elem k (take (suc n) (ids_of (select_where q rows))) ≡ true
elem-first k n q [] r h e g = absurd (cc e)
elem-first k n q (x ∷ rows) r h e g = elim (Bool-cases (q x)) [
  | inl hit ↦ rw hit (ground (arith, h x hit))
  | inr miss ↦ elim (Bool-cases (x.id == k)) [
    | inl here ↦ let same : x ≡ r = cc (rw here at e) in absurd (cc (miss, ap q same ∙ g))
    | inr there ↦ rw miss (elem-first k n q rows r h (rw there at e) g)
  ]
]

pub record Survives (k attempts : ℕ) (rows : List InboxRow) : Type 0 where
  pub row : InboxRow
  pub found : row_of k rows ≡ some row
  pub waits : row.state ≡ pending
  pub free : row.lease_until ≡ none
  pub counted : row.attempts ≡ attempts
  pub offered_again :
      (n now until : ℕ)
      → elem k (leased_ids (lease_inbox (suc n) now until [] (k ∷ []) rows).0) ≡ true

Survives-here :
    (k : ℕ) (rows : List InboxRow) (r : InboxRow)
    → IsWellFormed rows
    → row_of k rows ≡ some r
    → r.state ≡ pending
    → r.lease_until ≡ none
    → Survives k r.attempts rows
Survives-here k rows r w e s u = record {
  row = r;
  found = e;
  waits = s;
  free = u;
  counted = refl;
  offered_again = λ n now until. rw (lease_inbox-claimed (suc n) now until [] (k ∷ []) rows w) (
      elem-first k n (λ x. deliverable now x && offered [] (k ∷ []) x.id) rows r
        (λ x q. ground (arith, q)) e (ground (arith, s, u, row_of-id k rows r e)));
}

-- A row of a well-formed table that is pending and free comes back pending and free however many
-- processes die, whatever each of them leased, with one more attempt for each that had it in hand; and
-- whatever that count is, a lease that asks for the row hands it out again.
pub crash_loop :
    (k : ℕ) (cs : List Crash) (rows : List InboxRow) (r : InboxRow)
    → IsWellFormed rows
    → row_of k rows ≡ some r
    → r.state ≡ pending
    → r.lease_until ≡ none
    → Survives k (r.attempts + times_leased k cs rows) (crashes cs rows)
crash_loop k [] rows r w e s u =
    let nothing : r.attempts ≡ r.attempts + 0 = omega arith in
    subst (λ n. Survives k n rows) nothing (Survives-here k rows r w e s u)
crash_loop k (c ∷ cs) rows r w e s u =
    let once = if elem k (leased_by c rows) then 1 else 0 in
    let sum : r.attempts + once + times_leased k cs (crash c rows)
        ≡ r.attempts + (once + times_leased k cs (crash c rows)) =
      omega arith in
    subst (λ n. Survives k n (crashes cs (crash c rows))) sum
      (crash_loop k cs (crash c rows) (record r { attempts = r.attempts + once })
        (crash-IsWellFormed c rows w) (crash-row k c rows r w e s u) s u)
