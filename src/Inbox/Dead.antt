-- ===== src/Inbox/Dead.antt =====
-- Dead letters of the `inbox` table of store/db.py: what no statement does to them.
use siatt.Base.{
  ℕ, String, ◌≡◌, refl, ap, ◌∙◌, ◌≢◌, inl, inr, Bool, false, ◌&&◌, some, List, [], ◌∷◌, ◌++◌, arith,
  ltb, Bool-cases, Option-cases, ◌==◌, nat_keyed, string_keyed, elem, pair_keyed, Every,
}
use siatt.Sql.{update_where, select_where, delete_where, elem-take, elem-select_where}
use siatt.Inbox.{
  RowState, leased, done, failed, is_leased, is_done, InboxRow, lease_inbox, renew_inbox,
  complete_inbox, retry_inbox, fail_inbox, release_inbox, reclaim_inbox, purge_inbox, enqueue_inbox,
  InboxOp, enqueue, lease, renew, complete, retry, fail, release, reclaim, revive, purge, step, run,
  claimed, find_event, deliverable, offered, expired,
}
use siatt.Inbox.Rows.{row_of, change, row_of-update_where, row_of-id, elem-Above}
use siatt.Inbox.Shape.{Above, ids_of, IsWellFormed, step-IsWellFormed}
use siatt.Inbox.Leasing.{leased_ids, lease_inbox-claimed}

-- A statement that is not about the row `k`: a report on it would have to come from a delivery,
-- and reviving is the operator's.
abbrev pub Rests : ℕ → InboxOp → Type 0
Rests k (complete j) = j ≢ k
Rests k (retry j error not_before) = j ≢ k
Rests k (fail j error) = j ≢ k
Rests k revive = ⊥
Rests k _ = Unit

row_of-append :
    (k : ℕ) (rows more : List InboxRow) (r : InboxRow)
    → row_of k rows ≡ some r
    → row_of k (rows ++ more) ≡ some r
row_of-append k [] more r e = cc
row_of-append k (x ∷ rows) more r e = elim (Bool-cases (x.id == k)) [
  | inl h ↦ rw h (rw h at e)
  | inr h ↦ rw h (row_of-append k rows more r (rw h at e))
]

enqueue-keeps :
    (now : ℕ) (source external_id payload : String) (k : ℕ) (rows : List InboxRow) (r : InboxRow)
    → row_of k rows ≡ some r
    → row_of k (enqueue_inbox now source external_id payload rows).1 ≡ some r
unfolding enqueue_inbox
enqueue-keeps now source external_id payload k rows r e =
    elim (Option-cases (find_event source external_id rows)) [
      | inl q ↦ rw (q, enqueue_inbox) (row_of-append k rows _ r e)
      | inr (x, q) ↦ rw (q, enqueue_inbox) e
    ]

-- An UPDATE that does not pick a failed row leaves it.
row_of_spared :
    (k : ℕ) (p : InboxRow → Bool) (f : InboxRow → InboxRow) (rows : List InboxRow) (r : InboxRow)
    → ((x : InboxRow) → (f x).id ≡ x.id)
    → row_of k rows ≡ some r
    → p r ≡ false
    → row_of k (update_where p f rows) ≡ some r
row_of_spared k p f rows r same e h =
    row_of-update_where k p f same rows ∙ ap (change p f) e ∙ rw h refl

row_of-delete_where :
    (k : ℕ) (p : InboxRow → Bool) (rows : List InboxRow) (r : InboxRow)
    → row_of k rows ≡ some r
    → p r ≡ false
    → row_of k (delete_where p rows) ≡ some r
row_of-delete_where k p [] r e h = e
row_of-delete_where k p (x ∷ rows) r e h = elim (Bool-cases (x.id == k)) [
  | inl hit ↦
      let found : some x ≡ some r = rw hit at e in
      let same : x ≡ r = cc in rw (ap p same ∙ h) (rw hit (ap some same))
  | inr miss ↦ elim (Bool-cases (p x)) [
    | inl gone ↦ rw gone (row_of-delete_where k p rows r (rw miss at e) h)
    | inr stays ↦ rw stays (rw miss (row_of-delete_where k p rows r (rw miss at e) h))
  ]
]

-- In a table with rising ids, a row that fails a test is not selected by it.
row_of-unselected :
    (n k : ℕ) (q : InboxRow → Bool) (rows : List InboxRow) (r : InboxRow)
    → Above n (ids_of rows)
    → row_of k rows ≡ some r
    → q r ≡ false
    → elem k (ids_of (select_where q rows)) ≡ false
row_of-unselected n k q [] r a e h = refl
row_of-unselected n k q (x ∷ rows) r a e h = elim (Bool-cases (x.id == k)) [
  | inl hit ↦
      let found : some x ≡ some r = rw hit at e in
      let same : x ≡ r = cc in
      let absent : elem k (ids_of rows) ≡ false =
        elem-Above x.id k (ids_of rows) (ground arith) a.1 in
      rw (ap q same ∙ h) (elem-select_where (λ (y : InboxRow). y.id) k q rows absent)
  | inr miss ↦
      let rest : elem k (ids_of (select_where q rows)) ≡ false =
        row_of-unselected x.id k q rows r a.1 (rw miss at e) h in
      elim (Bool-cases (q x)) [ inl picked ↦ rw picked (rw miss rest) | inr left ↦ rw left rest ]
]

failed-unleased : (s : RowState) → s ≡ failed → is_leased s ≡ false
failed-unleased leased h = cc
failed-unleased _ h = refl

failed-undone : (s : RowState) → s ≡ failed → is_done s ≡ false
failed-undone done h = cc
failed-undone _ h = refl

failed-undeliverable : (now : ℕ) (r : InboxRow) → r.state ≡ failed → deliverable now r ≡ false
failed-undeliverable now r h = rw h refl

-- A dead letter is handed to nobody.
lease-skips_dead :
    (limit now until k : ℕ) (exclude only : List ℕ) (rows : List InboxRow) (r : InboxRow)
    → IsWellFormed rows
    → row_of k rows ≡ some r
    → r.state ≡ failed
    → elem k (claimed limit now exclude only rows) ≡ false
lease-skips_dead limit now until k exclude only rows r w e h = elem-take k limit _ (
    row_of-unselected 0 k _ rows r w.ascending e
      (ap (λ b. b && offered exclude only r.id) (failed-undeliverable now r h)))

step-dead :
    (op : InboxOp) (k : ℕ) (rows : List InboxRow) (r : InboxRow)
    → IsWellFormed rows
    → row_of k rows ≡ some r
    → r.state ≡ failed
    → Rests k op
    → row_of k (step op rows) ≡ some r
unfolding lease_inbox renew_inbox complete_inbox retry_inbox fail_inbox release_inbox reclaim_inbox
    purge_inbox
step-dead (enqueue now source external_id payload) k rows r w e h rests =
    enqueue-keeps now source external_id payload k rows r e
step-dead (lease limit now until exclude only) k rows r w e h rests =
    row_of_spared k _ _ rows r (λ x. refl) e
      (ap (λ i. elem i (claimed limit now exclude only rows)) (row_of-id k rows r e)
        ∙ lease-skips_dead limit now until k exclude only rows r w e h)
step-dead (renew ids until) k rows r w e h rests =
    row_of_spared k _ _ rows r (λ x. refl) e
      (ap (λ b. b && elem r.id ids) (failed-unleased r.state h))
step-dead (complete j) k rows r w e h rests =
    row_of_spared k _ _ rows r (λ x. refl) e (ground (arith, row_of-id k rows r e, rests))
step-dead (retry j error not_before) k rows r w e h rests =
    row_of_spared k _ _ rows r (λ x. refl) e (ground (arith, row_of-id k rows r e, rests))
step-dead (fail j error) k rows r w e h rests =
    row_of_spared k _ _ rows r (λ x. refl) e (ground (arith, row_of-id k rows r e, rests))
step-dead (release ids) k rows r w e h rests =
    row_of_spared k _ _ rows r (λ x. refl) e
      (ap (λ b. b && elem r.id ids) (failed-unleased r.state h))
step-dead (reclaim now) k rows r w e h rests =
    row_of_spared k _ _ rows r (λ x. refl) e
      (ap (λ b. b && expired now r.lease_until) (failed-unleased r.state h))
step-dead revive k rows r w e h rests = absurd rests
step-dead (purge before) k rows r w e h rests =
    row_of-delete_where k _ rows r e
      (ap (λ b. b && ltb r.received_at before) (failed-undone r.state h))

-- A dead letter rests: whatever statements run, short of reviving or of a report on its own id, its
-- row stays as it is and no lease hands it out.
pub dead_letter-Rests :
    (ops : List InboxOp) (k limit now until : ℕ) (exclude only : List ℕ)
    → (rows : List InboxRow) (r : InboxRow) → IsWellFormed rows
    → row_of k rows ≡ some r
    → r.state ≡ failed
    → Every (Rests k) ops
    → (row_of k (run ops rows) ≡ some r)
      × (elem k (leased_ids (lease_inbox limit now until exclude only (run ops rows)).0) ≡ false)
dead_letter-Rests [] k limit now until exclude only rows r w e h rests = (
  e,
  rw (lease_inbox-claimed limit now until exclude only rows w)
      (lease-skips_dead limit now until k exclude only rows r w e h),
)
dead_letter-Rests (op ∷ ops) k limit now until exclude only rows r w e h rests =
    dead_letter-Rests ops k limit now until exclude only (step op rows) r
      (step-IsWellFormed op rows w) (step-dead op k rows r w e h rests.0) h rests.1
