-- ===== src/Inbox/Dedupe.antt =====
-- The dedupe of store/db.py's `enqueue_inbox`: what one event id is worth over the table's life.
use siatt.Base.{
  ℕ, ◌≤◌, String, ◌≡◌, refl, ◌∙◌, inl, inr, Bool, true, ◌&&◌, Option, none, some, List, [], ◌∷◌,
  ◌++◌, arith, ltb, Bool-cases, Option-cases, nat_keyed, string_keyed, same_refl, pair_keyed, Every,
}
use siatt.Sql.{update_where}
use siatt.Inbox.{
  is_done, InboxRow, same_event, find_event, enqueue_inbox, lease_inbox, renew_inbox,
  complete_inbox, retry_inbox, fail_inbox, release_inbox, reclaim_inbox, revive_inbox_failed,
  purge_inbox, InboxOp, enqueue, lease, renew, complete, retry, fail, release, reclaim, revive,
  purge, step, run, new_row,
}

-- The id and the arrival of the row that holds an event.
abbrev pub stamp : Option InboxRow → Option (ℕ × ℕ)
stamp none = none
stamp (some r) = some (r.id, r.received_at)

abbrev pub slot : String → String → List InboxRow → Option (ℕ × ℕ)
slot source external_id rows = stamp (find_event source external_id rows)

-- A purge spares a row that arrived at `t`; no other statement deletes.
abbrev pub Spares : ℕ → InboxOp → Type 0
Spares t (purge before) = before ≤ t
Spares t _ = Unit

module _ (source external_id : String) where
  slot-update_where :
      (p : InboxRow → Bool) (f : InboxRow → InboxRow)
      → ((r : InboxRow) → same_event source external_id (f r) ≡ same_event source external_id r)
      → ((r : InboxRow) → stamp (some (f r)) ≡ stamp (some r))
      → (rows : List InboxRow)
      → slot source external_id (update_where p f rows) ≡ slot source external_id rows
  slot-update_where p f same kept [] = refl
  slot-update_where p f same kept (r ∷ rows) = elim (Bool-cases (p r)) [
    | inl e ↦
        rw (e, same r)
          (elim (Bool-cases (same_event source external_id r)) [
            | inl q ↦ rw q (kept r)
            | inr q ↦ rw q (slot-update_where p f same kept rows)
          ])
    | inr e ↦ rw e (elim (Bool-cases (same_event source external_id r)) [
      | inl q ↦ rw q refl
      | inr q ↦ rw q (slot-update_where p f same kept rows)
    ])
  ]

  slot-purge :
      (before i t : ℕ) (rows : List InboxRow)
      → before ≤ t
      → slot source external_id rows ≡ some (i, t)
      → slot source external_id (purge_inbox before rows).1 ≡ some (i, t)
  unfolding purge_inbox
  slot-purge before i t [] h e = e
  slot-purge before i t (r ∷ rows) h e =
      elim (Bool-cases (is_done r.state && ltb r.received_at before)) [
        | inl old ↦ rw old (slot-purge before i t rows h (ground arith))
        | inr kept ↦ rw kept (elim (Bool-cases (same_event source external_id r)) [
          | inl q ↦ rw q (rw q at e)
          | inr q ↦ rw q (slot-purge before i t rows h (rw q at e))
        ])
      ]

  find_event-append :
      (rows : List InboxRow) (new : InboxRow) (i t : ℕ)
      → slot source external_id rows ≡ some (i, t)
      → slot source external_id (rows ++ new ∷ []) ≡ some (i, t)
  find_event-append [] new i t e = cc
  find_event-append (r ∷ rows) new i t e = elim (Bool-cases (same_event source external_id r)) [
    | inl q ↦ rw q (rw q at e)
    | inr q ↦ rw q (find_event-append rows new i t (rw q at e))
  ]

  slot-new :
      (rows : List InboxRow) (new : InboxRow)
      → find_event source external_id rows ≡ none
      → same_event source external_id new ≡ true
      → slot source external_id (rows ++ new ∷ []) ≡ some (new.id, new.received_at)
  slot-new [] new e h = rw h
  slot-new (r ∷ rows) new e h = elim (Bool-cases (same_event source external_id r)) [
    | inl q ↦ absurd (cc (rw q at e))
    | inr q ↦ rw q (slot-new rows new (rw q at e) h)
  ]

  slot-enqueue :
      (now : ℕ) (s x payload : String) (rows : List InboxRow) (i t : ℕ)
      → slot source external_id rows ≡ some (i, t)
      → slot source external_id (enqueue_inbox now s x payload rows).1 ≡ some (i, t)
  unfolding enqueue_inbox
  slot-enqueue now s x payload rows i t e = elim (Option-cases (find_event s x rows)) [
    | inl q ↦ rw (q, enqueue_inbox) (find_event-append rows (new_row now s x payload rows) i t e)
    | inr (r, q) ↦ rw (q, enqueue_inbox) e
  ]

  slot-step :
      (op : InboxOp) (rows : List InboxRow) (i t : ℕ)
      → Spares t op
      → slot source external_id rows ≡ some (i, t)
      → slot source external_id (step op rows) ≡ some (i, t)
  unfolding lease_inbox renew_inbox complete_inbox retry_inbox fail_inbox release_inbox
      reclaim_inbox revive_inbox_failed
  slot-step (enqueue now s x payload) rows i t k e = slot-enqueue now s x payload rows i t e
  slot-step (purge before) rows i t k e = slot-purge before i t rows k e
  slot-step (lease limit now until exclude only) rows i t k e =
      slot-update_where _ _ (λ r. refl) (λ r. refl) rows ∙ e
  slot-step (renew ids until) rows i t k e = slot-update_where _ _ (λ r. refl) (λ r. refl) rows ∙ e
  slot-step (complete id) rows i t k e = slot-update_where _ _ (λ r. refl) (λ r. refl) rows ∙ e
  slot-step (retry id error not_before) rows i t k e =
      slot-update_where _ _ (λ r. refl) (λ r. refl) rows ∙ e
  slot-step (fail id error) rows i t k e = slot-update_where _ _ (λ r. refl) (λ r. refl) rows ∙ e
  slot-step (release ids) rows i t k e = slot-update_where _ _ (λ r. refl) (λ r. refl) rows ∙ e
  slot-step (reclaim now) rows i t k e = slot-update_where _ _ (λ r. refl) (λ r. refl) rows ∙ e
  slot-step revive rows i t k e = slot-update_where _ _ (λ r. refl) (λ r. refl) rows ∙ e

  slot-run :
      (ops : List InboxOp) (rows : List InboxRow) (i t : ℕ)
      → Every (Spares t) ops
      → slot source external_id rows ≡ some (i, t)
      → slot source external_id (run ops rows) ≡ some (i, t)
  slot-run [] rows i t k e = e
  slot-run (op ∷ ops) rows i t k e =
      slot-run ops (step op rows) i t k.1 (slot-step op rows i t k.0 e)

  -- A second delivery of an event that the table holds reports the row that it has, and changes
  -- nothing.
  enqueue_slot :
      (now : ℕ) (payload : String) (rows : List InboxRow) (i t : ℕ)
      → slot source external_id rows ≡ some (i, t)
      → enqueue_inbox now source external_id payload rows ≡ ((i, true), rows)
  unfolding enqueue_inbox
  enqueue_slot now payload rows i t e = ground arith

  slot-enqueue_self :
      (now : ℕ) (payload : String) (rows : List InboxRow)
      → find_event source external_id rows ≡ none
      → slot source external_id (enqueue_inbox now source external_id payload rows).1
        ≡ some ((enqueue_inbox now source external_id payload rows).0.0, now)
  unfolding enqueue_inbox
  slot-enqueue_self now payload rows e =
      rw (e, enqueue_inbox)
        (slot-new rows (new_row now source external_id payload rows) e
          (rw (same_refl source, same_refl external_id)))

  -- An event that was new at `now` is answered once: whatever statements follow, as long as purges
  -- look only at what arrived before `now`, a redelivery reports the first row's id as a duplicate
  -- and leaves the table as it is.
  pub redelivery-is_duplicate :
      (now later : ℕ) (payload again : String) (rows : List InboxRow) (ops : List InboxOp)
      → find_event source external_id rows ≡ none
      → Every (Spares now) ops
      → let (queued, table) = enqueue_inbox now source external_id payload rows in
        enqueue_inbox later source external_id again (run ops table)
        ≡ ((queued.0, true), run ops table)
  redelivery-is_duplicate now later payload again rows ops e spared =
      enqueue_slot later again _ _ now
        (slot-run ops _ _ now spared (slot-enqueue_self now payload rows e))
