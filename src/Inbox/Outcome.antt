-- ===== src/Inbox/Outcome.antt =====
-- How a delivery that failed ends, in core/inbox.py and store/db.py: a retry after the backoff,
-- or a dead letter.
use siatt.Base.{
  ℕ, ◌+◌, ◌≤◌, ◌<◌, String, ◌≡◌, refl, ap, ◌∙◌, ◌⊎◌, inl, inr, Bool, true, false, Option, none,
  some, List, nat_same_iff, Bool-cases, Option-cases, ◌==◌, nat_keyed, string_keyed, pair_keyed,
}
use siatt.Backoff.{delay_after, delay_after_bounds, delay_after-eq-none}
use siatt.Failure.{Failure, hopeless, reason_of}
use siatt.Inbox.{pending, failed, InboxRow, retry_inbox, fail_inbox}
use siatt.Inbox.Rows.{row_of, change, row_of-update_where, row_of-id}
use siatt.Inbox.Queue
use siatt.Inbox.Queue.{Settings}

row_of-retry_inbox :
    (k : ℕ) (error : String) (not_before : ℕ) (rows : List InboxRow) (r : InboxRow)
    → row_of k rows ≡ some r
    → row_of k (retry_inbox k error not_before rows)
      ≡ some (record r { state = pending; lease_until = some not_before; last_error = some error })
unfolding retry_inbox
row_of-retry_inbox k error not_before rows r e =
    row_of-update_where k (λ x. x.id == k) _ (λ x. refl) rows
    ∙ ap (change (λ x. x.id == k) _) e
    ∙ rw ((nat_same_iff r.id k).1 (row_of-id k rows r e)) refl

row_of-fail_inbox :
    (k : ℕ) (error : String) (rows : List InboxRow) (r : InboxRow)
    → row_of k rows ≡ some r
    → row_of k (fail_inbox k error rows)
      ≡ some (record r { state = failed; lease_until = none; last_error = some error })
unfolding fail_inbox
row_of-fail_inbox k error rows r e =
    row_of-update_where k (λ x. x.id == k) _ (λ x. refl) rows
    ∙ ap (change (λ x. x.id == k) _) e
    ∙ rw ((nat_same_iff r.id k).1 (row_of-id k rows r e)) refl

-- The ends of a failed delivery of the row `r`: the answer, why, and the row afterwards.
abbrev pub FailEnds : Settings → ℕ → ℕ → Failure → InboxRow → Bool → Option InboxRow → Type 0
FailEnds s now attempts error r again after =
    ((again ≡ true)
      × (attempts < s.backoff.max_attempts)
      × (hopeless error ≡ false)
      × (delay : ℕ) × (delay ≤ s.backoff.cap)
      × (after
          ≡ some (record r {
            state = pending;
            lease_until = some (now + delay);
            last_error = some (reason_of error);
          })))
    ⊎ ((again ≡ false)
        × ((s.backoff.max_attempts ≤ attempts) ⊎ (hopeless error ≡ true))
        × (after
            ≡ some (record r {
              state = failed;
              lease_until = none;
              last_error = some (reason_of error);
            })))

-- A failed delivery answers True only when tries are left and the error is not hopeless; then the
-- row is pending again, not before a delay of at most the ceiling. It answers False only when the
-- tries are used up or the error is hopeless; then the row is a dead letter. Either way its attempts
-- stay as the lease counted them, and the reason is recorded.
pub fail_outcome :
    (s : Settings) (now k attempts : ℕ) (error : Failure) (rows : List InboxRow) (r : InboxRow)
    → row_of k rows ≡ some r
    → FailEnds s now attempts error r
        (Queue.fail s now k attempts error rows).0
        (row_of k (Queue.fail s now k attempts error rows).1)
unfolding Queue.fail
fail_outcome s now k attempts error rows r e =
    elim (Option-cases (delay_after s.backoff attempts)) [
      | inl h ↦
          rw (h, Queue.fail)
            (inr (
              refl,
              inl ((delay_after-eq-none s.backoff attempts).0 h),
              row_of-fail_inbox k (reason_of error) rows r e,
            ))
      | inr (delay, h) ↦
          rw (h, Queue.fail)
            (elim (Bool-cases (hopeless error)) [
              | inl bad ↦
                  rw bad (inr (refl, inr refl, row_of-fail_inbox k (reason_of error) rows r e))
              | inr fine ↦ rw fine (
                  inl (
                    refl,
                    (delay_after_bounds s.backoff attempts delay h).0,
                    refl,
                    delay,
                    (delay_after_bounds s.backoff attempts delay h).1,
                    row_of-retry_inbox k (reason_of error) (now + delay) rows r e,
                  ))
            ])
    ]
