-- ===== src/Tasks/Limit.antt =====
-- The cap on the schedules of one owner, `max_per_owner` of runner/tasks.py.
use siatt.Base.{
  ℕ, ◌+◌, ◌≤◌, String, ◌≡◌, refl, sym, ap, ◌∙◌, subst, inl, inr, Bool, true, false, not, Option,
  none, some, List, [], ◌∷◌, ◌++◌, arith, if◌then◌else◌, Bool-cases, ◌==◌, nat_keyed, string_keyed,
  elem, Distinct, pair_keyed, Every,
}
use siatt.Sql.{update_where, select_where, count_where, map-update_where, Distinct-select_where}
use siatt.Tasks.{
  TaskState, active, paused, done, will_fire, Task, task_ids, get_task, count_owner_tasks,
  counts_for, set_task_state, delete_task, moved,
}
use siatt.Tasks.Service.{cancel, finish}
use siatt.Tasks.Runs.{moved-id}

-- Ids are unique, and no owner has more tasks that may still fire than the owner's cap.
pub record IsWithin (cap : String → ℕ) (rows : List Task) : Type 0 where
  pub distinct : Distinct (task_ids rows)
  pub capped : (owner : String) → count_owner_tasks owner rows ≤ cap owner

-- What holds of the rows of one id.
abbrev pub Of : String → (Task → Type 0) → List Task → Type 0
Of id P = Every (λ t. (t.id == id) ≡ true → P t)

-- An UPDATE that starts no finished task again.
pub count-update_where :
    (owner id : String) (f : Task → Task) (rows : List Task)
    → ((t : Task) → (f t).owner ≡ t.owner)
    → Of id (λ t. will_fire (f t).state ≡ true → will_fire t.state ≡ true) rows
    → count_where (counts_for owner) (update_where (λ t. t.id == id) f rows)
      ≤ count_where (counts_for owner) rows
count-update_where owner id f [] same keep = omega arith
count-update_where owner id f (t ∷ rows) same keep =
    let kept : ((f t).owner == owner) ≡ (t.owner == owner) = ap (λ o. o == owner) (same t) in
    ground (arith, kept, keep.0, count-update_where owner id f rows same keep.1)

pub count-select_where :
    (owner : String) (p : Task → Bool) (rows : List Task)
    → count_where (counts_for owner) (select_where p rows) ≤ count_where (counts_for owner) rows
count-select_where owner p [] = omega arith
count-select_where owner p (t ∷ rows) = ground (arith, count-select_where owner p rows)

pub count-append :
    (owner : String) (rows : List Task) (t : Task)
    → count_where (counts_for owner) (rows ++ t ∷ [])
      ≡ count_where (counts_for owner) rows + (if counts_for owner t then 1 else 0)
count-append owner [] t = ground arith
count-append owner (r ∷ rows) t = ground (arith, count-append owner rows t)

pub Of-absent :
    (id : String) (P : Task → Type 0) (rows : List Task)
    → elem id (task_ids rows) ≡ false
    → Of id P rows
Of-absent id P [] h = tt
Of-absent id P (t ∷ rows) h = (λ e. absurd (ground arith), Of-absent id P rows (ground arith))

-- With unique ids, what holds of the row that is found holds of all rows of its id.
pub Of-found :
    (id : String) (P : Task → Type 0) (rows : List Task) (t : Task)
    → Distinct (task_ids rows)
    → get_task id rows ≡ some t
    → P t
    → Of id P rows
Of-found id P [] t d e h = tt
Of-found id P (r ∷ rows) t d e h = elim (Bool-cases (r.id == id)) [
  | inl q ↦
      let same : t ≡ r = cc (rw q at e) in
      let none_else : elem id (task_ids rows) ≡ false =
        subst (λ k. elem k (task_ids rows) ≡ false) ((string_keyed.same_iff r.id id).0 q) d.0 in
      (λ _. subst P same h, Of-absent id P rows none_else)
  | inr q ↦ (λ k. absurd (cc (k, q)), Of-found id P rows t d.1 (rw q at e) h)
]

module _ (cap : String → ℕ) where
  pub update-IsWithin :
      (id : String) (f : Task → Task) (rows : List Task)
      → ((t : Task) → (f t).id ≡ t.id)
      → ((t : Task) → (f t).owner ≡ t.owner)
      → Of id (λ t. will_fire (f t).state ≡ true → will_fire t.state ≡ true) rows
      → IsWithin cap rows
      → IsWithin cap (update_where (λ t. t.id == id) f rows)
  unfolding count_owner_tasks
  update-IsWithin id f rows same_id same_owner keep w = record {
    distinct =
        rw (map-update_where (λ (t : Task). t.id) (λ t. t.id == id) f same_id rows) w.distinct;
    capped =
        λ owner. omega (arith, count-update_where owner id f rows same_owner keep, w.capped owner);
  }

  -- An UPDATE that leaves the state alone.
  pub state-IsWithin :
      (id : String) (f : Task → Task) (rows : List Task)
      → ((t : Task) → (f t).id ≡ t.id)
      → ((t : Task) → (f t).owner ≡ t.owner)
      → ((t : Task) → (f t).state ≡ t.state)
      → IsWithin cap rows
      → IsWithin cap (update_where (λ t. t.id == id) f rows)
  state-IsWithin id f rows same_id same_owner same_state w =
      update-IsWithin id f rows same_id same_owner (all rows) w
    where
      all :
          (ts : List Task) → Of id (λ t. will_fire (f t).state ≡ true → will_fire t.state ≡ true) ts
      all [] = tt
      all (t ∷ ts) = (λ e h. sym (ap will_fire (same_state t)) ∙ h, all ts)

  pub moved-owner :
      (state : TaskState) (error : Option String) (t : Task) → (moved state error t).owner ≡ t.owner
  moved-owner active error t = refl
  moved-owner paused error t = refl
  moved-owner done error t = refl

  pub set_task_state-IsWithin :
      (id : String) (state : TaskState) (error : Option String) (rows : List Task)
      → Of id (λ t. will_fire (moved state error t).state ≡ true → will_fire t.state ≡ true) rows
      → IsWithin cap rows
      → IsWithin cap (set_task_state id state error rows).1
  unfolding set_task_state
  set_task_state-IsWithin id state error rows keep w =
      update-IsWithin id (moved state error) rows (moved-id state error) (moved-owner state error)
        keep w

  pub finish-IsWithin :
      (id : String) (rows : List Task) → IsWithin cap rows → IsWithin cap (finish id rows).1
  finish-IsWithin id rows w = set_task_state-IsWithin id done none rows (all rows) w
    where
      all :
          (ts : List Task)
          → Of id (λ t. will_fire (moved done none t).state ≡ true → will_fire t.state ≡ true) ts
      all [] = tt
      all (t ∷ ts) = (λ e h. absurd (cc h), all ts)

  pub cancel-IsWithin :
      (id : String) (rows : List Task) → IsWithin cap rows → IsWithin cap (cancel id rows).1
  unfolding delete_task count_owner_tasks
  cancel-IsWithin id rows w = record {
    distinct = Distinct-select_where (λ (t : Task). t.id) _ rows w.distinct;
    capped = λ owner.
        omega (arith, count-select_where owner (λ t. not (t.id == id)) rows, w.capped owner);
  }
