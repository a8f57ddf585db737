-- ===== src/Drain/Sound.antt =====
-- What a sole drainer of core/drain.py keeps: its tasks are within bounds, no item runs twice, and
-- the rows leased in the table are the items that it is running.
use siatt.Base.{
  ℕ, ◌+◌, ◌-◌, ◌≤◌, ◌≡◌, refl, sym, ap, ap₂, ◌∙◌, subst, inl, inr, Bool, true, false, not, ◌&&◌,
  ◌||◌, some, List, [], ◌∷◌, ◌++◌, map, arith, leb, if◌then◌else◌, Bool-cases, Option-cases, Keyed,
  ◌==◌, nat_keyed, string_keyed, elem, Distinct, same_refl, same_sym, elem-append, pair_keyed,
  length, null, any, length-append, any-append, length-map, Distinct-append_disjoint,
}
use mathlib.Core.List.{map-append, append-nil, append_assoc}
use siatt.Sql.{
  update_where, delete_where, map-update_where, length-update_where, length-select_where-le,
  Distinct-select_where,
}
use siatt.WorkQueue.{WorkQueue}
use siatt.Drain.{
  Task, Outcome, returned, raised, cancelled, Drainer, key, keys, new_task, start, start_all,
  start_batch, report, running_item, deliver, forget, renew_and_purge,
}

module _ {K : Type 0} ⦃e : Keyed K⦄ (q : WorkQueue K) where
  open q use {Table, Item}

  -- Whether a task is still working on `k`.
  abbrev pub is_running : K → List (Task Item) → Bool
  is_running k = any (λ t. key q t == k && t.running)

  pub record IsSound (d : Drainer Table Item) : Type 0 where
    pub valid : q.Valid d.table
    pub distinct : Distinct (keys q d.in_flight)
    pub bounded : length d.in_flight ≤ d.concurrency
    pub accounted : (k : K) → q.held d.table k ≡ is_running k d.in_flight

  start-IsSound :
      (concurrency purge_interval now : ℕ) (table : Table)
      → q.Valid table
      → IsSound (start q concurrency purge_interval true now table)
  unfolding start
  start-IsSound concurrency purge_interval now table v = record {
    valid = q.reclaim-Valid now false table v;
    distinct = tt;
    bounded = omega arith;
    accounted = λ k. q.reclaim-held now table k;
  }

  pub running-in_flight :
      (k : K) (tasks : List (Task Item)) → is_running k tasks ≡ true → elem k (keys q tasks) ≡ true
  running-in_flight k [] h = cc
  running-in_flight k (t ∷ tasks) h = ground (arith, running-in_flight k tasks)

  keys-new : (items : List Item) → keys q (map (new_task q) items) ≡ map q.id items
  keys-new [] = refl
  keys-new (item ∷ items) = ap (◌∷◌ (q.id item)) (keys-new items)

  is_running-new :
      (k : K) (items : List Item) → is_running k (map (new_task q) items) ≡ elem k (map q.id items)
  is_running-new k [] = refl
  is_running-new k (item ∷ items) = ground (arith, is_running-new k items)

  -- Where no item is in flight yet and none stands twice, the loop starts them all.
  pub start_all-fresh :
      (items : List Item) (tasks : List (Task Item)) (n : ℕ)
      → Distinct (map q.id items)
      → ((k : K) → elem k (keys q tasks) ≡ true → elem k (map q.id items) ≡ false)
      → start_all q items (tasks, n) ≡ (tasks ++ map (new_task q) items, n + length items)
  start_all-fresh [] tasks n d h = ap₂ (λ ts k. (ts, k)) (sym (append-nil tasks)) (omega arith)
  start_all-fresh (item ∷ items) tasks n d h = elim (Bool-cases (elem (q.id item) (keys q tasks))) [
    | inl p ↦ absurd (cc (h (q.id item) p, same_refl (q.id item)))
    | inr p ↦ rw p (
        start_all-fresh items (tasks ++ new_task q item ∷ []) (n + 1) d.1
          (λ k g. later k (rw (map-append (key q) tasks (new_task q item ∷ [])) at g))
        ∙ ap₂ (λ ts k. (ts, k)) (append_assoc tasks (new_task q item ∷ []) (map (new_task q) items))
            (omega arith))
  ]
    where
      later :
          (k : K) → elem k (keys q tasks ++ q.id item ∷ []) ≡ true → elem k (map q.id items) ≡ false
      later k g = elim (Bool-cases (elem k (keys q tasks))) [
        | inl p ↦ ground (arith, h k p)
        | inr p ↦
            subst (λ j. elem j (map q.id items) ≡ false)
              ((e.same_iff (q.id item) k).0
                (ground (arith, elem-append k (keys q tasks) (q.id item ∷ []))))
              d.0
      ]

  grow-IsSound :
      (d : Drainer Table Item) (items : List Item) (t : Table)
      → IsSound d
      → q.Valid t
      → Distinct (map q.id items)
      → ((k : K) → elem k (keys q d.in_flight) ≡ true → elem k (map q.id items) ≡ false)
      → length items ≤ d.concurrency - length d.in_flight
      → ((k : K) → q.held t k ≡ (q.held d.table k || elem k (map q.id items)))
      → IsSound (record d { table = t; in_flight = d.in_flight ++ map (new_task q) items })
  grow-IsSound d items t s v dist fresh fits held = record {
    valid = v;
    distinct = rw (map-append (key q) d.in_flight (map (new_task q) items)) (
        rw (keys-new items)
          (Distinct-append_disjoint (keys q d.in_flight) (map q.id items) s.distinct dist fresh));
    bounded = omega (
      arith,
      length-append d.in_flight (map (new_task q) items),
      length-map (new_task q) items,
      s.bounded,
    );
    accounted = λ k.
        held k
        ∙ ap (λ b. b || elem k (map q.id items)) (s.accounted k)
        ∙ ap (λ b. is_running k d.in_flight || b) (sym (is_running-new k items))
        ∙ sym (any-append _ d.in_flight (map (new_task q) items));
  }

  pub start_batch-IsSound :
      (now : ℕ) (only : List K) (d : Drainer Table Item)
      → IsSound d
      → IsSound (start_batch q now only d).1
  unfolding start_batch
  start_batch-IsSound now only d s = elim (Bool-cases (d.concurrency - length d.in_flight == 0)) [
    | inl full ↦ rw full s
    | inr room ↦ rw room (
        rw
          (start_all-fresh _ d.in_flight 0 (q.lease-Distinct now free ids only d.table s.valid)
            (λ k p. q.lease-fresh now free ids only d.table k s.valid p))
          (grow-IsSound d _ _ s (q.lease-Valid now free ids only d.table s.valid)
            (q.lease-Distinct now free ids only d.table s.valid)
            (λ k p. q.lease-fresh now free ids only d.table k s.valid p)
            (q.lease-length now free ids only d.table s.valid)
            (λ k.
              q.lease-held now free ids only d.table k s.valid
                (λ j p. running-in_flight j d.in_flight (rw (s.accounted j) at p)))))
  ]
    where
      free : ℕ
      free = d.concurrency - length d.in_flight

      ids : List K
      ids = keys q d.in_flight

  abbrev pub finished : Task Item → Task Item
  finished t = record t { running = false }

  pub running_item-key :
      (k : K) (tasks : List (Task Item)) (item : Item)
      → running_item q k tasks ≡ some item
      → q.id item ≡ k
  running_item-key k [] item h = cc
  running_item-key k (t ∷ tasks) item h =
      ground (arith, e.same_iff (key q t) k, running_item-key k tasks item)

  pub is_running-finished :
      (j k : K) (tasks : List (Task Item))
      → is_running j (update_where (λ t. key q t == k) finished tasks)
        ≡ (is_running j tasks && not (j == k))
  is_running-finished j k [] = refl
  is_running-finished j k (t ∷ tasks) = ground (
    arith,
    is_running-finished j k tasks,
    e.same_iff (key q t) k,
    e.same_iff (key q t) j,
    e.same_iff j k,
    same_refl j,
  )

  pub held-report :
      (now : ℕ) (item : Item) (outcome : Outcome) (t : Table) (j : K)
      → q.held (report q now item outcome t) j ≡ (q.held t j && not (j == q.id item))
  held-report now item returned t j = q.complete-held now (q.id item) t j
  held-report now item (raised error) t j = q.fail-held now item error t j
  held-report now item cancelled t j =
      q.release-held (q.id item ∷ []) t j ∙ ground (arith, same_sym (q.id item) j)

  report-Valid :
      (now : ℕ) (item : Item) (outcome : Outcome) (t : Table)
      → q.Valid t
      → q.Valid (report q now item outcome t)
  report-Valid now item returned t v = q.complete-Valid now (q.id item) t v
  report-Valid now item (raised error) t v = q.fail-Valid now item error t v
  report-Valid now item cancelled t v = q.release-Valid (q.id item ∷ []) t v

  pub deliver-IsSound :
      (now : ℕ) (k : K) (outcome : Outcome) (d : Drainer Table Item)
      → IsSound d
      → IsSound (deliver q now k outcome d)
  unfolding deliver
  deliver-IsSound now k outcome d s = elim (Option-cases (running_item q k d.in_flight)) [
    | inl h ↦ rw (h, deliver) s
    | inr (item, h) ↦
        rw (h, deliver)
          (record {
            valid = report-Valid now item outcome d.table s.valid;
            distinct =
                rw (map-update_where (key q) (λ t. key q t == k) finished (λ t. refl) d.in_flight)
                  s.distinct;
            bounded = rw (length-update_where (λ t. key q t == k) finished d.in_flight) s.bounded;
            accounted = λ j.
                held-report now item outcome d.table j
                ∙ ap₂ (λ b i. b && not (j == i)) (s.accounted j)
                    (running_item-key k d.in_flight item h)
                ∙ sym (is_running-finished j k d.in_flight);
          })
  ]

  pub is_running-forget :
      (j k : K) (tasks : List (Task Item))
      → is_running j (delete_where (λ t. key q t == k && not t.running) tasks) ≡ is_running j tasks
  is_running-forget j k [] = refl
  is_running-forget j k (t ∷ tasks) = ground (arith, is_running-forget j k tasks)

  pub forget-IsSound : (k : K) (d : Drainer Table Item) → IsSound d → IsSound (forget q k d)
  unfolding forget
  forget-IsSound k d s = record {
    valid = s.valid;
    distinct = Distinct-select_where (key q) _ d.in_flight s.distinct;
    bounded = omega (arith, length-select_where-le _ d.in_flight, s.bounded);
    accounted = λ j. s.accounted j ∙ sym (is_running-forget j k d.in_flight);
  }

  -- A change of the table that moves no row into or out of a lease.
  elsewhere-IsSound :
      (m : ℕ) (t : Table) (d : Drainer Table Item)
      → IsSound d
      → q.Valid t
      → ((k : K) → q.held t k ≡ q.held d.table k)
      → IsSound (record d { table = t; last_purge = m })
  elsewhere-IsSound m t d s v same = record {
    valid = v;
    distinct = s.distinct;
    bounded = s.bounded;
    accounted = λ k. same k ∙ s.accounted k;
  }

  renewed-IsSound :
      (now : ℕ) (idle : Bool) (d : Drainer Table Item)
      → IsSound d
      → IsSound
          (record d { table = if idle then d.table else q.renew now (keys q d.in_flight) d.table })
  renewed-IsSound now true d s = s
  renewed-IsSound now false d s =
      elsewhere-IsSound d.last_purge _ d s (q.renew-Valid now (keys q d.in_flight) d.table s.valid)
        (λ k. q.renew-held now (keys q d.in_flight) d.table k)

  pub renew_and_purge-IsSound :
      (now monotonic : ℕ) (d : Drainer Table Item)
      → IsSound d
      → IsSound (renew_and_purge q now monotonic d)
  unfolding renew_and_purge
  renew_and_purge-IsSound now monotonic d s =
      elim (Bool-cases (leb d.purge_interval (monotonic - d.last_purge))) [
        | inl due ↦ rw due (
            elsewhere-IsSound monotonic _ _ kept (q.purge-Valid now _ kept.valid)
              (λ k. q.purge-held now _ k))
        | inr early ↦ rw early kept
      ]
    where
      kept : IsSound (record d {
        table = if null d.in_flight then d.table else q.renew now (keys q d.in_flight) d.table;
      })
      kept = renewed-IsSound now (null d.in_flight) d s

  -- What can happen next: the drainer's own coroutines, and others that queue, revive or purge.
  pub data Step (d : Drainer Table Item) : Drainer Table Item → Type 0 where
    batch : (now : ℕ) (only : List K) → Step d (start_batch q now only d).1
    delivers : (now : ℕ) (k : K) (outcome : Outcome) → Step d (deliver q now k outcome d)
    forgets : (k : K) → Step d (forget q k d)
    ticks : (now monotonic : ℕ) → Step d (renew_and_purge q now monotonic d)
    elsewhere :
        (t : Table)
        → q.Valid t
        → ((k : K) → q.held t k ≡ q.held d.table k)
        → Step d (record d { table = t })

  pub data Reach (d : Drainer Table Item) : Drainer Table Item → Type 0 where
    here : Reach d d
    next : {u v : Drainer Table Item} → Reach d u → Step u v → Reach d v

  pub Step-IsSound : {d u : Drainer Table Item} → Step d u → IsSound d → IsSound u
  Step-IsSound {d} (batch now only) s = start_batch-IsSound now only d s
  Step-IsSound {d} (delivers now k outcome) s = deliver-IsSound now k outcome d s
  Step-IsSound {d} (forgets k) s = forget-IsSound k d s
  Step-IsSound {d} (ticks now monotonic) s = renew_and_purge-IsSound now monotonic d s
  Step-IsSound {d} (elsewhere t v same) s = elsewhere-IsSound d.last_purge t d s v same

  Reach-IsSound : {d u : Drainer Table Item} → IsSound d → Reach d u → IsSound u
  Reach-IsSound s here = s
  Reach-IsSound s (next r st) = Step-IsSound st (Reach-IsSound s r)

  -- A sole drainer that reclaims at its start, on a valid table, in whatever order batches, reports,
  -- callbacks, keepalive ticks and other writers' statements come: no item is in flight twice, never
  -- more than `concurrency` are, and a row is leased in the table exactly while its task runs.
  pub drainer-IsSound :
      (concurrency purge_interval now : ℕ) (table : Table) (d : Drainer Table Item)
      → q.Valid table
      → Reach (start q concurrency purge_interval true now table) d
      → IsSound d
  drainer-IsSound concurrency purge_interval now table d v r =
      Reach-IsSound (start-IsSound concurrency purge_interval now table v) r
