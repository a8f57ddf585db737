-- ===== src/Drain/Settle.antt =====
-- Shutdown and one-off runs of core/drain.py: every leased row is reported, and no lease is lost.
use siatt.Base.{
  ℕ, ◌-◌, ◌<◌, ◌≡◌, refl, sym, ap, ◌∙◌, inl, inr, Bool, true, false, not, ◌&&◌, ◌||◌, Option, none,
  List, [], ◌∷◌, ◌++◌, map, arith, Bool-cases, Option-cases, Keyed, ◌==◌, nat_keyed, string_keyed,
  elem, same_sym, pair_keyed, length,
}
use siatt.WorkQueue.{WorkQueue}
use siatt.Drain.{
  Task, Outcome, Report, made, lost, Pending, end_task, Drainer, keys, new_task, start_batch,
  running_item, deliver, forget, gather, settle, within_grace,
}
use siatt.Drain.Sound.{
  IsSound, is_running, running-in_flight, is_running-finished, is_running-forget, held-report,
  running_item-key, start_all-fresh,
}

abbrev pub is_lost : Report → Bool
is_lost made = false
is_lost lost = true

module _ {K : Type 0} ⦃e : Keyed K⦄ (q : WorkQueue K) where
  open q use {Table, Item}

  running_item-none :
      (k : K) (tasks : List (Task Item))
      → running_item q k tasks ≡ none
      → is_running q k tasks ≡ false
  running_item-none k [] h = refl
  running_item-none k (t ∷ tasks) h = ground (arith, running_item-none k tasks)

  -- Whatever becomes of the report, the task is over.
  is_running-end_task :
      (now : ℕ) (k j : K) (ending : Outcome × Report) (d : Drainer Table Item)
      → is_running q j (end_task q now k ending d).in_flight
        ≡ (is_running q j d.in_flight && not (j == k))
  unfolding deliver end_task
  is_running-end_task now k j (outcome, lost) d = is_running-finished q j k d.in_flight
  is_running-end_task now k j (outcome, made) d =
      elim (Option-cases (running_item q k d.in_flight)) [
        | inl h ↦
            rw (h, deliver)
              (elim (Bool-cases (j == k)) [
                | inl p ↦ rw p (
                    rw ((e.same_iff j k).0 p) (
                      running_item-none k d.in_flight h
                      ∙ ground (arith, running_item-none k d.in_flight)))
                | inr p ↦ rw p (ground arith)
              ])
        | inr (item, h) ↦ rw (h, deliver) (is_running-finished q j k d.in_flight)
      ]

  -- A row stays leased at the end of its task just when the report is lost.
  end_task-held :
      (now : ℕ) (k j : K) (outcome : Outcome) (report : Report) (d : Drainer Table Item)
      → (is_lost report ≡ false → q.held d.table k ≡ true → is_running q k d.in_flight ≡ true)
      → q.held (end_task q now k (outcome, report) d).table j
        ≡ (q.held d.table j && (is_lost report || not (j == k)))
  unfolding deliver end_task
  end_task-held now k j outcome lost d accounted = ground arith
  end_task-held now k j outcome made d accounted =
      elim (Option-cases (running_item q k d.in_flight)) [
        | inl h ↦
            let over = running_item-none k d.in_flight h in
            let free : q.held d.table k ≡ false = ground (arith, accounted refl) in
            rw (h, deliver)
              (elim (Bool-cases (j == k)) [
                | inl p ↦ rw p (rw ((e.same_iff j k).0 p) (ground arith))
                | inr p ↦ rw p (ground arith)
              ])
        | inr (item, h) ↦
            rw (h, deliver)
              (held-report q now item outcome d.table j
                ∙ ap (λ i. q.held d.table j && not (j == i))
                    (running_item-key q k d.in_flight item h))
      ]

  -- Every leased row whose report will be made has its task still running.
  abbrev Accounted : (K → Outcome × Report) → Drainer Table Item → Type 0
  Accounted ending d =
      (k : K)
      → is_lost (ending k).1 ≡ false
      → q.held d.table k ≡ true
      → is_running q k d.in_flight ≡ true

  end_task-Accounted :
      (now : ℕ) (k : K) (ending : K → Outcome × Report) (d : Drainer Table Item)
      → Accounted ending d
      → Accounted ending (forget q k (end_task q now k (ending k) d))
  unfolding forget
  end_task-Accounted now k ending d a j reported leased =
      let before = end_task-held now k j (ending k).0 (ending k).1 d (a k) in
      let same_report : (j == k) ≡ true → is_lost (ending k).1 ≡ is_lost (ending j).1 =
        λ h. ap (λ i. is_lost (ending i).1) (sym ((e.same_iff j k).0 h)) in
      let after = is_running-forget q j k (end_task q now k (ending k) d).in_flight in
      let over = is_running-end_task now k j (ending k) d in
      elim (Bool-cases (j == k)) [
        | inl here ↦ absurd (ground (arith, before, same_report here))
        | inr other ↦
            let was : q.held d.table j ≡ true = ground (arith, before) in
            let runs = a j reported was in after ∙ over ∙ ground (arith, runs)
      ]

  gather-held :
      (now : ℕ) (ending : K → Outcome × Report) (ks : List K) (d : Drainer Table Item) (j : K)
      → Accounted ending d
      → q.held (gather q now ending ks d).table j
        ≡ (q.held d.table j && (is_lost (ending j).1 || not (elem j ks)))
  unfolding forget
  gather-held now ending [] d j a = ground arith
  gather-held now ending (k ∷ ks) d j a =
      let before = end_task-held now k j (ending k).0 (ending k).1 d (a k) in
      let rest =
        gather-held now ending ks (forget q k (end_task q now k (ending k) d)) j
          (end_task-Accounted now k ending d a) in
      let same_report : (j == k) ≡ true → is_lost (ending k).1 ≡ is_lost (ending j).1 =
        λ h. ap (λ i. is_lost (ending i).1) (sym ((e.same_iff j k).0 h)) in
      rest
      ∙ ap (λ b. b && (is_lost (ending j).1 || not (elem j ks))) before
      ∙ elim (Bool-cases (j == k)) [
        | inl here ↦ rw (same_report here) (ground (arith, same_sym k j))
        | inr other ↦ ground (arith, same_sym k j)
      ]

  pub settle-held :
      (now : ℕ) (ended : K → Option (Outcome × Report)) (pending : K → Pending)
      → (d : Drainer Table Item) (j : K) → IsSound q d
      → q.held (settle q now ended pending d).table j
        ≡ (is_running q j d.in_flight && is_lost (within_grace q ended pending j).1)
  unfolding settle
  settle-held now ended pending d j s =
      let ending = within_grace q ended pending in
      gather-held now ending (keys q d.in_flight) d j
        (λ k reported leased. sym (s.accounted k) ∙ leased)
      ∙ ap (λ b. b && (is_lost (ending j).1 || not (elem j (keys q d.in_flight)))) (s.accounted j)
      ∙ ground (arith, running-in_flight q j d.in_flight)

  -- The guard that skips an item already in flight is never needed: a batch of a sound drainer
  -- starts every item that the queue hands out, and puts none of them in flight twice.
  pub start_batch-starts_all :
      (now : ℕ) (only : List K) (d : Drainer Table Item)
      → IsSound q d
      → length d.in_flight < d.concurrency
      → let leased =
          (q.lease now (d.concurrency - length d.in_flight) (keys q d.in_flight) only d.table).0 in
        ((start_batch q now only d).0 ≡ length leased)
        × ((start_batch q now only d).1.in_flight ≡ d.in_flight ++ map (new_task q) leased)
  unfolding start_batch
  start_batch-starts_all now only d s h =
      let room : (d.concurrency - length d.in_flight == 0) ≡ false = ground arith in
      let all =
        start_all-fresh q _ d.in_flight 0
          (q.lease-Distinct now (d.concurrency - length d.in_flight) (keys q d.in_flight) only
            d.table s.valid)
          (λ k p.
            q.lease-fresh now (d.concurrency - length d.in_flight) (keys q d.in_flight) only d.table
              k s.valid p) in
      rw room (ap (λ r. r.1) all ∙ omega arith, ap (λ r. r.0) all)
